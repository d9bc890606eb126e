-- ===== src/Parser/Doc/Pieces.antt =====
-- ext/oj_windows/parser.c's `parser_load` and `parser_file` at a document that comes in one piece.
use oj_windows.Base.{
  ◌<◌, ◌≡◌, ◌∙◌, refl, ap, Bool, true, false, ltb, some, List, [], ◌∷◌, Bytes, ◌==◌, length, arith,
  if◌then◌else◌,
}
use oj_windows.Parser.State.{top_fun, Parser, ok, parser_reset, parse_error, not_closed}
use oj_windows.Parser.Run.{Run, run, enough, after, finish, parse, c_string}
use oj_windows.Parser.Stream.{Answer, piece, then_run, load_loop, parser_load, parser_file}
use oj_windows.Parser.Step.Loop.{Machine}
use oj_windows.Parser.Closed.{valid-closed}
use oj_windows.Parser.Trace.{tracer}
use oj_windows.Parser.Doc.{
  Json, null_word, true_word, false_word, number, text, array, object, zero_digit, digits, IsJson,
  height, print, events,
}
use oj_windows.Parser.Doc.Behind.{Trace}
use oj_windows.Parser.Doc.Chars.{c_string-IsChars, print-IsChars}
use oj_windows.Parser.Doc.Whole.{IsReady, first, run-events, finish-After}

print-some : (v : Json) → IsJson v → (length (print v) == 0) ≡ false
unfolding print IsJson
print-some null_word h = refl
print-some true_word h = refl
print-some false_word h = refl
print-some (number true ds) h = ground arith
print-some (number false ds) zero_digit = refl
print-some (number false ds) (digits g d a l) = ground arith
print-some (text r es) h = ground arith
print-some (array xs) h = ground arith
print-some (object fs) h = ground arith

module _ (v : Json) (p : Parser) (c : Trace) (h : IsJson v) (r : height v < 1024)
    (y : IsReady p) where
  reset_run :
      (bs : Bytes) (eof : Bool) (o : Run (Parser × Trace)) (more : List Answer)
      → (length bs == 0) ≡ false
      → parse tracer (parser_reset p) [] (c_string bs) ≡ o
      → parser_load tracer p c (piece bs eof ∷ more)
        ≡ then_run o λ (q, e).
          if eof
          then some (if ltb 0 q.depth then parse_error q not_closed else ok (q, e))
          else load_loop tracer more q e
  unfolding parser_load
  reset_run bs eof o more n e = rw (n, e)

  parse-first :
      (o : Run (Machine Trace))
      → run tracer (enough (print v)) (first p) [] 0 (print v) ≡ o
      → parse tracer (parser_reset p) [] (print v) ≡ after o (finish tracer)
  unfolding parse
  parse-first o e = rw e

  -- `parse` on the text of a document, from a parser that has been reset: it comes to depth 0.
  pub parse-print :
      (q : Parser) × IsReady q
      × (parse tracer (parser_reset p) [] (print v) ≡ some (ok (q, events top_fun [] v)))
      × (q.depth ≡ 0)
  parse-print =
      let (m, a, e) = run-events v p h r y in
      let (q, y', f, g) = finish-After (events top_fun [] v) m a in
      (q, y', parse-first _ e ∙ rw f, valid-closed q tt g)

  -- For a document in the compact form of fewer than 1,024 levels and a ready parser: on a file whose
  -- text comes in one `read`, the delegate gets the calls that the specification lists.
  pub parser_file-print :
      (q : Parser) × IsReady q
      × (parser_file tracer p c (some (some (print v) ∷ [])) ≡ some (ok (q, events top_fun [] v)))
  unfolding parser_file
  parser_file-print =
      let (q, y', e, d) = parse-print in
      (q, y', rw (c_string-IsChars (print v) (print-IsChars v h), e))

  -- For a document in the compact form of fewer than 1,024 levels and a ready parser: with a reader
  -- that gives the text in one piece and is then at its end, whatever it would answer later, the
  -- delegate gets the calls that the specification lists, and the parser is ready again.
  pub parser_load-print :
      (more : List Answer)
      → (q : Parser) × IsReady q
        × (parser_load tracer p c (piece (print v) true ∷ more)
            ≡ some (ok (q, events top_fun [] v)))
  parser_load-print more =
      let (q, y', e, d) = parse-print in
      (
        q,
        y',
        reset_run (print v) true _ more (print-some v h) (
              ap (parse tracer (parser_reset p) []) (c_string-IsChars (print v) (print-IsChars v h))
              ∙ e)
            ∙ rw d,
      )
