-- ===== src/Parser/Doc/Deep.antt =====
-- ext/oj_windows/parser.c's `parse` at more opening brackets than `stack` has room for.
use oj_windows.Base.{
  ℕ, zero, suc, ◌+◌, ◌≡◌, ◌≢◌, refl, some, none, [], ◌∷◌, ◌++◌, Bytes, replicate, arith,
}
use oj_windows.Parser.Tables.{at_value, Action}
use oj_windows.Parser.State.{Fun, array_fun, Parser, fault}
use oj_windows.Parser.Step.{dispatch, step}
use oj_windows.Parser.Step.Loop.{Machine, machine}
use oj_windows.Parser.Step.Nest.{open_array_step}
use oj_windows.Parser.Run.{run, enough, parser_parse}
use oj_windows.Parser.Trace.{place, array_start, tracer}
use oj_windows.Parser.Leads.{Leads, now, later, pass}
use oj_windows.Parser.Progress.{run-enough-ne-none}
use oj_windows.Parser.Doc.Actions.{value_bracket}
use oj_windows.Parser.Doc.Frame.{Kept}
use oj_windows.Parser.Doc.Behind.{Trace}
use oj_windows.Parser.Doc.Brackets.{pushed, opened, opened-Kept, open_array-ok}
use oj_windows.Parser.Doc.Chars.{IsChars, IsChars-IsBytes, c_string-IsChars}
use oj_windows.Parser.Doc.Whole.{IsReady, parser_parse-run, tops, first, first-Kept, first-map}

-- A state at which the next pass is an access outside an array.
abbrev Faults : Machine Trace → Type 0
Faults m =
    (b : ℕ) × (bs : Bytes) × (m.rest ≡ b ∷ bs) × (step tracer m.parser m.ctx m.at b bs ≡ fault)

run-Faults :
    {m : Machine Trace}
    → Leads tracer Faults m
    → (f : ℕ) → run tracer f m.parser m.ctx m.at m.rest ≢ none
    → run tracer f m.parser m.ctx m.at m.rest ≡ some fault
unfolding run
run-Faults (now (b, bs, e, h)) zero some_outcome = absurd (some_outcome refl)
run-Faults (now (b, bs, e, h)) (suc f) some_outcome = rw (e, h)
run-Faults (later e l) zero some_outcome = absurd (some_outcome refl)
run-Faults (later e l) (suc f) some_outcome = rw e (run-Faults l f (rw e at some_outcome))

full-Faults :
    (n : ℕ) (f : ℕ → Fun) (p : Parser) (c : Trace) (i : ℕ) (bs : Bytes)
    → Kept n f p
    → p.map ≡ at_value
    → n ≡ 1023
    → step tracer p c i b'[' bs ≡ fault
unfolding step dispatch open_array_step
full-Faults n f p c i bs k e full = rw (e, value_bracket) (ground (arith, k.depth))

brackets-Leads :
    (left n : ℕ) (f : ℕ → Fun) (p : Parser) (c : Trace) (i : ℕ) (rest : Bytes)
    → Kept n f p
    → p.map ≡ at_value
    → left + n ≡ 1023
    → Leads tracer Faults (machine p c i (replicate (suc left) b'[' ++ rest))
unfolding dispatch
brackets-Leads zero n f p c i rest k e room =
    now (_, _, refl, full-Faults n f p c i rest k e (omega arith))
brackets-Leads (suc left) n f p c i rest k e room =
    pass tracer Action.open_array
      {m = machine (opened array_fun at_value p i) (c ++ place (f n) p.key array_start ∷ []) (i + 1)
        (replicate (suc left) b'[' ++ rest)}
      (rw e value_bracket)
      (open_array-ok n f p c i (replicate (suc left) b'[' ++ rest) k (omega arith)) k.one
      (brackets-Leads left (suc n) (pushed f n array_fun) _ _ (i + 1) rest
        (opened-Kept n f array_fun at_value p i k) refl (omega arith))

brackets-IsChars : (n : ℕ) (rest : Bytes) → IsChars rest → IsChars (replicate n b'[' ++ rest)
brackets-IsChars zero rest h = h
brackets-IsChars (suc n) rest h = ((omega arith, omega arith), brackets-IsChars n rest h)

module _ (p : Parser) (c : Trace) (rest : Bytes) (y : IsReady p) (h : IsChars rest) where
  abbrev deep : Bytes
  deep = replicate 1024 b'[' ++ rest

  deep-IsChars : IsChars deep
  deep-IsChars = brackets-IsChars 1024 rest h

  run-deep : run tracer (enough deep) (first p) [] 0 deep ≡ some fault
  run-deep =
      run-Faults {m = machine (first p) [] 0 deep}
        (brackets-Leads 1023 0 tops (first p) [] 0 rest (first-Kept p y) (first-map p)
          (omega arith))
        (enough deep)
        (run-enough-ne-none tracer (first p) [] deep (IsChars-IsBytes deep deep-IsChars))

  -- A text that starts with 1,024 opening brackets makes the parser write behind its stack, whatever
  -- follows them: a ready parser, the recording delegate, and bytes none of which is NUL.
  pub parser_parse-deep : parser_parse tracer p c (replicate 1024 b'[' ++ rest) ≡ some fault
  parser_parse-deep =
      parser_parse-run p c deep (some fault) (c_string-IsChars deep deep-IsChars) run-deep
