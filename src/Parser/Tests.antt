-- ===== src/Parser/Tests.antt =====
-- The parser on small documents: its theorems applied.
use oj_windows.Base.{
  ℕ, ◌<◌, ◌≡◌, ◌≢◌, refl, true, false, some, none, List, [], ◌∷◌, ◌++◌, Bytes, codes, replicate,
  arith,
}
use oj_windows.Parser.Tables.{code_at, action}
use oj_windows.Parser.Tables.Facts.{IsBytes}
use oj_windows.Parser.State.{ok, fault, new_parser, Parser, top_fun}
use oj_windows.Parser.Num.{int_digits}
use oj_windows.Parser.Run.{parser_parse, Run}
use oj_windows.Parser.Trace.{Entry, tracer}
use oj_windows.Parser.Progress.{parser_parse-ne-none}
use oj_windows.Parser.Closed.{parser_parse-closed}
use oj_windows.Parser.Stream.{piece, parser_file, parser_load}
use oj_windows.Parser.Doc.Pieces.{parser_file-print, parser_load-print}
use oj_windows.Parser.Doc.Deep.{parser_parse-deep}
use oj_windows.Parser.Doc.{
  Json, null_word, true_word, number, text, array, object, nil, cons, end, field, IsJson, IsNumber,
  digits, height, print, events, digits_value,
}
use oj_windows.Parser.Doc.Numbers.{int_digits-value, with_fixnum}
use oj_windows.Parser.Doc.Whole.{IsReady, parser_parse-print}

abbrev trace : Run (Parser × List Entry) → List Entry
trace (some (ok (p, es))) = es
trace _ = []

-- {"a":[1,-20,true,"x\ny"],"b":null}
abbrev sample : Json
sample = object (
    field (codes "a")
      (array (
        cons (number false (codes "1")) (
          cons (number true (codes "20"))
            (cons true_word (cons (text (codes "x") ((b'n', codes "y") ∷ [])) nil)))))
      (field (codes "b") null_word end))

sample_text : print sample ≡ codes "{\"a\":[1,-20,true,\"x\\ny\"],\"b\":null}"
unfolding print
sample_text = refl

sample-IsJson : IsJson sample
unfolding IsJson code_at action
sample-IsJson =
    let one : IsNumber (codes "1") =
      digits (omega arith) (omega arith, omega arith) tt (omega arith) in
    let twenty : IsNumber (codes "20") =
      digits (omega arith) (omega arith, omega arith) ((omega arith, omega arith), tt)
        (omega arith) in
    let word : IsJson (text (codes "x") ((b'n', codes "y") ∷ [])) =
      (((omega arith, refl), tt), ((omega arith, refl, ((omega arith, refl), tt)), tt)) in
    (
      ((omega arith, refl), tt),
      (one, (twenty, (tt, (word, tt)))),
      (((omega arith, refl), tt), tt, tt),
    )

sample-height : height sample < 1024
unfolding height
sample-height = omega arith

new_parser-IsReady : IsReady new_parser
new_parser-IsReady = record { one = refl; stack = refl }

parser_parse-print_example :
    (q : Parser) × IsReady q
    × (parser_parse tracer new_parser [] (print sample) ≡ some (ok (q, events top_fun [] sample)))
parser_parse-print_example =
    parser_parse-print sample new_parser [] sample-IsJson sample-height new_parser-IsReady

-- "[1,}" is no document.
abbrev broken : Bytes
broken = codes "[1,}"

broken-IsBytes : IsBytes broken
broken-IsBytes = ground arith

parser_parse-ne-none_example : parser_parse tracer new_parser [] broken ≢ none
parser_parse-ne-none_example = parser_parse-ne-none tracer new_parser [] broken broken-IsBytes

int_digits-value_example :
    (j : ℕ) × (int_digits (with_fixnum new_parser 0) 0 (codes "120" ++ codes ",7")
      ≡ (with_fixnum new_parser (digits_value 0 (codes "120")), j, codes ",7"))
unfolding code_at
int_digits-value_example =
    int_digits-value new_parser 0 0 (codes "120") (codes ",7")
      ((omega arith, omega arith), ((omega arith, omega arith), ((omega arith, omega arith), tt)))
      (omega arith) refl

sample_run :
    (q : Parser) × IsReady q
    × (parser_parse tracer new_parser [] (print sample) ≡ some (ok (q, events top_fun [] sample)))
sample_run = parser_parse-print sample new_parser [] sample-IsJson sample-height new_parser-IsReady

parser_parse-closed_example : sample_run.0.depth ≡ 0
parser_parse-closed_example =
    parser_parse-closed tracer new_parser [] (print sample) sample_run.0 (events top_fun [] sample)
      sample_run.2

parser_parse-deep_example :
    parser_parse tracer new_parser [] (replicate 1024 b'[' ++ codes "1") ≡ some fault
parser_parse-deep_example =
    parser_parse-deep new_parser [] (codes "1") new_parser-IsReady ((omega arith, omega arith), tt)

parser_file-print_example :
    (q : Parser) × IsReady q
    × (parser_file tracer new_parser [] (some (some (print sample) ∷ []))
        ≡ some (ok (q, events top_fun [] sample)))
parser_file-print_example =
    parser_file-print sample new_parser [] sample-IsJson sample-height new_parser-IsReady

parser_load-print_example :
    (q : Parser) × IsReady q
    × (parser_load tracer new_parser [] (piece (print sample) true ∷ [])
        ≡ some (ok (q, events top_fun [] sample)))
parser_load-print_example =
    parser_load-print sample new_parser [] sample-IsJson sample-height new_parser-IsReady []
