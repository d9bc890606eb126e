-- ===== src/Validate.antt =====
-- ext/oj_windows/validate.c: the delegate that does nothing with what it gets.
mod Tests
use oj_windows.Base.{◌<◌, ◌≡◌, refl, ap, ◌∙◌, Option, some, Bytes, [], ◌∷◌}
use oj_windows.Parser.State.{Fun, Parser, Call, Result, ok, raised, ◌>>=◌, Delegate, arg_error}
use oj_windows.Parser.Run.{parser_parse}
use oj_windows.Parser.Trace.{Entry, tracer}
use oj_windows.Parser.Doc.{Json, IsJson, height, print}
use oj_windows.Parser.Doc.Whole.{IsReady, parser_parse-print}
use oj_windows.Parser.Replay.Rules.{Trace, react_all}
use oj_windows.Parser.Replay.Whole.{parser_parse-replay}

abbrev pub noop : Unit {0} → Result (Unit {0})
noop c = ok c

-- oj_set_parser_validator.
abbrev pub validator : Delegate (Unit {0})
validator = record { call = λ fun f p. noop; start = λ p. noop }

noops : Entry → Unit {0} → Result (Unit {0})
noops e = noop

noops-ok : (t : Trace) → react_all noops t tt ≡ ok tt
unfolding react_all noops
noops-ok [] = refl
noops-ok (e ∷ t) = noops-ok t

parser_parse-noops :
    (p q : Parser) (t : Trace) (json : Bytes)
    → parser_parse tracer p [] json ≡ some (ok (q, t))
    → parser_parse validator p tt json ≡ some (ok (q, tt))
unfolding noops
parser_parse-noops p q t json e =
    parser_parse-replay noops validator (λ fun f p c. refl) p q tt tt t json refl e
    ∙ ap (λ r. some (r >>= λ c. ok (q, c))) (noops-ok t)

-- A document in the compact form of fewer than 1,024 levels is valid: with the validating delegate a ready
-- parser gets through its text, and is ready again.
pub parser_parse-valid :
    (v : Json) (p : Parser)
    → IsJson v
    → height v < 1024
    → IsReady p
    → (q : Parser) × IsReady q × (parser_parse validator p tt (print v) ≡ some (ok (q, tt)))
parser_parse-valid v p h l y =
    let (q, z, e) = parser_parse-print v p [] h l y in (q, z, parser_parse-noops p q _ (print v) e)
