-- ===== src/Validate/Tests.antt =====
-- The validating delegate on `[null]`.
use oj_windows.Base.{◌<◌, ◌≡◌, refl, arith, some}
use oj_windows.Parser.State.{Parser, new_parser, ok}
use oj_windows.Parser.Run.{parser_parse}
use oj_windows.Parser.Doc.{Json, null_word, array, nil, cons, IsJson, height, print}
use oj_windows.Parser.Doc.Whole.{IsReady}
use oj_windows.Validate.{validator, parser_parse-valid}

abbrev document : Json
document = array (cons null_word nil)

document-IsJson : IsJson document
unfolding IsJson
document-IsJson = (tt, tt)

document-height : height document < 1024
unfolding height
document-height = omega arith

parser_parse-valid_example :
    (q : Parser) × IsReady q
    × (parser_parse validator new_parser tt (print document) ≡ some (ok (q, tt)))
parser_parse-valid_example =
    parser_parse-valid document new_parser document-IsJson document-height
      (record { one = refl; stack = refl })
