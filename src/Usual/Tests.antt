-- ===== src/Usual/Tests.antt =====
-- The usual delegate on a small document, over Ruby values as data.
use oj_windows.Base.{◌<◌, ◌≡◌, refl, sym, subst, true, false, some, [], ◌∷◌, Bytes, codes, arith}
use oj_windows.Base.Int.{pos}
use oj_windows.Parser.Tables.{code_at, action}
use oj_windows.Parser.State.{Parser, new_parser, ok, fault}
use oj_windows.Parser.Run.{parser_parse}
use oj_windows.Parser.Doc.{
  Json, null_word, true_word, text, array, object, nil, cons, end, field, IsJson, height, print,
}
use oj_windows.Parser.Doc.Whole.{IsReady}
use oj_windows.Cache.Table.{Cache}
use oj_windows.Usual.State.{Options, Usual, of_symbols, default_options, oj_init_usual}
use oj_windows.Usual.Keys.{key_of, get_key}
use oj_windows.Usual.Calls.{usual, result}
use oj_windows.Usual.Options.{symbol_keys_set}
use oj_windows.Usual.Option.{cache_strings, set_setting}
use oj_windows.Usual.Value.{value, HasKeys}
use oj_windows.Usual.Kept.{string_form, key_form}
use oj_windows.Usual.Whole.{IsSound, oj_init_usual-IsSound, parser_parse-usual}
use oj_windows.Usual.Set.{set_setting-IsSound}
use oj_windows.Usual.Dangling.{symbol_keys-dangling}
use oj_windows.Usual.Objects.{
  Obj, nil_obj, true_obj, false_obj, int_obj, frozen_obj, sym_obj, arr_obj, hash_obj, objs, objects,
  caches,
}

-- {"a":[true,"xy"],"b":null}
abbrev document : Json
document = object (
    field (codes "a") (array (cons true_word (cons (text (codes "xy") []) nil)))
      (field (codes "b") null_word end))

abbrev fresh : Usual Obj (Cache Obj)
fresh = oj_init_usual objects caches false

abbrev options : Options Obj
options = default_options objects false

document-IsJson : IsJson document
unfolding IsJson code_at action
document-IsJson = (
  ((omega arith, refl), tt),
  (tt, ((((omega arith, refl), ((omega arith, refl), tt)), tt), tt)),
  (((omega arith, refl), tt), tt, tt),
)

document-height : height document < 1024
unfolding height
document-height = omega arith

document-HasKeys : HasKeys document
unfolding HasKeys
document-HasKeys = (omega arith, (tt, (tt, tt)), (omega arith, tt, tt))

new_parser-IsReady : IsReady new_parser
new_parser-IsReady = record { one = refl; stack = refl }

document_value :
    value objects options document
    ≡ hash_obj (
        objs (
          frozen_obj (codes "a")
          ∷ arr_obj (objs (true_obj ∷ frozen_obj (codes "xy") ∷ []))
          ∷ frozen_obj (codes "b")
          ∷ nil_obj
          ∷ []))
unfolding value string_form key_form
document_value = refl

parser_parse-usual_example :
    (q : Parser) × (e : Usual Obj (Cache Obj)) × (parser_parse
        (usual objects caches)
        new_parser
        fresh
        (print document)
      ≡ some (ok (q, e)))
    × (result objects caches e ≡ ok (value objects options document))
    × IsReady q
    × IsSound objects caches options e
parser_parse-usual_example =
    parser_parse-usual objects caches document options new_parser fresh document-IsJson
      document-height document-HasKeys new_parser-IsReady
      (record { array = refl; hash = refl; block = refl })
      (oj_init_usual-IsSound objects caches false)

-- cache_strings to 3.
abbrev strings_limited : Usual Obj (Cache Obj)
strings_limited = record fresh { options = record options { cache_str = 3 } }

limit_set :
    set_setting objects caches cache_strings (int_obj (pos 3)) fresh
    ≡ ok (int_obj (pos 3), strings_limited)
unfolding set_setting oj_init_usual
limit_set = refl

fresh-options : fresh.options ≡ options
unfolding oj_init_usual
fresh-options = refl

fresh-IsSound : IsSound objects caches fresh.options fresh
fresh-IsSound =
    subst (λ o. IsSound objects caches o fresh) (sym fresh-options)
      (oj_init_usual-IsSound objects caches false)

set_setting-IsSound_example : IsSound objects caches strings_limited.options strings_limited
set_setting-IsSound_example =
    set_setting-IsSound objects caches cache_strings (int_obj (pos 3)) (int_obj (pos 3)) fresh
      strings_limited fresh-IsSound (λ e. cc) limit_set

abbrev symbol_form : Bytes → Obj
symbol_form s = sym_obj s

-- symbol_keys to true, and then to nil.
abbrev symbols : Usual Obj (Cache Obj)
symbols = record fresh {
  sym_cache = some (caches.set_rate 1 (caches.create symbol_form true));
  options = record options { key_cache = of_symbols };
}

symbol_keys-dangling_example :
    (e : Usual Obj (Cache Obj)) × (symbol_keys_set objects caches nil_obj symbols
      ≡ ok (false_obj, e))
    × (get_key objects caches (key_of (codes "a")) e ≡ fault)
symbol_keys-dangling_example =
    symbol_keys-dangling objects caches nil_obj symbols (codes "a") refl refl refl refl
