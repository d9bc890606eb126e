-- ===== src/Parser/Run.antt =====
-- ext/oj_windows/parser.c: the loop of `parse`, the end of the input, and `parser_parse`.
use oj_windows.Base.{
  ℕ, zero, suc, ◌+◌, ◌*◌, Bool, ◌||◌, Option, none, some, [], ◌∷◌, Bytes, length, ◌==◌,
  if◌then◌else◌,
}
use oj_windows.Base.Int.{negsuc}
use oj_windows.Parser.Tables.{mode_of}
use oj_windows.Parser.State.{
  Parser, expected_null, expected_true, expected_false, object_not_closed, array_not_closed, Result,
  ok, raised, fault, ◌>>=◌, Delegate, parse_error, parser_reset,
}
use oj_windows.Parser.Num.{calc_num}
use oj_windows.Parser.Step.{step}
use oj_windows.Parser.Step.Loop.{Machine, machine, is_object}

-- The bytes before the first NUL, which is where a C string ends.
unfoldable pub c_string : Bytes → Bytes
c_string [] = []
c_string (b ∷ bs) = if b == 0 then [] else b ∷ c_string bs

-- The outcome of a run on fuel: `none` says that the fuel ran out.
abbrev pub Run : Type 0 → Type 0
Run A = Option (Result A)

abbrev pub and_then : {A B : Type 0} → Result A → (A → Run B) → Run B
and_then (ok a) k = k a
and_then (raised e) k = some (raised e)
and_then fault k = some fault

abbrev pub after : {A B : Type 0} → Run A → (A → Result B) → Run B
after none k = none
after (some r) k = some (r >>= k)

-- The modes in which a number may end at the end of the input.
unfoldable pub ends_num : ℕ → Bool
ends_num mode =
    (mode == b'0')
    || (mode == b'd')
    || (mode == b'f')
    || (mode == b'z')
    || (mode == b'X')
    || (mode == b'D')
    || (mode == b'g')
    || (mode == b'B')
    || (mode == b'Y')

-- validate_primitives_are_complete.
unfoldable pub validate_primitives : Parser → Result (Unit {0})
validate_primitives p =
    if p.ri == 0
    then ok tt
    else if mode_of p.map == b'N'
    then parse_error p expected_null
    else if mode_of p.map == b'F'
    then parse_error p expected_false
    else if mode_of p.map == b'T'
    then parse_error p expected_true
    else ok tt

-- validate_non_primitives_are_complete.
unfoldable pub validate_non_primitives : Parser → Result (Unit {0})
validate_non_primitives p =
    if p.depth == 0
    then ok tt
    else if is_object (p.stack p.depth)
    then parse_error p object_not_closed
    else parse_error p array_not_closed

unfoldable pub validate_document_end : Parser → Result (Unit {0})
unfolding validate_primitives validate_non_primitives
validate_document_end p = validate_primitives p >>= λ _. validate_non_primitives p

-- Each byte is visited three times at most.
abbrev pub enough : Bytes → ℕ
enough json = 3 * length json + 3

module _ {C : Type 0} (d : Delegate C) where
  -- `for (; '\0' != *b; b++)`.
  unfoldable pub run : ℕ → Parser → C → ℕ → Bytes → Run (Machine C)
  run zero p c i bs = none
  run (suc fuel) p c i [] = some (ok (machine p c i []))
  run (suc fuel) p c i (b ∷ bs) =
      and_then (step d p c i b bs) (λ m. run fuel m.parser m.ctx m.at m.rest)

  -- A number at the top level may end with the input.
  unfoldable pub finish : Machine C → Result (Parser × C)
  unfolding ends_num calc_num
  finish m =
      let p = m.parser in
      if p.depth == 0
      then (if ends_num (mode_of p.map)
          then calc_num d (record p { cur = m.at }) m.ctx
          else ok (p, m.ctx))
      else ok (p, m.ctx)

  unfoldable pub parse : Parser → C → Bytes → Run (Parser × C)
  unfolding run finish
  parse p c json = after (run (enough json) (record p { line = 1; col = negsuc 0 }) c 0 json) finish

  -- parser_parse, before the delegate's `result`.
  unfoldable pub parser_parse : Parser → C → Bytes → Run (Parser × C)
  unfolding parse c_string parser_reset validate_document_end
  parser_parse p c json =
      let q = parser_reset p in
      and_then (d.start q c) λ c'.
        after (parse q c' (c_string json)) λ (r, e). validate_document_end r >>= λ _. ok (r, e)
