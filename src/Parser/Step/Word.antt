-- ===== src/Parser/Step/Word.antt =====
-- ext/oj_windows/parser.c, parse: the words null, true and false.
use oj_windows.Base.{
  ℕ, ◌+◌, Bool, true, false, ◌&&◌, [], ◌∷◌, Bytes, length, take, set, codes, ltb, leb, ◌==◌,
  if◌then◌else◌,
}
use oj_windows.Base.Int.{pos, ◌-ℤ◌}
use oj_windows.Parser.Tables.{Map, at_null, at_true, at_false, mode_of}
use oj_windows.Parser.State.{
  Parser, Message, expected_null, expected_true, expected_false, bad_token, Result, ok, fault,
  ◌>>=◌, Call, add_null, add_true, add_false, Delegate, invoke, parse_error,
}
use oj_windows.Parser.Step.Loop.{Machine, machine, starts, drop_bytes, map_at}

-- `p->token[k] = ...` for the bytes in turn.
unfoldable pub write_token : ℕ → Bytes → Bytes → Bytes
write_token k [] token = token
write_token k (b ∷ bs) token = write_token (k + 1) bs (set token k b)

unfoldable pub same : Bytes → Bytes → Bool
same [] [] = true
same (x ∷ xs) (y ∷ ys) = (x == y) && same xs ys
same _ _ = false

-- `p->col = b - json - p->col` and the error.
abbrev word_error : {C : Type 0} → Parser → ℕ → Message → Result (Machine C)
word_error p i m = parse_error (record p { col = pos i -ℤ p.col }) m

module _ {C : Type 0} (d : Delegate C) where
  -- VAL_NULL, VAL_TRUE and VAL_FALSE. `more` is the word behind its first byte. A word that the end of
  -- the input cuts is kept in `token`, whatever its bytes are.
  unfoldable pub val_word :
      Bytes → Call → Map → Message → Parser → C → ℕ → ℕ → Bytes → Result (Machine C)
  unfolding invoke starts write_token
  val_word more f m e p c i b bs =
      let n = length more in
      let found = (do
        c' ← invoke d f (record p { cur = i + n }) c
        ok (
            machine (record p { cur = i + n; map = map_at 0 p }) c' (i + n + 1)
              (drop_bytes n bs))) in
      if starts more bs
      then found
      else if ltb (length bs) n
      then ok (
          machine (record p { ri = length bs + 1; token = write_token 0 (b ∷ bs) p.token; map = m })
            c (i + 1 + length bs) [])
      else word_error (record p { ri = 0 }) (i + n + 1) e

  unfoldable pub val_null : Parser → C → ℕ → ℕ → Bytes → Result (Machine C)
  unfolding val_word
  val_null = val_word (codes "ull") add_null at_null expected_null

  unfoldable pub val_true : Parser → C → ℕ → ℕ → Bytes → Result (Machine C)
  unfolding val_word
  val_true = val_word (codes "rue") add_true at_true expected_true

  unfoldable pub val_false : Parser → C → ℕ → ℕ → Bytes → Result (Machine C)
  unfolding val_word
  val_false = val_word (codes "alse") add_false at_false expected_false

  -- The end of a cut word: `p->ri` bytes are there.
  unfoldable pub token_end : Bytes → Call → Message → Parser → C → ℕ → Bytes → Result (Machine C)
  unfolding invoke same
  token_end word f e p c i bs =
      let found = (do
        c' ← invoke d f (record p { cur = i }) c
        ok (machine (record p { cur = i; map = map_at 0 p }) c' (i + 1) bs)) in
      if p.ri == length word
      then if same word (take (length word) p.token) then found else word_error p i e
      else ok (machine p c (i + 1) bs)

  unfoldable pub token_mode : ℕ → Parser → C → ℕ → Bytes → Result (Machine C)
  unfolding token_end
  token_mode mode p c i bs =
      if mode == b'N'
      then token_end (codes "null") add_null expected_null p c i bs
      else if mode == b'F'
      then token_end (codes "false") add_false expected_false p c i bs
      else if mode == b'T'
      then token_end (codes "true") add_true expected_true p c i bs
      else word_error p i bad_token

  -- `token` has room for eight bytes.
  unfoldable pub token_ok : Parser → C → ℕ → ℕ → Bytes → Result (Machine C)
  unfolding token_mode
  token_ok p c i b bs =
      if leb 8 p.ri
      then fault
      else token_mode (mode_of p.map) (record p { token = set p.token p.ri b; ri = p.ri + 1 }) c i
          bs
