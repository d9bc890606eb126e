-- ===== src/Parser/Step/Text.antt =====
-- ext/oj_windows/parser.c, parse: keys, strings and their escapes.
use Prim.Native.Nat.{bit_or}
use oj_windows.Base.{
  ℕ, ◌+◌, ◌-◌, ◌*◌, ◌%◌, ◌^◌, Bool, true, false, some, [], ◌∷◌, ◌++◌, Bytes, leb, ◌==◌,
  if◌then◌else◌,
}
use oj_windows.Parser.Tables.{at_value, at_colon, at_string, at_esc, at_u, at_utf, esc_byte, hex}
use oj_windows.Parser.Unicode.{unicode_to_utf8}
use oj_windows.Parser.State.{
  Parser, invalid_unicode, Result, ok, ◌>>=◌, add_str, Delegate, invoke, parse_error,
}
use oj_windows.Parser.Step.Loop.{
  Machine, machine, scanned, unscanned, head_byte, drop_bytes, moved, map_at, is_key, deref,
}

-- `buf_append_string` to the key or the buffer, as `next_map` says.
abbrev pub append_to : Bool → Parser → Bytes → Parser
append_to true p s = record p { key = p.key ++ s }
append_to false p s = record p { buf = p.buf ++ s }

unfoldable pub append_text : Parser → Bytes → Result Parser
append_text p s = do key ← is_key p.next_map; ok (append_to key p s)

module _ {C : Type 0} (d : Delegate C) where
  unfoldable pub colon_colon : Parser → C → ℕ → Bytes → Result (Machine C)
  colon_colon p c i bs = ok (machine (record p { map = at_value }) c (i + 1) bs)

  unfoldable pub key_quote : Parser → C → ℕ → Bytes → Result (Machine C)
  key_quote p c i bs =
      let left = unscanned at_string b'R' bs in
      let q = record p { key = scanned at_string b'R' bs } in
      let j = moved (i + 1) bs left in
      if head_byte left == b'"'
      then ok (machine (record q { map = at_colon }) c (j + 1) (drop_bytes 1 left))
      else ok (machine (record q { map = at_string; next_map = some at_colon }) c j left)

  unfoldable pub val_quote : Parser → C → ℕ → Bytes → Result (Machine C)
  unfolding invoke
  val_quote p c i bs =
      let left = unscanned at_string b'R' bs in
      let q = record p { buf = scanned at_string b'R' bs } in
      let j = moved (i + 1) bs left in
      let closed = (do
        c' ← invoke d add_str (record q { cur = j }) c
        ok (machine (record q { cur = j; map = map_at 0 p }) c' (j + 1) (drop_bytes 1 left))) in
      if head_byte left == b'"'
      then closed
      else ok (machine (record q { map = at_string; next_map = some (map_at 0 p) }) c j left)

  -- `add_str` is called for a value and for a key alike.
  unfoldable pub str_quote : Parser → C → ℕ → Bytes → Result (Machine C)
  unfolding invoke
  str_quote p c i bs = do
    c' ← invoke d add_str (record p { cur = i }) c
    m ← deref p.next_map
    ok (machine (record p { cur = i; map = m }) c' (i + 1) bs)

  unfoldable pub str_ok : Parser → C → ℕ → ℕ → Bytes → Result (Machine C)
  unfolding append_text str_quote
  str_ok p c i b bs =
      let left = unscanned at_string b'R' (b ∷ bs) in
      let j = moved i (b ∷ bs) left in
      append_text p (scanned at_string b'R' (b ∷ bs)) >>= λ q.
      if head_byte left == b'"'
      then str_quote q c j (drop_bytes 1 left)
      else ok (machine q c j left)

  unfoldable pub str_slash : Parser → C → ℕ → Bytes → Result (Machine C)
  str_slash p c i bs = ok (machine (record p { map = at_esc }) c (i + 1) bs)

  unfoldable pub esc_ok : Parser → C → ℕ → ℕ → Bytes → Result (Machine C)
  unfolding append_text
  esc_ok p c i b bs = do
    q ← append_text p (esc_byte b ∷ [])
    ok (machine (record q { map = at_string }) c (i + 1) bs)

  unfoldable pub esc_u : Parser → C → ℕ → Bytes → Result (Machine C)
  esc_u p c i bs = ok (machine (record p { map = at_u; ri = 0; ucode = 0 }) c (i + 1) bs)

  -- The fourth digit ends the escape.
  unfoldable pub u_done : Parser → C → ℕ → Bytes → Bytes → Result (Machine C)
  unfolding append_text
  u_done p c i bs [] = parse_error p invalid_unicode
  u_done p c i bs utf8 = do
    q ← append_text p utf8
    ok (machine (record q { map = at_string }) c (i + 1) bs)

  unfoldable pub u_ok : Parser → C → ℕ → ℕ → Bytes → Result (Machine C)
  unfolding u_done
  u_ok p c i b bs =
      let q = record p { ri = p.ri + 1; ucode = bit_or (p.ucode * 2 ^ 4 % 2 ^ 32) (hex b) } in
      if leb 4 q.ri then u_done q c i bs (unicode_to_utf8 q.ucode) else ok (machine q c (i + 1) bs)

  -- UTF1, UTF2 and UTF3: a leading byte with `n` more to follow.
  unfoldable pub utf_lead : ℕ → Parser → C → ℕ → ℕ → Bytes → Result (Machine C)
  unfolding append_text
  utf_lead n p c i b bs = do
    q ← append_text (record p { ri = n; map = at_utf }) (b ∷ [])
    ok (machine q c (i + 1) bs)

  unfoldable pub utfx : Parser → C → ℕ → ℕ → Bytes → Result (Machine C)
  unfolding append_text
  utfx p c i b bs = do
    q ← append_text (record p { ri = p.ri - 1 }) (b ∷ [])
    ok (machine (record q { map = if q.ri == 0 then at_string else q.map }) c (i + 1) bs)
