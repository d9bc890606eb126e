-- ===== src/Parser/Num.antt =====
-- ext/oj_windows/parser.c: the accumulation of a number, its change to text and its hand-over.
use oj_windows.Base.{
  ℕ, zero, suc, ◌+◌, ◌-◌, ◌*◌, ◌/◌, ◌%◌, ◌^◌, Bool, false, [], ◌∷◌, ◌++◌, Bytes, ltb, ◌==◌,
  if◌then◌else◌,
}
use oj_windows.Base.Int.{ℤ, pos, negsuc, pos_part, neg_part, sub_ℕ}
use oj_windows.Parser.Tables.{code_at, at_digit, at_frac, at_big_digit, at_big_frac, at_big_exp}
use oj_windows.Parser.State.{
  LongDouble, of_int, opposite, over, times, pow_map, powl, Num, Parser, ValueType, oj_none, oj_int,
  oj_decimal, oj_big, Result, ok, ◌>>=◌, add_int, add_float, add_big, Delegate, invoke,
}

-- BIG_LIMIT, LLONG_MAX / 10.
abbrev pub big_limit : ℕ
big_limit = 922337203685477580

abbrev pub frac_limit : ℕ
frac_limit = 10000000000000000

abbrev pub max_exp : ℕ
max_exp = 4932

abbrev pub max_pow : ℕ
max_pow = 308

-- -x.
unfoldable pub negate : ℤ → ℤ
negate x = sub_ℕ (neg_part x) (pos_part x)

-- `0 < x`.
abbrev pub is_positive : ℤ → Bool
is_positive x = ltb 0 (pos_part x)

-- `(uint64_t)fixnum * 10 + (uint64_t)(b - '0')` for a digit `b`, modulo 2 ^ 64.
unfoldable pub next_digit : ℤ → ℕ → ℕ
next_digit (pos n) b = (n * 10 + (b - b'0')) % 2 ^ 64
next_digit (negsuc n) b = (2 ^ 64 - ((n + 1) * 10 - (b - b'0')) % 2 ^ 64) % 2 ^ 64

-- The conversion of an `int` to `int16_t`.
unfoldable pub to_int16 : ℤ → ℤ
to_int16 (pos n) = sub_ℕ (n % 2 ^ 16) (if ltb (n % 2 ^ 16) (2 ^ 15) then 0 else 2 ^ 16)
to_int16 (negsuc n) =
    sub_ℕ (2 ^ 16 - 1 - n % 2 ^ 16) (if ltb (n % 2 ^ 16) (2 ^ 15) then 2 ^ 16 else 0)

-- `(int16_t)(exp * 10 + (b - '0'))`.
unfoldable pub next_exp : ℤ → ℕ → ℤ
unfolding to_int16
next_exp e b = to_int16 (sub_ℕ (pos_part e * 10 + (b - b'0')) (neg_part e * 10))

-- The digits of `i`, written before `acc` from the lowest on; the buffer has room for 31 bytes.
unfoldable pub write_digits : ℕ → ℕ → Bytes → Bytes
write_digits zero i acc = acc
write_digits (suc room) i acc =
    let more = write_digits room (i / 10) ((b'0' + i % 10) ∷ acc) in if i == 0 then acc else more

-- The same with a point before the last `shift` digits, if a digit is left to stand before it.
unfoldable pub write_shifted : ℕ → ℕ → ℕ → Bytes → Bytes
unfolding write_digits
write_shifted zero shift i acc = acc
write_shifted (suc room) zero i acc = if i == 0 then acc else write_digits (suc room) i (b'.' ∷ acc)
write_shifted (suc room) (suc shift) i acc =
    let more = write_shifted room shift (i / 10) ((b'0' + i % 10) ∷ acc) in
    if i == 0 then acc else more

abbrev pub room : ℕ
room = 31

-- `started` stays false, so that a digit is written only if it is not 0.
abbrev exp_digit : ℕ → ℕ → Bytes
exp_digit x div = if ltb 0 (x / div % 10) then (b'0' + x / div % 10) ∷ [] else []

unfoldable pub write_exp : Num → Bytes
write_exp n =
    let x = pos_part n.exp in
    if is_positive n.exp
    then b'e'
      ∷ ((if n.exp_neg then b'-' ∷ [] else [])
          ++ exp_digit x 1000
          ++ exp_digit x 100
          ++ exp_digit x 10
          ++ exp_digit x 1)
    else []

abbrev sign : Num → Bytes → Bytes
sign n text = if n.neg then b'-' ∷ text else text

change : ValueType → Parser → Parser
change oj_int p = record p {
  buf = sign p.num (write_digits room (pos_part p.num.fixnum) []);
  type = oj_big;
}
change oj_decimal p = record p {
  buf = sign p.num (write_shifted room p.num.shift (pos_part p.num.fixnum) []) ++ write_exp p.num;
  type = oj_big;
}
change _ p = record p { buf = [] }

-- big_change: the buffer gets the text of the number so far, and is emptied on any other type.
unfoldable pub big_change : Parser → Parser
unfolding change write_digits write_shifted write_exp
big_change p = change p.type p

-- The `long double` of a decimal.
unfoldable pub decimal_value : Num → LongDouble
decimal_value n =
    let d = if n.neg then opposite (of_int n.fixnum) else of_int n.fixnum in
    let s = if ltb 0 n.shift then over d (pow_map n.shift) else d in
    let e = pos_part n.exp in
    let x = if ltb max_pow e then powl n.exp else pow_map e in
    if is_positive n.exp then (if n.exp_neg then over s x else times s x) else s

-- calc_num: the number is handed to the delegate, and the type is cleared.
module _ {C : Type 0} (d : Delegate C) where
  calc : ValueType → Parser → C → Result (Parser × C)
  calc oj_int p c =
      let n = p.num in
      let q = record p {
        num = if n.neg then record n { fixnum = negate n.fixnum; neg = false } else n;
      } in
      do c' ← invoke d add_int q c; ok (record q { type = oj_none }, c')
  calc oj_decimal p c =
      let q = record p { num = record (p.num) { dub = decimal_value p.num } } in
      do c' ← invoke d add_float q c; ok (record q { type = oj_none }, c')
  calc oj_big p c = do c' ← invoke d add_big p c; ok (record p { type = oj_none }, c')
  calc _ p c = ok (record p { type = oj_none }, c)

  unfoldable pub calc_num : Parser → C → Result (Parser × C)
  unfolding calc negate decimal_value
  calc_num p c = calc p.type p c

-- The digit loops of `parse`: the parser, the position and the bytes that are left. A digit that does
-- not fit is left for the table of big numbers.
unfoldable pub int_digits : Parser → ℕ → Bytes → Parser × ℕ × Bytes
unfolding next_digit big_change
int_digits p i [] = (p, i, [])
int_digits p i (b ∷ bs) =
    let x = next_digit p.num.fixnum b in
    let more = int_digits (record p { num = record (p.num) { fixnum = pos x } }) (i + 1) bs in
    let big : Parser × ℕ × Bytes = (record (big_change p) { map = at_big_digit }, i, b ∷ bs) in
    if code_at at_digit b == b'N' then if ltb x big_limit then more else big else (p, i, b ∷ bs)

-- `shift` is a uint8_t.
unfoldable pub frac_digits : Parser → ℕ → Bytes → Parser × ℕ × Bytes
unfolding next_digit big_change
frac_digits p i [] = (p, i, [])
frac_digits p i (b ∷ bs) =
    let x = next_digit p.num.fixnum b in
    let n = p.num in
    let q = record p { num = record n { fixnum = pos x; shift = (n.shift + 1) % 2 ^ 8 } } in
    let more = frac_digits q (i + 1) bs in
    let big : Parser × ℕ × Bytes = (record (big_change p) { map = at_big_frac }, i, b ∷ bs) in
    if code_at at_frac b == b'v' then if ltb x frac_limit then more else big else (p, i, b ∷ bs)

unfoldable pub exp_digits : Parser → ℕ → Bytes → Parser × ℕ × Bytes
unfolding next_exp big_change
exp_digits p i [] = (p, i, [])
exp_digits p i (b ∷ bs) =
    let x = next_exp p.num.exp b in
    let more = exp_digits (record p { num = record (p.num) { exp = x } }) (i + 1) bs in
    let big : Parser × ℕ × Bytes = (record (big_change p) { map = at_big_exp }, i, b ∷ bs) in
    if code_at at_digit b == b'N'
    then if ltb max_exp (pos_part x) then big else more
    else (p, i, b ∷ bs)
