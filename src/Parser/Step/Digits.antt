-- ===== src/Parser/Step/Digits.antt =====
-- ext/oj_windows/parser.c, parse: the cases of a number.
use oj_windows.Base.{ℕ, ◌+◌, Bool, true, false, [], ◌∷◌, ◌++◌, Bytes, ◌==◌}
use oj_windows.Base.Int.{pos}
use oj_windows.Parser.Tables.{
  Map, at_neg, at_zero, at_digit, at_dot, at_frac, at_exp_sign, at_exp_zero, at_exp, at_big_dot,
  at_big_frac, at_big_exp_sign, at_big_exp_zero, at_big_exp,
}
use oj_windows.Parser.State.{Parser, oj_int, oj_decimal, Result, ok}
use oj_windows.Parser.Num.{int_digits, frac_digits, exp_digits}
use oj_windows.Parser.Step.Loop.{Machine, machine, scanned, unscanned, moved}

-- The settings that VAL0, VAL_NEG and VAL_DIGIT begin with.
abbrev pub begin_num : Bool → Map → Parser → Parser
begin_num negative m p = record p {
  type = oj_int;
  num = record (p.num) {
    fixnum = pos 0;
    neg = negative;
    shift = 0;
    len = 0;
    exp = pos 0;
    exp_neg = false;
  };
  map = m;
}

module _ {C : Type 0} where
  unfoldable pub val0 : Parser → C → ℕ → Bytes → Result (Machine C)
  val0 p c i bs = ok (machine (begin_num false at_zero p) c (i + 1) bs)

  unfoldable pub val_neg : Parser → C → ℕ → Bytes → Result (Machine C)
  val_neg p c i bs = ok (machine (begin_num true at_neg p) c (i + 1) bs)

  unfoldable pub num_digit : Parser → C → ℕ → ℕ → Bytes → Result (Machine C)
  num_digit p c i b bs = let (q, j, left) = int_digits p i (b ∷ bs) in ok (machine q c j left)

  unfoldable pub val_digit : Parser → C → ℕ → ℕ → Bytes → Result (Machine C)
  unfolding num_digit
  val_digit p c i b bs = num_digit (begin_num false at_digit p) c i b bs

  -- The table is set behind the loop, also where the loop has changed to a big number.
  unfoldable pub neg_digit : Parser → C → ℕ → ℕ → Bytes → Result (Machine C)
  neg_digit p c i b bs =
      let (q, j, left) = int_digits p i (b ∷ bs) in
      ok (machine (record q { map = at_digit }) c j left)

  unfoldable pub num_dot : Parser → C → ℕ → Bytes → Result (Machine C)
  num_dot p c i bs = ok (machine (record p { type = oj_decimal; map = at_dot }) c (i + 1) bs)

  unfoldable pub num_frac : Parser → C → ℕ → ℕ → Bytes → Result (Machine C)
  num_frac p c i b bs =
      let (q, j, left) = frac_digits (record p { map = at_frac }) i (b ∷ bs) in
      ok (machine q c j left)

  unfoldable pub frac_e : Parser → C → ℕ → Bytes → Result (Machine C)
  frac_e p c i bs = ok (machine (record p { type = oj_decimal; map = at_exp_sign }) c (i + 1) bs)

  unfoldable pub num_zero : Parser → C → ℕ → Bytes → Result (Machine C)
  num_zero p c i bs = ok (machine (record p { map = at_zero }) c (i + 1) bs)

  unfoldable pub exp_sign : Parser → C → ℕ → ℕ → Bytes → Result (Machine C)
  exp_sign p c i b bs = ok (
      machine (record p { num = record (p.num) { exp_neg = b == b'-' }; map = at_exp_zero }) c
        (i + 1) bs)

  unfoldable pub exp_digit : Parser → C → ℕ → ℕ → Bytes → Result (Machine C)
  exp_digit p c i b bs =
      let (q, j, left) = exp_digits (record p { map = at_exp }) i (b ∷ bs) in
      ok (machine q c j left)

  -- `buf_append_string` of the bytes that table `m` marks with `a`.
  abbrev take_run : Map → ℕ → Parser → C → ℕ → ℕ → Bytes → Result (Machine C)
  take_run m a p c i b bs =
      let left = unscanned m a (b ∷ bs) in
      ok (machine (record p { buf = p.buf ++ scanned m a (b ∷ bs) }) c (moved i (b ∷ bs) left) left)

  unfoldable pub big_digit : Parser → C → ℕ → ℕ → Bytes → Result (Machine C)
  big_digit p c i b bs = take_run at_digit b'N' p c i b bs

  unfoldable pub big_dot : Parser → C → ℕ → Bytes → Result (Machine C)
  big_dot p c i bs =
      ok (machine (record p { buf = p.buf ++ b'.' ∷ []; map = at_big_dot }) c (i + 1) bs)

  unfoldable pub big_frac : Parser → C → ℕ → ℕ → Bytes → Result (Machine C)
  big_frac p c i b bs = take_run at_frac b'v' (record p { map = at_big_frac }) c i b bs

  unfoldable pub big_e : Parser → C → ℕ → ℕ → Bytes → Result (Machine C)
  big_e p c i b bs =
      ok (machine (record p { buf = p.buf ++ b ∷ []; map = at_big_exp_sign }) c (i + 1) bs)

  unfoldable pub big_exp_sign : Parser → C → ℕ → ℕ → Bytes → Result (Machine C)
  big_exp_sign p c i b bs =
      ok (machine (record p { buf = p.buf ++ b ∷ []; map = at_big_exp_zero }) c (i + 1) bs)

  unfoldable pub big_exp : Parser → C → ℕ → ℕ → Bytes → Result (Machine C)
  big_exp p c i b bs = take_run at_digit b'N' (record p { map = at_big_exp }) c i b bs
