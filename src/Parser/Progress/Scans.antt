-- ===== src/Parser/Progress/Scans.antt =====
-- The inner loops of ext/oj_windows/parser.c's `parse` leave a part of their input.
use oj_windows.Base.{
  ℕ, zero, suc, ◌+◌, ◌*◌, ◌%◌, ◌^◌, ◌≤◌, ◌<◌, ◌≡◌, inl, inr, true, [], ◌∷◌, Bytes, arith, length,
  ltb, ◌==◌, if◌then◌else◌, Bool-cases,
}
use oj_windows.Parser.Tables.{Map, at_neg, code_at, space_code, at_digit, at_frac}
use oj_windows.Base.Int.{pos, pos_part}
use oj_windows.Parser.Tables.Facts.{IsBytes, is_big}
use oj_windows.Parser.State.{Parser}
use oj_windows.Parser.Num.{
  int_digits, frac_digits, exp_digits, next_digit, next_exp, big_limit, frac_limit, max_exp,
}
use oj_windows.Parser.Step.Loop.{unscanned, skip_space, drop_bytes}

-- `left` is no longer than `bs`, and its bytes are bytes.
pub record Left (bs left : Bytes) : Type 0 where
  pub shorter : length left ≤ length bs
  pub bytes : IsBytes left

Left-cons : {bs left : Bytes} (b : ℕ) → Left bs left → Left (b ∷ bs) left
Left-cons b h = record { shorter = omega arith; bytes = h.bytes }

pub Left-unscanned : (m : Map) (a : ℕ) (bs : Bytes) → IsBytes bs → Left bs (unscanned m a bs)
unfolding unscanned
Left-unscanned m a [] h = record { shorter = omega arith; bytes = tt }
Left-unscanned m a (b ∷ bs) h = elim (Bool-cases (code_at m b == a)) [
  | inl e ↦ rw e (Left-cons b (Left-unscanned m a bs h.1))
  | inr e ↦ rw e (record { shorter = omega arith; bytes = h })
]

pub Left-skip_space : (bs : Bytes) → IsBytes bs → Left bs (skip_space bs)
unfolding skip_space
Left-skip_space [] h = record { shorter = omega arith; bytes = tt }
Left-skip_space (b ∷ bs) h = elim (Bool-cases (space_code b == b'a')) [
  | inl e ↦ rw e (Left-cons b (Left-skip_space bs h.1))
  | inr e ↦ rw e (record { shorter = omega arith; bytes = h })
]

pub Left-drop : (n : ℕ) (bs : Bytes) → IsBytes bs → Left bs (drop_bytes n bs)
Left-drop zero bs h = record { shorter = omega arith; bytes = h }
Left-drop (suc n) [] h = record { shorter = omega arith; bytes = tt }
Left-drop (suc n) (b ∷ bs) h = Left-cons b (Left-drop n bs h.1)

pub Left-trans : {xs ys zs : Bytes} → Left xs ys → Left ys zs → Left xs zs
Left-trans h k = record { shorter = omega arith; bytes = k.bytes }

-- What is left to do: a byte is visited three times at most, behind a minus sign, by the digits and
-- by the big digits.
abbrev pub weight : Map → ℕ
weight at_neg = 2
weight m = if is_big m then 0 else 1

abbrev pub work : Parser → Bytes → ℕ
work p bs = 3 * length bs + weight p.map

pub weight-le : (m : Map) → weight m ≤ 2
weight-le at_neg = omega arith
weight-le _ = omega arith

pub work-Left : (p : Parser) {bs left : Bytes} → Left bs left → work p left < 3 * suc (length bs)
work-Left p h = omega (arith, weight-le p.map)

pub Left-int_digits : (p : Parser) (i : ℕ) (bs : Bytes) → IsBytes bs → Left bs (int_digits p i bs).2
unfolding int_digits
Left-int_digits p i [] h = record { shorter = omega arith; bytes = tt }
Left-int_digits p i (b ∷ bs) h = elim (Bool-cases (code_at at_digit b == b'N')) [
  | inl e ↦ rw e (elim (Bool-cases (ltb (next_digit p.num.fixnum b) big_limit)) [
    | inl e2 ↦ rw e2 (
        Left-cons b (
          Left-int_digits
            (record p { num = record (p.num) { fixnum = pos (next_digit p.num.fixnum b) } }) (i + 1)
            bs h.1))
    | inr e2 ↦ rw e2 (record { shorter = omega arith; bytes = h })
  ])
  | inr e ↦ rw e (record { shorter = omega arith; bytes = h })
]

pub work-int_digits :
    (p : Parser) (i b : ℕ) (bs : Bytes)
    → IsBytes bs
    → (code_at at_digit b == b'N') ≡ true
    → work (int_digits p i (b ∷ bs)).0 (int_digits p i (b ∷ bs)).2 < 3 * suc (length bs) + 1
unfolding int_digits
work-int_digits p i b bs h e = rw e (elim (Bool-cases (ltb (next_digit p.num.fixnum b) big_limit)) [
  | inl e2 ↦ rw e2 (
      omega (
        arith,
        work-Left _ (
            Left-int_digits
              (record p { num = record (p.num) { fixnum = pos (next_digit p.num.fixnum b) } })
              (i + 1) bs h),
      ))
  | inr e2 ↦ rw e2 (omega arith)
])

pub Left-frac_digits :
    (p : Parser) (i : ℕ) (bs : Bytes) → IsBytes bs → Left bs (frac_digits p i bs).2
unfolding frac_digits
Left-frac_digits p i [] h = record { shorter = omega arith; bytes = tt }
Left-frac_digits p i (b ∷ bs) h = elim (Bool-cases (code_at at_frac b == b'v')) [
  | inl e ↦ rw e (elim (Bool-cases (ltb (next_digit p.num.fixnum b) frac_limit)) [
    | inl e2 ↦ rw e2 (
        Left-cons b (
          Left-frac_digits
            (record p {
              num = record (p.num) {
                fixnum = pos (next_digit p.num.fixnum b);
                shift = (p.num.shift + 1) % 2 ^ 8;
              };
            })
            (i + 1) bs h.1))
    | inr e2 ↦ rw e2 (record { shorter = omega arith; bytes = h })
  ])
  | inr e ↦ rw e (record { shorter = omega arith; bytes = h })
]

pub work-frac_digits :
    (p : Parser) (i b : ℕ) (bs : Bytes)
    → IsBytes bs
    → (code_at at_frac b == b'v') ≡ true
    → work (frac_digits p i (b ∷ bs)).0 (frac_digits p i (b ∷ bs)).2 < 3 * suc (length bs) + 1
unfolding frac_digits
work-frac_digits p i b bs h e =
    rw e (elim (Bool-cases (ltb (next_digit p.num.fixnum b) frac_limit)) [
      | inl e2 ↦ rw e2 (
          omega (
            arith,
            work-Left _ (
                Left-frac_digits
                  (record p {
                    num = record (p.num) {
                      fixnum = pos (next_digit p.num.fixnum b);
                      shift = (p.num.shift + 1) % 2 ^ 8;
                    };
                  })
                  (i + 1) bs h),
          ))
      | inr e2 ↦ rw e2 (omega arith)
    ])

pub Left-exp_digits : (p : Parser) (i : ℕ) (bs : Bytes) → IsBytes bs → Left bs (exp_digits p i bs).2
unfolding exp_digits
Left-exp_digits p i [] h = record { shorter = omega arith; bytes = tt }
Left-exp_digits p i (b ∷ bs) h = elim (Bool-cases (code_at at_digit b == b'N')) [
  | inl e ↦ rw e (elim (Bool-cases (ltb max_exp (pos_part (next_exp p.num.exp b)))) [
    | inl e2 ↦ rw e2 (record { shorter = omega arith; bytes = h })
    | inr e2 ↦ rw e2 (
        Left-cons b (
          Left-exp_digits (record p { num = record (p.num) { exp = next_exp p.num.exp b } }) (i + 1)
            bs h.1))
  ])
  | inr e ↦ rw e (record { shorter = omega arith; bytes = h })
]

pub work-exp_digits :
    (p : Parser) (i b : ℕ) (bs : Bytes)
    → IsBytes bs
    → (code_at at_digit b == b'N') ≡ true
    → work (exp_digits p i (b ∷ bs)).0 (exp_digits p i (b ∷ bs)).2 < 3 * suc (length bs) + 1
unfolding exp_digits
work-exp_digits p i b bs h e =
    rw e (elim (Bool-cases (ltb max_exp (pos_part (next_exp p.num.exp b)))) [
      | inl e2 ↦ rw e2 (omega arith)
      | inr e2 ↦ rw e2 (
          omega (
            arith,
            work-Left _ (
                Left-exp_digits (record p { num = record (p.num) { exp = next_exp p.num.exp b } })
                  (i + 1) bs h),
          ))
    ])
