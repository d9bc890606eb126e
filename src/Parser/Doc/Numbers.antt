-- ===== src/Parser/Doc/Numbers.antt =====
-- ext/oj_windows/parser.c's `parse` at an integer that the machine can hold.
use oj_windows.Base.{
  ℕ, ◌+◌, ◌-◌, ◌*◌, ◌≤◌, ◌<◌, ◌≡◌, ◌⊎◌, refl, inl, inr, Bool, true, false, [], ◌∷◌, ◌++◌, Bytes,
  All, ◌==◌, arith, if◌then◌else◌, lt→ltb,
}
use oj_windows.Base.Int.{ℤ, pos}
use oj_windows.Parser.Tables.{Map, at_neg, at_zero, at_digit, code_at, Action}
use oj_windows.Parser.State.{Fun, Parser}
use oj_windows.Parser.Num.{int_digits, next_digit, big_limit, negate}
use oj_windows.Parser.Step.{dispatch}
use oj_windows.Parser.Step.Loop.{Machine, machine}
use oj_windows.Parser.Step.Digits.{begin_num, val0, val_neg, val_digit, num_zero, neg_digit}
use oj_windows.Parser.Trace.{int, place, tracer}
use oj_windows.Parser.Leads.{Leads, pass}
use oj_windows.Parser.Doc.{IsDigit, IsNumber, zero_digit, digits, digits_value, number_event}
use oj_windows.Parser.Doc.Actions.{
  IsOpen, action-IsOpen, value_minus, comma_minus, value_zero, comma_zero, neg_zero, value_digit,
  comma_digit, neg_digit as neg_digit_action, digit_digit-code,
}
use oj_windows.Parser.Doc.Frame.{Kept, After, pending}
use oj_windows.Parser.Doc.Behind.{Trace}

-- What follows a number: the end, or a byte that is no digit.
abbrev pub IsEnd : Bytes → Type 0
IsEnd [] = Unit
IsEnd (b ∷ bs) = (code_at at_digit b == b'N') ≡ false

pub digits_value-le : (a : ℕ) (ds : Bytes) → a ≤ digits_value a ds
digits_value-le a [] = omega arith
digits_value-le a (b ∷ bs) = omega (arith, digits_value-le (a * 10 + (b - b'0')) bs)

abbrev pub with_fixnum : Parser → ℕ → Parser
with_fixnum p a = record p { num = record (p.num) { fixnum = pos a } }

int_digits-end :
    (p : Parser) (i : ℕ) (rest : Bytes) → IsEnd rest → int_digits p i rest ≡ (p, i, rest)
unfolding int_digits
int_digits-end p i [] h = refl
int_digits-end p i (b ∷ bs) h = rw h

next_digit-pos :
    (a b : ℕ) → a * 10 + (b - b'0') < big_limit → next_digit (pos a) b ≡ a * 10 + (b - b'0')
unfolding next_digit
next_digit-pos a b h = omega arith

-- Digits whose number, behind the number `a` read so far, is below BIG_LIMIT: the loop reads them to that
-- number, and stops at what follows, if that is no digit.
pub int_digits-value :
    (p : Parser) (a i : ℕ) (ds rest : Bytes)
    → All IsDigit ds
    → digits_value a ds < big_limit
    → IsEnd rest
    → (j : ℕ) × (int_digits (with_fixnum p a) i (ds ++ rest)
        ≡ (with_fixnum p (digits_value a ds), j, rest))
unfolding int_digits
int_digits-value p a i [] rest h l z = (i, int_digits-end (with_fixnum p a) i rest z)
int_digits-value p a i (b ∷ bs) rest h l z =
    let small : a * 10 + (b - b'0') < big_limit =
      omega (arith, digits_value-le (a * 10 + (b - b'0')) bs) in
    let (j, e) = int_digits-value p (a * 10 + (b - b'0')) (i + 1) bs rest h.1 l z in
    (j, rw (digit_digit-code b h.0.0 h.0.1, next_digit-pos a b small, lt→ltb _ _ small) e)

module _ (n : ℕ) (f : ℕ → Fun) (p : Parser) (c : Trace) (i : ℕ) (rest : Bytes) (k : Kept n f p)
    (o : IsOpen p.map) (z : IsEnd rest) (Q : Machine Trace → Type 0) where
  -- The integer has been read, and is pending.
  abbrev GoesOn : ℤ → Type 0
  GoesOn x =
      (m : Machine Trace)
      → After n f (c ++ place (f n) p.key (int x) ∷ []) rest m
      → Leads tracer Q m

  pending_at :
      (s : Bool) (m : Map) (a j : ℕ)
      → (m ≡ at_digit) ⊎ (m ≡ at_zero)
      → GoesOn (if s then negate (pos a) else pos a)
      → Leads tracer Q (machine (with_fixnum (begin_num s m p) a) c j rest)
  pending_at s m a j e go = go _ (
      pending (record { depth = k.depth; stack = k.stack; one = k.one })
        (record { map = e; type = refl; value = refl }) refl)

  zero-Leads : GoesOn (pos 0) → Leads tracer Q (machine p c i (b'0' ∷ rest))
  unfolding dispatch val0
  zero-Leads go =
      pass tracer Action.val0 (action-IsOpen b'0' o value_zero comma_zero) refl k.one
        (pending_at false at_zero 0 _ (inr refl) go)

  minus_zero-Leads : GoesOn (negate (pos 0)) → Leads tracer Q (machine p c i (b'-' ∷ b'0' ∷ rest))
  unfolding dispatch val_neg num_zero
  minus_zero-Leads go =
      pass tracer Action.val_neg (action-IsOpen b'-' o value_minus comma_minus) refl k.one (
        pass tracer Action.num_zero neg_zero refl k.one (pending_at true at_zero 0 _ (inr refl) go))

  module _ (b : ℕ) (bs : Bytes) (h : All IsDigit (b ∷ bs)) (g : b'0' < b)
      (l : digits_value 0 (b ∷ bs) < big_limit) where
    digits-Leads :
        GoesOn (pos (digits_value 0 (b ∷ bs))) → Leads tracer Q (machine p c i (b ∷ (bs ++ rest)))
    unfolding dispatch val_digit
    digits-Leads go =
        let (j, e) = int_digits-value (begin_num false at_digit p) 0 i (b ∷ bs) rest h l z in
        pass tracer Action.val_digit
          {m = machine (with_fixnum (begin_num false at_digit p) (digits_value 0 (b ∷ bs))) c j
            rest}
          (action-IsOpen b o (value_digit b (omega arith) h.0.1)
            (comma_digit b (omega arith) h.0.1))
          (rw e) k.one (pending_at false at_digit (digits_value 0 (b ∷ bs)) j (inl refl) go)

    minus_digits-Leads :
        GoesOn (negate (pos (digits_value 0 (b ∷ bs))))
        → Leads tracer Q (machine p c i (b'-' ∷ b ∷ (bs ++ rest)))
    unfolding dispatch val_neg neg_digit
    minus_digits-Leads go =
        let (j, e) = int_digits-value (begin_num true at_neg p) 0 (i + 1) (b ∷ bs) rest h l z in
        pass tracer Action.val_neg (action-IsOpen b'-' o value_minus comma_minus) refl k.one (
          pass tracer Action.neg_digit
            {m = machine (with_fixnum (begin_num true at_digit p) (digits_value 0 (b ∷ bs))) c j
              rest}
            (neg_digit_action b (omega arith) h.0.1) (rw e) k.one
            (pending_at true at_digit (digits_value 0 (b ∷ bs)) j (inl refl) go))

  pub number-Leads :
      (s : Bool) (ds : Bytes)
      → IsNumber ds
      → ((m : Machine Trace)
          → After n f (c ++ place (f n) p.key (number_event s ds) ∷ []) rest m
          → Leads tracer Q m)
      → Leads tracer Q (machine p c i ((if s then b'-' ∷ ds else ds) ++ rest))
  number-Leads false ds zero_digit go = zero-Leads go
  number-Leads true ds zero_digit go = minus_zero-Leads go
  number-Leads false ds (digits {b} {bs} g d h l) go = digits-Leads b bs (d, h) g l go
  number-Leads true ds (digits {b} {bs} g d h l) go = minus_digits-Leads b bs (d, h) g l go
