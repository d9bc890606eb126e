-- ===== src/Base/Bits.antt =====
-- A mask of low bits is a remainder.
use Prim.Native.Nat.{
  ℕ, zero, suc, ◌+◌, ◌-◌, ◌*◌, ◌/◌, ◌%◌, ◌^◌, ◌≤◌, ◌<◌, min, bit_and, digits, bit_and-bitwise,
}
use mathlib.Core.Path.{◌≡◌, refl, sym, ap, ◌∙◌}
use native.Mathlib.Omega.{arith}
use native.Mathlib.Numerals.{unary_clauses}
use native.Mathlib.Nat.{one-le-pow, mul_assoc, mod-lt, mod-add-div'}

-- The digits of `bit_and a b`, at most `n` of them.
abbrev shared : ℕ → ℕ → ℕ → ℕ
shared n a b = digits (λ b. zero) min n a b

shared-zero : (n a : ℕ) → shared n a 0 ≡ 0
shared-zero zero a = refl
shared-zero (suc n) zero = refl
shared-zero (suc n) (suc a) = omega (arith, shared-zero n (suc a / 2))

double_pow : (k q : ℕ) → (2 ^ suc k ≡ 2 ^ k * 2) × (q * 2 ^ suc k ≡ q * 2 ^ k * 2)
double_pow k q =
    let e : 2 ^ suc k ≡ 2 ^ k * 2 = simp unary_clauses in
    (e, ap (λ x. q * x) e ∙ sym (mul_assoc q (2 ^ k) 2))

-- The low `k` digits of a number that has `r` there.
shared-mask : (k n a q r : ℕ) → a ≡ q * 2 ^ k + r → a ≤ n → r < 2 ^ k → shared n a (2 ^ k - 1) ≡ r
shared-mask zero n a q r e h l = omega (arith, shared-zero n a)
shared-mask (suc k) zero a q r e h l = omega arith
shared-mask (suc k) (suc n) zero q r e h l = omega arith
shared-mask (suc k) (suc n) (suc a) q r e h l =
    let m = one-le-pow k 2 (omega arith) in
    let (p, t) = double_pow k q in
    let half : suc a / 2 ≡ q * 2 ^ k + r / 2 = omega (arith, p, t, e) in
    let mask : (2 ^ suc k - 1) / 2 ≡ 2 ^ k - 1 = omega (arith, p, m) in
    let ih = shared-mask k n (suc a / 2) q (r / 2) half (omega arith) (omega (arith, p)) in
    omega (arith, p, t, e, m, ap (shared n (suc a / 2)) mask, ih)

pub bit_and_mask : (k a : ℕ) → bit_and a (2 ^ k - 1) ≡ a % 2 ^ k
bit_and_mask k a =
    bit_and-bitwise a (2 ^ k - 1)
    ∙ shared-mask k a a (a / 2 ^ k) (a % 2 ^ k) (omega (arith, mod-add-div' a (2 ^ k)))
        (omega arith) (mod-lt a (one-le-pow k 2 (omega arith)))
