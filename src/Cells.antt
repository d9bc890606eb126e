-- ===== src/Cells.antt =====
-- Arrays of C whose entries hold nothing until they are written, as in ext/oj_windows/buf.h and
-- ext/oj_windows/circarray.c.
use oj_windows.Base.{
  ℕ, zero, suc, ◌+◌, ◌-◌, ◌≤◌, ◌<◌, ◌≡◌, refl, ap, sym, ◌∙◌, Option, none, some, List, [], ◌∷◌,
  ◌++◌, length, set, take, replicate, ltb, lt→ltb, if◌then◌else◌, append_assoc, append-nil, arith,
  length-append, length-set, length-replicate, map,
}
use oj_windows.Parser.State.{Result, ok, fault}

-- What stands at an index: -1, or one outside, is a fault.
abbrev pub there : {A : Type 0} → Option A → Result A
there none = fault
there (some a) = ok a

module _ {A : Type 0} where
  -- Writes from an offset on: a write outside the array is a fault.
  unfoldable pub copy_to : ℕ → List A → List (Option A) → Result (List (Option A))
  copy_to i [] cells = ok cells
  copy_to i (b ∷ bs) cells =
      let rest = copy_to (i + 1) bs (set cells i (some b)) in
      if ltb i (length cells) then rest else fault

module _ {A : Type 0} where
  pub take-set :
      (xs : List A) (i : ℕ) (v : A)
      → i < length xs
      → take (suc i) (set xs i v) ≡ take i xs ++ v ∷ []
  take-set [] i v h = absurd (omega arith)
  take-set (x ∷ xs) zero v h = refl
  take-set (x ∷ xs) (suc i) v h = ap (λ t. x ∷ t) (take-set xs i v (omega arith))

  pub take-set_next :
      (xs : List A) (i : ℕ) (v : A)
      → i < length xs
      → take (i + 1) (set xs i v) ≡ take i xs ++ v ∷ []
  take-set_next xs i v h =
      ap (λ n. take n (set xs i v)) {y = suc i} (omega arith) ∙ take-set xs i v h

  pub take-set_same : (xs : List A) (i : ℕ) (v : A) → take i (set xs i v) ≡ take i xs
  take-set_same [] i v = refl
  take-set_same (x ∷ xs) zero v = refl
  take-set_same (x ∷ xs) (suc i) v = ap (λ t. x ∷ t) (take-set_same xs i v)

  pub take-kept :
      (n m : ℕ) (xs ys : List A) → n ≤ m → n ≤ length xs → take n (take m xs ++ ys) ≡ take n xs
  take-kept zero m xs ys h k = refl
  take-kept (suc n) zero xs ys h k = absurd (omega arith)
  take-kept (suc n) (suc m) [] ys h k = absurd (omega arith)
  take-kept (suc n) (suc m) (x ∷ xs) ys h k =
      ap (λ t. x ∷ t) (take-kept n m xs ys (omega arith) (omega arith))

  pub length-filled :
      (n m : ℕ) (xs : List A) (v : A)
      → length (take m xs) ≤ n
      → length (take m xs ++ replicate (n - length (take m xs)) v) ≡ n
  length-filled n m xs v h = omega (
    arith,
    length-append (take m xs) (replicate (n - length (take m xs)) v),
    length-replicate (n - length (take m xs)) v,
  )

module _ {A : Type 0} where
  pub map_some-append : (s t : List A) → map some (s ++ t) ≡ map some s ++ map some t
  map_some-append [] t = refl
  map_some-append (b ∷ s) t = ap (λ z. some b ∷ z) (map_some-append s t)

  -- What memcpy leaves, in front of its end.
  pub copy_to-ok :
      (i : ℕ) (s : List A) (cells : List (Option A))
      → i + length s ≤ length cells
      → (cells' : List (Option A)) × (copy_to i s cells ≡ ok cells')
        × (length cells' ≡ length cells)
        × (take (i + length s) cells' ≡ take i cells ++ map some s)
  unfolding copy_to
  copy_to-ok i [] cells h = (
    cells,
    refl,
    refl,
    ap (λ n. take n cells) {y = i} (omega arith) ∙ sym (append-nil (take i cells)),
  )
  copy_to-ok i (b ∷ s) cells h =
      let (cells', e, l, t) =
        copy_to-ok (i + 1) s (set cells i (some b)) (omega (arith, length-set cells i (some b))) in
      (
        cells',
        rw (lt→ltb i (length cells) (omega arith)) e,
        l ∙ length-set cells i (some b),
        ap (λ n. take n cells') {y = i + 1 + length s} (omega arith)
            ∙ t
            ∙ ap (λ z. z ++ map some s) (take-set_next cells i (some b) (omega arith))
            ∙ append_assoc (take i cells) (some b ∷ []) (map some s),
      )
