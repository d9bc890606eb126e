-- ===== src/Cache/Chains.antt =====
-- Predicates on the slots of a table by the index of their chain, and sums over its slots.
use oj_windows.Base.{
  ℕ, zero, suc, ◌+◌, ◌<◌, ◌≡◌, ◌≢◌, refl, ap, subst, some, List, [], ◌∷◌, ◌++◌, All, length,
  get_elem?, set, replicate, arith,
}

module _ {A : Type 0} where
  pub All-map : (P Q : A → Type 0) → ((a : A) → P a → Q a) → (xs : List A) → All P xs → All Q xs
  All-map P Q f [] h = tt
  All-map P Q f (x ∷ xs) h = (f x h.0, All-map P Q f xs h.1)

  -- Every item of the list with index `i`, counted from `j` on, has the property of `i`.
  abbrev pub Each : (ℕ → A → Type 0) → ℕ → List (List A) → Type 0
  Each P j [] = Unit
  Each P j (xs ∷ table) = All (P j) xs × Each P (suc j) table

  pub Each-map :
      (P Q : ℕ → A → Type 0)
      → ((i : ℕ) (a : A) → P i a → Q i a)
      → (j : ℕ) (table : List (List A)) → Each P j table
      → Each Q j table
  Each-map P Q f j [] h = tt
  Each-map P Q f j (xs ∷ table) h =
      (All-map (P j) (Q j) (f j) xs h.0, Each-map P Q f (suc j) table h.1)

  Each-get_shift :
      (P : ℕ → A → Type 0) (j i : ℕ) (table : List (List A)) (xs : List A)
      → Each P j table
      → get_elem? table i ≡ some xs
      → All (P (j + i)) xs
  Each-get_shift P j i [] xs h e = cc
  Each-get_shift P j zero (ys ∷ table) xs h e =
      let f : j ≡ j + 0 = omega arith in
      let g : ys ≡ xs = cc in subst (λ n. All (P n) xs) f (subst (λ zs. All (P j) zs) g h.0)
  Each-get_shift P j (suc i) (ys ∷ table) xs h e =
      let f : suc j + i ≡ j + suc i = omega arith in
      subst (λ n. All (P n) xs) f (Each-get_shift P (suc j) i table xs h.1 e)

  Each-set_shift :
      (P : ℕ → A → Type 0) (j i : ℕ) (table : List (List A)) (xs : List A)
      → Each P j table
      → All (P (j + i)) xs
      → Each P j (set table i xs)
  Each-set_shift P j i [] xs h k = tt
  Each-set_shift P j zero (ys ∷ table) xs h k =
      let f : j + 0 ≡ j = omega arith in (subst (λ n. All (P n) xs) f k, h.1)
  Each-set_shift P j (suc i) (ys ∷ table) xs h k =
      let f : j + suc i ≡ suc j + i = omega arith in
      (h.0, Each-set_shift P (suc j) i table xs h.1 (subst (λ n. All (P n) xs) f k))

  module _ (P : ℕ → A → Type 0) (i : ℕ) (table : List (List A)) (xs : List A) where
    pub Each-get : Each P 0 table → get_elem? table i ≡ some xs → All (P i) xs
    Each-get h e =
        let f : 0 + i ≡ i = omega arith in
        subst (λ n. All (P n) xs) f (Each-get_shift P 0 i table xs h e)

    pub Each-set : Each P 0 table → All (P i) xs → Each P 0 (set table i xs)
    Each-set h k =
        let f : i ≡ 0 + i = omega arith in
        Each-set_shift P 0 i table xs h (subst (λ n. All (P n) xs) f k)

  Each-behind :
      (P : ℕ → A → Type 0) (j k : ℕ) (table : List (List A))
      → k < j
      → Each P j table
      → Each (λ i a. P i a × (i ≢ k)) j table
  Each-behind P j k [] l h = tt
  Each-behind P j k (xs ∷ table) l h = (
    All-map (P j) (λ a. P j a × (j ≢ k)) (λ a p. (p, λ e. absurd (omega (arith, e)))) xs h.0,
    Each-behind P (suc j) k table (omega arith) h.1,
  )

  -- A list that is emptied.
  Each-clear_shift :
      (P : ℕ → A → Type 0) (j i : ℕ) (table : List (List A))
      → Each P j table
      → Each (λ k a. P k a × (k ≢ j + i)) j (set table i [])
  Each-clear_shift P j i [] h = tt
  Each-clear_shift P j zero (xs ∷ table) h =
      let f : j ≡ j + 0 = omega arith in
      (
        tt,
        subst (λ n. Each (λ k a. P k a × (k ≢ n)) (suc j) table) f
            (Each-behind P (suc j) j table (omega arith) h.1),
      )
  Each-clear_shift P j (suc i) (xs ∷ table) h =
      let f : suc j + i ≡ j + suc i = omega arith in
      (
        All-map (P j) (λ a. P j a × (j ≢ j + suc i)) (λ a p. (p, λ e. absurd (omega (arith, e)))) xs
            h.0,
        subst (λ n. Each (λ k a. P k a × (k ≢ n)) (suc j) (set table i [])) f
            (Each-clear_shift P (suc j) i table h.1),
      )

  pub Each-clear :
      (P : ℕ → A → Type 0) (i : ℕ) (table : List (List A))
      → Each P 0 table
      → Each (λ k a. P k a × (k ≢ i)) 0 (set table i [])
  Each-clear P i table h =
      let f : 0 + i ≡ i = omega arith in
      subst (λ n. Each (λ k a. P k a × (k ≢ n)) 0 (set table i [])) f
        (Each-clear_shift P 0 i table h)

  Each-append :
      (P : ℕ → A → Type 0) (j n : ℕ) (table : List (List A))
      → Each P j table
      → Each P j (table ++ replicate n [])
  Each-append P j n [] h = empty j n
    where
      empty : (j n : ℕ) → Each P j (replicate n [])
      empty j zero = tt
      empty j (suc n) = (tt, empty (suc j) n)
  Each-append P j n (xs ∷ table) h = (h.0, Each-append P (suc j) n table h.1)

  pub Each-replicate : (P : ℕ → A → Type 0) (n : ℕ) → Each P 0 (replicate n [])
  Each-replicate P n = Each-append P 0 n [] tt

  pub Each-longer :
      (P : ℕ → A → Type 0) (n : ℕ) (table : List (List A))
      → Each P 0 table
      → Each P 0 (table ++ replicate n [])
  Each-longer P n table h = Each-append P 0 n table h

  -- An index inside a table is found.
  pub get_elem?-inside :
      (table : List A) (i : ℕ) → i < length table → (a : A) × (get_elem? table i ≡ some a)
  get_elem?-inside [] i h = elim h [ ]
  get_elem?-inside (x ∷ table) zero h = (x, refl)
  get_elem?-inside (x ∷ table) (suc i) h = get_elem?-inside table i (omega arith)

  -- A weight summed over a list and over a table.
  abbrev pub weight : (A → ℕ) → List A → ℕ
  weight w [] = 0
  weight w (x ∷ xs) = w x + weight w xs

  abbrev pub weights : (A → ℕ) → List (List A) → ℕ
  weights w [] = 0
  weights w (xs ∷ table) = weight w xs + weights w table

  pub weights-set :
      (w : A → ℕ) (table : List (List A)) (i : ℕ) (xs ys : List A)
      → get_elem? table i ≡ some xs
      → weights w (set table i ys) + weight w xs ≡ weights w table + weight w ys
  weights-set w [] i xs ys e = cc
  weights-set w (zs ∷ table) zero xs ys e = let f : zs ≡ xs = cc in omega (arith, ap (weight w) f)
  weights-set w (zs ∷ table) (suc i) xs ys e = omega (arith, weights-set w table i xs ys e)

  pub weights-longer :
      (w : A → ℕ) (n : ℕ) (table : List (List A))
      → weights w (table ++ replicate n []) ≡ weights w table
  weights-longer w zero [] = refl
  weights-longer w (suc n) [] = omega (arith, weights-longer w n [])
  weights-longer w n (xs ∷ table) = ap (λ m. weight w xs + m) (weights-longer w n table)
