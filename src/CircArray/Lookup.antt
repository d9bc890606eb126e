-- ===== src/CircArray/Lookup.antt =====
-- ext/oj_windows/circarray.c: storing under an id and looking one up.
use oj_windows.Base.{
  ℕ, zero, suc, ◌-◌, ◌%◌, ◌^◌, ◌≤◌, ◌<◌, ◌≡◌, refl, false, inl, inr, Option, some, List, [], ◌∷◌,
  length, get_elem?, get_or, take, leb, ◌==◌, if◌then◌else◌, map, arith, leb→le, Bool-cases,
}
use oj_windows.Parser.State.{ok}
use oj_windows.CircArray.{CircArray, oj_circ_array_get, entry_of}

module _ {V : Type 0} (nil : V) where
  -- The array holds the objects `xs`, from id 1 on.
  pub record Has (xs : List V) (ca : CircArray V) : Type 0 where
    pub space : length ca.objs ≡ ca.size
    pub count : ca.cnt ≡ length xs
    pub fits : ca.cnt ≤ ca.size
    pub objects : take ca.cnt ca.objs ≡ map some xs

  -- The list with an entry at `i`, and nil in a gap.
  abbrev pub put : List V → ℕ → V → List V
  put [] zero v = v ∷ []
  put [] (suc i) v = nil ∷ put [] i v
  put (x ∷ xs) zero v = v ∷ xs
  put (x ∷ xs) (suc i) v = x ∷ put xs i v

  -- Looking up is by id.
  pub get_or-put :
      (xs : List V) (i j : ℕ) (v : V)
      → get_or (put xs i v) j nil ≡ (if j == i then v else get_or xs j nil)
  get_or-put [] zero zero v = refl
  get_or-put [] zero (suc j) v = ground arith
  get_or-put [] (suc i) zero v = ground arith
  get_or-put [] (suc i) (suc j) v = ground (arith, get_or-put [] i j v)
  get_or-put (x ∷ xs) zero zero v = refl
  get_or-put (x ∷ xs) zero (suc j) v = ground arith
  get_or-put (x ∷ xs) (suc i) zero v = ground arith
  get_or-put (x ∷ xs) (suc i) (suc j) v = ground (arith, get_or-put xs i j v)

  entry-some :
      (xs : List V) (i : ℕ) (cells : List (Option V))
      → i < length xs
      → take (length xs) cells ≡ map some xs
      → entry_of (get_elem? cells i) ≡ ok (get_or xs i nil)
  entry-some [] i cells h e = absurd (omega arith)
  entry-some (x ∷ xs) i [] h e = cc
  entry-some (x ∷ xs) zero (c ∷ cells) h e = cc
  entry-some (x ∷ xs) (suc i) (c ∷ cells) h e = entry-some xs i cells (omega arith) cc

  beyond : (xs : List V) (i : ℕ) → length xs ≤ i → get_or xs i nil ≡ nil
  beyond [] i h = refl
  beyond (x ∷ xs) zero h = absurd (omega arith)
  beyond (x ∷ xs) (suc i) h = beyond xs i (omega arith)

  positive : (n : ℕ) → 0 < n → (n == 0) ≡ false
  positive n h = ground arith

  pub word : (n : ℕ) → n < 2 ^ 32 → n % 2 ^ 32 ≡ n
  word n h = omega arith

  not_le : (a b : ℕ) → leb a b ≡ false → b < a
  not_le a b h = ground arith

  -- With an id of 1 or more that is an unsigned long, `oj_circ_array_get` gives the object under the id, nil where there is
  -- none, and reads nothing outside the array.
  pub oj_circ_array_get-Has :
      (xs : List V) (ca : CircArray V) (id : ℕ)
      → Has xs ca
      → 0 < id
      → id < 2 ^ 32
      → oj_circ_array_get nil ca id ≡ ok (get_or xs (id - 1) nil)
  unfolding oj_circ_array_get
  oj_circ_array_get-Has xs ca id h z b = rw (word id b) (elim (Bool-cases (leb id ca.cnt)) [
    | inl e ↦
        let inside : id ≤ ca.cnt = leb→le id ca.cnt e in
        rw (e, positive id z)
          (entry-some xs (id - 1) ca.objs (omega (arith, h.count)) (rw h.count at h.objects))
    | inr e ↦ rw (e, beyond xs (id - 1) (omega (arith, not_le id ca.cnt e, h.count)))
  ])
