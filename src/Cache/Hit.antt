-- ===== src/Cache/Hit.antt =====
-- A key that has a slot in the table of ext/oj_windows/cache.c is found there.
use Prim.Native.Nat.{bit_and}
use oj_windows.Base.{
  ℕ, zero, suc, ◌+◌, ◌%◌, ◌^◌, ◌<◌, ◌≡◌, refl, sym, ap, ◌∙◌, subst, true, Option, none, some, List,
  [], ◌∷◌, Bytes, All, length, get_elem?, set, ltb, ltb→lt, if◌then◌else◌, Bool-cases, inl, inr,
  arith,
}
use oj_windows.Parser.State.{ok, ◌>>=◌}
use oj_windows.Cells.{there}
use oj_windows.Cache.Hash.{hash_calc}
use oj_windows.Cache.Table.{Slot, Cache}
use oj_windows.Cache.Intern.{
  same_chars, is_for, find, behind, trim_reuse, found, looked, look_up, lockless_end,
  lockless_intern,
}
use oj_windows.Cache.Chains.{Each, Each-get, weight, weights}
use oj_windows.Cache.Sound.{IsHome, Holds}
use oj_windows.Cache.Forms.{is_for-key, Finds, find-Finds, place-Holds}

pub same_chars-same : (k : Bytes) → same_chars (length k) k k ≡ true
unfolding same_chars
same_chars-same [] = refl
same_chars-same (b ∷ k) = ground (arith, same_chars-same k)

module _ {V : Type 0} (f : Bytes → V) (k : Bytes) where
  -- One for a slot of the key.
  abbrev pub one_for : Slot V → ℕ
  one_for s = if is_for k s then 1 else 0

  -- A slot that is written for the key.
  pub new-for :
      (uses h : ℕ) (v : V)
      → is_for k (record { val = v; hash = h; use_cnt = uses; klen = length k % 2 ^ 8; key = k })
        ≡ true
  unfolding is_for
  new-for uses h v = ground (arith, same_chars-same k)

  module _ (l : length k < 256) (size : ℕ) where
    chain-home :
        (j : ℕ) (chain : List (Slot V))
        → All (IsHome f size j) chain
        → 0 < weight one_for chain
        → hash_calc k % size ≡ j
    chain-home j [] h p = absurd (omega (arith, p))
    chain-home j (s ∷ chain) h p = elim (Bool-cases (is_for k s)) [
      | inl e ↦
          ap (λ b. hash_calc b % size) (sym (is_for-key f k s l h.0.0 e))
          ∙ ap (λ n. n % size) (sym h.0.0.hash)
          ∙ h.0.1
      | inr e ↦ chain-home j chain h.1 (ground (arith, e, p))
    ]

    table-home :
        (j : ℕ) (table : List (List (Slot V)))
        → Each (IsHome f size) j table
        → 0 < weights one_for table
        → (m : ℕ) × (hash_calc k % size ≡ j + m)
          × (chain : List (Slot V)) × (get_elem? table m ≡ some chain)
          × (0 < weight one_for chain)
    table-home j [] h p = absurd (omega (arith, p))
    table-home j (chain ∷ table) h p = elim (Bool-cases (ltb 0 (weight one_for chain))) [
      | inl e ↦
          let q = ltb→lt 0 (weight one_for chain) e in
          (0, omega (arith, chain-home j chain h.0 q), chain, refl, q)
      | inr e ↦
          let (m, a, c, g, q) = table-home (suc j) table h.1 (ground (arith, e, p)) in
          (suc m, omega (arith, a), c, g, q)
    ]

  found_behind :
      (s : Slot V) (o : Option (V × List (Slot V)))
      → (v : V) × (c : List (Slot V)) × (o ≡ some (v, c))
      → (v : V) × (c : List (Slot V)) × (behind s o ≡ some (v, c))
  unfolding behind
  found_behind s o (v, c, e) = (v, s ∷ c, ap (behind s) e)

  find-some :
      (uses : ℕ) (chain : List (Slot V))
      → 0 < weight one_for chain
      → (v : V) × (c : List (Slot V)) × (find uses k chain ≡ some (v, c))
  unfolding find
  find-some uses [] p = absurd (omega (arith, p))
  find-some uses (s ∷ chain) p = elim (Bool-cases (is_for k s)) [
    | inl e ↦ rw e (_, _, refl)
    | inr e ↦
        rw e (found_behind s (find uses k chain) (find-some uses chain (ground (arith, e, p))))
  ]

  -- The chain that a walk gives back has a slot of the key.
  abbrev pub HasSlot : Option (V × List (Slot V)) → Type 0
  HasSlot none = Unit
  HasSlot (some (v, chain)) = 0 < weight one_for chain

  behind-HasSlot : (s : Slot V) (o : Option (V × List (Slot V))) → HasSlot o → HasSlot (behind s o)
  unfolding behind
  behind-HasSlot s none h = tt
  behind-HasSlot s (some (v, chain)) h = omega (arith, h)

  pub find-HasSlot : (uses : ℕ) (chain : List (Slot V)) → HasSlot (find uses k chain)
  unfolding find is_for
  find-HasSlot uses [] = tt
  find-HasSlot uses (s ∷ chain) = elim (Bool-cases (is_for k s)) [
    | inl e ↦ rw e (ground (arith, e))
    | inr e ↦ rw e (behind-HasSlot s (find uses k chain) (find-HasSlot uses chain))
  ]

  pub set-pos :
      (table : List (List (Slot V))) (i : ℕ) (xs ys : List (Slot V))
      → get_elem? table i ≡ some xs
      → 0 < weight one_for ys
      → 0 < weights one_for (set table i ys)
  set-pos [] i xs ys e h = cc
  set-pos (zs ∷ table) zero xs ys e h = omega (arith, h)
  set-pos (zs ∷ table) (suc i) xs ys e h = omega (arith, set-pos table i xs ys e h)

  module _ (c : Cache V) (l : length k < 256) (h : Holds f c)
      (p : 0 < weights one_for c.slots) where
    -- With a slot of the key anywhere in the table, the walk through the chain of its hash ends at the form
    -- of the key.
    found_at :
        (uses : ℕ)
        → (chain d : List (Slot V)) × (get_elem? c.slots (bit_and (hash_calc k) c.mask)
            ≡ some chain)
          × (find uses k chain ≡ some (f k, d))
    found_at uses =
        let (m, a, chain, g, q) = table-home l c.size 0 c.slots h.slots p in
        let place : bit_and (hash_calc k) c.mask ≡ m =
          (place-Holds f c h (hash_calc k)).0 ∙ a ∙ omega arith in
        let (v, d, e) = find-some uses chain q in
        let form : v ≡ f k =
          (subst (λ o. Finds f c.size m k o) e
            (find-Finds f c.size m uses k chain l
              (Each-get (IsHome f c.size) m c.slots chain h.slots g))).0 in
        (chain, d, ap (get_elem? c.slots) place ∙ g, e ∙ ap (λ v. some (v, d)) form)

    -- The look-up finds the form then, and adds nothing.
    pub look_up-hit : (e : Cache V) × (look_up c k ≡ ok (found (f k), e)) × (e.cnt ≡ c.cnt)
    unfolding look_up looked trim_reuse
    look_up-hit =
        let t = trim_reuse c in
        let at = bit_and (hash_calc k) t.mask in
        let (chain, d, g, e) = found_at 4 in
        (
          record t { slots = set t.slots at d },
          ap (λ x. there x >>= λ chain. ok (looked (hash_calc k) at t (find 4 k chain))) g
              ∙ ap (λ o. ok (looked (hash_calc k) at t o)) e,
          refl,
        )

    pub lockless_intern-hit : (e : Cache V) × (lockless_intern c k ≡ ok (f k, e)) × (e.cnt ≡ c.cnt)
    unfolding lockless_intern lockless_end trim_reuse
    lockless_intern-hit =
        let t = trim_reuse c in
        let at = bit_and (hash_calc k) t.mask in
        let (chain, d, g, e) = found_at 16 in
        (
          record t { slots = set t.slots at d },
          ap (λ x. there x >>= λ chain. lockless_end (hash_calc k) at k t (find 16 k chain)) g
              ∙ ap (λ o. lockless_end (hash_calc k) at k t o) e,
          refl,
        )
