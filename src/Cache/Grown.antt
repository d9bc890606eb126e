-- ===== src/Cache/Grown.antt =====
-- Rehash in ext/oj_windows/cache.c: every slot goes home in the table that is four times as large.
use Prim.Native.Nat.{bit_and}
use oj_windows.Base.{
  ℕ, zero, suc, ◌+◌, ◌-◌, ◌*◌, ◌%◌, ◌^◌, ◌≤◌, ◌<◌, ◌≡◌, ◌≢◌, ◌⊎◌, inl, inr, refl, sym, ap, ◌∙◌,
  subst, List, [], ◌++◌, Bytes, All, length, ltb, ltb→lt, Bool-cases, set, replicate, length-set,
  length-append, length-replicate, arith,
}
use oj_windows.Base.Bits.{bit_and_mask}
use native.Mathlib.Nat.{mod-lt, one-le-pow, mod-eq_of_lt, mod-mod_of_dvd, dvd-mul_right}
use native.Mathlib.Numerals.{unary_clauses}
use oj_windows.Parser.State.{ok, ◌>>=◌}
use oj_windows.Cells.{there}
use oj_windows.Cache.Table.{Slot, Cache, move_chain, move_chains, rehash}
use oj_windows.Cache.Chains.{
  All-map, Each-map, Each-get, Each-clear, Each-longer, get_elem?-inside, weight, weights,
  weights-set, weights-longer,
}
use oj_windows.Cache.Sound.{IsSlot, IsHome, Holds, Moved, move_chain-Moved}

-- Where a hash goes in the larger table, if not behind the smaller one, is where it was.
home_or_behind : (h n : ℕ) → h % (n * 4) < n → h % (n * 4) ≡ h % n
home_or_behind h n l = sym (mod-eq_of_lt l) ∙ mod-mod_of_dvd n h (dvd-mul_right n 4)

module _ {V : Type 0} (f : Bytes → V) (n : ℕ) where
  -- With the chains before `i` moved: a slot is at home in the larger table, or not moved yet.
  abbrev IsMoving : ℕ → ℕ → Slot V → Type 0
  IsMoving i j s =
      IsSlot f s × (i ≤ j → j < n → s.hash % n ≡ j) × ((j < i) ⊎ (n ≤ j) → s.hash % (n * 4) ≡ j)

  IsHome-IsMoving : 0 < n → (j : ℕ) (s : Slot V) → IsHome f n j s → IsMoving 0 j s
  IsHome-IsMoving pos j s (h, e) = (h, λ _ _. e, later)
    where
      later : (j < 0) ⊎ (n ≤ j) → s.hash % (n * 4) ≡ j
      later (inl p) = absurd (omega (arith, p))
      later (inr p) = absurd (omega (arith, p, e, mod-lt s.hash pos))

  side : (j : ℕ) → (j < n) ⊎ (n ≤ j)
  side j = elim (Bool-cases (ltb j n)) [
    | inl e ↦ inl (ltb→lt j n e)
    | inr e ↦ inr (ground (arith, e))
  ]

  IsMoving-IsHome : (j : ℕ) (s : Slot V) → IsMoving n j s → IsHome f (n * 4) j s
  IsMoving-IsHome j s (h, a, b) = (h, b (side j))

  next-IsMoving : (i j : ℕ) (s : Slot V) → IsMoving i j s × (j ≢ i) → IsMoving (suc i) j s
  next-IsMoving i j s ((h, a, b), e) = (h, λ p q. a (omega (arith, p)) q, later)
    where
      later : (j < suc i) ⊎ (n ≤ j) → s.hash % (n * 4) ≡ j
      later (inl p) = b (inl (ground (arith, p, e)))
      later (inr p) = b (inr p)

  -- The slots of chain `i` go on to where they are at home.
  goes-IsMoving :
      (i : ℕ) (s : Slot V) → i < n → IsMoving i i s → IsMoving (suc i) (s.hash % (n * 4)) s
  goes-IsMoving i s l (h, a, b) = (
    h,
    λ p q.
        let e = home_or_behind s.hash n q in
        let g = a (omega arith) l in absurd (omega (arith, p, e, g)),
    λ _. refl,
  )

module _ {V : Type 0} (f : Bytes → V) (k n : ℕ) (size : n * 4 ≡ 2 ^ k) (w : Slot V → ℕ) where
  lands : (h : ℕ) → (bit_and h (n * 4 - 1) ≡ h % (n * 4)) × (h % (n * 4) < n * 4)
  lands h =
      let e : bit_and h (n * 4 - 1) ≡ h % (n * 4) =
        subst (λ m. bit_and h (m - 1) ≡ h % m) (sym size) (bit_and_mask k h) in
      (e, mod-lt h (subst (λ m. 0 < m) (sym size) (one-le-pow k 2 (omega arith))))

  chain-goes :
      (i : ℕ)
      → i < n
      → (chain : List (Slot V)) → All (IsMoving f n i i) chain
      → All
          (λ s.
            (bit_and s.hash (n * 4 - 1) < n * 4)
            × IsMoving f n (suc i) (bit_and s.hash (n * 4 - 1)) s)
          chain
  chain-goes i l chain h =
      All-map (IsMoving f n i i) _
        (λ (s : Slot V) (m : IsMoving f n i i s).
          let (e, b) = lands s.hash in
          (
            subst (λ x. x < n * 4) (sym e) b,
            subst (λ x. IsMoving f n (suc i) x s) (sym e) (goes-IsMoving f n i s l m),
          ))
        chain h

  move_chains-Moved :
      (todo i total : ℕ) (t : List (List (Slot V)))
      → i + todo ≡ n
      → Moved (IsMoving f n i) (n * 4) w total t
      → (u : List (List (Slot V))) × (move_chains (n * 4 - 1) todo i t ≡ ok u)
        × Moved (IsMoving f n n) (n * 4) w total u
  unfolding move_chains
  move_chains-Moved zero i total t e m =
      let g : i ≡ n = omega (arith, e) in
      (t, refl, subst (λ x. Moved (IsMoving f n x) (n * 4) w total t) g m)
  move_chains-Moved (suc todo) i total t e m =
      let l : i < n = omega (arith, e) in
      let (chain, g) = get_elem?-inside t i (omega (arith, m.length, l)) in
      let t' = set t i [] in
      let cleared : Moved (IsMoving f n (suc i)) (n * 4) w (weights w t') t' = record {
        length = length-set t i [] ∙ m.length;
        each =
            Each-map (λ j s. IsMoving f n i j s × (j ≢ i)) (IsMoving f n (suc i))
              (next-IsMoving f n i) 0 t' (Each-clear (IsMoving f n i) i t m.each);
        weight = refl;
      } in
      let (u, a, k) =
        move_chain-Moved (IsMoving f n (suc i)) (n * 4 - 1) chain cleared
          (chain-goes i l chain (Each-get (IsMoving f n i) i t chain m.each g)) in
      let all : weight w chain + weights w t' ≡ total =
        omega (arith, weights-set w t i chain [] g, m.weight) in
      let one : suc i ≡ i + 1 = omega arith in
      let (v, b, r) =
        move_chains-Moved todo (suc i) total u (omega (arith, e))
          (subst (λ x. Moved (IsMoving f n (suc i)) (n * 4) w x u) all k) in
      (
        v,
        ap
              (λ x. there x >>= λ chain.
                move_chain (n * 4 - 1) chain t' >>= move_chains (n * 4 - 1) todo (i + 1))
              g
            ∙ ap (λ x. x >>= move_chains (n * 4 - 1) todo (i + 1)) a
            ∙ ap (λ x. move_chains (n * 4 - 1) todo x u) (sym one)
            ∙ b,
        r,
      )

empty_length : (V : Type 0) (n : ℕ) → length (replicate {A = List V} n []) ≡ n
empty_length V n = length-replicate n []

-- Behind rehash the invariant holds, the table is four times as large, and every slot is there still,
-- whatever the weight that slots are given.
pub rehash-Holds :
    {V : Type 0} (f : Bytes → V) (c : Cache V) (w : Slot V → ℕ)
    → Holds f c
    → (d : Cache V) × (rehash c ≡ ok d)
      × Holds f d
      × (d.size ≡ c.size * 4)
      × (weights w d.slots ≡ weights w c.slots)
unfolding rehash
rehash-Holds {V} f c w h =
    let n = c.size in
    let t = c.slots ++ replicate (n * 3) [] in
    let size : n * 4 ≡ 2 ^ (suc (suc h.shift)) =
      let e : 2 ^ (suc (suc h.shift)) ≡ 2 ^ h.shift * 2 * 2 = simp unary_clauses in
      omega (arith, e, h.size) in
    let start : Moved (IsMoving f n 0) (n * 4) w (weights w c.slots) t = record {
      length = omega (
        arith,
        length-append c.slots (replicate (n * 3) []),
        empty_length (Slot V) (n * 3),
        h.length,
      );
      each = Each-longer (IsMoving f n 0) (n * 3) c.slots (
          Each-map (IsHome f n) (IsMoving f n 0)
            (IsHome-IsMoving f n (omega (arith, h.size, one-le-pow h.shift 2 (omega arith)))) 0
            c.slots h.slots);
      weight = weights-longer w (n * 3) c.slots;
    } in
    let (u, e, m) =
      move_chains-Moved f (suc (suc h.shift)) n size w n 0 (weights w c.slots) t (omega arith)
        start in
    (
      record c { slots = u; size = n * 4; mask = n * 4 - 1 },
      ap (λ x. x >>= λ slots. ok (record c { slots = slots; size = n * 4; mask = n * 4 - 1 })) e,
      record {
        shift = suc (suc h.shift);
        size = size;
        mask = ap (λ x. x - 1) size;
        form = h.form;
        length = m.length;
        slots = Each-map (IsMoving f n n) (IsHome f (n * 4)) (IsMoving-IsHome f n) 0 u m.each;
      },
      refl,
      m.weight,
    )
