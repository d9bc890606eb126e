-- ===== src/Cache/Sound.antt =====
-- The invariant of the table in ext/oj_windows/cache.c, and that rehash keeps it and every slot.
use Prim.Native.Nat.{bit_and}
use oj_windows.Base.{
  ℕ, ◌+◌, ◌-◌, ◌%◌, ◌^◌, ◌<◌, ◌≡◌, refl, ap, ◌∙◌, subst, List, [], ◌∷◌, Bytes, IsKey, All, length,
  set, length-set, arith,
}
use oj_windows.Parser.State.{ok, ◌>>=◌}
use oj_windows.Cells.{there}
use oj_windows.Cache.Hash.{hash_calc}
use oj_windows.Cache.Table.{Slot, Cache, push_slot, move_chain}
use oj_windows.Cache.Chains.{
  Each, Each-get, Each-set, get_elem?-inside, weight, weights, weights-set,
}

module _ {V : Type 0} (f : Bytes → V) where
  -- A slot keeps the form and the hash of its key.
  pub record IsSlot (s : Slot V) : Type 0 where
    pub val : s.val ≡ f s.key
    pub key : IsKey s.key
    pub klen : s.klen ≡ length s.key
    pub hash : s.hash ≡ hash_calc s.key

  -- It stands in the chain of its hash.
  abbrev pub IsHome : ℕ → ℕ → Slot V → Type 0
  IsHome size i s = IsSlot s × (s.hash % size ≡ i)

  pub record Holds (c : Cache V) : Type 0 where
    pub shift : ℕ
    pub size : c.size ≡ 2 ^ shift
    pub mask : c.mask ≡ 2 ^ shift - 1
    pub form : c.form ≡ f
    pub length : length c.slots ≡ c.size
    pub slots : Each (IsHome c.size) 0 c.slots

-- What a table is behind a loop: as long as before, its slots with the property of their index, and every
-- slot there still, whatever the weight that slots are given.
module _ {V : Type 0} where
  pub record Moved (P : ℕ → Slot V → Type 0) (n : ℕ) (w : Slot V → ℕ) (total : ℕ)
      (t : List (List (Slot V))) : Type 0 where
    pub length : length t ≡ n
    pub each : Each P 0 t
    pub weight : weights w t ≡ total

  pub push_slot-Moved :
      (P : ℕ → Slot V → Type 0) {n : ℕ} {w : Slot V → ℕ} {total : ℕ} {t : List (List (Slot V))}
      (h : ℕ) (s : Slot V)
      → Moved P n w total t
      → h < n
      → P h s
      → (u : List (List (Slot V))) × (push_slot h s t ≡ ok u) × Moved P n w (w s + total) u
  unfolding push_slot
  push_slot-Moved P {n} {w} {total} {t} h s m below p =
      let (chain, e) = get_elem?-inside t h (omega (arith, m.length)) in
      (
        set t h (s ∷ chain),
        ap (λ x. there x >>= λ chain. ok (set t h (s ∷ chain))) e,
        record {
          length = length-set t h (s ∷ chain) ∙ m.length;
          each = Each-set P h t (s ∷ chain) m.each (p, Each-get P h t chain m.each e);
          weight = omega (arith, weights-set w t h chain (s ∷ chain) e, m.weight);
        },
      )

  pub move_chain-Moved :
      (P : ℕ → Slot V → Type 0) {n : ℕ} {w : Slot V → ℕ} (mask : ℕ) (chain : List (Slot V))
      {total : ℕ} {t : List (List (Slot V))}
      → Moved P n w total t
      → All (λ s. (bit_and s.hash mask < n) × P (bit_and s.hash mask) s) chain
      → (u : List (List (Slot V))) × (move_chain mask chain t ≡ ok u)
        × Moved P n w (weight w chain + total) u
  unfolding move_chain
  move_chain-Moved P {n} {w} mask [] {total} {t} m h =
      let e : total ≡ 0 + total = omega arith in (t, refl, subst (λ x. Moved P n w x t) e m)
  move_chain-Moved P {n} {w} mask (s ∷ chain) {total} {t} m h =
      let (u, e, k) = push_slot-Moved P (bit_and s.hash mask) s m h.0.0 h.0.1 in
      let (v, g, l) = move_chain-Moved P mask chain k h.1 in
      let e' : weight w chain + (w s + total) ≡ w s + weight w chain + total = omega arith in
      (v, ap (λ x. x >>= move_chain mask chain) e ∙ g, subst (λ x. Moved P n w x v) e' l)
