-- ===== src/Cache/Forms.antt =====
-- The walk through a chain in ext/oj_windows/cache.c finds a slot of the key itself, and keeps the chain.
use Prim.Native.Nat.{bit_and}
use oj_windows.Base.{
  ℕ, ◌+◌, ◌/◌, ◌%◌, ◌^◌, ◌<◌, ◌≡◌, refl, sym, ap, ◌∙◌, subst, true, Option, none, some, List, [],
  ◌∷◌, Bytes, IsKey, All, length, set, length-set, ltb, if◌then◌else◌, Bool-cases, inl, inr, arith,
}
use oj_windows.Base.Bits.{bit_and_mask}
use native.Mathlib.Nat.{mod-lt, one-le-pow}
use oj_windows.Parser.State.{ok, ◌>>=◌}
use oj_windows.Cache.Hash.{hash_calc}
use oj_windows.Cache.Table.{Slot, Cache, rehash, cache_max_key, rehash_limit}
use oj_windows.Cache.Intern.{
  same_chars, is_for, find, trim_reuse, new_slot, add_slot, taken, behind,
}
use oj_windows.Cache.Chains.{Each-set, weights}
use oj_windows.Cache.Sound.{IsSlot, IsHome, Holds, push_slot-Moved}
use oj_windows.Cache.Grown.{rehash-Holds}

same_chars-eq :
    (a b : Bytes) → length a ≡ length b → IsKey a → same_chars (length b) a b ≡ true → a ≡ b
unfolding same_chars
same_chars-eq [] [] l h e = refl
same_chars-eq [] (y ∷ b) l h e = absurd (omega (arith, l))
same_chars-eq (x ∷ a) [] l h e = absurd (omega (arith, l))
same_chars-eq (x ∷ a) (y ∷ b) l h e =
    let first : x ≡ y = ground (arith, e) in
    let rest : same_chars (length b) a b ≡ true = ground (arith, e, h.0) in
    ap (λ z. z ∷ a) first ∙ ap (λ t. y ∷ t) (same_chars-eq a b (omega (arith, l)) h.1 rest)

module _ {V : Type 0} (f : Bytes → V) where
  pub is_for-key :
      (k : Bytes) (s : Slot V) → length k < 256 → IsSlot f s → is_for k s ≡ true → s.key ≡ k
  unfolding is_for
  is_for-key k s l h e =
      let n : length s.key ≡ length k = ground (arith, e, h.klen) in
      same_chars-eq s.key k n h.key (ground (arith, e))

  -- What is found is the form of the key, and the slots of the chain are the same but for a counter.
  abbrev pub Finds : ℕ → ℕ → Bytes → Option (V × List (Slot V)) → Type 0
  Finds size at k none = Unit
  Finds size at k (some (v, chain)) = (v ≡ f k) × All (IsHome f size at) chain

  pub counted-IsSlot : (s : Slot V) (n : ℕ) → IsSlot f s → IsSlot f (record s { use_cnt = n })
  counted-IsSlot s n h = record { val = h.val; key = h.key; klen = h.klen; hash = h.hash }

  behind-Finds :
      (size at : ℕ) (k : Bytes) (s : Slot V) (o : Option (V × List (Slot V)))
      → IsHome f size at s
      → Finds size at k o
      → Finds size at k (behind s o)
  unfolding behind
  behind-Finds size at k s none h g = tt
  behind-Finds size at k s (some (v, chain)) h g = (g.0, (h, g.1))

  pub find-Finds :
      (size at uses : ℕ) (k : Bytes) (chain : List (Slot V))
      → length k < 256
      → All (IsHome f size at) chain
      → Finds size at k (find uses k chain)
  unfolding find
  find-Finds size at uses k [] l h = tt
  find-Finds size at uses k (s ∷ chain) l h = elim (Bool-cases (is_for k s)) [
    | inl e ↦ rw e (
      h.0.0.val ∙ ap f (is_for-key k s l h.0.0 e),
      ((counted-IsSlot s ((s.use_cnt + uses) % 2 ^ 32) h.0.0, h.0.1), h.1),
    )
    | inr e ↦
        rw e
          (behind-Finds size at k s (find uses k chain) h.0 (find-Finds size at uses k chain l h.1))
  ]

  module _ (c : Cache V) (h : Holds f c) where
    pub trim_reuse-Holds : Holds f (trim_reuse c)
    unfolding trim_reuse
    trim_reuse-Holds = record {
      shift = h.shift;
      size = h.size;
      mask = h.mask;
      form = h.form;
      length = h.length;
      slots = h.slots;
    }

    pub taken-Holds : (l : List (Slot V)) → Holds f (taken l c)
    unfolding taken
    taken-Holds [] = h
    taken-Holds (s ∷ l) = record {
      shift = h.shift;
      size = h.size;
      mask = h.mask;
      form = h.form;
      length = h.length;
      slots = h.slots;
    }

    pub chain-Holds :
        (at : ℕ) (chain : List (Slot V))
        → All (IsHome f c.size at) chain
        → Holds f (record c { slots = set c.slots at chain })
    chain-Holds at chain g = record {
      shift = h.shift;
      size = h.size;
      mask = h.mask;
      form = h.form;
      length = length-set c.slots at chain ∙ h.length;
      slots = Each-set (IsHome f c.size) at c.slots chain h.slots g;
    }

    -- The place of a hash.
    pub place-Holds : (n : ℕ) → (bit_and n c.mask ≡ n % c.size) × (n % c.size < c.size)
    place-Holds n =
        let e : bit_and n c.mask ≡ n % c.size =
          subst (λ m. bit_and n c.mask ≡ n % m) (sym h.size)
            (subst (λ m. bit_and n m ≡ n % 2 ^ h.shift) (sym h.mask) (bit_and_mask h.shift n)) in
        (e, mod-lt n (subst (λ m. 0 < m) (sym h.size) (one-le-pow h.shift 2 (omega arith))))

    -- A new slot at home, also where the table is enlarged for it: all the others are there still.
    pub add_slot-Holds :
        (w : Slot V → ℕ) (at : ℕ) (s : Slot V)
        → at < c.size
        → IsHome f c.size at s
        → (d : Cache V) × (add_slot at s c ≡ ok d)
          × Holds f d
          × (weights w d.slots ≡ w s + weights w c.slots)
    unfolding add_slot
    add_slot-Holds w at s l g =
        let (u, e, m) =
          push_slot-Moved (IsHome f c.size) {n = c.size} {w = w} {total = weights w c.slots} at s
            (record { length = h.length; each = h.slots; weight = refl }) l g in
        let d = record c { slots = u; cnt = (c.cnt + 1) % 2 ^ 64 } in
        let k : Holds f d = record {
          shift = h.shift;
          size = h.size;
          mask = h.mask;
          form = h.form;
          length = m.length;
          slots = m.each;
        } in
        let (d', e', k', z, y) = rehash-Holds f d w k in
        elim (Bool-cases (ltb rehash_limit (d.cnt / d.size))) [
          | inl t ↦ (
            d',
            ap
                  (λ x. x >>= λ slots.
                    let d = record c { slots = slots; cnt = (c.cnt + 1) % 2 ^ 64 } in
                    if ltb rehash_limit (d.cnt / d.size) then rehash d else ok d)
                  e
                ∙ rw t e',
            k',
            y ∙ m.weight,
          )
          | inr t ↦ (
            d,
            ap
                  (λ x. x >>= λ slots.
                    let d = record c { slots = slots; cnt = (c.cnt + 1) % 2 ^ 64 } in
                    if ltb rehash_limit (d.cnt / d.size) then rehash d else ok d)
                  e
                ∙ rw t refl,
            k,
            m.weight,
          )
        ]

    pub taken-size : (l : List (Slot V)) → (taken l c).size ≡ c.size
    unfolding taken
    taken-size [] = refl
    taken-size (s ∷ l) = refl

-- A slot for a key that fits.
pub new_slot-eq :
    {V : Type 0} (uses h : ℕ) (k : Bytes) (v : V)
    → length k < cache_max_key
    → new_slot uses h k v
      ≡ ok (record { val = v; hash = h; use_cnt = uses; klen = length k % 2 ^ 8; key = k })
unfolding new_slot
new_slot-eq uses h k v l = ground arith

pub new-IsSlot :
    {V : Type 0} (f : Bytes → V) (uses : ℕ) (k : Bytes) (v : V)
    → IsKey k
    → length k < cache_max_key
    → v ≡ f k
    → IsSlot f
        (record { val = v; hash = hash_calc k; use_cnt = uses; klen = length k % 2 ^ 8; key = k })
new-IsSlot f uses k v h l e = record { val = e; key = h; klen = omega (arith, l); hash = refl }
