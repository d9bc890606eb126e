-- ===== src/Cache/Ways.antt =====
-- The two ways of interning in ext/oj_windows/cache.c: each gives the form of the key and leaves a slot of it.
use Prim.Native.Nat.{bit_and}
use oj_windows.Base.{
  ℕ, ◌%◌, ◌^◌, ◌<◌, ◌≡◌, refl, sym, ap, ◌∙◌, subst, ◌+◌, true, get_elem?, Option, none, some, List,
  Bytes, IsKey, length, set, ◌==◌, ==_iff, Bool-cases, inl, inr, arith,
}
use oj_windows.Parser.State.{Result, ok, ◌>>=◌}
use oj_windows.Parser.Replay.Rules.{bind_assoc}
use oj_windows.Cells.{there}
use oj_windows.Cache.Hash.{hash_calc}
use oj_windows.Cache.Table.{Slot, Cache, cache_max_key}
use oj_windows.Cache.Intern.{
  is_for, find, trim_reuse, take_reuse, new_slot, add_slot, lockless_intern, lockless_end, Pending,
  Looked, found, pending, looked, look_up, enter, finish_intern, locking_intern,
}
use oj_windows.Cache.Chains.{Each-get, get_elem?-inside, weights}
use oj_windows.Cache.Sound.{IsHome, Holds}
use oj_windows.Cache.Hit.{one_for, new-for, HasSlot, find-HasSlot, set-pos}
use oj_windows.Cache.Forms.{
  Finds, find-Finds, trim_reuse-Holds, taken-Holds, taken-size, chain-Holds, place-Holds,
  add_slot-Holds, new_slot-eq, new-IsSlot,
}

module _ {V : Type 0} (f : Bytes → V) where
  -- The key's form, with a cache that keeps forms and has a slot of the key.
  abbrev pub Forms : Bytes → Result (V × Cache V) → Type 0
  Forms k res =
      (d : Cache V) × (res ≡ ok (f k, d)) × Holds f d × (0 < weights (one_for f k) d.slots)

  has_one :
      (k : Bytes) (s : Slot V) (m : ℕ) {n : ℕ} → is_for k s ≡ true → n ≡ one_for f k s + m → 0 < n
  has_one k s m e y = ground (arith, e, y)

  -- A new slot, written and added: the key has one then.
  new-Forms :
      (uses h at : ℕ) (k : Bytes) (v : V) (c : Cache V)
      → Holds f c
      → IsKey k
      → length k < cache_max_key
      → v ≡ f k
      → h ≡ hash_calc k
      → at ≡ hash_calc k % c.size
      → (d : Cache V) × ((new_slot uses h k v >>= λ s. add_slot at s c) ≡ ok d)
        × Holds f d
        × (0 < weights (one_for f k) d.slots)
  new-Forms uses h at k v c g n l e a b =
      let s : Slot V = record {
        val = v;
        hash = hash_calc k;
        use_cnt = uses;
        klen = length k % 2 ^ 8;
        key = k;
      } in
      let (d, i, m, y) =
        add_slot-Holds f c g (one_for f k) (hash_calc k % c.size) s
          (place-Holds f c g (hash_calc k)).1 (new-IsSlot f uses k v n l e, refl) in
      (
        d,
        (λ i. new_slot uses (a i) k v >>= λ s. add_slot (b i) s c)
            ∙ ap (λ x. x >>= λ s. add_slot (hash_calc k % c.size) s c)
                (new_slot-eq uses (hash_calc k) k v l)
            ∙ i,
        m,
        has_one k s (weights (one_for f k) c.slots) (new-for f k uses (hash_calc k) v) y,
      )

  module _ (k : Bytes) (n : IsKey k) (l : length k < cache_max_key) where
    take_reuse-Holds : (c : Cache V) → Holds f c → Holds f (take_reuse c)
    unfolding take_reuse
    take_reuse-Holds c h = taken-Holds f c h c.reuse

    take_reuse-size : (c : Cache V) → Holds f c → (take_reuse c).size ≡ c.size
    unfolding take_reuse
    take_reuse-size c h = taken-size f c h c.reuse

    lockless_end-Forms :
        (at : ℕ) (c : Cache V) (o : Option (V × List (Slot V)))
        → Holds f c
        → at ≡ hash_calc k % c.size
        → Finds f c.size at k o
        → (chain : List (Slot V)) → get_elem? c.slots at ≡ some chain
        → HasSlot f k o
        → Forms k (lockless_end (hash_calc k) at k c o)
    unfolding lockless_end
    lockless_end-Forms at c (some (v, chain)) h e g xs q z = (
      record c { slots = set c.slots at chain },
      ap (λ v. ok (v, record c { slots = set c.slots at chain })) g.0,
      chain-Holds f c h at chain g.1,
      set-pos f k c.slots at xs chain q z,
    )
    lockless_end-Forms at c none h e g xs q z =
        let form : c.form k ≡ f k = ap (λ (p : Bytes → V). p k) h.form in
        let (d, i, m, y) =
          new-Forms 4 (hash_calc k) at k (c.form k) (take_reuse c) (take_reuse-Holds c h) n l form
            refl (e ∙ ap (λ m. hash_calc k % m) (sym (take_reuse-size c h))) in
        (
          d,
          sym (
                bind_assoc (new_slot 4 (hash_calc k) k (c.form k))
                  (λ s. add_slot at s (take_reuse c)) (λ d. ok (c.form k, d)))
              ∙ ap (λ x. x >>= λ d. ok (c.form k, d)) i
              ∙ ap (λ v. ok (v, d)) form,
          m,
          y,
        )

    pub lockless_intern-Forms : (c : Cache V) → Holds f c → Forms k (lockless_intern c k)
    unfolding lockless_intern
    lockless_intern-Forms c h =
        let t = trim_reuse c in
        let g = trim_reuse-Holds f c h in
        let at = bit_and (hash_calc k) c.mask in
        let (e, b) = place-Holds f c h (hash_calc k) in
        let (chain, q) =
          get_elem?-inside t.slots at
            (subst (λ x. at < x) (sym g.length) (subst (λ x. x < t.size) (sym e) b)) in
        let (d, i, m, y) =
          lockless_end-Forms at t (find 16 k chain) g e
            (find-Finds f t.size at 16 k chain (omega arith)
              (Each-get (IsHome f t.size) at t.slots chain g.slots q))
            chain q (find-HasSlot f k 16 chain) in
        (
          d,
          ap (λ x. there x >>= λ chain. lockless_end (hash_calc k) at k t (find 16 k chain)) q ∙ i,
          m,
          y,
        )

    -- What a thread of locking_intern keeps while it has no lock.
    abbrev pub IsPending : Pending → Type 0
    IsPending p = (p.hash ≡ hash_calc k) × (p.bucket ≡ hash_calc k % p.old_size)

    abbrev pub Looks : Looked V × Cache V → Type 0
    Looks (found v, d) = (v ≡ f k) × Holds f d × (0 < weights (one_for f k) d.slots)
    Looks (pending p, d) = IsPending p × Holds f d

    looked-Looks :
        (at : ℕ) (c : Cache V) (o : Option (V × List (Slot V)))
        → Holds f c
        → at ≡ hash_calc k % c.size
        → Finds f c.size at k o
        → (chain : List (Slot V)) → get_elem? c.slots at ≡ some chain
        → HasSlot f k o
        → Looks (looked (hash_calc k) at c o)
    unfolding looked
    looked-Looks at c (some (v, chain)) h e g xs q z =
        (g.0, chain-Holds f c h at chain g.1, set-pos f k c.slots at xs chain q z)
    looked-Looks at c none h e g xs q z = ((refl, e), take_reuse-Holds c h)

    pub look_up-Looks :
        (c : Cache V) → Holds f c → (r : Looked V × Cache V) × (look_up c k ≡ ok r) × Looks r
    unfolding look_up
    look_up-Looks c h =
        let t = trim_reuse c in
        let g = trim_reuse-Holds f c h in
        let at = bit_and (hash_calc k) t.mask in
        let (e, b) = place-Holds f t g (hash_calc k) in
        let (chain, q) =
          get_elem?-inside t.slots at
            (subst (λ x. at < x) (sym g.length) (subst (λ x. x < t.size) (sym e) b)) in
        (
          looked (hash_calc k) at t (find 4 k chain),
          ap (λ x. there x >>= λ chain. ok (looked (hash_calc k) at t (find 4 k chain))) q,
          looked-Looks at t (find 4 k chain) g e
              (find-Finds f t.size at 4 k chain (omega arith)
                (Each-get (IsHome f t.size) at t.slots chain g.slots q))
              chain q (find-HasSlot f k 4 chain),
        )

    pub enter-IsPending :
        (p : Pending) (v : V) (c : Cache V)
        → IsPending p
        → v ≡ f k
        → Holds f c
        → (d : Cache V) × (enter p k v c ≡ ok d) × Holds f d × (0 < weights (one_for f k) d.slots)
    unfolding enter
    enter-IsPending p v c (a, b) e h = elim (Bool-cases (p.old_size == c.size)) [
      | inl t ↦
          let same : p.bucket ≡ hash_calc k % c.size =
            b ∙ ap (λ m. hash_calc k % m) ((==_iff p.old_size c.size).0 t) in
          rw t (new-Forms 16 p.hash p.bucket k v c h n l e a same)
      | inr t ↦ rw t (
          new-Forms 16 p.hash (bit_and (hash_calc k) c.mask) k v c h n l e a
            (place-Holds f c h (hash_calc k)).0)
    ]

    finish_intern-Forms : (r : Looked V × Cache V) → Looks r → Forms k (finish_intern k r)
    unfolding finish_intern
    finish_intern-Forms (found v, c) g = (c, ap (λ v. ok (v, c)) g.0, g.1, g.2)
    finish_intern-Forms (pending p, c) g =
        let form : c.form k ≡ f k = ap (λ (p : Bytes → V). p k) g.1.form in
        let (d, i, m, y) = enter-IsPending p (c.form k) c g.0 form g.1 in
        (d, ap (λ x. x >>= λ d. ok (c.form k, d)) i ∙ ap (λ v. ok (v, d)) form, m, y)

    pub locking_intern-Forms : (c : Cache V) → Holds f c → Forms k (locking_intern c k)
    unfolding locking_intern
    locking_intern-Forms c h =
        let (r, e, g) = look_up-Looks c h in
        let (d, i, m, y) = finish_intern-Forms r g in
        (d, ap (λ x. x >>= finish_intern k) e ∙ i, m, y)
