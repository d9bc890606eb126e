-- ===== src/Cache/Interned.antt =====
-- What ext/oj_windows/cache.c's cache_intern gives for a key: its form, in all cases, and the invariant.
use oj_windows.Base.{
  ℕ, ◌<◌, ◌≡◌, sym, ap, ◌∙◌, subst, Bool, true, false, Bytes, IsKey, length, leb, if◌then◌else◌,
  Bool-cases, inl, inr, arith,
}
use oj_windows.Parser.State.{Result, ok}
use oj_windows.Parser.Replay.Rules.{ok-injective}
use oj_windows.Cache.Table.{Cache, cache_max_key}
use oj_windows.Cache.Intern.{
  lockless_intern, Pending, found, pending, look_up, enter, locking_intern, cache_intern,
}
use oj_windows.Cache.Sound.{Holds}
use oj_windows.Cache.Hit.{look_up-hit}
use oj_windows.Cache.Ways.{
  Forms, lockless_intern-Forms, IsPending, Looks, look_up-Looks, enter-IsPending,
  locking_intern-Forms,
}

lt→not_leb : {n m : ℕ} → n < m → leb m n ≡ false
lt→not_leb h = ground (arith, h)

module _ {V : Type 0} (f : Bytes → V) where
  module _ (k : Bytes) (n : IsKey k) (l : length k < cache_max_key) where
    cache_intern-short :
        (c : Cache V)
        → cache_intern c k ≡ (if c.locking then locking_intern c k else lockless_intern c k)
    unfolding cache_intern
    cache_intern-short c = rw (lt→not_leb l)

    short-Forms : (c : Cache V) → Holds f c → Forms f k (cache_intern c k)
    short-Forms c h = subst (Forms f k) (sym (cache_intern-short c)) (either c.locking)
      where
        either : (b : Bool) → Forms f k (if b then locking_intern c k else lockless_intern c k)
        either true = locking_intern-Forms f k n l c h
        either false = lockless_intern-Forms f k n l c h

    -- The form, and a cache with as many slots as before.
    abbrev Again : Cache V → Result (V × Cache V) → Type 0
    Again c res = (e : Cache V) × (res ≡ ok (f k, e)) × (e.cnt ≡ c.cnt)

  -- For a key without NUL, in either way of locking and whether or not the key is short enough for a slot,
  -- cache_intern returns the key's form, and the table keeps its invariant: it is a power of two long, and
  -- each slot stands in the chain of its hash, which is that of its key, with the key's form.
  pub cache_intern-form :
      (c : Cache V) (k : Bytes)
      → Holds f c
      → IsKey k
      → (d : Cache V) × (cache_intern c k ≡ ok (f k, d)) × Holds f d
  unfolding cache_intern
  cache_intern-form c k h n = elim (Bool-cases (leb cache_max_key (length k))) [
    | inl e ↦ rw e (c, ap (λ (p : Bytes → V). ok (p k, c)) h.form, h)
    | inr e ↦ let (d, a, b, p) = short-Forms k n (ground (arith, e)) c h in (d, a, b)
  ]

  -- A thread of locking_intern that has not found its key in a table with the invariant, and comes back
  -- to one with the invariant, whatever other threads have made of it in between, enters the key
  -- and keeps the invariant, also where the table has been enlarged: the next look-up of the key finds its
  -- form.
  pub enter-Holds :
      (c c' d : Cache V) (k : Bytes) (p : Pending)
      → Holds f c
      → IsKey k
      → length k < cache_max_key
      → look_up c k ≡ ok (pending p, c')
      → Holds f d
      → (e : Cache V) × (enter p k (d.form k) d ≡ ok e)
        × Holds f e
        × (e' : Cache V) × (look_up e k ≡ ok (found (f k), e'))
  enter-Holds c c' d k p h n l e g =
      let (r, i, m) = look_up-Looks f k n l c h in
      let same : r ≡ (pending p, c') = ok-injective (sym i ∙ e) in
      let q : IsPending f k n l p = (subst (λ r. Looks f k n l r) same m).0 in
      let (x, a, b, w) =
        enter-IsPending f k n l p (d.form k) d q (ap (λ (p : Bytes → V). p k) g.form) g in
      let (e', z, z') = look_up-hit f k x (omega (arith, l)) b w in (x, a, b, e', z)
