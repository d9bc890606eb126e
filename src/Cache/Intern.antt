-- ===== src/Cache/Intern.antt =====
-- ext/oj_windows/cache.c: lockless_intern, locking_intern and cache_intern.
use Prim.Native.Nat.{bit_and}
use oj_windows.Base.{
  ℕ, zero, suc, ◌+◌, ◌-◌, ◌/◌, ◌%◌, ◌^◌, Bool, true, ◌&&◌, ◌||◌, Option, none, some, List, [], ◌∷◌,
  Bytes, length, get_elem?, set, ltb, leb, ◌==◌, if◌then◌else◌,
}
use oj_windows.Parser.State.{Result, ok, fault, ◌>>=◌}
use oj_windows.Cells.{there}
use oj_windows.Cache.Hash.{hash_calc}
use oj_windows.Cache.Table.{Slot, Cache, rehash_limit, reuse_max, cache_max_key, push_slot, rehash}

-- `0 == strncmp(a, b, n)`; the byte behind a string is NUL.
unfoldable pub same_chars : ℕ → Bytes → Bytes → Bool
same_chars zero xs ys = true
same_chars (suc n) [] [] = true
same_chars (suc n) [] (y ∷ ys) = y == 0
same_chars (suc n) (x ∷ xs) [] = x == 0
same_chars (suc n) (x ∷ xs) (y ∷ ys) = (x == y) && ((x == 0) || same_chars n xs ys)

-- What locking_intern keeps while it has no lock: where the slot was to go in a table of that size.
pub record Pending : Type 0 where
  pub hash : ℕ
  pub bucket : ℕ
  pub old_size : ℕ

pub data Looked (V : Type 0) : Type 0 where
  found : V → Looked V
  pending : Pending → Looked V

module _ {V : Type 0} where
  -- `(uint8_t)len == b->klen && 0 == strncmp(b->key, key, len)`
  unfoldable pub is_for : Bytes → Slot V → Bool
  unfolding same_chars
  is_for key s = (length key % 2 ^ 8 == s.klen) && same_chars (length key) s.key key

  unfoldable pub behind : Slot V → Option (V × List (Slot V)) → Option (V × List (Slot V))
  behind s none = none
  behind s (some (v, chain)) = some (v, s ∷ chain)

  -- The walk through a chain: the value of the slot for the key, and the chain with its counter raised.
  unfoldable pub find : ℕ → Bytes → List (Slot V) → Option (V × List (Slot V))
  unfolding is_for behind
  find uses key [] = none
  find uses key (s ∷ chain) =
      if is_for key s
      then some (s.val, record s { use_cnt = (s.use_cnt + uses) % 2 ^ 32 } ∷ chain)
      else behind s (find uses key chain)

  -- `while (REUSE_MAX < c->rcnt) { ... }`
  unfoldable pub trim : List (Slot V) → ℕ → List (Slot V) × ℕ
  trim [] n = ([], if ltb reuse_max n then 0 else n)
  trim (s ∷ reuse) n =
      let more = trim reuse (n - 1) in if ltb reuse_max n then more else (s ∷ reuse, n)

  unfoldable pub trim_reuse : Cache V → Cache V
  unfolding trim
  trim_reuse c = let (reuse, n) = trim c.reuse c.rcnt in record c { reuse = reuse; rcnt = n }

  -- A slot to use again, if there is one: its contents are all written anew.
  unfoldable pub taken : List (Slot V) → Cache V → Cache V
  taken [] c = c
  taken (s ∷ reuse) c = record c { reuse = reuse; rcnt = c.rcnt - 1 }

  unfoldable pub take_reuse : Cache V → Cache V
  unfolding taken
  take_reuse c = taken c.reuse c

  -- The contents of a new slot: the NUL behind the key is to fit.
  unfoldable pub new_slot : ℕ → ℕ → Bytes → V → Result (Slot V)
  new_slot uses h key v =
      if ltb (length key) cache_max_key
      then ok (record { val = v; hash = h; use_cnt = uses; klen = length key % 2 ^ 8; key = key })
      else fault

  -- The slot becomes the first of its chain, and a table that is full is enlarged.
  unfoldable pub add_slot : ℕ → Slot V → Cache V → Result (Cache V)
  unfolding push_slot rehash
  add_slot at s c = do
    slots ← push_slot at s c.slots
    let d = record c { slots = slots; cnt = (c.cnt + 1) % 2 ^ 64 }
    if ltb rehash_limit (d.cnt / d.size) then rehash d else ok d

  -- What lockless_intern does with the slot that it has found, or without one.
  unfoldable pub lockless_end :
      ℕ → ℕ → Bytes → Cache V → Option (V × List (Slot V)) → Result (V × Cache V)
  unfolding take_reuse new_slot add_slot
  lockless_end h at key c (some (v, chain)) = ok (v, record c { slots = set c.slots at chain })
  lockless_end h at key c none = do
    s ← new_slot 4 h key (c.form key)
    d ← add_slot at s (take_reuse c)
    ok (c.form key, d)

  unfoldable pub lockless_intern : Cache V → Bytes → Result (V × Cache V)
  unfolding hash_calc trim_reuse find lockless_end
  lockless_intern cache key =
      let h = hash_calc key in
      let at = bit_and h cache.mask in
      let c = trim_reuse cache in
      there (get_elem? c.slots at) >>= λ chain. lockless_end h at key c (find 16 key chain)

  -- locking_intern up to its first unlock, and behind its second lock. Other threads may come between.
  unfoldable pub looked : ℕ → ℕ → Cache V → Option (V × List (Slot V)) → Looked V × Cache V
  unfolding take_reuse
  looked h at c (some (v, chain)) = (found v, record c { slots = set c.slots at chain })
  looked h at c none = (pending (record { hash = h; bucket = at; old_size = c.size }), take_reuse c)

  unfoldable pub look_up : Cache V → Bytes → Result (Looked V × Cache V)
  unfolding hash_calc trim_reuse find looked
  look_up cache key =
      let h = hash_calc key in
      let c = trim_reuse cache in
      let at = bit_and h c.mask in
      there (get_elem? c.slots at) >>= λ chain. ok (looked h at c (find 4 key chain))

  unfoldable pub enter : Pending → Bytes → V → Cache V → Result (Cache V)
  unfolding hash_calc new_slot add_slot
  enter p key v c =
      let at = if p.old_size == c.size then p.bucket else bit_and (hash_calc key) c.mask in
      new_slot 16 p.hash key v >>= λ s. add_slot at s c

  unfoldable pub finish_intern : Bytes → Looked V × Cache V → Result (V × Cache V)
  unfolding enter
  finish_intern key (found v, c) = ok (v, c)
  finish_intern key (pending p, c) = enter p key (c.form key) c >>= λ d. ok (c.form key, d)

  -- With no other thread between.
  unfoldable pub locking_intern : Cache V → Bytes → Result (V × Cache V)
  unfolding look_up finish_intern
  locking_intern cache key = look_up cache key >>= finish_intern key

  unfoldable pub cache_intern : Cache V → Bytes → Result (V × Cache V)
  unfolding lockless_intern locking_intern
  cache_intern c key =
      if leb cache_max_key (length key)
      then ok (c.form key, c)
      else if c.locking
      then locking_intern c key
      else lockless_intern c key
