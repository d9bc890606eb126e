-- ===== src/Cache/Table.antt =====
-- ext/oj_windows/cache.c: slots, the table, cache_create and rehash.
use Prim.Native.Nat.{bit_and}
use oj_windows.Base.{
  ℕ, zero, suc, ◌+◌, ◌-◌, ◌*◌, ◌/◌, ◌^◌, Bool, List, [], ◌∷◌, ◌++◌, Bytes, get_elem?, set,
  replicate, ltb, if◌then◌else◌,
}
use oj_windows.Parser.State.{Result, ok, ◌>>=◌}
use oj_windows.Cells.{there}

-- `next` is the place in the list that the slot stands in. `key` has `klen` bytes and a NUL.
pub record Slot (V : Type 0) : Type 0 where
  pub val : V
  pub hash : ℕ
  pub use_cnt : ℕ
  pub klen : ℕ
  pub key : Bytes

-- `slots` are the chains, and `reuse` the slots that a mark has dropped, the last one first.
pub record Cache (V : Type 0) : Type 0 where
  pub slots : List (List (Slot V))
  pub cnt : ℕ
  pub form : Bytes → V
  pub size : ℕ
  pub mask : ℕ
  pub reuse : List (Slot V)
  pub rcnt : ℕ
  pub xrate : ℕ
  pub mark : Bool
  pub locking : Bool

abbrev pub rehash_limit : ℕ
rehash_limit = 4

abbrev pub min_shift : ℕ
min_shift = 8

abbrev pub reuse_max : ℕ
reuse_max = 8192

-- CACHE_MAX_KEY.
abbrev pub cache_max_key : ℕ
cache_max_key = 35

-- `for (; REHASH_LIMIT < size; size /= 2, shift++) {}`, on as many rounds as `size` at most.
unfoldable pub shift_for : ℕ → ℕ → ℕ → ℕ
shift_for zero size shift = shift
shift_for (suc n) size shift =
    let more = shift_for n (size / 2) (shift + 1) in if ltb rehash_limit size then more else shift

-- cache_create; memory is taken to be there.
unfoldable pub cache_create : {V : Type 0} → ℕ → (Bytes → V) → Bool → Bool → Cache V
unfolding shift_for
cache_create size form mark locking =
    let s = shift_for size size 0 in
    let shift = if ltb s min_shift then min_shift else s in
    record {
      slots = replicate (2 ^ shift) [];
      cnt = 0;
      form = form;
      size = 2 ^ shift;
      mask = 2 ^ shift - 1;
      reuse = [];
      rcnt = 0;
      xrate = 1;
      mark = mark;
      locking = locking;
    }

-- cache_set_form and cache_set_expunge_rate.
unfoldable pub cache_set_form : {V : Type 0} → Cache V → (Bytes → V) → Cache V
cache_set_form c form = record c { form = form }

unfoldable pub cache_set_expunge_rate : {V : Type 0} → Cache V → ℕ → Cache V
cache_set_expunge_rate c rate = record c { xrate = rate }

module _ {V : Type 0} where
  -- `s->next = *bucket; *bucket = s`.
  unfoldable pub push_slot : ℕ → Slot V → List (List (Slot V)) → Result (List (List (Slot V)))
  push_slot h s slots = there (get_elem? slots h) >>= λ chain. ok (set slots h (s ∷ chain))

  -- The inner loop of rehash: the slots of one chain, each to its place.
  unfoldable pub move_chain :
      ℕ → List (Slot V) → List (List (Slot V)) → Result (List (List (Slot V)))
  unfolding push_slot
  move_chain mask [] slots = ok slots
  move_chain mask (s ∷ chain) slots =
      push_slot (bit_and s.hash mask) s slots >>= move_chain mask chain

  -- The outer loop, from chain `i` on for `n` chains.
  unfoldable pub move_chains : ℕ → ℕ → ℕ → List (List (Slot V)) → Result (List (List (Slot V)))
  unfolding move_chain
  move_chains mask zero i slots = ok slots
  move_chains mask (suc n) i slots = do
    chain ← there (get_elem? slots i)
    more ← move_chain mask chain (set slots i [])
    move_chains mask n (i + 1) more

  unfoldable pub rehash : Cache V → Result (Cache V)
  unfolding move_chains
  rehash c =
      let size = c.size * 4 in
      move_chains (size - 1) c.size 0 (c.slots ++ replicate (c.size * 3) []) >>= λ slots.
      ok (record c { slots = slots; size = size; mask = size - 1 })
