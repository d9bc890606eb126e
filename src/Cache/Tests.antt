-- ===== src/Cache/Tests.antt =====
-- The string cache with the length of a key as its form.
use Prim.Native.Nat.{bit_and}
use oj_windows.Base.{
  [], ◌∷◌, inl, ℕ, ◌*◌, ◌≡◌, refl, true, false, Bytes, codes, length, IsKey, arith,
}
use oj_windows.Parser.State.{ok}
use oj_windows.Cache.Hash.{hash_calc}
use oj_windows.Cache.Table.{Slot, Cache, cache_create, rehash}
use oj_windows.Cache.Intern.{cache_intern, look_up, enter, Pending, pending, found}
use oj_windows.Cache.Mark.{cache_mark}
use oj_windows.Cache.Chains.{weights}
use oj_windows.Cache.Sound.{IsSlot, Holds}
use oj_windows.Cache.Grown.{rehash-Holds}
use oj_windows.Cache.Interned.{cache_intern-form, enter-Holds}
use oj_windows.Cache.Swept.{cache_create-Holds}
use oj_windows.Cache.Left.{Leaves, cache_mark-left}

abbrev form : Bytes → ℕ
form s = length s

abbrev fresh : Cache ℕ
fresh = cache_create 0 form true false

fresh-Holds : Holds form fresh
fresh-Holds = cache_create-Holds form 0 true false

ab-IsKey : IsKey (codes "ab")
ab-IsKey = (omega arith, (omega arith, tt))

cache_intern-form_example :
    (d : Cache ℕ) × (cache_intern fresh (codes "ab") ≡ ok (2, d)) × Holds form d
cache_intern-form_example = cache_intern-form form fresh (codes "ab") fresh-Holds ab-IsKey

with_cde : (d : Cache ℕ) × (cache_intern fresh (codes "cde") ≡ ok (3, d)) × Holds form d
with_cde =
    cache_intern-form form fresh (codes "cde") fresh-Holds
      (omega arith, (omega arith, (omega arith, tt)))

abbrev used : Cache ℕ
used = with_cde.0

rehash-Holds_example :
    (d : Cache ℕ) × (rehash used ≡ ok d)
    × Holds form d
    × (d.size ≡ used.size * 4)
    × (weights (λ s. s.klen) d.slots ≡ weights (λ s. s.klen) used.slots)
rehash-Holds_example = rehash-Holds form used (λ s. s.klen) with_cde.2

-- A table of one chain, with a slot that has been used and one that has not.
abbrev slot : Bytes → ℕ → Slot ℕ
slot k n = record { val = length k; hash = hash_calc k; use_cnt = n; klen = length k; key = k }

abbrev two : Cache ℕ
two = record {
  slots = (slot (codes "ab") 3 ∷ slot (codes "cde") 0 ∷ []) ∷ [];
  cnt = 2;
  form = form;
  size = 1;
  mask = 0;
  reuse = [];
  rcnt = 0;
  xrate = 1;
  mark = true;
  locking = false;
}

slot-IsSlot : (k : Bytes) (n : ℕ) → IsKey k → IsSlot form (slot k n)
slot-IsSlot k n h = record { val = refl; key = h; klen = refl; hash = refl }

two-Holds : Holds form two
two-Holds = record {
  shift = 0;
  size = refl;
  mask = refl;
  form = refl;
  length = refl;
  slots = (
    (
      (slot-IsSlot (codes "ab") 3 ab-IsKey, omega arith),
      (
        (slot-IsSlot (codes "cde") 0 (omega arith, (omega arith, (omega arith, tt))), omega arith),
        tt,
      ),
    ),
    tt,
  );
}

cache_mark-left_example :
    Holds form (cache_mark two).0 × Leaves two (cache_mark two).0 (cache_mark two).1
cache_mark-left_example =
    cache_mark-left form two two-Holds refl (omega arith)
      (((omega arith, inl (omega arith)), ((omega arith, inl (omega arith)), tt)), tt)

-- A thread that looks for "ab" in an empty table.
abbrev waiting : Pending
waiting = record {
  hash = hash_calc (codes "ab");
  bucket = bit_and (hash_calc (codes "ab")) 255;
  old_size = 256;
}

waits : look_up fresh (codes "ab") ≡ ok (pending waiting, fresh)
unfolding look_up cache_create
waits = refl

enter-Holds_example :
    (e : Cache ℕ) × (enter waiting (codes "ab") (used.form (codes "ab")) used ≡ ok e)
    × Holds form e
    × (e' : Cache ℕ) × (look_up e (codes "ab") ≡ ok (found 2, e'))
enter-Holds_example =
    enter-Holds form fresh fresh used (codes "ab") waiting fresh-Holds ab-IsKey (omega arith) waits
      with_cde.2
