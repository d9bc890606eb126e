-- ===== src/CircArray.antt =====
-- ext/oj_windows/circarray.c: the objects of a document by their ids, which count from 1.
pub mod Lookup
pub mod Store
mod Tests
use oj_windows.Base.{
  ℕ, ◌+◌, ◌-◌, ◌%◌, ◌^◌, Bool, false, true, Option, none, some, List, [], ◌∷◌, ◌++◌, length,
  get_elem?, take, replicate, leb, ltb, ◌==◌, if◌then◌else◌,
}
use oj_windows.Cells.{copy_to}
use oj_windows.Parser.State.{Result, ok, fault, ◌>>=◌}

-- What `objs` points at, and whether that is still `obj_array`.
pub record CircArray (V : Type 0) : Type 0 where
  pub objs : List (Option V)
  pub size : ℕ
  pub cnt : ℕ
  pub heap : Bool

abbrev pub array_size : ℕ
array_size = 1024

-- The entry at an offset: one outside the array or never written is a fault.
abbrev pub entry_of : {V : Type 0} → Option (Option V) → Result V
entry_of (some (some v)) = ok v
entry_of _ = fault

module _ {V : Type 0} (nil : V) where
  abbrev pub oj_circ_array_new : CircArray V
  oj_circ_array_new = record {
    objs = replicate array_size none;
    size = array_size;
    cnt = 0;
    heap = false;
  }

  -- OJ_R_ALLOC_N with memcpy, or OJ_R_REALLOC_N.
  unfoldable pub enlarge : ℕ → CircArray V → CircArray V
  enlarge n ca =
      let kept = take (if ca.heap then n else ca.cnt) ca.objs in
      record ca { objs = kept ++ replicate (n - length kept) none; size = n; heap = true }

  -- The writes: nil up to the entry, and the entry.
  unfoldable pub place_at : ℕ → V → CircArray V → Result (CircArray V)
  unfolding copy_to
  place_at i obj ca = do
    filled ← copy_to ca.cnt (replicate (i - ca.cnt) nil) ca.objs
    objs ← copy_to i (obj ∷ []) filled
    ok (record ca { objs = objs; cnt = if leb ca.cnt i then i + 1 else ca.cnt })

  -- `id` is an unsigned long, which has 32 bits on Windows: the argument is taken to one.
  unfoldable pub oj_circ_array_set : CircArray V → V → ℕ → Result (CircArray V)
  unfolding enlarge place_at
  oj_circ_array_set ca obj n =
      let id = n % 2 ^ 32 in
      if ltb 0 id
      then place_at (id - 1) obj (if ltb ca.size id then enlarge ((id + 512) % 2 ^ 32) ca else ca)
      else ok ca

  -- With id 0 the code reads the word before the array.
  unfoldable pub oj_circ_array_get : CircArray V → ℕ → Result V
  oj_circ_array_get ca n =
      let id = n % 2 ^ 32 in
      if leb id ca.cnt
      then (if id == 0 then fault else entry_of (get_elem? ca.objs (id - 1)))
      else ok nil
