-- ===== src/Safe.antt =====
-- ext/oj_windows/safe.c and safe.h: a delegate around the usual one that counts what it gets and raises
-- where a limit is passed. The callbacks that it delegates to are those of a usual delegate with the options
-- that it is made with: setting an option later puts the usual callbacks back in the parser's tables, and is
-- not part of this model.
pub mod Limits
pub mod Depth
pub mod Unlimited
pub mod Open
mod Tests
use oj_windows.Base.{
  ℕ, suc, ◌+◌, ◌/◌, Bool, true, false, not, ◌&&◌, ◌||◌, List, [], ◌∷◌, length, ltb, ◌==◌,
  if◌then◌else◌,
}
use oj_windows.Base.Int.{ℤ, pos, negsuc, pos_part, neg_part, sub_ℕ, ltb_ℤ}
use oj_windows.Parser.State.{
  Fun, top_fun, array_fun, object_fun, Parser, Call, Result, ok, raised, ◌>>=◌, Delegate,
  hash_size_error, array_size_error, depth_error, total_elements_error, arg_error,
}
use oj_windows.Usual.Ruby.{Ruby, Interner}
use oj_windows.Usual.State.{Col, Usual, oj_init_usual}
use oj_windows.Usual.Close.{pop_last}
use oj_windows.Usual.Calls.{usual_call, start}

-- `struct _safe_S`: a limit is a `long`, and there is none where it is the number that Qnil is.
pub record Safe (V S : Type 0) : Type 0 where
  pub usual : Usual V S
  pub max_hash_size : ℤ
  pub max_array_size : ℤ
  pub max_depth : ℤ
  pub max_total_elements : ℤ
  pub current_hash_size : ℕ
  pub current_array_size : ℕ
  pub current_elements_count : ℕ

-- C's division by 2.
abbrev halved : ℤ → ℤ
halved (pos n) = pos (n / 2)
halved (negsuc n) = sub_ℕ 0 ((n + 1) / 2)

module _ {V : Type 0} (r : Ruby V) (i : Interner V) (qnil : ℤ) where
  open i use {Cache}

  -- NIL_P of a limit.
  abbrev pub is_unlimited : ℤ → Bool
  is_unlimited m = (pos_part m == pos_part qnil) && (neg_part m == neg_part qnil)

  -- What the stack holds above the place of the collection that is open.
  abbrev pub items_in : Col → Safe V Cache → ℤ
  items_in c s = sub_ℕ (length s.usual.values.items) (c.vi + 1)

  unfoldable pub check_object_size : Safe V Cache → Result (Unit {0})
  check_object_size s =
      if is_unlimited s.max_hash_size
      then ok tt
      else (pop_last s.usual.cols.items >>= λ (c, cs).
          if ltb_ℤ (halved (items_in c s)) s.max_hash_size then ok tt else raised hash_size_error)

  unfoldable pub check_array_size : Safe V Cache → Result (Unit {0})
  check_array_size s =
      if is_unlimited s.max_array_size
      then ok tt
      else (pop_last s.usual.cols.items >>= λ (c, cs).
          if ltb_ℤ (items_in c s) s.max_array_size then ok tt else raised array_size_error)

  unfoldable pub check_max_depth : Parser → Safe V Cache → Result (Unit {0})
  check_max_depth p s =
      if is_unlimited s.max_depth || not (ltb_ℤ s.max_depth (pos (p.depth + 1)))
      then ok tt
      else raised depth_error

  unfoldable pub check_max_total_elements : Safe V Cache → Result (Unit {0})
  check_max_total_elements s =
      if is_unlimited s.max_total_elements
        || ltb_ℤ (pos s.current_elements_count) s.max_total_elements
      then ok tt
      else raised total_elements_error

  unfoldable pub safe_start : Safe V Cache → Safe V Cache
  safe_start s = record s {
    usual = start r i s.usual;
    current_hash_size = 0;
    current_array_size = 0;
    current_elements_count = 0;
  }

  abbrev pub counted : ℕ → Safe V Cache → Safe V Cache
  counted n s = record s { current_elements_count = s.current_elements_count + n }

  abbrev pub one_hash : Safe V Cache → Safe V Cache
  one_hash s = record s { current_hash_size = s.current_hash_size + 1 }

  abbrev pub one_array : Safe V Cache → Safe V Cache
  one_array s = record s { current_array_size = s.current_array_size + 1 }

  -- The callback that is delegated to.
  unfoldable pub delegated : Fun → Call → Parser → Safe V Cache → Result (Safe V Cache)
  delegated fun f p s = usual_call r i fun f p s.usual >>= λ u. ok (record s { usual = u })

  -- DEFINE_DELEGATED_FUNCTION and DEFINE_DELEGATED_OBJECT_FUNCTION.
  unfoldable pub safe_add : Call → Parser → Safe V Cache → Result (Safe V Cache)
  unfolding check_array_size check_max_total_elements delegated
  safe_add f p s = do
    let t = counted 1 s
    size ← check_array_size t
    total ← check_max_total_elements t
    delegated array_fun f p t

  unfoldable pub safe_add_key : Call → Parser → Safe V Cache → Result (Safe V Cache)
  unfolding check_object_size check_max_total_elements delegated
  safe_add_key f p s = do
    let t = counted 2 s
    size ← check_object_size t
    total ← check_max_total_elements t
    delegated object_fun f p t

  -- safe_open_object and safe_open_array, and those for a member.
  unfoldable pub safe_open : Call → Parser → Safe V Cache → Result (Safe V Cache)
  unfolding check_array_size check_max_depth check_max_total_elements delegated
  safe_open f p s = do
    let t = counted 1 s
    size ← check_array_size t
    depth ← check_max_depth p t
    total ← check_max_total_elements t
    delegated array_fun f p t

  unfoldable pub safe_open_key : Call → Parser → Safe V Cache → Result (Safe V Cache)
  unfolding check_object_size check_max_depth check_max_total_elements delegated
  safe_open_key f p s = do
    let t = counted 2 s
    size ← check_object_size t
    depth ← check_max_depth p t
    total ← check_max_total_elements t
    delegated object_fun f p t

  -- The callback tables: those at the top, and the closing ones, are the usual ones.
  unfoldable pub array_call : Call → Parser → Safe V Cache → Result (Safe V Cache)
  unfolding safe_add safe_open delegated
  array_call Call.open_object p s = safe_open Call.open_object p (one_hash s)
  array_call Call.open_array p s = safe_open Call.open_array p (one_array s)
  array_call Call.close_object p s = delegated array_fun Call.close_object p s
  array_call Call.close_array p s = delegated array_fun Call.close_array p s
  array_call f p s = safe_add f p s

  unfoldable pub object_call : Call → Parser → Safe V Cache → Result (Safe V Cache)
  unfolding safe_add_key safe_open_key delegated
  object_call Call.open_object p s = safe_open_key Call.open_object p (one_hash s)
  object_call Call.open_array p s = safe_open_key Call.open_array p (one_array s)
  object_call Call.close_object p s = delegated object_fun Call.close_object p s
  object_call Call.close_array p s = delegated object_fun Call.close_array p s
  object_call f p s = safe_add_key f p s

  unfoldable pub safe_call : Fun → Call → Parser → Safe V Cache → Result (Safe V Cache)
  unfolding array_call object_call delegated
  safe_call top_fun f p s = delegated top_fun f p s
  safe_call array_fun f p s = array_call f p s
  safe_call object_fun f p s = object_call f p s

  abbrev pub safe : Delegate (Safe V Cache)
  safe = record { call = safe_call; start = λ p s. ok (safe_start s) }

  -- SET_CONFIG: a limit from the entry of the options hash.
  unfoldable pub set_config : V → Result ℤ
  set_config v =
      if r.is_integer v then r.num_int v else if not (r.is_nil v) then raised arg_error else ok qnil

  unfoldable pub oj_init_safe_parser : Bool → V → V → V → V → Result (Safe V Cache)
  unfolding set_config
  oj_init_safe_parser block hashes arrays depth total = do
    h ← set_config hashes
    a ← set_config arrays
    d ← set_config depth
    t ← set_config total
    ok (record {
      usual = oj_init_usual r i block;
      max_hash_size = h;
      max_array_size = a;
      max_depth = d;
      max_total_elements = t;
      current_hash_size = 0;
      current_array_size = 0;
      current_elements_count = 0;
    })
