-- ===== src/Safe/Tests.antt =====
-- The safe delegate on the callbacks of `[null]` and `[[`.
use oj_windows.Base.{All, false, ◌≡◌, refl, [], ◌∷◌, none}
use oj_windows.Base.Int.{ℤ, pos}
use oj_windows.Parser.State.{
  top_fun, array_fun, Call, new_parser, ok, ◌>>=◌, raised, array_size_error,
}
use oj_windows.Usual.State.{oj_init_usual}
use oj_windows.Usual.Calls.{start, usual_call}
use oj_windows.Usual.Close.{pop_last}
use oj_windows.Usual.Stacks.{grow, put}
use oj_windows.Usual.Objects.{Obj, int_obj, nil_obj, objects, caches}
use oj_windows.Cache.Table.{Cache}
use oj_windows.Safe.{Safe, safe_call, safe_start, oj_init_safe_parser}
use oj_windows.Safe.Depth.{IsShallow, safe_calls-IsShallow}
use oj_windows.Safe.Open.{safe_calls-unlimited}
use oj_windows.Safe.Unlimited.{IsOpen}
use oj_windows.Safe.Limits.{Calls, safe_calls, usual_calls}

-- NIL_P's number on a 64-bit machine.
abbrev qnil : ℤ
qnil = pos 8

-- At most one member of an array, and no other limit.
abbrev limited : Safe Obj (Cache Obj)
limited = record {
  usual = oj_init_usual objects caches false;
  max_hash_size = qnil;
  max_array_size = pos 1;
  max_depth = qnil;
  max_total_elements = pos 2;
  current_hash_size = 0;
  current_array_size = 0;
  current_elements_count = 0;
}

limited-init :
    oj_init_safe_parser objects caches qnil false nil_obj
      (int_obj (pos 1))
      nil_obj
      (int_obj (pos 2))
    ≡ ok limited
unfolding oj_init_safe_parser oj_init_usual
limited-init = refl

abbrev opened : Calls
opened = (top_fun, Call.open_array, new_parser) ∷ (array_fun, Call.add_null, new_parser) ∷ []

-- What the usual delegate has after them.
abbrev reached : Safe Obj (Cache Obj)
reached = record (safe_start objects caches qnil limited) {
  usual = record limited.usual {
    values = record limited.usual.values { items = objects.undef ∷ nil_obj ∷ [] };
    cols = record limited.usual.cols { items = record { vi = 0; ki = none } ∷ [] };
  };
  current_elements_count = 1;
}

-- A second member is one too many.
second_member :
    safe_calls objects caches qnil ((array_fun, Call.add_null, new_parser) ∷ []) reached
    ≡ raised array_size_error
unfolding safe_calls safe_call oj_init_usual safe_start pop_last
second_member = refl

-- No limits.
abbrev unlimited : Safe Obj (Cache Obj)
unlimited = record limited { max_array_size = qnil; max_total_elements = qnil }

unlimited-IsOpen : IsOpen objects caches qnil unlimited
unlimited-IsOpen = record { hashes = refl; arrays = refl; depth = refl; total = refl }

safe_calls-unlimited_example :
    (safe_calls objects caches qnil opened (safe_start objects caches qnil unlimited) >>= λ t.
    ok t.usual)
    ≡ usual_calls objects caches qnil opened (start objects caches unlimited.usual)
safe_calls-unlimited_example =
    safe_calls-unlimited objects caches qnil opened unlimited unlimited-IsOpen

-- Arrays at most three deep.
abbrev shallow : Safe Obj (Cache Obj)
shallow = record limited { max_array_size = qnil; max_total_elements = qnil; max_depth = pos 3 }

-- `[[`: the second bracket is at depth 1.
abbrev nested : Calls
nested =
    (top_fun, Call.open_array, new_parser)
    ∷ (array_fun, Call.open_array, record new_parser { depth = 1 })
    ∷ []

abbrev entered : Safe Obj (Cache Obj)
entered = record (safe_start objects caches qnil shallow) {
  usual = record limited.usual {
    values = record limited.usual.values { items = objects.undef ∷ objects.undef ∷ [] };
    cols = record limited.usual.cols {
      items = record { vi = 0; ki = none } ∷ record { vi = 1; ki = none } ∷ [];
    };
  };
  current_array_size = 1;
  current_elements_count = 1;
}

nested_run :
    safe_calls objects caches qnil nested (safe_start objects caches qnil shallow) ≡ ok entered
unfolding safe_calls safe_call safe_start start oj_init_usual usual_call grow put
nested_run = refl

safe_calls-IsShallow_example : All (IsShallow (pos 3)) nested
safe_calls-IsShallow_example =
    safe_calls-IsShallow objects caches qnil nested shallow entered nested_run refl
