-- ===== src/CircArray/Tests.antt =====
-- The array of objects on concrete ids.
use oj_windows.Base.{ℕ, ◌≡◌, refl, [], arith}
use oj_windows.Parser.State.{ok}
use oj_windows.CircArray.{CircArray, oj_circ_array_new, oj_circ_array_get, oj_circ_array_set}
use oj_windows.CircArray.Lookup.{Has}
use oj_windows.CircArray.Store.{oj_circ_array_get-set}

new-Has : Has {V = ℕ} 0 [] (oj_circ_array_new 0)
new-Has = record { space = refl; count = refl; fits = omega arith; objects = refl }

-- Storing under 2,000, which the array's own 1,024 entries have no room for.
oj_circ_array_get-set_example :
    (q : CircArray ℕ) × (oj_circ_array_set 0 (oj_circ_array_new 0) 7 2000 ≡ ok q)
    × (oj_circ_array_get 0 q 2000 ≡ ok 7)
oj_circ_array_get-set_example =
    oj_circ_array_get-set 0 [] (oj_circ_array_new 0) 2000 2000 7 new-Has (omega arith) (omega arith)
      (omega arith) (omega arith)
