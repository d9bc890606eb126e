-- ===== src/Safe/Limits.antt =====
-- What a run of the safe delegate of ext/oj_windows/safe.c that raises nothing has made and counted.
use oj_windows.Base.{ℕ, ◌+◌, ◌≡◌, ◌⊎◌, true, false, List, [], ◌∷◌}
use oj_windows.Base.Int.{ℤ, pos, ltb_ℤ}
use oj_windows.Parser.State.{Fun, top_fun, array_fun, object_fun, Parser, Call, Result, ok, ◌>>=◌}
use oj_windows.Usual.Ruby.{Ruby, Interner}
use oj_windows.Usual.State.{Usual}
use oj_windows.Usual.Calls.{usual_call}
use oj_windows.Safe.{Safe, is_unlimited, safe_call}

-- The callbacks that a parser calls, one after the other, with the parser at each.
abbrev pub Calls : Type 0
Calls = List (Fun × Call × Parser)

-- The elements that a callback stands for: a member of an array is one, a member of an object is two with
-- its key, and what closes a collection or stands at the top is none.
abbrev pub elements_of : Fun → Call → ℕ
elements_of top_fun f = 0
elements_of fun Call.close_array = 0
elements_of fun Call.close_object = 0
elements_of array_fun f = 1
elements_of object_fun f = 2

abbrev pub elements : Calls → ℕ
elements [] = 0
elements ((fun, f, p) ∷ cs) = elements_of fun f + elements cs

module _ {V : Type 0} (r : Ruby V) (i : Interner V) (qnil : ℤ) where
  open i use {Cache}

  unfoldable pub usual_calls : Calls → Usual V Cache → Result (Usual V Cache)
  usual_calls [] d = ok d
  usual_calls ((fun, f, p) ∷ cs) d = usual_call r i fun f p d >>= usual_calls cs

  unfoldable pub safe_calls : Calls → Safe V Cache → Result (Safe V Cache)
  safe_calls [] s = ok s
  safe_calls ((fun, f, p) ∷ cs) s = safe_call r i qnil fun f p s >>= safe_calls cs

  -- Fewer elements have been counted than the limit, if there is one and anything has been.
  abbrev pub IsWithin : Safe V Cache → Type 0
  IsWithin s =
      is_unlimited r i qnil s.max_total_elements ≡ false
      → (s.current_elements_count ≡ 0)
        ⊎ (ltb_ℤ (pos s.current_elements_count) s.max_total_elements ≡ true)

  -- A callback that returns has done what the usual one does, and the count is `n`, within its limit.
  abbrev Steps : ℕ → Fun → Call → Parser → Usual V Cache → Safe V Cache → Type 0
  Steps n fun f p d t =
      (usual_call r i fun f p d ≡ ok t.usual) × IsWithin t × (t.current_elements_count ≡ n)
