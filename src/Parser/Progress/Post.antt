-- ===== src/Parser/Progress/Post.antt =====
-- Postconditions of the cases of ext/oj_windows/parser.c's `parse`, for the runs that return.
use oj_windows.Base.{Bool, true, false, if◌then◌else◌}
use oj_windows.Parser.State.{Exception, Result, ok, raised, fault, ◌>>=◌}

pub data Ensures {A : Type 0} (P : A → Type 0) : Result A → Type 0 where
  returns : {a : A} → P a → Ensures P (ok a)
  raises : {e : Exception} → Ensures P (raised e)
  faults : Ensures P fault

pub of_ok : {A : Type 0} {P : A → Type 0} {a : A} → Ensures P (ok a) → P a
of_ok (returns h) = h

module _ {A B : Type 0} {Q : B → Type 0} {k : A → Result B} where
  pub bind_any : (r : Result A) → ((a : A) → Ensures Q (k a)) → Ensures Q (r >>= k)
  bind_any (ok a) h = h a
  bind_any (raised e) h = raises
  bind_any fault h = faults

  pub bind-Ensures :
      {P : A → Type 0} {r : Result A}
      → Ensures P r
      → ((a : A) → P a → Ensures Q (k a))
      → Ensures Q (r >>= k)
  bind-Ensures (returns {a} h) f = f a h
  bind-Ensures raises f = raises
  bind-Ensures faults f = faults

module _ {A : Type 0} {P : A → Type 0} {r s : Result A} where
  pub either : (b : Bool) → Ensures P r → Ensures P s → Ensures P (if b then r else s)
  either true hr hs = hr
  either false hr hs = hs
