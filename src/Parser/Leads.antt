-- ===== src/Parser/Leads.antt =====
-- Runs of the loop of ext/oj_windows/parser.c, pass by pass, for total correctness: the machine gets to
-- a state with a property, and so does `run` with its fuel.
use oj_windows.Base.{
  ℕ, zero, suc, ◌≡◌, ◌≢◌, refl, ap, Bool, true, false, ◌&&◌, some, none, [], ◌∷◌, Bytes,
}
use oj_windows.Parser.Tables.{Action, action}
use oj_windows.Parser.State.{Parser, ok, Delegate}
use oj_windows.Parser.Step.Loop.{Machine, machine}
use oj_windows.Parser.Step.{dispatch, step, trail}
use oj_windows.Parser.Run.{run}

module _ {C : Type 0} (d : Delegate C) where
  pub data Leads (Q : Machine C → Type 0) : Machine C → Type 0 where
    now : {m : Machine C} → Q m → Leads Q m
    later :
        {p : Parser} {c : C} {i b : ℕ} {bs : Bytes} {m : Machine C}
        → step d p c i b bs ≡ ok m
        → Leads Q m
        → Leads Q (machine p c i (b ∷ bs))

  pub bind :
      {Q R : Machine C → Type 0} {m : Machine C}
      → Leads Q m
      → ((n : Machine C) → Q n → Leads R n)
      → Leads R m
  bind (now q) k = k _ q
  bind (later e l) k = later e (bind l k)

pub and_false : (b : Bool) → (b && false) ≡ false
and_false true = refl
and_false false = refl

module _ {C : Type 0} where
  trail-id : (m : Machine C) → m.parser.just_one ≡ false → trail m ≡ m
  trail-id m e = rw e (simp and_false)

module _ {C : Type 0} (d : Delegate C) where
  -- One pass, by the case that the table names.
  step-dispatch :
      (p : Parser) (c : C) (i b : ℕ) (bs : Bytes) (a : Action) (m : Machine C)
      → action p.map b ≡ a
      → dispatch d a p c i b bs ≡ ok m
      → m.parser.just_one ≡ false
      → step d p c i b bs ≡ ok m
  unfolding step
  step-dispatch p c i b bs a m e f one = rw (e, f) (ap ok (trail-id m one))

  pub pass :
      {Q : Machine C → Type 0} {p : Parser} {c : C} {i b : ℕ} {bs : Bytes} (a : Action)
      {m : Machine C}
      → action p.map b ≡ a
      → dispatch d a p c i b bs ≡ ok m
      → m.parser.just_one ≡ false
      → Leads d Q m
      → Leads d Q (machine p c i (b ∷ bs))
  pass a e f one l = later (step-dispatch _ _ _ _ _ a _ e f one) l

  -- A run that leads to the end of the input ends there.
  pub run-Leads :
      {Q : Machine C → Type 0} {m : Machine C}
      → ((n : Machine C) → Q n → n.rest ≡ [])
      → Leads d Q m
      → (f : ℕ) → run d f m.parser m.ctx m.at m.rest ≢ none
      → (n : Machine C) × Q n × (run d f m.parser m.ctx m.at m.rest ≡ some (ok n))
  unfolding run
  run-Leads over (now {m} q) zero some_outcome = absurd (some_outcome refl)
  run-Leads over (now {m} q) (suc f) some_outcome = (m, q, rw (over m q))
  run-Leads over (later e l) zero some_outcome = absurd (some_outcome refl)
  run-Leads over (later {p} {c} {i} {b} {bs} {m} e l) (suc f) some_outcome =
      let (n, q, r) = run-Leads over l f (rw e at some_outcome) in (n, q, rw e r)
