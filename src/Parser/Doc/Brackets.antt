-- ===== src/Parser/Doc/Brackets.antt =====
-- ext/oj_windows/parser.c's `parse` at an opening bracket.
use oj_windows.Base.{
  ℕ, suc, ◌+◌, ◌≤◌, ◌<◌, ◌≡◌, ◌∙◌, [], ◌∷◌, ◌++◌, Bytes, ◌==◌, arith, if◌then◌else◌,
}
use oj_windows.Parser.Tables.{Map, at_value, at_key1}
use oj_windows.Parser.State.{Fun, array_fun, object_fun, Parser, ok}
use oj_windows.Parser.Step.Loop.{Machine, machine}
use oj_windows.Parser.Step.Nest.{open_array_step, open_object_step}
use oj_windows.Parser.Trace.{place, place_end, Event, array_start, object_start, tracer}
use oj_windows.Parser.Doc.Frame.{Kept, top, After, settled, pending}
use oj_windows.Parser.Doc.Behind.{Trace}

-- The kinds of the containers with one more inside.
abbrev pub pushed : (ℕ → Fun) → ℕ → Fun → ℕ → Fun
pushed f n g j = if j == suc n then g else f j

pub pushed_top : (f : ℕ → Fun) (n : ℕ) (g : Fun) → pushed f n g (suc n) ≡ g
pushed_top f n g = ground arith

pub pushed_below : (f : ℕ → Fun) (n : ℕ) (g : Fun) (j : ℕ) → j ≤ n → pushed f n g j ≡ f j
pushed_below f n g j h = ground arith

abbrev pub opened : Fun → Map → Parser → ℕ → Parser
opened g m p i = record p {
  cur = i;
  depth = p.depth + 1;
  stack = λ j. if j == p.depth + 1 then g else p.stack j;
  map = m;
}

pub opened-Kept :
    (n : ℕ) (f : ℕ → Fun) (g : Fun) (m : Map) (p : Parser) (i : ℕ)
    → Kept n f p
    → Kept (suc n) (pushed f n g) (opened g m p i)
opened-Kept n f g m p i k = record {
  depth = omega (arith, k.depth);
  stack = λ j h. ground (arith, k.depth, k.stack j);
  one = k.one;
}

module _ (n : ℕ) (f : ℕ → Fun) (p : Parser) (c : Trace) (i : ℕ) (bs : Bytes) (k : Kept n f p)
    (room : suc n < 1024) where
  pub open_array-ok :
      open_array_step tracer p c i bs
      ≡ ok (
          machine
            (opened array_fun at_value p i)
            (c ++ place (f n) p.key array_start ∷ [])
            (i + 1)
            bs)
  unfolding open_array_step
  open_array-ok = ground (arith, top k, k.depth)

  pub open_object-ok :
      open_object_step tracer p c i bs
      ≡ ok (
          machine
            (opened object_fun at_key1 p i)
            (c ++ place (f n) p.key object_start ∷ [])
            (i + 1)
            bs)
  unfolding open_object_step
  open_object-ok = ground (arith, top k, k.depth)

Kept-pushed : (n : ℕ) (f : ℕ → Fun) (g : Fun) {p : Parser} → Kept n (pushed f n g) p → Kept n f p
Kept-pushed n f g k = record {
  depth = k.depth;
  stack = λ j h. k.stack j h ∙ pushed_below f n g j h;
  one = k.one;
}

-- Only the kinds up to the depth matter.
After-below :
    (n : ℕ) (f : ℕ → Fun) (g : Fun) (c : Trace) (rest : Bytes) {m : Machine Trace}
    → After n (pushed f n g) c rest m
    → After n f c rest m
After-below n f g c rest (settled k h) = settled (Kept-pushed n f g k) h
After-below n f g c rest (pending k h s) =
    pending (Kept-pushed n f g k) h (rw (pushed_below f n g n (omega arith)) at s)

pub After-pushed :
    (n : ℕ) (f : ℕ → Fun) (g : Fun) (c : Trace) (rest : Bytes) (e : Event) {m : Machine Trace}
    → After n (pushed f n g) (c ++ place_end (pushed f n g n) e ∷ []) rest m
    → After n f (c ++ place_end (f n) e ∷ []) rest m
After-pushed n f g c rest e a =
    rw (pushed_below f n g n (omega arith)) at (After-below n f g _ rest a)
