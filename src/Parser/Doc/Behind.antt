-- ===== src/Parser/Doc/Behind.antt =====
-- What ext/oj_windows/parser.c's `parse` does behind a value in a container: at a comma, and at the
-- closing bracket.
use oj_windows.Base.{ℕ, suc, ◌+◌, ◌≡◌, ◌⊎◌, inl, inr, refl, List, [], ◌∷◌, ◌++◌, Bytes}
use oj_windows.Base.Int.{ℤ}
use oj_windows.Parser.Tables.{Map, at_comma, at_key, Action, action, at_digit, at_zero}
use oj_windows.Parser.State.{Fun, array_fun, object_fun, Parser}
use oj_windows.Parser.Step.{dispatch}
use oj_windows.Parser.Step.Loop.{Machine, machine}
use oj_windows.Parser.Step.Nest.{
  after_comma, num_comma, num_close_array, num_close_object, comma_to,
}
use oj_windows.Parser.Trace.{Entry, place_end, tracer, array_end, object_end}
use oj_windows.Parser.Leads.{Leads, pass}
use oj_windows.Parser.Doc.Actions.{
  after_comma as after_comma_action, after_close, after_end, digit_comma, digit_close, digit_end,
  zero_comma, zero_close, zero_end,
}
use oj_windows.Parser.Doc.Frame.{
  Kept, IsPending, After, settled, pending, handed, calc_num-pending, comma_to-array,
  comma_to-object, closed_parser, closed-Kept, closed-map, close_array-ok, close_object-ok,
}

abbrev pub Trace : Type 0
Trace = List Entry

pub handed-Kept : {n : ℕ} {f : ℕ → Fun} {p : Parser} (i : ℕ) → Kept n f p → Kept n f (handed p i)
handed-Kept i k = record { depth = k.depth; stack = k.stack; one = k.one }

either_map :
    {m : Map} (b : ℕ) {a : Action}
    → (m ≡ at_digit) ⊎ (m ≡ at_zero)
    → action at_digit b ≡ a
    → action at_zero b ≡ a
    → action m b ≡ a
either_map b (inl e) d z = rw e d
either_map b (inr e) d z = rw e z

-- A pending integer stands under one of two tables.
num_action :
    {x : ℤ} {p : Parser} (b : ℕ) {a : Action}
    → IsPending x p
    → action at_digit b ≡ a
    → action at_zero b ≡ a
    → action p.map b ≡ a
num_action b h d z = either_map b h.map d z

module _ (n : ℕ) (f : ℕ → Fun) (c : Trace) (rest : Bytes) {Q : Machine Trace → Type 0} where
  pub comma-array :
      {m : Machine Trace}
      → f (suc n) ≡ array_fun
      → After (suc n) f c (b',' ∷ rest) m
      → ((q : Parser) (j : ℕ)
          → Kept (suc n) f q
          → q.map ≡ at_comma
          → Leads tracer Q (machine q c j rest))
      → Leads tracer Q m
  unfolding dispatch after_comma num_comma
  comma-array a (settled {p} {i} k e) go =
      pass tracer Action.after_comma (rw e after_comma_action) refl k.one
        (go _ _ (record { depth = k.depth; stack = k.stack; one = k.one }) (comma_to-array n f k a))
  comma-array a (pending {p} {e} {i} {x} k h s) go =
      pass tracer Action.num_comma
        {m = machine (record (handed p i) { map = comma_to (handed p i) }) c (i + 1) rest}
        (num_action b',' h digit_comma zero_comma)
        (rw (calc_num-pending (suc n) f p e i x k h, ← s)) k.one
        (go _ _ (record { depth = k.depth; stack = k.stack; one = k.one })
          (comma_to-array n f (handed-Kept i k) a))

  pub comma-object :
      {m : Machine Trace}
      → f (suc n) ≡ object_fun
      → After (suc n) f c (b',' ∷ rest) m
      → ((q : Parser) (j : ℕ)
          → Kept (suc n) f q
          → q.map ≡ at_key
          → Leads tracer Q (machine q c j rest))
      → Leads tracer Q m
  unfolding dispatch after_comma num_comma
  comma-object a (settled {p} {i} k e) go =
      pass tracer Action.after_comma (rw e after_comma_action) refl k.one (
        go _ _ (record { depth = k.depth; stack = k.stack; one = k.one }) (comma_to-object n f k a))
  comma-object a (pending {p} {e} {i} {x} k h s) go =
      pass tracer Action.num_comma
        {m = machine (record (handed p i) { map = comma_to (handed p i) }) c (i + 1) rest}
        (num_action b',' h digit_comma zero_comma)
        (rw (calc_num-pending (suc n) f p e i x k h, ← s)) k.one
        (go _ _ (record { depth = k.depth; stack = k.stack; one = k.one })
          (comma_to-object n f (handed-Kept i k) a))

  pub close-array :
      {m : Machine Trace}
      → f (suc n) ≡ array_fun
      → After (suc n) f c (b']' ∷ rest) m
      → ((q : Machine Trace)
          → After n f (c ++ place_end (f n) array_end ∷ []) rest q
          → Leads tracer Q q)
      → Leads tracer Q m
  unfolding dispatch num_close_array
  close-array a (settled {p} {i} k e) go =
      pass tracer Action.close_array (rw e after_close) (close_array-ok n f k a c i rest)
        (closed-Kept n f k i).one (go _ (settled (closed-Kept n f k i) (closed-map n f k i)))
  close-array a (pending {p} {e} {i} {x} k h s) go =
      let k' = handed-Kept i k in
      pass tracer Action.num_close_array
        {m = machine (closed_parser n f k' i) (c ++ place_end (f n) array_end ∷ []) (i + 1) rest}
        (num_action b']' h digit_close zero_close)
        (rw (calc_num-pending (suc n) f p e i x k h, ← s) (close_array-ok n f k' a c i rest))
        (closed-Kept n f k' i).one (go _ (settled (closed-Kept n f k' i) (closed-map n f k' i)))

  pub close-object :
      {m : Machine Trace}
      → f (suc n) ≡ object_fun
      → After (suc n) f c (b'}' ∷ rest) m
      → ((q : Machine Trace)
          → After n f (c ++ place_end (f n) object_end ∷ []) rest q
          → Leads tracer Q q)
      → Leads tracer Q m
  unfolding dispatch num_close_object
  close-object a (settled {p} {i} k e) go =
      pass tracer Action.close_object (rw e after_end) (close_object-ok n f k a c i rest)
        (closed-Kept n f k i).one (go _ (settled (closed-Kept n f k i) (closed-map n f k i)))
  close-object a (pending {p} {e} {i} {x} k h s) go =
      let k' = handed-Kept i k in
      pass tracer Action.num_close_object
        {m = machine (closed_parser n f k' i) (c ++ place_end (f n) object_end ∷ []) (i + 1) rest}
        (num_action b'}' h digit_end zero_end)
        (rw (calc_num-pending (suc n) f p e i x k h, ← s) (close_object-ok n f k' a c i rest))
        (closed-Kept n f k' i).one (go _ (settled (closed-Kept n f k' i) (closed-map n f k' i)))
