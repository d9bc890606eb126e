-- ===== src/Parser/Doc/Words.antt =====
-- ext/oj_windows/parser.c's `parse` at the words null, true and false.
use oj_windows.Base.{ℕ, zero, suc, ◌+◌, ◌≡◌, [], ◌∷◌, ◌++◌, Bytes, codes, arith}
use oj_windows.Parser.Tables.{Action}
use oj_windows.Parser.State.{Fun, Parser, invoke}
use oj_windows.Parser.Step.{dispatch}
use oj_windows.Parser.Step.Loop.{Machine, machine, map_at}
use oj_windows.Parser.Step.Word.{val_null, val_true, val_false}
use oj_windows.Parser.Trace.{null, true_value, false_value, place, tracer}
use oj_windows.Parser.Leads.{Leads, pass}
use oj_windows.Parser.Doc.Actions.{
  IsOpen, action-IsOpen, value_n, comma_n, value_t, comma_t, value_f, comma_f,
}
use oj_windows.Parser.Doc.Frame.{Kept, top, After, settled, settled_map}
use oj_windows.Parser.Doc.Behind.{Trace}

pub map_at_zero : (n : ℕ) (p : Parser) → p.depth ≡ n → map_at 0 p ≡ settled_map n
map_at_zero zero p e = ground arith
map_at_zero (suc n) p e = ground arith

module _ (n : ℕ) (f : ℕ → Fun) (p : Parser) (c : Trace) (i : ℕ) (rest : Bytes) (k : Kept n f p)
    (o : IsOpen p.map) {Q : Machine Trace → Type 0} where
  pub null-Leads :
      ((m : Machine Trace) → After n f (c ++ place (f n) p.key null ∷ []) rest m → Leads tracer Q m)
      → Leads tracer Q (machine p c i (codes "null" ++ rest))
  unfolding dispatch val_null invoke
  null-Leads go =
      pass tracer Action.val_null
        {m = machine (record p { map = map_at 0 p; cur = i + 3 }) (c ++ place (f n) p.key null ∷ [])
          (i + 3 + 1) rest}
        (action-IsOpen b'n' o value_n comma_n) (rw (top k)) k.one
        (go _ (
          settled (record { depth = k.depth; stack = k.stack; one = k.one })
            (map_at_zero n p k.depth)))

  pub true-Leads :
      ((m : Machine Trace)
        → After n f (c ++ place (f n) p.key true_value ∷ []) rest m
        → Leads tracer Q m)
      → Leads tracer Q (machine p c i (codes "true" ++ rest))
  unfolding dispatch val_true invoke
  true-Leads go =
      pass tracer Action.val_true
        {m = machine (record p { map = map_at 0 p; cur = i + 3 })
          (c ++ place (f n) p.key true_value ∷ []) (i + 3 + 1) rest}
        (action-IsOpen b't' o value_t comma_t) (rw (top k)) k.one
        (go _ (
          settled (record { depth = k.depth; stack = k.stack; one = k.one })
            (map_at_zero n p k.depth)))

  pub false-Leads :
      ((m : Machine Trace)
        → After n f (c ++ place (f n) p.key false_value ∷ []) rest m
        → Leads tracer Q m)
      → Leads tracer Q (machine p c i (codes "false" ++ rest))
  unfolding dispatch val_false invoke
  false-Leads go =
      pass tracer Action.val_false
        {m = machine (record p { map = map_at 0 p; cur = i + 4 })
          (c ++ place (f n) p.key false_value ∷ []) (i + 4 + 1) rest}
        (action-IsOpen b'f' o value_f comma_f) (rw (top k)) k.one
        (go _ (
          settled (record { depth = k.depth; stack = k.stack; one = k.one })
            (map_at_zero n p k.depth)))
