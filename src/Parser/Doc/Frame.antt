-- ===== src/Parser/Doc/Frame.antt =====
-- The state of ext/oj_windows/parser.c's `parse` between the parts of a document: in front of a value,
-- behind it, and what the separators and closing brackets make of it.
use oj_windows.Base.{
  ℕ, zero, suc, ◌+◌, ◌-◌, ◌≤◌, ◌≡◌, ◌⊎◌, false, List, [], ◌∷◌, ◌++◌, Bytes, arith, if◌then◌else◌,
}
use oj_windows.Base.Int.{ℤ}
use oj_windows.Parser.Tables.{Map, at_value, at_after, at_digit, at_zero, at_comma, at_key}
use oj_windows.Parser.State.{Fun, array_fun, object_fun, Parser, oj_int, oj_none, ok, invoke}
use oj_windows.Parser.Num.{calc_num, negate}
use oj_windows.Parser.Step.Loop.{Machine, machine, map_at}
use oj_windows.Parser.Step.Nest.{close_array_step, close_object_step, comma_to}
use oj_windows.Parser.Trace.{Entry, int, place, place_end, tracer, array_end, object_end}

-- The nesting: the depth, and the kinds of the containers around, from the outermost on.
pub record Kept (n : ℕ) (f : ℕ → Fun) (p : Parser) : Type 0 where
  pub depth : p.depth ≡ n
  pub stack : (i : ℕ) → i ≤ n → p.stack i ≡ f i
  pub one : p.just_one ≡ false

-- An integer `x` that has been read and not yet handed over.
pub record IsPending (x : ℤ) (p : Parser) : Type 0 where
  pub map : (p.map ≡ at_digit) ⊎ (p.map ≡ at_zero)
  pub type : p.type ≡ oj_int
  pub value : (if p.num.neg then negate p.num.fixnum else p.num.fixnum) ≡ x

abbrev pub settled_map : ℕ → Map
settled_map zero = at_value
settled_map (suc n) = at_after

abbrev Trace : Type 0
Trace = List Entry

-- Behind a value: its calls are made, or its number is pending.
pub data After (n : ℕ) (f : ℕ → Fun) (c : Trace) (rest : Bytes) : Machine Trace → Type 0 where
  settled :
      {p : Parser} {i : ℕ}
      → Kept n f p
      → p.map ≡ settled_map n
      → After n f c rest (machine p c i rest)
  pending :
      {p : Parser} {e : Trace} {i : ℕ} {x : ℤ}
      → Kept n f p
      → IsPending x p
      → c ≡ e ++ place (f n) p.key (int x) ∷ []
      → After n f c rest (machine p e i rest)

pub top : {n : ℕ} {f : ℕ → Fun} {p : Parser} → Kept n f p → p.stack p.depth ≡ f n
top k = rw k.depth (k.stack _ (omega arith))

-- calc_num hands a pending integer over.
abbrev pub handed : Parser → ℕ → Parser
handed p i = record p {
  cur = i;
  type = oj_none;
  num = if p.num.neg then record (p.num) { fixnum = negate p.num.fixnum; neg = false } else p.num;
}

pub calc_num-pending :
    (n : ℕ) (f : ℕ → Fun) (p : Parser) (e : Trace) (i : ℕ) (x : ℤ)
    → Kept n f p
    → IsPending x p
    → calc_num tracer (record p { cur = i }) e
      ≡ ok (handed p i, e ++ place (f n) p.key (int x) ∷ [])
unfolding calc_num invoke
calc_num-pending n f p e i x k h = ground (arith, top k)

map_at_one : (n : ℕ) (p : Parser) → p.depth ≡ suc n → map_at 1 p ≡ settled_map n
map_at_one zero p e = ground arith
map_at_one (suc n) p e = ground arith

module _ (n : ℕ) (f : ℕ → Fun) {p : Parser} (k : Kept (suc n) f p) where
  pub comma_to-array : f (suc n) ≡ array_fun → comma_to p ≡ at_comma
  comma_to-array a = ground (arith, top k, k.depth)

  pub comma_to-object : f (suc n) ≡ object_fun → comma_to p ≡ at_key
  comma_to-object a = ground (arith, top k, k.depth)

  -- The parser behind a closing bracket.
  pub closed_parser : ℕ → Parser
  closed_parser i = record p { map = map_at 1 p; depth = p.depth - 1; cur = i }

  pub closed-Kept : (i : ℕ) → Kept n f (closed_parser i)
  unfolding closed_parser
  closed-Kept i = record {
    depth = omega (arith, k.depth);
    stack = λ j h. k.stack j (omega arith);
    one = k.one;
  }

  pub closed-map : (i : ℕ) → (closed_parser i).map ≡ settled_map n
  unfolding closed_parser
  closed-map i = map_at_one n p k.depth

  pub close_array-ok :
      f (suc n) ≡ array_fun
      → (e : Trace) (i : ℕ) (bs : Bytes)
      → close_array_step tracer p e i bs
        ≡ ok (machine (closed_parser i) (e ++ place_end (f n) array_end ∷ []) (i + 1) bs)
  unfolding close_array_step closed_parser
  close_array-ok a e i bs = ground (arith, top k, k.depth, k.stack n (omega arith))

  pub close_object-ok :
      f (suc n) ≡ object_fun
      → (e : Trace) (i : ℕ) (bs : Bytes)
      → close_object_step tracer p e i bs
        ≡ ok (machine (closed_parser i) (e ++ place_end (f n) object_end ∷ []) (i + 1) bs)
  unfolding close_object_step closed_parser
  close_object-ok a e i bs = ground (arith, top k, k.depth, k.stack n (omega arith))
