-- ===== src/Safe/Depth.antt =====
-- How deep a run of the safe delegate of ext/oj_windows/safe.c that raises nothing has opened collections.
use oj_windows.Base.{◌+◌, ◌≡◌, sym, ap, ◌∙◌, subst, false, [], ◌∷◌, All, arith}
use oj_windows.Base.Int.{ℤ, pos, ltb_ℤ}
use oj_windows.Parser.State.{Fun, top_fun, array_fun, object_fun, Parser, Call, ok}
use oj_windows.Parser.Closed.{bind-ok}
use oj_windows.Parser.Replay.Rules.{ok-injective}
use oj_windows.Usual.Ruby.{Ruby, Interner}
use oj_windows.Usual.Calls.{usual_call}
use oj_windows.Safe.{
  Safe, is_unlimited, check_array_size, check_object_size, check_max_depth,
  check_max_total_elements, delegated, counted, one_hash, one_array, safe_add, safe_add_key,
  safe_open, safe_open_key, array_call, object_call, safe_call, safe_start,
}
use oj_windows.Safe.Limits.{Calls, safe_calls}

-- What opens a collection inside another one does so at most `m` deep.
abbrev pub IsShallow : ℤ → Fun × Call × Parser → Type 0
IsShallow m (array_fun, Call.open_array, p) = ltb_ℤ m (pos (p.depth + 1)) ≡ false
IsShallow m (array_fun, Call.open_object, p) = ltb_ℤ m (pos (p.depth + 1)) ≡ false
IsShallow m (object_fun, Call.open_array, p) = ltb_ℤ m (pos (p.depth + 1)) ≡ false
IsShallow m (object_fun, Call.open_object, p) = ltb_ℤ m (pos (p.depth + 1)) ≡ false
IsShallow m _ = Unit

module _ {V : Type 0} (r : Ruby V) (i : Interner V) (qnil : ℤ) where
  open i use {Cache}

  delegated-depth :
      (fun : Fun) (f : Call) (p : Parser) (s t : Safe V Cache)
      → delegated r i qnil fun f p s ≡ ok t
      → t.max_depth ≡ s.max_depth
  unfolding delegated
  delegated-depth fun f p s t e =
      let (u, a, b) =
        bind-ok (usual_call r i fun f p s.usual) (λ u. ok (record s { usual = u })) e in
      sym (ap (λ t. t.max_depth) (ok-injective b))

  -- The limit is kept, and a collection is not opened behind it.
  abbrev Opens : Parser → Safe V Cache → Safe V Cache → Type 0
  Opens p s t =
      (t.max_depth ≡ s.max_depth)
      × (is_unlimited r i qnil s.max_depth ≡ false → ltb_ℤ s.max_depth (pos (p.depth + 1)) ≡ false)

  passed-depth :
      (p : Parser) (s : Safe V Cache) (x : Unit {0})
      → check_max_depth r i qnil p s ≡ ok x
      → is_unlimited r i qnil s.max_depth ≡ false
      → ltb_ℤ s.max_depth (pos (p.depth + 1)) ≡ false
  unfolding check_max_depth
  passed-depth p s x e u = ground (arith, e, u)

  module _ (f : Call) (p : Parser) (s t : Safe V Cache) where
    safe_add-depth : safe_add r i qnil f p s ≡ ok t → t.max_depth ≡ s.max_depth
    unfolding safe_add
    safe_add-depth e =
        let n = counted r i qnil 1 s in
        let (a, ea, ka) = bind-ok (check_array_size r i qnil n) _ e in
        let (b, eb, kb) = bind-ok (check_max_total_elements r i qnil n) _ ka in
        delegated-depth array_fun f p n t kb

    safe_add_key-depth : safe_add_key r i qnil f p s ≡ ok t → t.max_depth ≡ s.max_depth
    unfolding safe_add_key
    safe_add_key-depth e =
        let n = counted r i qnil 2 s in
        let (a, ea, ka) = bind-ok (check_object_size r i qnil n) _ e in
        let (b, eb, kb) = bind-ok (check_max_total_elements r i qnil n) _ ka in
        delegated-depth object_fun f p n t kb

    safe_open-depth : safe_open r i qnil f p s ≡ ok t → Opens p s t
    unfolding safe_open
    safe_open-depth e =
        let n = counted r i qnil 1 s in
        let (a, ea, ka) = bind-ok (check_array_size r i qnil n) _ e in
        let (d, ed, kd) = bind-ok (check_max_depth r i qnil p n) _ ka in
        let (b, eb, kb) = bind-ok (check_max_total_elements r i qnil n) _ kd in
        (delegated-depth array_fun f p n t kb, passed-depth p n d ed)

    safe_open_key-depth : safe_open_key r i qnil f p s ≡ ok t → Opens p s t
    unfolding safe_open_key
    safe_open_key-depth e =
        let n = counted r i qnil 2 s in
        let (a, ea, ka) = bind-ok (check_object_size r i qnil n) _ e in
        let (d, ed, kd) = bind-ok (check_max_depth r i qnil p n) _ ka in
        let (b, eb, kb) = bind-ok (check_max_total_elements r i qnil n) _ kd in
        (delegated-depth object_fun f p n t kb, passed-depth p n d ed)

  abbrev Steps : Fun → Call → Parser → Safe V Cache → Safe V Cache → Type 0
  Steps fun f p s t =
      (t.max_depth ≡ s.max_depth)
      × (is_unlimited r i qnil s.max_depth ≡ false → IsShallow s.max_depth (fun, f, p))

  array_call-depth :
      (f : Call) (p : Parser) (s t : Safe V Cache)
      → array_call r i qnil f p s ≡ ok t
      → Steps array_fun f p s t
  unfolding array_call
  array_call-depth Call.open_object p s t e =
      safe_open-depth Call.open_object p (one_hash r i qnil s) t e
  array_call-depth Call.open_array p s t e =
      safe_open-depth Call.open_array p (one_array r i qnil s) t e
  array_call-depth Call.close_object p s t e =
      (delegated-depth array_fun Call.close_object p s t e, λ u. tt)
  array_call-depth Call.close_array p s t e =
      (delegated-depth array_fun Call.close_array p s t e, λ u. tt)
  array_call-depth Call.add_null p s t e = (safe_add-depth Call.add_null p s t e, λ u. tt)
  array_call-depth Call.add_true p s t e = (safe_add-depth Call.add_true p s t e, λ u. tt)
  array_call-depth Call.add_false p s t e = (safe_add-depth Call.add_false p s t e, λ u. tt)
  array_call-depth Call.add_int p s t e = (safe_add-depth Call.add_int p s t e, λ u. tt)
  array_call-depth Call.add_float p s t e = (safe_add-depth Call.add_float p s t e, λ u. tt)
  array_call-depth Call.add_big p s t e = (safe_add-depth Call.add_big p s t e, λ u. tt)
  array_call-depth Call.add_str p s t e = (safe_add-depth Call.add_str p s t e, λ u. tt)

  object_call-depth :
      (f : Call) (p : Parser) (s t : Safe V Cache)
      → object_call r i qnil f p s ≡ ok t
      → Steps object_fun f p s t
  unfolding object_call
  object_call-depth Call.open_object p s t e =
      safe_open_key-depth Call.open_object p (one_hash r i qnil s) t e
  object_call-depth Call.open_array p s t e =
      safe_open_key-depth Call.open_array p (one_array r i qnil s) t e
  object_call-depth Call.close_object p s t e =
      (delegated-depth object_fun Call.close_object p s t e, λ u. tt)
  object_call-depth Call.close_array p s t e =
      (delegated-depth object_fun Call.close_array p s t e, λ u. tt)
  object_call-depth Call.add_null p s t e = (safe_add_key-depth Call.add_null p s t e, λ u. tt)
  object_call-depth Call.add_true p s t e = (safe_add_key-depth Call.add_true p s t e, λ u. tt)
  object_call-depth Call.add_false p s t e = (safe_add_key-depth Call.add_false p s t e, λ u. tt)
  object_call-depth Call.add_int p s t e = (safe_add_key-depth Call.add_int p s t e, λ u. tt)
  object_call-depth Call.add_float p s t e = (safe_add_key-depth Call.add_float p s t e, λ u. tt)
  object_call-depth Call.add_big p s t e = (safe_add_key-depth Call.add_big p s t e, λ u. tt)
  object_call-depth Call.add_str p s t e = (safe_add_key-depth Call.add_str p s t e, λ u. tt)

  safe_call-depth :
      (fun : Fun) (f : Call) (p : Parser) (s t : Safe V Cache)
      → safe_call r i qnil fun f p s ≡ ok t
      → Steps fun f p s t
  unfolding safe_call
  safe_call-depth top_fun f p s t e = (delegated-depth top_fun f p s t e, λ u. tt)
  safe_call-depth array_fun f p s t e = array_call-depth f p s t e
  safe_call-depth object_fun f p s t e = object_call-depth f p s t e

  safe_calls-depth :
      (cs : Calls) (s t : Safe V Cache)
      → safe_calls r i qnil cs s ≡ ok t
      → is_unlimited r i qnil s.max_depth ≡ false
      → All (IsShallow s.max_depth) cs
  unfolding safe_calls
  safe_calls-depth [] s t e u = tt
  safe_calls-depth ((fun, f, p) ∷ cs) s t e u =
      let (n, a, b) = bind-ok (safe_call r i qnil fun f p s) (safe_calls r i qnil cs) e in
      let (x, y) = safe_call-depth fun f p s n a in
      let rest = safe_calls-depth cs n t b (ap (is_unlimited r i qnil) x ∙ u) in
      (y u, subst (λ m. All (IsShallow m) cs) x rest)

  -- From `safe_start` on, whatever callbacks the parser calls: where none of them raises and max_depth is a
  -- limit, no array or object inside another one has been opened at a depth of the parser that is max_depth
  -- or more.
  pub safe_calls-IsShallow :
      (cs : Calls) (s t : Safe V Cache)
      → safe_calls r i qnil cs (safe_start r i qnil s) ≡ ok t
      → is_unlimited r i qnil s.max_depth ≡ false
      → All (IsShallow s.max_depth) cs
  unfolding safe_start
  safe_calls-IsShallow cs s t e u = safe_calls-depth cs (safe_start r i qnil s) t e u
