-- ===== src/Safe/Open.antt =====
-- The safe delegate of ext/oj_windows/safe.c where none of its limits is set.
use oj_windows.Base.{◌≡◌, refl, ap, ◌∙◌, [], ◌∷◌}
use oj_windows.Base.Int.{ℤ}
use oj_windows.Parser.State.{
  Fun, top_fun, array_fun, object_fun, Parser, Call, Result, ok, raised, fault, ◌>>=◌,
}
use oj_windows.Usual.Ruby.{Ruby, Interner}
use oj_windows.Usual.State.{Usual}
use oj_windows.Usual.Calls.{usual_call, start}
use oj_windows.Safe.{
  Safe, delegated, counted, one_hash, one_array, array_call, object_call, safe_call, safe_start,
}
use oj_windows.Safe.Limits.{Calls, usual_calls, safe_calls}
use oj_windows.Safe.Unlimited.{
  IsOpen, kept, safe_add-open, safe_add_key-open, safe_open-open, safe_open_key-open,
}

module _ {V : Type 0} (r : Ruby V) (i : Interner V) (qnil : ℤ) where
  open i use {Cache}

  -- What a callback does is what the usual one does, but for what it counts.
  abbrev Delegates : Fun → Call → Parser → Safe V Cache → Result (Safe V Cache) → Type 0
  Delegates fun f p s x =
      (n : Safe V Cache) × IsOpen r i qnil n
      × (n.usual ≡ s.usual)
      × (x ≡ delegated r i qnil fun f p n)

  array_call-open :
      (f : Call) (p : Parser) (s : Safe V Cache)
      → IsOpen r i qnil s
      → Delegates array_fun f p s (array_call r i qnil f p s)
  unfolding array_call
  array_call-open Call.open_object p s o =
      let h = one_hash r i qnil s in
      let q = kept r i qnil h s o refl refl refl refl in
      (
        counted r i qnil 1 h,
        kept r i qnil (counted r i qnil 1 h) s o refl refl refl refl,
        refl,
        safe_open-open r i qnil Call.open_object p h q,
      )
  array_call-open Call.open_array p s o =
      let h = one_array r i qnil s in
      let q = kept r i qnil h s o refl refl refl refl in
      (
        counted r i qnil 1 h,
        kept r i qnil (counted r i qnil 1 h) s o refl refl refl refl,
        refl,
        safe_open-open r i qnil Call.open_array p h q,
      )
  array_call-open Call.close_object p s o = (s, o, refl, refl)
  array_call-open Call.close_array p s o = (s, o, refl, refl)
  array_call-open Call.add_null p s o = (
    counted r i qnil 1 s,
    kept r i qnil (counted r i qnil 1 s) s o refl refl refl refl,
    refl,
    safe_add-open r i qnil Call.add_null p s o,
  )
  array_call-open Call.add_true p s o = (
    counted r i qnil 1 s,
    kept r i qnil (counted r i qnil 1 s) s o refl refl refl refl,
    refl,
    safe_add-open r i qnil Call.add_true p s o,
  )
  array_call-open Call.add_false p s o = (
    counted r i qnil 1 s,
    kept r i qnil (counted r i qnil 1 s) s o refl refl refl refl,
    refl,
    safe_add-open r i qnil Call.add_false p s o,
  )
  array_call-open Call.add_int p s o = (
    counted r i qnil 1 s,
    kept r i qnil (counted r i qnil 1 s) s o refl refl refl refl,
    refl,
    safe_add-open r i qnil Call.add_int p s o,
  )
  array_call-open Call.add_float p s o = (
    counted r i qnil 1 s,
    kept r i qnil (counted r i qnil 1 s) s o refl refl refl refl,
    refl,
    safe_add-open r i qnil Call.add_float p s o,
  )
  array_call-open Call.add_big p s o = (
    counted r i qnil 1 s,
    kept r i qnil (counted r i qnil 1 s) s o refl refl refl refl,
    refl,
    safe_add-open r i qnil Call.add_big p s o,
  )
  array_call-open Call.add_str p s o = (
    counted r i qnil 1 s,
    kept r i qnil (counted r i qnil 1 s) s o refl refl refl refl,
    refl,
    safe_add-open r i qnil Call.add_str p s o,
  )

  object_call-open :
      (f : Call) (p : Parser) (s : Safe V Cache)
      → IsOpen r i qnil s
      → Delegates object_fun f p s (object_call r i qnil f p s)
  unfolding object_call
  object_call-open Call.open_object p s o =
      let h = one_hash r i qnil s in
      let q = kept r i qnil h s o refl refl refl refl in
      (
        counted r i qnil 2 h,
        kept r i qnil (counted r i qnil 2 h) s o refl refl refl refl,
        refl,
        safe_open_key-open r i qnil Call.open_object p h q,
      )
  object_call-open Call.open_array p s o =
      let h = one_array r i qnil s in
      let q = kept r i qnil h s o refl refl refl refl in
      (
        counted r i qnil 2 h,
        kept r i qnil (counted r i qnil 2 h) s o refl refl refl refl,
        refl,
        safe_open_key-open r i qnil Call.open_array p h q,
      )
  object_call-open Call.close_object p s o = (s, o, refl, refl)
  object_call-open Call.close_array p s o = (s, o, refl, refl)
  object_call-open Call.add_null p s o = (
    counted r i qnil 2 s,
    kept r i qnil (counted r i qnil 2 s) s o refl refl refl refl,
    refl,
    safe_add_key-open r i qnil Call.add_null p s o,
  )
  object_call-open Call.add_true p s o = (
    counted r i qnil 2 s,
    kept r i qnil (counted r i qnil 2 s) s o refl refl refl refl,
    refl,
    safe_add_key-open r i qnil Call.add_true p s o,
  )
  object_call-open Call.add_false p s o = (
    counted r i qnil 2 s,
    kept r i qnil (counted r i qnil 2 s) s o refl refl refl refl,
    refl,
    safe_add_key-open r i qnil Call.add_false p s o,
  )
  object_call-open Call.add_int p s o = (
    counted r i qnil 2 s,
    kept r i qnil (counted r i qnil 2 s) s o refl refl refl refl,
    refl,
    safe_add_key-open r i qnil Call.add_int p s o,
  )
  object_call-open Call.add_float p s o = (
    counted r i qnil 2 s,
    kept r i qnil (counted r i qnil 2 s) s o refl refl refl refl,
    refl,
    safe_add_key-open r i qnil Call.add_float p s o,
  )
  object_call-open Call.add_big p s o = (
    counted r i qnil 2 s,
    kept r i qnil (counted r i qnil 2 s) s o refl refl refl refl,
    refl,
    safe_add_key-open r i qnil Call.add_big p s o,
  )
  object_call-open Call.add_str p s o = (
    counted r i qnil 2 s,
    kept r i qnil (counted r i qnil 2 s) s o refl refl refl refl,
    refl,
    safe_add_key-open r i qnil Call.add_str p s o,
  )

  safe_call-open :
      (fun : Fun) (f : Call) (p : Parser) (s : Safe V Cache)
      → IsOpen r i qnil s
      → Delegates fun f p s (safe_call r i qnil fun f p s)
  unfolding safe_call
  safe_call-open top_fun f p s o = (s, o, refl, refl)
  safe_call-open array_fun f p s o = array_call-open f p s o
  safe_call-open object_fun f p s o = object_call-open f p s o

  module _ (cs : Calls) (n : Safe V Cache) (q : IsOpen r i qnil n)
      (h : (m : Safe V Cache)
        → IsOpen r i qnil m
        → (safe_calls r i qnil cs m >>= λ t. ok t.usual) ≡ usual_calls r i qnil cs m.usual) where
    after :
        (x : Result (Usual V Cache))
        → (((x >>= λ u. ok (record n { usual = u })) >>= safe_calls r i qnil cs) >>= λ t.
            ok t.usual)
          ≡ (x >>= usual_calls r i qnil cs)
    after (ok u) =
        h (record n { usual = u }) (kept r i qnil (record n { usual = u }) n q refl refl refl refl)
    after (raised e) = refl
    after fault = refl

    delegated-rest :
        (fun : Fun) (f : Call) (p : Parser)
        → ((delegated r i qnil fun f p n >>= safe_calls r i qnil cs) >>= λ t. ok t.usual)
          ≡ (usual_call r i fun f p n.usual >>= usual_calls r i qnil cs)
    unfolding delegated
    delegated-rest fun f p = after (usual_call r i fun f p n.usual)

  safe_calls-open :
      (cs : Calls) (s : Safe V Cache)
      → IsOpen r i qnil s
      → (safe_calls r i qnil cs s >>= λ t. ok t.usual) ≡ usual_calls r i qnil cs s.usual
  unfolding safe_calls usual_calls
  safe_calls-open [] s o = refl
  safe_calls-open ((fun, f, p) ∷ cs) s o =
      let (n, q, u, e) = safe_call-open fun f p s o in
      ap (λ x. (x >>= safe_calls r i qnil cs) >>= λ t. ok t.usual) e
      ∙ (delegated-rest cs n q (safe_calls-open cs) fun f p
          ∙ ap (λ d. usual_call r i fun f p d >>= usual_calls r i qnil cs) u)

  -- Where no limit is set, the safe delegate ends as the usual one does from the same callbacks, with the
  -- same state, exception or fault.
  pub safe_calls-unlimited :
      (cs : Calls) (s : Safe V Cache)
      → IsOpen r i qnil s
      → (safe_calls r i qnil cs (safe_start r i qnil s) >>= λ t. ok t.usual)
        ≡ usual_calls r i qnil cs (start r i s.usual)
  unfolding safe_start
  safe_calls-unlimited cs s o =
      let n = safe_start r i qnil s in
      safe_calls-open cs n (kept r i qnil n s o refl refl refl refl)
