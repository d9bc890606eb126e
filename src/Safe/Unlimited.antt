-- ===== src/Safe/Unlimited.antt =====
-- The checks of ext/oj_windows/safe.c where no limit is set, and the callbacks that make them.
use oj_windows.Base.{◌≡◌, refl, ap, ◌∙◌, true}
use oj_windows.Base.Int.{ℤ}
use oj_windows.Parser.State.{array_fun, object_fun, Parser, Call, Result, ok, ◌>>=◌}
use oj_windows.Usual.Ruby.{Ruby, Interner}
use oj_windows.Safe.{
  Safe, is_unlimited, check_array_size, check_object_size, check_max_depth,
  check_max_total_elements, delegated, counted, safe_add, safe_add_key, safe_open, safe_open_key,
}

module _ {V : Type 0} (r : Ruby V) (i : Interner V) (qnil : ℤ) where
  open i use {Cache}

  pub record IsOpen (s : Safe V Cache) : Type 0 where
    pub hashes : is_unlimited r i qnil s.max_hash_size ≡ true
    pub arrays : is_unlimited r i qnil s.max_array_size ≡ true
    pub depth : is_unlimited r i qnil s.max_depth ≡ true
    pub total : is_unlimited r i qnil s.max_total_elements ≡ true

  module _ (s : Safe V Cache) (o : IsOpen s) where
    array_size-open : check_array_size r i qnil s ≡ ok tt
    unfolding check_array_size
    array_size-open = rw (o.arrays) refl

    object_size-open : check_object_size r i qnil s ≡ ok tt
    unfolding check_object_size
    object_size-open = rw (o.hashes) refl

    max_depth-open : (p : Parser) → check_max_depth r i qnil p s ≡ ok tt
    unfolding check_max_depth
    max_depth-open p = rw (o.depth) refl

    total-open : check_max_total_elements r i qnil s ≡ ok tt
    unfolding check_max_total_elements
    total-open = rw (o.total) refl

  pub kept :
      (n s : Safe V Cache)
      → IsOpen s
      → n.max_hash_size ≡ s.max_hash_size
      → n.max_array_size ≡ s.max_array_size
      → n.max_depth ≡ s.max_depth
      → n.max_total_elements ≡ s.max_total_elements
      → IsOpen n
  kept n s o a b c d = record {
    hashes = ap (is_unlimited r i qnil) a ∙ o.hashes;
    arrays = ap (is_unlimited r i qnil) b ∙ o.arrays;
    depth = ap (is_unlimited r i qnil) c ∙ o.depth;
    total = ap (is_unlimited r i qnil) d ∙ o.total;
  }

  bind-step : {A B : Type 0} {m : Result A} {x : A} (k : A → Result B) → m ≡ ok x → (m >>= k) ≡ k x
  bind-step k e = ap (λ m. m >>= k) e

  module _ (f : Call) (p : Parser) (s : Safe V Cache) (o : IsOpen s) where
    pub safe_add-open :
        safe_add r i qnil f p s ≡ delegated r i qnil array_fun f p (counted r i qnil 1 s)
    unfolding safe_add
    safe_add-open =
        let n = counted r i qnil 1 s in
        let q = kept n s o refl refl refl refl in
        bind-step _ (array_size-open n q) ∙ bind-step _ (total-open n q)

    pub safe_add_key-open :
        safe_add_key r i qnil f p s ≡ delegated r i qnil object_fun f p (counted r i qnil 2 s)
    unfolding safe_add_key
    safe_add_key-open =
        let n = counted r i qnil 2 s in
        let q = kept n s o refl refl refl refl in
        bind-step _ (object_size-open n q) ∙ bind-step _ (total-open n q)

    pub safe_open-open :
        safe_open r i qnil f p s ≡ delegated r i qnil array_fun f p (counted r i qnil 1 s)
    unfolding safe_open
    safe_open-open =
        let n = counted r i qnil 1 s in
        let q = kept n s o refl refl refl refl in
        bind-step _ (array_size-open n q)
        ∙ bind-step _ (max_depth-open n q p)
        ∙ bind-step _ (total-open n q)

    pub safe_open_key-open :
        safe_open_key r i qnil f p s ≡ delegated r i qnil object_fun f p (counted r i qnil 2 s)
    unfolding safe_open_key
    safe_open_key-open =
        let n = counted r i qnil 2 s in
        let q = kept n s o refl refl refl refl in
        bind-step _ (object_size-open n q)
        ∙ bind-step _ (max_depth-open n q p)
        ∙ bind-step _ (total-open n q)
