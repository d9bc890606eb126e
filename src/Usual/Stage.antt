-- ===== src/Usual/Stage.antt =====
-- The stacks of ext/oj_windows/usual.c between callbacks, and what each callback does to them.
use oj_windows.Base.{
  ◌+◌, ◌≤◌, ◌≡◌, sym, ap, ◌∙◌, false, Option, none, some, List, [], ◌∷◌, ◌++◌, Bytes, length, ltb,
  arith,
}
use oj_windows.Parser.State.{Result, ok, ◌>>=◌}
use oj_windows.Parser.Replay.Rules.{bind_assoc}
use oj_windows.Usual.Ruby.{Ruby, Interner}
use oj_windows.Usual.Stacks.{Stack, grow, put, IsRoomy, grow-put, grow-put-put}
use oj_windows.Usual.State.{
  Col, col, Key, GetKey, cache_key, KeyCache, of_symbols, Options, Usual, form_str, form_sym,
}
use oj_windows.Usual.Keys.{key_of, push_key, max_key}
use oj_windows.Usual.Handlers.{
  push, push2, open_col, push_member, open_object, open_object_key, open_array, open_array_key,
}

module _ {V : Type 0} (r : Ruby V) (i : Interner V) where
  open i use {Cache}

  -- The symbol cache keeps symbols, and it is there if keys come from it.
  abbrev pub KeysHold : GetKey → KeyCache → Option Cache → Type 0
  KeysHold g k (some c) = i.Holds (form_sym r) c
  KeysHold cache_key of_symbols none = ⊥
  KeysHold _ _ none = Unit

  pub record Stage (o : Options V) (vs : List V) (cs : List Col) (ks : List Key) (d : Usual V Cache)
      : Type 0 where
    pub values : d.values.items ≡ vs
    pub cols : d.cols.items ≡ cs
    pub keys : d.keys.items ≡ ks
    pub options : d.options ≡ o
    pub values_room : IsRoomy d.values
    pub cols_room : IsRoomy d.cols
    pub keys_room : IsRoomy d.keys
    pub strings : i.Holds (form_str r) d.str_cache
    pub symbols : KeysHold o.get_key o.key_cache d.sym_cache
    pub nothing : d.yielded ≡ []

  -- A callback returns, with these entries on the stacks.
  abbrev pub Makes : Options V → List V → List Col → List Key → Result (Usual V Cache) → Type 0
  Makes o vs cs ks res = (d : Usual V Cache) × (res ≡ ok d) × Stage o vs cs ks d

  pub Makes-bind :
      {o : Options V} {vs ws : List V} {cs es : List Col} {ks ls : List Key}
      (res : Result (Usual V Cache)) (f : Usual V Cache → Result (Usual V Cache))
      → Makes o vs cs ks res
      → ((d : Usual V Cache) → Stage o vs cs ks d → Makes o ws es ls (f d))
      → Makes o ws es ls (res >>= f)
  Makes-bind res f (d, e, s) h = let (d', e', s') = h d s in (d', ap (λ x. x >>= f) e ∙ e', s')

  short : (k : Bytes) → length k ≤ max_key → ltb max_key (length k) ≡ false
  short k h = ground arith

  module _ {o : Options V} {vs : List V} {cs : List Col} {ks : List Key} {d : Usual V Cache}
      (s : Stage o vs cs ks d) where
    pub values-Stage :
        (t : Stack V) {ws : List V}
        → t.items ≡ ws
        → IsRoomy t
        → Stage o ws cs ks (record d { values = t })
    values-Stage t e h = record {
      values = e;
      cols = s.cols;
      keys = s.keys;
      options = s.options;
      values_room = h;
      cols_room = s.cols_room;
      keys_room = s.keys_room;
      strings = s.strings;
      symbols = s.symbols;
      nothing = s.nothing;
    }

    pub cols-Stage :
        (t : Stack Col) {ws : List Col}
        → t.items ≡ ws
        → IsRoomy t
        → Stage o vs ws ks (record d { cols = t })
    cols-Stage t e h = record {
      values = s.values;
      cols = e;
      keys = s.keys;
      options = s.options;
      values_room = s.values_room;
      cols_room = h;
      keys_room = s.keys_room;
      strings = s.strings;
      symbols = s.symbols;
      nothing = s.nothing;
    }

    pub keys-Stage :
        (t : Stack Key) {ws : List Key}
        → t.items ≡ ws
        → IsRoomy t
        → Stage o vs cs ws (record d { keys = t })
    keys-Stage t e h = record {
      values = s.values;
      cols = s.cols;
      keys = e;
      options = s.options;
      values_room = s.values_room;
      cols_room = s.cols_room;
      keys_room = h;
      strings = s.strings;
      symbols = s.symbols;
      nothing = s.nothing;
    }

    pub push-Makes : (v : V) → Makes o (vs ++ v ∷ []) cs ks (push r v d)
    unfolding push
    push-Makes v =
        let (t, e, f, g) = grow-put 0 v d.values (omega arith) s.values_room in
        (
          record d { values = t },
          ap (λ x. x >>= λ t. ok (record d { values = t })) e,
          values-Stage t (f ∙ ap (λ l. l ++ v ∷ []) s.values) g,
        )

    pub push2-Makes : (v : V) → Makes o (vs ++ r.undef ∷ v ∷ []) cs ks (push2 r v d)
    unfolding push2
    push2-Makes v =
        let (t, e, f, g) = grow-put-put r.undef v d.values s.values_room in
        (
          record d { values = t },
          sym (
                bind_assoc (put r.undef (grow 1 d.values)) (put v)
                  (λ t. ok (record d { values = t })))
              ∙ ap (λ x. x >>= λ t. ok (record d { values = t })) e,
          values-Stage t (f ∙ ap (λ l. l ++ r.undef ∷ v ∷ []) s.values) g,
        )

    pub push_key-Makes :
        (k : Bytes) → length k ≤ max_key → Makes o vs cs (ks ++ key_of k ∷ []) (push_key k d)
    unfolding push_key
    push_key-Makes k h =
        let (t, e, f, g) = grow-put 0 (key_of k) d.keys (omega arith) s.keys_room in
        (
          record d { keys = t },
          rw (short k h) (ap (λ x. x >>= λ t. ok (record d { keys = t })) e),
          keys-Stage t (f ∙ ap (λ l. l ++ key_of k ∷ []) s.keys) g,
        )

    pub open_col-Makes : (c b : Col) → b ≡ c → Makes o vs (cs ++ c ∷ []) ks (open_col r b d)
    unfolding open_col
    open_col-Makes c b q =
        let (t, e, f, g) = grow-put 1 b d.cols (omega arith) s.cols_room in
        (
          record d { cols = t },
          ap (λ x. x >>= λ t. ok (record d { cols = t })) e,
          cols-Stage t (f ∙ (λ i. s.cols i ++ q i ∷ [])) g,
        )

  module _ {o : Options V} {vs : List V} {cs : List Col} {ks : List Key} {d : Usual V Cache}
      (s : Stage o vs cs ks d) where
    pub push_member-Makes :
        (k : Bytes) (v : V)
        → length k ≤ max_key
        → Makes o (vs ++ r.undef ∷ v ∷ []) cs (ks ++ key_of k ∷ []) (push_member r k v d)
    unfolding push_member
    push_member-Makes k v h =
        Makes-bind (push_key k d) (push2 r v) (push_key-Makes s k h) (λ e t. push2-Makes t v)

    pub open_object-Makes :
        Makes o
          (vs ++ r.undef ∷ [])
          (cs ++ col (length vs) (some (length ks)) ∷ [])
          ks
          (open_object r d)
    unfolding open_object
    open_object-Makes =
        let b = col (length d.values.items) (some (length d.keys.items)) in
        Makes-bind (open_col r b d) (push r r.undef)
          (open_col-Makes s (col (length vs) (some (length ks))) b
            (λ i. col (length (s.values i)) (some (length (s.keys i)))))
          (λ e t. push-Makes t r.undef)

    pub open_array-Makes :
        Makes o (vs ++ r.undef ∷ []) (cs ++ col (length vs) none ∷ []) ks (open_array r d)
    unfolding open_array
    open_array-Makes =
        let b = col (length d.values.items) none in
        Makes-bind (open_col r b d) (push r r.undef)
          (open_col-Makes s (col (length vs) none) b (λ i. col (length (s.values i)) none))
          (λ e t. push-Makes t r.undef)

    pub open_object_key-Makes :
        (k : Bytes)
        → length k ≤ max_key
        → Makes o
            (vs ++ r.undef ∷ r.undef ∷ [])
            (cs ++ col (length vs + 1) (some (length (ks ++ key_of k ∷ []))) ∷ [])
            (ks ++ key_of k ∷ [])
            (open_object_key r k d)
    unfolding open_object_key
    open_object_key-Makes k h = Makes-bind (push_key k d) _ (push_key-Makes s k h) λ e t.
        let b = col (length e.values.items + 1) (some (length e.keys.items)) in
        Makes-bind (open_col r b e) (push2 r r.undef)
          (open_col-Makes t (col (length vs + 1) (some (length (ks ++ key_of k ∷ [])))) b
            (λ i. col (length (t.values i) + 1) (some (length (t.keys i)))))
          (λ f u. push2-Makes u r.undef)

    pub open_array_key-Makes :
        (k : Bytes)
        → length k ≤ max_key
        → Makes o
            (vs ++ r.undef ∷ r.undef ∷ [])
            (cs ++ col (length vs + 1) none ∷ [])
            (ks ++ key_of k ∷ [])
            (open_array_key r k d)
    unfolding open_array_key
    open_array_key-Makes k h = Makes-bind (push_key k d) _ (push_key-Makes s k h) λ e t.
        let b = col (length e.values.items + 1) none in
        Makes-bind (open_col r b e) (push2 r r.undef)
          (open_col-Makes t (col (length vs + 1) none) b (λ i. col (length (t.values i) + 1) none))
          (λ f u. push2-Makes u r.undef)
