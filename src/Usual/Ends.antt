-- ===== src/Usual/Ends.antt =====
-- What the closing callbacks of ext/oj_windows/usual.c make of a collection.
use oj_windows.Base.{
  ℕ, suc, ◌+◌, ◌-◌, ◌≡◌, refl, sym, ap, ◌∙◌, true, false, Option, none, some, List, [], ◌∷◌, ◌++◌,
  Bytes, IsKey, All, length, take, drop, take-append, drop-append, drop-append_suc,
  get_elem?-append, length-append, ltb, ◌==◌, if◌then◌else◌, arith,
}
use oj_windows.Parser.State.{ok, fault, ◌>>=◌}
use oj_windows.Parser.Leads.{and_false}
use oj_windows.Cells.{there}
use oj_windows.Usual.Ruby.{Ruby, Interner}
use oj_windows.Usual.Stacks.{Stack, IsRoomy}
use oj_windows.Usual.State.{Col, col, Key, Options, Usual}
use oj_windows.Usual.Keys.{key_of, get_key}
use oj_windows.Usual.Close.{
  pop_last, pop_col, region, replace, keys_from, drop_keys, yield_object, fill_keys, close_object,
  close_array,
}
use oj_windows.Usual.Stage.{Stage, Makes, values-Stage, cols-Stage, keys-Stage}
use oj_windows.Usual.Kept.{Gets, Gets-bind, key_form, get_key-Gets}

module _ {A : Type 0} where
  pop_last-append : (l : List A) (a : A) → pop_last (l ++ a ∷ []) ≡ ok (a, l)
  unfolding pop_last
  pop_last-append l a =
      let e : length (l ++ a ∷ []) - 1 ≡ length l = omega (arith, length-append l (a ∷ [])) in
      let f : (length (l ++ a ∷ []) == 0) ≡ false = ground (arith, length-append l (a ∷ [])) in
      rw (f, e, get_elem?-append, take-append)

  shorter :
      (l m : List A) (s : Stack A) → s.items ≡ l ++ m → IsRoomy s → IsRoomy (record s { items = l })
  shorter l m s e r = record {
    two = r.two;
    within = omega (arith, r.within, length-append l m, ap (λ x. length x) e);
  }

module _ {V : Type 0} (r : Ruby V) (i : Interner V) where
  open i use {Cache}

  module _ {o : Options V} {vs : List V} {cs : List Col} {ks : List Key} {d : Usual V Cache} where
    pop_col-Stage :
        (c : Col)
        → Stage r i o vs (cs ++ c ∷ []) ks d
        → (e : Usual V Cache) × (pop_col d ≡ ok (c, e)) × Stage r i o vs cs ks e
    unfolding pop_col
    pop_col-Stage c s = (
      record d { cols = record (d.cols) { items = cs } },
      ap (λ l. pop_last l >>= λ (c, cs). ok (c, record d { cols = record (d.cols) { items = cs } }))
            s.cols
          ∙ rw (pop_last-append cs c) refl,
      cols-Stage r i s (record (d.cols) { items = cs }) refl
          (shorter cs (c ∷ []) d.cols s.cols s.cols_room),
    )

  module _ {o : Options V} (vs : List V) (u : V) (ws : List V) {cs : List Col} {ks : List Key}
      {d : Usual V Cache} (s : Stage r i o (vs ++ u ∷ ws) cs ks d) where
    region-eq : (k : Option ℕ) → region (col (length vs) k) d ≡ ok ws
    unfolding region
    region-eq k =
        ap (λ l. if ltb (length vs) (length l) then ok (drop (length vs + 1) l) else fault) s.values
        ∙ (let e : ltb (length vs) (length (vs ++ u ∷ ws)) ≡ true =
              ground (arith, length-append vs (u ∷ ws)) in
            let f : length vs + 1 ≡ suc (length vs) = omega arith in
            rw (e, f) (ap ok (drop-append_suc vs u ws)))

    replace-Stage :
        (k : Option ℕ) (v : V) → Stage r i o (vs ++ v ∷ []) cs ks (replace (col (length vs) k) v d)
    unfolding replace
    replace-Stage k v =
        let e : take (length vs) d.values.items ≡ vs =
          ap (take (length vs)) s.values ∙ take-append vs (u ∷ ws) in
        values-Stage r i s (record (d.values) { items = take (length vs) d.values.items ++ v ∷ [] })
          (ap (λ l. l ++ v ∷ []) e)
          (record {
            two = s.values_room.two;
            within = omega (
              arith,
              s.values_room.within,
              ap (λ x. length x) s.values,
              length-append vs (u ∷ ws),
              length-append (take (length vs) d.values.items) (v ∷ []),
              ap (λ x. length x) e,
            );
          })

  module _ {o : Options V} {vs : List V} {cs : List Col} (ks ls : List Key) {d : Usual V Cache}
      (s : Stage r i o vs cs (ks ++ ls) d) where
    keys_from-eq : keys_from (length ks) d ≡ ok ls
    unfolding keys_from
    keys_from-eq =
        ap (λ l. if ltb (length l) (length ks) then fault else ok (drop (length ks) l)) s.keys
        ∙ (let e : ltb (length (ks ++ ls)) (length ks) ≡ false =
              ground (arith, length-append ks ls) in
            rw e (ap ok (drop-append ks ls)))

    drop_keys-Stage : Stage r i o vs cs ks (drop_keys (length ks) d)
    unfolding drop_keys
    drop_keys-Stage =
        let e : take (length ks) d.keys.items ≡ ks =
          ap (take (length ks)) s.keys ∙ take-append ks ls in
        keys-Stage r i s (record (d.keys) { items = take (length ks) d.keys.items }) e
          (shorter (take (length ks) d.keys.items) ls d.keys (s.keys ∙ ap (λ l. l ++ ls) (sym e))
            s.keys_room)

  module _ {o : Options V} (vs : List V) (u : V) (ws : List V) {cs : List Col} {ks : List Key}
      {d : Usual V Cache} where
    -- The elements of an array become the array.
    pub close_array-Makes :
        Stage r i o (vs ++ u ∷ ws) (cs ++ col (length vs) none ∷ []) ks d
        → Makes r i o (vs ++ r.array ws ∷ []) cs ks (close_array r i d)
    unfolding close_array
    close_array-Makes s =
        let (e, f, t) = pop_col-Stage (col (length vs) none) s in
        (
          replace (col (length vs) none) (r.array ws) e,
          ap (λ x. x >>= λ (c, e). region c e >>= λ vs. ok (replace c (r.array vs) e)) f
              ∙ ap (λ x. x >>= λ vs'. ok (replace (col (length vs) none) (r.array vs') e))
                  (region-eq vs u ws t none),
          replace-Stage vs u ws t none (r.array ws),
        )

-- The members of an object in the making: a name and a value each.
abbrev pub Members : Type 0 → Type 0
Members V = List (Bytes × V)

abbrev pub member_keys : {V : Type 0} → Members V → List Key
member_keys [] = []
member_keys ((n, v) ∷ ms) = key_of n ∷ member_keys ms

abbrev pub IsNamed : {V : Type 0} → Members V → Type 0
IsNamed = All (λ m. IsKey m.0)

module _ {V : Type 0} (r : Ruby V) where
  -- On the stack a place stands before each value, and the hash is made of names and values.
  abbrev pub gaps : Members V → List V
  gaps [] = []
  gaps ((n, v) ∷ ms) = r.undef ∷ v ∷ gaps ms

  abbrev pub named : Options V → Members V → List V
  named o [] = []
  named o ((n, v) ∷ ms) = key_form r o.get_key o.key_cache n ∷ v ∷ named o ms

module _ {V : Type 0} (r : Ruby V) (i : Interner V) where
  open i use {Cache}

  fill_keys-Gets :
      {o : Options V} {vs : List V} {cs : List Col} {ks : List Key} (ms : Members V)
      (d : Usual V Cache)
      → IsNamed ms
      → Stage r i o vs cs ks d
      → Gets r i o vs cs ks (named r o ms) (fill_keys r i (member_keys ms) (gaps r ms) d)
  unfolding fill_keys
  fill_keys-Gets [] d h s = (d, refl, s)
  fill_keys-Gets {o} ((n, v) ∷ ms) d h s =
      let k = key_form r o.get_key o.key_cache n in
      Gets-bind r i k (named r o ((n, v) ∷ ms)) (get_key r i (key_of n) d) _
        (get_key-Gets r i s n h.0)
        λ e t.
          Gets-bind r i (named r o ms) (named r o ((n, v) ∷ ms))
            (fill_keys r i (member_keys ms) (gaps r ms) e) (λ (ws, f). ok (k ∷ v ∷ ws, f))
            (fill_keys-Gets ms e h.1 t) (λ f w. (f, refl, w))

  no_yield :
      {o : Options V} {vs : List V} {cs : List Col} {ks : List Key} {d : Usual V Cache} (v : V)
      → o.block ≡ false
      → Stage r i o vs cs ks d
      → yield_object v d ≡ d
  unfolding yield_object
  no_yield {d = d} v e s =
      let f : d.options.block ≡ false = ap (λ (o : Options V). o.block) s.options ∙ e in
      rw f (rw (and_false (length d.values.items == 1)) refl)

  -- The members of an object become the hash, with no block to give it to.
  pub close_object-Makes :
      {o : Options V} (vs : List V) (u : V) (ms : Members V) {cs : List Col} (ks : List Key)
      {d : Usual V Cache}
      → o.block ≡ false
      → IsNamed ms
      → Stage r i o
          (vs ++ u ∷ gaps r ms)
          (cs ++ col (length vs) (some (length ks)) ∷ [])
          (ks ++ member_keys ms)
          d
      → Makes r i o (vs ++ r.hash (named r o ms) ∷ []) cs ks (close_object r i d)
  unfolding close_object
  close_object-Makes {o} vs u ms ks b h s =
      let c = col (length vs) (some (length ks)) in
      let (e, f, t) = pop_col-Stage r i c s in
      let (e', f', t') = fill_keys-Gets ms e h t in
      let v = r.hash (named r o ms) in
      let e'' = replace c v (drop_keys (length ks) e') in
      let t'' =
        replace-Stage r i vs u (gaps r ms) (drop_keys-Stage r i ks (member_keys ms) t')
          (some (length ks)) v in
      (
        e'',
        ap
              (λ x. x >>= λ (c, e). there c.ki >>= λ k. keys_from k e >>= λ ks. region c e >>= λ vs.
                fill_keys r i ks vs e >>= λ (ws, f).
                ok (yield_object (r.hash ws) (replace c (r.hash ws) (drop_keys k f))))
              f
            ∙ ap
                (λ x. x >>= λ ks'. region c e >>= λ vs. fill_keys r i ks' vs e >>= λ (ws, f).
                  ok (yield_object (r.hash ws) (replace c (r.hash ws) (drop_keys (length ks) f))))
                (keys_from-eq r i ks (member_keys ms) t)
            ∙ ap
                (λ x. x >>= λ vs. fill_keys r i (member_keys ms) vs e >>= λ (ws, f).
                  ok (yield_object (r.hash ws) (replace c (r.hash ws) (drop_keys (length ks) f))))
                (region-eq r i vs u (gaps r ms) t (some (length ks)))
            ∙ ap
                (λ x. x >>= λ (ws, f).
                  ok (yield_object (r.hash ws) (replace c (r.hash ws) (drop_keys (length ks) f))))
                f'
            ∙ ap ok (no_yield v b t''),
        t'',
      )
