-- ===== src/Usual/Build.antt =====
-- What the calls for a value, and for the elements of a collection, add to the stacks of
-- ext/oj_windows/usual.c.
use oj_windows.Base.{
  ◌+◌, length-append, arith, ◌≤◌, ◌≡◌, refl, sym, ap, subst, Bool, true, false, none, some, List,
  [], ◌∷◌, ◌++◌, Bytes, length, append_assoc, append-nil, if◌then◌else◌,
}
use oj_windows.Parser.State.{Fun, top_fun, array_fun, object_fun, Result, ok}
use oj_windows.Parser.Trace.{
  Event, null, array_start, array_end, object_start, object_end, Entry, place, place_end,
}
use oj_windows.Usual.Value.{named_value, IsPlainOptions}
use oj_windows.Parser.Doc.{null_word}
use oj_windows.Parser.Replay.Rules.{react_all}
use oj_windows.Usual.Facts.{
  Makes-cast, one-Makes, two-Makes, around-Makes, ends_array-Makes, ends_object-Makes,
}
use oj_windows.Usual.Ruby.{Ruby, Interner}
use oj_windows.Usual.State.{Col, col, Key, Options, Usual}
use oj_windows.Usual.Keys.{key_of, max_key}
use oj_windows.Usual.Handlers.{push_member}
use oj_windows.Usual.Calls.{react, react_plain, react_key, add_null_key}
use oj_windows.Usual.Stage.{
  Stage, Makes, push_member-Makes, open_object-Makes, open_array-Makes, open_object_key-Makes,
  open_array_key-Makes,
}
use oj_windows.Usual.Ends.{Members, member_keys, IsNamed, gaps, named}

module _ {V : Type 0} (r : Ruby V) (i : Interner V) {o : Options V} (p : IsPlainOptions o) where
  open i use {Cache}

  -- Outside objects a callback does not look at the key.
  abbrev pub IsOuter : Fun → Bytes → Type 0
  IsOuter f k = (e : Event) (d : Usual V Cache) → react r i (place f k e) d ≡ react_plain r i e d

  pub top-IsOuter : (k : Bytes) → IsOuter top_fun k
  unfolding react
  top-IsOuter k e d = refl

  pub array-IsOuter : (k : Bytes) → IsOuter array_fun k
  unfolding react
  array-IsOuter k e d = refl

  react-place_end :
      (f : Fun) (e : Event) (d : Usual V Cache) → react r i (place_end f e) d ≡ react_plain r i e d
  unfolding react
  react-place_end top_fun e d = refl
  react-place_end array_fun e d = refl
  react-place_end object_fun e d = refl

  -- What the calls `a` add to the stacks.
  abbrev pub Adds : List V → List Key → List Entry → Type 0
  Adds xs ns a =
      (vs : List V) (cs : List Col) (ks : List Key) (d : Usual V Cache)
      → Stage r i o vs cs ks d
      → Makes r i o (vs ++ xs) cs (ks ++ ns) (react_all (react r i) a d)

  abbrev pub Pushes : V → (Usual V Cache → Result (Usual V Cache)) → Type 0
  Pushes v f =
      (vs : List V) (cs : List Col) (ks : List Key) (d : Usual V Cache)
      → Stage r i o vs cs ks d
      → Makes r i o (vs ++ v ∷ []) cs ks (f d)

  pub outer-Adds :
      (f : Fun) (k : Bytes) (e : Event) (v : V)
      → IsOuter f k
      → Pushes v (react_plain r i e)
      → Adds (v ∷ []) [] (place f k e ∷ [])
  outer-Adds f k e v q m vs cs ks d s =
      one-Makes r i (place f k e) d
        (Makes-cast r i refl refl (sym (append-nil ks)) (q e d) (m vs cs ks d s))

  abbrev pub PushesMember : Bytes → V → (Usual V Cache → Result (Usual V Cache)) → Type 0
  PushesMember k v f =
      (vs : List V) (cs : List Col) (ks : List Key) (d : Usual V Cache)
      → Stage r i o vs cs ks d
      → Makes r i o (vs ++ r.undef ∷ v ∷ []) cs (ks ++ key_of k ∷ []) (f d)

  pub member-Adds :
      (k : Bytes) (e : Event) (v : V)
      → PushesMember k v (react_key r i k e)
      → Adds (r.undef ∷ v ∷ []) (key_of k ∷ []) (place object_fun k e ∷ [])
  unfolding react
  member-Adds k e v m vs cs ks d s = one-Makes r i (place object_fun k e) d (m vs cs ks d s)

  null_member-Makes :
      (k : Bytes)
      → length k ≤ max_key
      → (vs : List V) (cs : List Col) (ks : List Key) (d : Usual V Cache) → Stage r i o vs cs ks d
      → (b : Bool)
      → (if d.options.omit_null then ok d else push_member r k r.nil d)
        ≡ (if b then ok d else push_member r k r.nil d)
      → (let ms : Members V = if b then [] else (k, r.nil) ∷ [] in
          Makes r i o
            (vs ++ gaps r ms)
            cs
            (ks ++ member_keys ms)
            (react r i (place object_fun k null) d))
  unfolding react react_key add_null_key
  null_member-Makes k l vs cs ks d s true e =
      Makes-cast r i (sym (append-nil vs)) refl (sym (append-nil ks)) e (d, refl, s)
  null_member-Makes k l vs cs ks d s false e =
      Makes-cast r i refl refl refl e (push_member-Makes r i s k r.nil l)

  pub null_member-Adds :
      (k : Bytes)
      → length k ≤ max_key
      → Adds
          (gaps r (named_value r o k null_word r.nil))
          (member_keys (named_value r o k null_word r.nil))
          (place object_fun k null ∷ [])
  null_member-Adds k l vs cs ks d s = one-Makes r i (place object_fun k null) d (
      null_member-Makes k l vs cs ks d s o.omit_null
        (ap (λ (x : Options V). if x.omit_null then ok d else push_member r k r.nil d) s.options))

  -- The calls inside brackets, and the brackets.
  pub array-Adds :
      (f : Fun) (k : Bytes) (ws : List V) (a : List Entry)
      → IsOuter f k
      → Adds ws [] a
      → Adds (r.array ws ∷ []) [] (place f k array_start ∷ (a ++ place_end f array_end ∷ []))
  unfolding react_plain
  array-Adds f k ws a q h vs cs ks d s =
      let e = append-nil ks in
      around-Makes r i (place f k array_start) (place_end f array_end) a d
        (Makes-cast r i refl refl refl (q array_start d) (open_array-Makes r i s))
        (λ x t. Makes-cast r i (append_assoc vs (r.undef ∷ []) ws) refl e refl (h _ _ _ x t))
        (λ x t.
          Makes-cast r i refl refl (sym e) (react-place_end f array_end x)
            (ends_array-Makes r i p vs r.undef ks ws t))

  pub object-Adds :
      (f : Fun) (k : Bytes) (ms : Members V) (a : List Entry)
      → IsOuter f k
      → IsNamed ms
      → Adds (gaps r ms) (member_keys ms) a
      → Adds
          (r.hash (named r o ms) ∷ [])
          []
          (place f k object_start ∷ (a ++ place_end f object_end ∷ []))
  unfolding react_plain
  object-Adds f k ms a q n h vs cs ks d s =
      around-Makes r i (place f k object_start) (place_end f object_end) a d
        (Makes-cast r i refl refl refl (q object_start d) (open_object-Makes r i s))
        (λ e t.
          Makes-cast r i (append_assoc vs (r.undef ∷ []) (gaps r ms)) refl refl refl (h _ _ _ e t))
        (λ e t.
          Makes-cast r i refl refl (sym (append-nil ks)) (react-place_end f object_end e)
            (ends_object-Makes r i p vs r.undef ks ms n t))

  -- The same for a member, whose place for the key stands before the collection's.
  module _ (k : Bytes) (l : length k ≤ max_key) where
    abbrev placed : List V → List V
    placed vs = vs ++ r.undef ∷ []

    placed_length : (vs : List V) → length vs + 1 ≡ length (placed vs)
    placed_length vs = omega (arith, length-append vs (r.undef ∷ []))

    pub array_member-Adds :
        (ws : List V) (a : List Entry)
        → Adds ws [] a
        → Adds
            (r.undef ∷ r.array ws ∷ [])
            (key_of k ∷ [])
            (place object_fun k array_start ∷ (a ++ place_end object_fun array_end ∷ []))
    unfolding react react_key react_plain
    array_member-Adds ws a h vs cs ks d s =
        let us = placed vs in
        let ls = ks ++ key_of k ∷ [] in
        around-Makes r i (place object_fun k array_start) (place_end object_fun array_end) a d
          (Makes-cast r i (sym (append_assoc vs (r.undef ∷ []) (r.undef ∷ [])))
            (ap (λ m. cs ++ col m none ∷ []) (placed_length vs)) refl refl
            (open_array_key-Makes r i s k l))
          (λ e t.
            Makes-cast r i (append_assoc us (r.undef ∷ []) ws) refl (append-nil ls) refl
              (h _ _ _ e t))
          (λ e t.
            Makes-cast r i (append_assoc vs (r.undef ∷ []) (r.array ws ∷ [])) refl refl
              (react-place_end object_fun array_end e) (ends_array-Makes r i p us r.undef ls ws t))

    pub object_member-Adds :
        (ms : Members V) (a : List Entry)
        → IsNamed ms
        → Adds (gaps r ms) (member_keys ms) a
        → Adds
            (r.undef ∷ r.hash (named r o ms) ∷ [])
            (key_of k ∷ [])
            (place object_fun k object_start ∷ (a ++ place_end object_fun object_end ∷ []))
    unfolding react react_key react_plain
    object_member-Adds ms a n h vs cs ks d s =
        let us = placed vs in
        let ls = ks ++ key_of k ∷ [] in
        around-Makes r i (place object_fun k object_start) (place_end object_fun object_end) a d
          (Makes-cast r i (sym (append_assoc vs (r.undef ∷ []) (r.undef ∷ [])))
            (ap (λ m. cs ++ col m (some (length ls)) ∷ []) (placed_length vs)) refl refl
            (open_object_key-Makes r i s k l))
          (λ e t.
            Makes-cast r i (append_assoc us (r.undef ∷ []) (gaps r ms)) refl refl refl
              (h _ _ _ e t))
          (λ e t.
            Makes-cast r i (append_assoc vs (r.undef ∷ []) (r.hash (named r o ms) ∷ [])) refl refl
              (react-place_end object_fun object_end e)
              (ends_object-Makes r i p us r.undef ls ms n t))

  -- Calls one behind the other.
  pub Adds-append :
      (xs ys : List V) (ns ls : List Key) (a b : List Entry)
      → Adds xs ns a
      → Adds ys ls b
      → Adds (xs ++ ys) (ns ++ ls) (a ++ b)
  Adds-append xs ys ns ls a b h k vs cs ks d s = two-Makes r i a b d (h vs cs ks d s) (λ e t.
      Makes-cast r i (append_assoc vs xs ys) refl (append_assoc ks ns ls) refl (k _ _ _ e t))

  pub Adds-nil : Adds [] [] []
  unfolding react_all
  Adds-nil vs cs ks d s = (
    d,
    refl,
    subst (λ l. Stage r i o l cs (ks ++ []) d) (sym (append-nil vs))
        (subst (λ l. Stage r i o vs cs l d) (sym (append-nil ks)) s),
  )
