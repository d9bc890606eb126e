-- ===== src/Usual/Facts.antt =====
-- The callbacks of ext/oj_windows/usual.c for the calls of a document make the document's value.
use oj_windows.Base.{
  ℕ, ◌<◌, ◌≡◌, refl, sym, ap, ◌∙◌, subst, arith, none, some, List, [], ◌∷◌, ◌++◌, Bytes, IsKey,
  length, if◌then◌else◌, Bool-cases, inl, inr,
}
use oj_windows.Parser.State.{Result, ok}
use oj_windows.Parser.Trace.{Entry}
use oj_windows.Parser.Tables.{Action, action, at_esc}
use oj_windows.Parser.Doc.Chars.{IsChars, plain-IsChars, escape-IsChar}
use oj_windows.Usual.Value.{named_value, is_omitted, value, members, IsPlainOptions}
use oj_windows.Parser.Doc.{
  IsPlain, IsEscapes, Json, Fields, end, field, IsJson, IsFields, escaped, unescape,
}
use oj_windows.Parser.Replay.Rules.{react_all, react_all-append}
use oj_windows.Usual.Ruby.{Ruby, Interner}
use oj_windows.Usual.State.{Col, col, Key, Options, Usual}
use oj_windows.Usual.Keys.{key_of}
use oj_windows.Usual.Close.{close_array, close_object, close_array_class, close_object_class}
use oj_windows.Usual.Calls.{react, ends_array, ends_object}
use oj_windows.Usual.Stage.{Stage, Makes, Makes-bind}
use oj_windows.Usual.Ends.{
  Members, member_keys, IsNamed, gaps, named, close_array-Makes, close_object-Makes,
}

module _ {V : Type 0} (r : Ruby V) where
  pub gaps-append : (a b : Members V) → gaps r (a ++ b) ≡ gaps r a ++ gaps r b
  gaps-append [] b = refl
  gaps-append ((n, v) ∷ a) b = ap (λ l. r.undef ∷ v ∷ l) (gaps-append a b)

  pub member_keys-append : (a b : Members V) → member_keys (a ++ b) ≡ member_keys a ++ member_keys b
  member_keys-append [] b = refl
  member_keys-append ((n, v) ∷ a) b = ap (λ l. key_of n ∷ l) (member_keys-append a b)

module _ {V : Type 0} (r : Ruby V) (i : Interner V) where
  open i use {Cache}

  pub Makes-cast :
      {o : Options V} {vs ws : List V} {cs ds : List Col} {ks ls : List Key}
      {res ser : Result (Usual V Cache)}
      → vs ≡ ws
      → cs ≡ ds
      → ks ≡ ls
      → ser ≡ res
      → Makes r i o vs cs ks res
      → Makes r i o ws ds ls ser
  Makes-cast {o} {vs} {cs = cs} {ds} {ls = ls} e f g h (d, q, s) = (
    d,
    h ∙ q,
    subst (λ l. Stage r i o l ds ls d) e
        (subst (λ l. Stage r i o vs l ls d) f (subst (λ l. Stage r i o vs cs l d) g s)),
  )

  -- One call.
  pub one-Makes :
      {o : Options V} {vs : List V} {cs : List Col} {ks : List Key} (x : Entry) (d : Usual V Cache)
      → Makes r i o vs cs ks (react r i x d)
      → Makes r i o vs cs ks (react_all (react r i) (x ∷ []) d)
  unfolding react_all
  one-Makes x d m = Makes-bind r i (react r i x d) (λ e. ok e) m (λ e s. (e, refl, s))

  pub two-Makes :
      {o : Options V} {vs ws : List V} {cs ds : List Col} {ks ls : List Key} (a b : List Entry)
      (d : Usual V Cache)
      → Makes r i o vs cs ks (react_all (react r i) a d)
      → ((e : Usual V Cache)
          → Stage r i o vs cs ks e
          → Makes r i o ws ds ls (react_all (react r i) b e))
      → Makes r i o ws ds ls (react_all (react r i) (a ++ b) d)
  two-Makes {o} {ws = ws} {ds = ds} {ls = ls} a b d m h =
      subst (λ x. Makes r i o ws ds ls x) (sym (react_all-append (react r i) a b d))
        (Makes-bind r i (react_all (react r i) a d) (react_all (react r i) b) m h)

  -- A collection: its opening call, those inside, and its closing call.
  pub around-Makes :
      {o : Options V} {vs ws xs : List V} {cs ds es : List Col} {ks ls ns : List Key} (x y : Entry)
      (a : List Entry) (d : Usual V Cache)
      → Makes r i o vs cs ks (react r i x d)
      → ((e : Usual V Cache)
          → Stage r i o vs cs ks e
          → Makes r i o ws ds ls (react_all (react r i) a e))
      → ((e : Usual V Cache) → Stage r i o ws ds ls e → Makes r i o xs es ns (react r i y e))
      → Makes r i o xs es ns (react_all (react r i) (x ∷ (a ++ y ∷ [])) d)
  around-Makes x y a d m h k =
      two-Makes (x ∷ []) (a ++ y ∷ []) d (one-Makes x d m)
        (λ e s. two-Makes a (y ∷ []) e (h e s) (λ f t. one-Makes y f (k f t)))

  module _ {o : Options V} (p : IsPlainOptions o) (vs : List V) (u : V) {cs : List Col}
      (ks : List Key) {d : Usual V Cache} where
    pub ends_array-Makes :
        (ws : List V)
        → Stage r i o (vs ++ u ∷ ws) (cs ++ col (length vs) none ∷ []) ks d
        → Makes r i o (vs ++ r.array ws ∷ []) cs ks (ends_array r i d)
    unfolding ends_array
    ends_array-Makes ws s =
        let (e, f, t) = close_array-Makes r i vs u ws s in
        (
          e,
          ap
                (λ (x : Options V).
                  if x.class_array then close_array_class r i d else close_array r i d)
                s.options
              ∙ ap (λ b. if b then close_array_class r i d else close_array r i d) p.array
              ∙ f,
          t,
        )

    pub ends_object-Makes :
        (ms : Members V)
        → IsNamed ms
        → Stage r i o
            (vs ++ u ∷ gaps r ms)
            (cs ++ col (length vs) (some (length ks)) ∷ [])
            (ks ++ member_keys ms)
            d
        → Makes r i o (vs ++ r.hash (named r o ms) ∷ []) cs ks (ends_object r i d)
    unfolding ends_object
    ends_object-Makes ms h s =
        let (e, f, t) = close_object-Makes r i vs u ms ks p.block h s in
        (
          e,
          ap
                (λ (x : Options V).
                  if x.class_hash then close_object_class r i d else close_object r i d)
                s.options
              ∙ ap (λ b. if b then close_object_class r i d else close_object r i d) p.hash
              ∙ f,
          t,
        )

pub plain-IsKey : (k : Bytes) → IsPlain k → IsKey k
plain-IsKey k h = chars k (plain-IsChars k h)
  where
    chars : (k : Bytes) → IsChars k → IsKey k
    chars [] h = tt
    chars (b ∷ k) h = (h.0.0, chars k h.1)

pub IsKey-append : (a b : Bytes) → IsKey a → IsKey b → IsKey (a ++ b)
IsKey-append [] b h k = k
IsKey-append (x ∷ a) b h k = (h.0, IsKey-append a b h.1 k)

-- An escape never stands for NUL.
escape-pos : (b : ℕ) → b < 256 → action at_esc b ≡ Action.esc_ok → 0 < escaped b
escape-pos b h e = ground (arith, (escape-IsChar b h e).0)

pub unescape-IsKey : (es : List (ℕ × Bytes)) → IsEscapes es → IsKey (unescape es)
unescape-IsKey [] h = tt
unescape-IsKey ((c, s) ∷ es) h = (
  escape-pos c h.0.0 h.0.1,
  IsKey-append s (unescape es) (plain-IsKey s h.0.2) (unescape-IsKey es h.1),
)

module _ {V : Type 0} (r : Ruby V) (o : Options V) where
  IsNamed-append : (a b : Members V) → IsNamed a → IsNamed b → IsNamed (a ++ b)
  IsNamed-append [] b h k = k
  IsNamed-append ((n, v) ∷ a) b h k = (h.0, IsNamed-append a b h.1 k)

  named_value-IsNamed : (k : Bytes) (j : Json) (v : V) → IsKey k → IsNamed (named_value r o k j v)
  named_value-IsNamed k j v h = elim (Bool-cases (is_omitted r o j)) [
    | inl e ↦ rw e tt
    | inr e ↦ rw e (h, tt)
  ]

  pub members-IsNamed : (fs : Fields) → IsFields fs → IsNamed (members r o fs)
  unfolding members IsJson
  members-IsNamed end h = tt
  members-IsNamed (field k v fs) h =
      IsNamed-append (named_value r o k v (value r o v)) (members r o fs)
        (named_value-IsNamed k v (value r o v) (plain-IsKey k h.0)) (members-IsNamed fs h.2)
