-- ===== src/Usual/Kept.antt =====
-- What ext/oj_windows/usual.c takes from its caches: the forms of strings and keys.
use oj_windows.Base.{
  ◌≤◌, ◌≡◌, refl, ap, ◌∙◌, Option, none, some, List, [], ◌∷◌, ◌++◌, Bytes, IsKey, length, ltb,
  if◌then◌else◌, Bool-cases, inl, inr,
}
use oj_windows.Parser.State.{Result, ok, ◌>>=◌}
use oj_windows.Usual.Ruby.{Ruby, Interner}
use oj_windows.Usual.State.{
  Col, Key, GetKey, cache_key, str_key, sym_key, KeyCache, of_strings, of_symbols, Options, Usual,
  form_str, form_sym,
}
use oj_windows.Usual.Keys.{key_of, key_text, get_key, form_key, cached_key, symbol_key, max_key}
use oj_windows.Usual.Handlers.{push, push_member, add_str, add_str_key, str_value}
use oj_windows.Usual.Stage.{Stage, Makes, KeysHold, push-Makes, push_member-Makes}

pub key_text-key_of : (k : Bytes) → key_text (key_of k) ≡ ok k
unfolding key_text key_of
key_text-key_of k = elim (Bool-cases (ltb (length k) 30)) [ inl h ↦ rw (h, h) | inr h ↦ rw (h, h) ]

module _ {V : Type 0} (r : Ruby V) where
  -- What the options make of a key, and of a string.
  unfoldable pub key_form : GetKey → KeyCache → Bytes → V
  key_form cache_key of_strings k = form_str r k
  key_form cache_key of_symbols k = form_sym r k
  key_form str_key c k = r.freeze (r.utf8_str k)
  key_form sym_key c k = r.freeze (r.str_intern (r.utf8_str k))

  unfoldable pub string_form : Options V → Bytes → V
  string_form o s = if ltb (length s) o.cache_str then form_str r s else r.utf8_str s

module _ {V : Type 0} (r : Ruby V) (i : Interner V) where
  open i use {Cache}

  -- The same stacks, with a value.
  abbrev pub Gets :
      {A : Type 0}
      → Options V
      → List V
      → List Col
      → List Key
      → A
      → Result (A × Usual V Cache)
      → Type 0
  Gets o vs cs ks v res = (d : Usual V Cache) × (res ≡ ok (v, d)) × Stage r i o vs cs ks d

  pub Gets-bind :
      {A B : Type 0} {o : Options V} {vs : List V} {cs : List Col} {ks : List Key} (v : A) (w : B)
      (res : Result (A × Usual V Cache)) (f : A × Usual V Cache → Result (B × Usual V Cache))
      → Gets o vs cs ks v res
      → ((d : Usual V Cache) → Stage r i o vs cs ks d → Gets o vs cs ks w (f (v, d)))
      → Gets o vs cs ks w (res >>= f)
  Gets-bind v w res f (d, e, s) h = let (d', e', s') = h d s in (d', ap (λ x. x >>= f) e ∙ e', s')

  pub Gets-Makes :
      {A : Type 0} {o : Options V} {vs ws : List V} {cs es : List Col} {ks ls : List Key} (v : A)
      (res : Result (A × Usual V Cache)) (f : A × Usual V Cache → Result (Usual V Cache))
      → Gets o vs cs ks v res
      → ((d : Usual V Cache) → Stage r i o vs cs ks d → Makes r i o ws es ls (f (v, d)))
      → Makes r i o ws es ls (res >>= f)
  Gets-Makes v res f (d, e, s) h = let (d', e', s') = h d s in (d', ap (λ x. x >>= f) e ∙ e', s')

  module _ {o : Options V} {vs : List V} {cs : List Col} {ks : List Key} {d : Usual V Cache}
      (s : Stage r i o vs cs ks d) where
    strings-Stage :
        (e : Cache) → i.Holds (form_str r) e → Stage r i o vs cs ks (record d { str_cache = e })
    strings-Stage e h = record {
      values = s.values;
      cols = s.cols;
      keys = s.keys;
      options = s.options;
      values_room = s.values_room;
      cols_room = s.cols_room;
      keys_room = s.keys_room;
      strings = h;
      symbols = s.symbols;
      nothing = s.nothing;
    }

    symbols-Stage :
        (e : Cache)
        → KeysHold r i o.get_key o.key_cache (some e)
        → Stage r i o vs cs ks (record d { sym_cache = some e })
    symbols-Stage e h = record {
      values = s.values;
      cols = s.cols;
      keys = s.keys;
      options = s.options;
      values_room = s.values_room;
      cols_room = s.cols_room;
      keys_room = s.keys_room;
      strings = s.strings;
      symbols = h;
      nothing = s.nothing;
    }

    str_cache-Gets :
        (k : Bytes)
        → IsKey k
        → Gets o vs cs ks
            (form_str r k)
            (i.intern d.str_cache k >>= λ (v, e). ok (v, record d { str_cache = e }))
    str_cache-Gets k h =
        let (e, f, g) = i.intern-Holds (form_str r) d.str_cache k s.strings h in
        (
          record d { str_cache = e },
          ap (λ x. x >>= λ (v, e). ok (v, record d { str_cache = e })) f,
          strings-Stage e g,
        )

    symbol_key-Gets :
        (k : Bytes)
        → IsKey k
        → (c : Option Cache) → KeysHold r i cache_key of_symbols c
        → Gets o vs cs ks (form_sym r k) (symbol_key r i c k d)
    unfolding symbol_key
    symbol_key-Gets k h none c = absurd c
    symbol_key-Gets k h (some c) q =
        let (e, f, g) = i.intern-Holds (form_sym r) c k q h in
        (
          record d { sym_cache = some e },
          ap (λ x. x >>= λ (v, e). ok (v, record d { sym_cache = some e })) f,
          symbols-Stage e g,
        )

    form_key-Gets :
        (g : GetKey) (c : KeyCache) (k : Bytes)
        → IsKey k
        → KeysHold r i g c d.sym_cache
        → Gets o vs cs ks (key_form r g c k) (form_key r i g c k d)
    unfolding form_key cached_key key_form
    form_key-Gets cache_key of_strings k h q = str_cache-Gets k h
    form_key-Gets cache_key of_symbols k h q = symbol_key-Gets k h d.sym_cache q
    form_key-Gets str_key c k h q = (d, refl, s)
    form_key-Gets sym_key c k h q = (d, refl, s)

    pub get_key-Gets :
        (k : Bytes)
        → IsKey k
        → Gets o vs cs ks (key_form r o.get_key o.key_cache k) (get_key r i (key_of k) d)
    unfolding get_key
    get_key-Gets k h =
        let (e, f, g) = form_key-Gets o.get_key o.key_cache k h s.symbols in
        (
          e,
          ap (λ x. x >>= λ t. form_key r i d.options.get_key d.options.key_cache t d)
                (key_text-key_of k)
              ∙ ap (λ (x : Options V). form_key r i x.get_key x.key_cache k d) s.options
              ∙ f,
          g,
        )

    pub str_value-Gets :
        (k : Bytes) → IsKey k → Gets o vs cs ks (string_form r o k) (str_value r i k d)
    unfolding str_value string_form
    str_value-Gets k h = elim (Bool-cases (ltb (length k) o.cache_str)) [
      | inl e ↦
          let (x, f, g) = str_cache-Gets k h in
          (
            x,
            ap
                  (λ (y : Options V).
                    if ltb (length k) y.cache_str
                    then (i.intern d.str_cache k >>= λ (v, e). ok (v, record d { str_cache = e }))
                    else ok (r.utf8_str k, d))
                  s.options
                ∙ rw e f,
            g,
          )
      | inr e ↦ (
        d,
        ap
              (λ (y : Options V).
                if ltb (length k) y.cache_str
                then (i.intern d.str_cache k >>= λ (v, e). ok (v, record d { str_cache = e }))
                else ok (r.utf8_str k, d))
              s.options
            ∙ rw e refl,
        s,
      )
    ]

    pub add_str-Makes :
        (k : Bytes) → IsKey k → Makes r i o (vs ++ string_form r o k ∷ []) cs ks (add_str r i k d)
    unfolding add_str
    add_str-Makes k h =
        Gets-Makes (string_form r o k) (str_value r i k d) (λ (v, e). push r v e)
          (str_value-Gets k h) (λ e t. push-Makes r i t (string_form r o k))

    pub add_str_key-Makes :
        (n k : Bytes)
        → length n ≤ max_key
        → IsKey k
        → Makes r i o
            (vs ++ r.undef ∷ string_form r o k ∷ [])
            cs
            (ks ++ key_of n ∷ [])
            (add_str_key r i n k d)
    unfolding add_str_key
    add_str_key-Makes n k l h =
        Gets-Makes (string_form r o k) (str_value r i k d) (λ (v, e). push_member r n v e)
          (str_value-Gets k h) (λ e t. push_member-Makes r i t n (string_form r o k) l)
