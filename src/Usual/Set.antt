-- ===== src/Usual/Set.antt =====
-- Setting an option of ext/oj_windows/usual.c keeps the delegate sound, but for symbol_keys.
use oj_windows.Base.{
  ℕ, ◌≡◌, refl, ◌∙◌, subst, Bool, true, false, not, Option, none, some, Bytes, ltb, if◌then◌else◌,
  Bool-cases, inl, inr, arith,
}
use oj_windows.Base.Int.{ℤ, pos, negsuc}
use oj_windows.Parser.State.{Exception, Result, ok, raised, ◌>>=◌}
use oj_windows.Parser.Replay.Rules.{ok-injective}
use oj_windows.Parser.Closed.{bind-ok}
use oj_windows.Usual.Ruby.{Ruby, Interner}
use oj_windows.Usual.Stacks.{Stack, IsRoomy}
use oj_windows.Usual.State.{
  GetKey, cache_key, str_key, sym_key, KeyCache, of_strings, of_symbols, Decimal, Options, Usual,
  form_str, form_sym,
}
use oj_windows.Usual.Options.{
  with_options, map_cache, widen, is_none, boolean, clamped, array_class_set, hash_class_set,
  cache_keys_set, cache_strings_set, cache_expunge_set, capacity_set, decimal_name, decimal_named,
  decimal_chosen, decimal_text, decimal_set, omit_null_set, symbol_keys_set, raise_on_empty_set,
}
use oj_windows.Usual.Option.{
  Setting, array_class, cache_keys, cache_strings, cache_expunge, capacity, decimal, hash_class,
  omit_null, symbol_keys, raise_on_empty, set_setting,
}
use oj_windows.Usual.Stage.{KeysHold}
use oj_windows.Usual.Whole.{IsSound}

module _ {V : Type 0} (r : Ruby V) (i : Interner V) where
  open i use {Cache}

  -- Whatever a setter returns is sound.
  abbrev Keeps : Result (V × Usual V Cache) → Type 0
  Keeps res = (w : V) (e : Usual V Cache) → res ≡ ok (w, e) → IsSound r i e.options e

  raised-Keeps : {x : Exception} → Keeps (raised x)
  raised-Keeps w e h = cc

  ok-Keeps : (v : V) (d : Usual V Cache) → IsSound r i d.options d → Keeps (ok (v, d))
  ok-Keeps v d s w e h =
      subst (λ (p : V × Usual V Cache). IsSound r i p.1.options p.1) (ok-injective h) s

  if-Keeps :
      {a b : Result (V × Usual V Cache)} (t : Bool) → Keeps a → Keeps b → Keeps (if t then a else b)
  if-Keeps true h k = h
  if-Keeps false h k = k

  bind-Keeps :
      {A : Type 0} (res : Result A) (f : A → Result (V × Usual V Cache))
      → ((a : A) → Keeps (f a))
      → Keeps (res >>= f)
  bind-Keeps res f h w e g = let (a, x, y) = bind-ok res f g in h a w e y

  module _ (v : V) (d : Usual V Cache) (s : IsSound r i d.options d) where
    options-IsSound :
        (o : Options V)
        → KeysHold r i o.get_key o.key_cache d.sym_cache
        → IsSound r i o (with_options r i d o)
    options-IsSound o k =
        let (vs, cs, ks, g) = s in
        (
          vs,
          cs,
          ks,
          record {
            values = g.values;
            cols = g.cols;
            keys = g.keys;
            options = refl;
            values_room = g.values_room;
            cols_room = g.cols_room;
            keys_room = g.keys_room;
            strings = g.strings;
            symbols = k;
            nothing = g.nothing;
          },
        )

    settles :
        (w : V) (o : Options V)
        → KeysHold r i o.get_key o.key_cache d.sym_cache
        → Keeps (ok (w, with_options r i d o))
    settles w o k = ok-Keeps w (with_options r i d o) (options-IsSound o k)

    same_keys : KeysHold r i d.options.get_key d.options.key_cache d.sym_cache
    same_keys = s.3.symbols

    -- The keys come from the cache that is there, or from none.
    cached_keys :
        (c : Option Cache) (g : GetKey) (k : KeyCache)
        → KeysHold r i g k c
        → KeysHold r i cache_key (if is_none c then of_strings else of_symbols) c
    cached_keys none g k h = tt
    cached_keys (some c) g k h = h

    formed_keys :
        (c : Option Cache) (g : GetKey) (k : KeyCache)
        → KeysHold r i g k c
        → KeysHold r i (if is_none c then str_key else sym_key) k c
    formed_keys none g k h = tt
    formed_keys (some c) g k h = h

    rate_keys :
        (n : ℕ) (c : Option Cache) (g : GetKey) (k : KeyCache)
        → KeysHold r i g k c
        → KeysHold r i g k (map_cache r i (i.set_rate n) c)
    rate_keys n none g k h = h
    rate_keys n (some c) g k h = i.set_rate-Holds (form_sym r) n c h

    widen-IsRoomy : {A : Type 0} (n : ℤ) (t : Stack A) → IsRoomy t → IsRoomy (widen r i n t)
    widen-IsRoomy (pos n) t g = elim (Bool-cases (ltb t.cap n)) [
      | inl e ↦
          rw e (record { two = ground (arith, e, g.two); within = ground (arith, e, g.within) })
      | inr e ↦ rw e g
    ]
    widen-IsRoomy (negsuc n) t g = g

    widen-items : {A : Type 0} (n : ℤ) (t : Stack A) → (widen r i n t).items ≡ t.items
    widen-items (pos n) t = ground arith
    widen-items (negsuc n) t = refl

    array_class-Keeps : Keeps (array_class_set r i v d)
    unfolding array_class_set
    array_class-Keeps = if-Keeps (r.is_nil v) (settles v _ same_keys) (
        if-Keeps (not (r.is_class v)) raised-Keeps
          (if-Keeps (not (r.has_push_element v)) raised-Keeps (settles v _ same_keys)))

    hash_class-Keeps : Keeps (hash_class_set r i v d)
    unfolding hash_class_set
    hash_class-Keeps = if-Keeps (r.is_nil v) (settles v _ same_keys) (
        if-Keeps (not (r.is_class v)) raised-Keeps
          (if-Keeps (not (r.has_set_member v)) raised-Keeps (settles v _ same_keys)))

    cache_keys-Keeps : Keeps (cache_keys_set r i v d)
    unfolding cache_keys_set
    cache_keys-Keeps =
        if-Keeps (r.is_true v)
          (settles r.true_object _
            (cached_keys d.sym_cache d.options.get_key d.options.key_cache same_keys))
          (settles r.false_object _
            (formed_keys d.sym_cache d.options.get_key d.options.key_cache same_keys))

    cache_strings-Keeps : Keeps (cache_strings_set r i v d)
    unfolding cache_strings_set
    cache_strings-Keeps =
        bind-Keeps (r.num_int v) _ (λ n. settles (r.long_num (pos (clamped 35 n))) _ same_keys)

    cache_expunge-Keeps : Keeps (cache_expunge_set r i v d)
    unfolding cache_expunge_set
    cache_expunge-Keeps = bind-Keeps (r.num_int v) _ λ n.
        let rate = clamped 3 n in
        let (vs, cs, ks, g) = s in
        ok-Keeps (r.long_num (pos rate)) _ (
          vs,
          cs,
          ks,
          record {
            values = g.values;
            cols = g.cols;
            keys = g.keys;
            options = refl;
            values_room = g.values_room;
            cols_room = g.cols_room;
            keys_room = g.keys_room;
            strings = i.set_rate-Holds (form_str r) rate d.str_cache g.strings;
            symbols = rate_keys rate d.sym_cache d.options.get_key d.options.key_cache g.symbols;
            nothing = g.nothing;
          },
        )

    capacity-Keeps : Keeps (capacity_set r i v d)
    unfolding capacity_set
    capacity-Keeps = bind-Keeps (r.num_int v) _ λ n.
        let (vs, cs, ks, g) = s in
        ok-Keeps (r.long_num (pos (widen r i n d.values).cap)) _ (
          vs,
          cs,
          ks,
          record {
            values = widen-items n d.values ∙ g.values;
            cols = g.cols;
            keys = widen-items n d.keys ∙ g.keys;
            options = refl;
            values_room = widen-IsRoomy n d.values g.values_room;
            cols_room = g.cols_room;
            keys_room = widen-IsRoomy n d.keys g.keys_room;
            strings = g.strings;
            symbols = g.symbols;
            nothing = g.nothing;
          },
        )

    decimal-Keeps : Keeps (decimal_set r i v d)
    unfolding decimal_set decimal_text
    decimal-Keeps = text (r.text v)
      where
        chosen : (o : Option Decimal) → Keeps (decimal_chosen r i o d)
        chosen none = raised-Keeps
        chosen (some m) = settles (r.symbol (decimal_name r i m)) _ same_keys

        text : (o : Option Bytes) → Keeps (decimal_text r i o d)
        text none = raised-Keeps
        text (some t) = chosen (decimal_named r i t)

    omit_null-Keeps : Keeps (omit_null_set r i v d)
    unfolding omit_null_set
    omit_null-Keeps = settles (boolean r i (r.is_true v)) _ same_keys

    raise_on_empty-Keeps : Keeps (raise_on_empty_set r i v d)
    unfolding raise_on_empty_set
    raise_on_empty-Keeps = settles (boolean r i (r.is_true v)) _ same_keys

    symbol_keys-Keeps : r.is_true v ≡ true → Keeps (symbol_keys_set r i v d)
    unfolding symbol_keys_set
    symbol_keys-Keeps t =
        let (vs, cs, ks, g) = s in
        let o = d.options in
        rw t (
          ok-Keeps r.true_object
            (record d {
              sym_cache = some (i.set_rate o.cache_xrate (i.create (form_sym r) true));
              options = record o {
                key_cache = of_symbols;
                get_key = if o.cache_keys then o.get_key else sym_key;
              };
            })
            (
              vs,
              cs,
              ks,
              record {
                values = g.values;
                cols = g.cols;
                keys = g.keys;
                options = refl;
                values_room = g.values_room;
                cols_room = g.cols_room;
                keys_room = g.keys_room;
                strings = g.strings;
                symbols =
                    i.set_rate-Holds (form_sym r) o.cache_xrate (i.create (form_sym r) true)
                      (i.create-Holds (form_sym r) true);
                nothing = g.nothing;
              },
            ))

  -- Setting an option of a sound delegate, to whatever value, leaves it sound where it returns, with the
  -- one exception of symbol_keys to anything but true.
  pub set_setting-IsSound :
      (x : Setting) (v w : V) (d e : Usual V Cache)
      → IsSound r i d.options d
      → (x ≡ symbol_keys → r.is_true v ≡ true)
      → set_setting r i x v d ≡ ok (w, e)
      → IsSound r i e.options e
  unfolding set_setting
  set_setting-IsSound array_class v w d e s h k = array_class-Keeps v d s w e k
  set_setting-IsSound cache_keys v w d e s h k = cache_keys-Keeps v d s w e k
  set_setting-IsSound cache_strings v w d e s h k = cache_strings-Keeps v d s w e k
  set_setting-IsSound cache_expunge v w d e s h k = cache_expunge-Keeps v d s w e k
  set_setting-IsSound capacity v w d e s h k = capacity-Keeps v d s w e k
  set_setting-IsSound decimal v w d e s h k = decimal-Keeps v d s w e k
  set_setting-IsSound hash_class v w d e s h k = hash_class-Keeps v d s w e k
  set_setting-IsSound omit_null v w d e s h k = omit_null-Keeps v d s w e k
  set_setting-IsSound symbol_keys v w d e s h k = symbol_keys-Keeps v d s (h refl) w e k
  set_setting-IsSound raise_on_empty v w d e s h k = raise_on_empty-Keeps v d s w e k
