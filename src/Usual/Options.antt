-- ===== src/Usual/Options.antt =====
-- ext/oj_windows/usual.c, the options: one function reads an option and another sets it. The options of
-- create_id, its class cache and missing_class are not part of the model.
use oj_windows.Base.{
  ℕ, Bool, true, false, not, Option, none, some, Bytes, codes, ltb, if◌then◌else◌,
}
use oj_windows.Base.Int.{ℤ, pos, negsuc}
use oj_windows.Parser.State.{Result, ok, raised, ◌>>=◌, arg_error, type_error}
use oj_windows.Parser.Step.Word.{same}
use oj_windows.Usual.Ruby.{Ruby, Interner}
use oj_windows.Usual.Stacks.{Stack}
use oj_windows.Usual.State.{
  cache_key, str_key, sym_key, of_strings, of_symbols, Decimal, Options, Usual, form_sym,
}

-- CACHE_MAX_KEY, the most that `cache_strings` is set to.
abbrev pub cache_max : ℕ
cache_max = 35

-- `if (most < n) { n = most; } else if (n < 0) { n = 0; }`
abbrev pub clamped : ℕ → ℤ → ℕ
clamped most (pos n) = if ltb most n then most else n
clamped most (negsuc n) = 0

abbrev pub is_none : {A : Type 0} → Option A → Bool
is_none none = true
is_none (some a) = false

module _ {V : Type 0} (r : Ruby V) (i : Interner V) where
  open i use {Cache}

  abbrev pub boolean : Bool → V
  boolean b = if b then r.true_object else r.false_object

  abbrev pub with_options : Usual V Cache → Options V → Usual V Cache
  with_options d o = record d { options = o }

  -- The functions answer the value that the option has now.
  unfoldable pub array_class_set : V → Usual V Cache → Result (V × Usual V Cache)
  array_class_set v d =
      let nils =
        ok (v, with_options d (record (d.options) { array_class = v; class_array = false })) in
      let class =
        ok (v, with_options d (record (d.options) { array_class = v; class_array = true })) in
      if r.is_nil v
      then nils
      else if not (r.is_class v)
      then raised type_error
      else if not (r.has_push_element v)
      then raised arg_error
      else class

  unfoldable pub hash_class_set : V → Usual V Cache → Result (V × Usual V Cache)
  hash_class_set v d =
      let nils =
        ok (v, with_options d (record (d.options) { hash_class = v; class_hash = false })) in
      let class =
        ok (v, with_options d (record (d.options) { hash_class = v; class_hash = true })) in
      if r.is_nil v
      then nils
      else if not (r.is_class v)
      then raised type_error
      else if not (r.has_set_member v)
      then raised arg_error
      else class

  unfoldable pub cache_keys_set : V → Usual V Cache → Result (V × Usual V Cache)
  cache_keys_set v d =
      let o = d.options in
      let strings = is_none d.sym_cache in
      let cached = record o {
        cache_keys = true;
        get_key = cache_key;
        key_cache = if strings then of_strings else of_symbols;
      } in
      let formed = record o {
        cache_keys = false;
        get_key = if strings then str_key else sym_key;
      } in
      if r.is_true v
      then ok (r.true_object, with_options d cached)
      else ok (r.false_object, with_options d formed)

  unfoldable pub cache_strings_set : V → Usual V Cache → Result (V × Usual V Cache)
  cache_strings_set v d = do
    n ← r.num_int v
    let limit = clamped cache_max n
    ok (r.long_num (pos limit), with_options d (record (d.options) { cache_str = limit }))

  abbrev pub map_cache : (Cache → Cache) → Option Cache → Option Cache
  map_cache f none = none
  map_cache f (some c) = some (f c)

  unfoldable pub cache_expunge_set : V → Usual V Cache → Result (V × Usual V Cache)
  cache_expunge_set v d = do
    n ← r.num_int v
    let rate = clamped 3 n
    ok (
      r.long_num (pos rate),
      record d {
        options = record (d.options) { cache_xrate = rate };
        str_cache = i.set_rate rate d.str_cache;
        sym_cache = map_cache (i.set_rate rate) d.sym_cache;
      },
    )

  -- NUM2LONG; a stack is only ever enlarged.
  abbrev pub widen : {A : Type 0} → ℤ → Stack A → Stack A
  widen (pos n) s = if ltb s.cap n then record s { cap = n } else s
  widen (negsuc n) s = s

  unfoldable pub capacity_set : V → Usual V Cache → Result (V × Usual V Cache)
  capacity_set v d = do
    n ← r.num_int v
    let values = widen n d.values
    ok (r.long_num (pos values.cap), record d { values = values; keys = widen n d.keys })

  abbrev pub decimal_name : Decimal → Bytes
  decimal_name Decimal.auto = codes "auto"
  decimal_name Decimal.bigdecimal = codes "bigdecimal"
  decimal_name Decimal.float = codes "float"
  decimal_name Decimal.ruby = codes "ruby"

  abbrev pub decimal_named : Bytes → Option Decimal
  decimal_named s =
      if same (codes "auto") s
      then some Decimal.auto
      else if same (codes "bigdecimal") s
      then some Decimal.bigdecimal
      else if same (codes "float") s
      then some Decimal.float
      else if same (codes "ruby") s
      then some Decimal.ruby
      else none

  unfoldable pub decimal_chosen : Option Decimal → Usual V Cache → Result (V × Usual V Cache)
  decimal_chosen none d = raised arg_error
  decimal_chosen (some m) d =
      ok (r.symbol (decimal_name m), with_options d (record (d.options) { decimal = m }))

  unfoldable pub decimal_text : Option Bytes → Usual V Cache → Result (V × Usual V Cache)
  unfolding decimal_chosen same
  decimal_text none d = raised type_error
  decimal_text (some s) d = decimal_chosen (decimal_named s) d

  unfoldable pub decimal_set : V → Usual V Cache → Result (V × Usual V Cache)
  unfolding decimal_text
  decimal_set v d = decimal_text (r.text v) d

  unfoldable pub omit_null_set : V → Usual V Cache → Result (V × Usual V Cache)
  omit_null_set v d =
      ok (boolean (r.is_true v), with_options d (record (d.options) { omit_null = r.is_true v }))

  -- With false the symbol cache is freed, and `key_cache` stays as it is.
  unfoldable pub symbol_keys_set : V → Usual V Cache → Result (V × Usual V Cache)
  symbol_keys_set v d =
      let o = d.options in
      let symbols = record d {
        sym_cache = some (i.set_rate o.cache_xrate (i.create (form_sym r) true));
        options = record o {
          key_cache = of_symbols;
          get_key = if o.cache_keys then o.get_key else sym_key;
        };
      } in
      let strings = record d {
        sym_cache = none;
        options = record o { get_key = if o.cache_keys then o.get_key else str_key };
      } in
      if r.is_true v then ok (r.true_object, symbols) else ok (r.false_object, strings)

  unfoldable pub raise_on_empty_set : V → Usual V Cache → Result (V × Usual V Cache)
  raise_on_empty_set v d =
      ok (
        boolean (r.is_true v),
        with_options d (record (d.options) { raise_on_empty = r.is_true v }),
      )
