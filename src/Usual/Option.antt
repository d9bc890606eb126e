-- ===== src/Usual/Option.antt =====
-- ext/oj_windows/usual.c, the table in `option`: the functions of the options. The options of create_id, its
-- class cache and missing_class are not part of the model.
use oj_windows.Base.{not}
use oj_windows.Base.Int.{pos}
use oj_windows.Parser.State.{Result}
use oj_windows.Usual.Ruby.{Ruby, Interner}
use oj_windows.Usual.State.{Usual}
use oj_windows.Usual.Options.{
  boolean, is_none, array_class_set, hash_class_set, cache_keys_set, cache_strings_set,
  cache_expunge_set, capacity_set, decimal_name, decimal_set, omit_null_set, symbol_keys_set,
  raise_on_empty_set,
}

-- An entry and the one with `=` behind its name.
pub data Setting : Type 0 where
  array_class cache_keys cache_strings cache_expunge capacity decimal hash_class : Setting
  omit_null symbol_keys raise_on_empty : Setting

module _ {V : Type 0} (r : Ruby V) (i : Interner V) where
  open i use {Cache}

  unfoldable pub get_setting : Setting → Usual V Cache → V
  get_setting array_class d = d.options.array_class
  get_setting cache_keys d = boolean r i d.options.cache_keys
  get_setting cache_strings d = r.long_num (pos d.options.cache_str)
  get_setting cache_expunge d = r.long_num (pos d.options.cache_xrate)
  get_setting capacity d = r.long_num (pos d.values.cap)
  get_setting decimal d = r.symbol (decimal_name r i d.options.decimal)
  get_setting hash_class d = d.options.hash_class
  get_setting omit_null d = boolean r i d.options.omit_null
  get_setting symbol_keys d = boolean r i (not (is_none d.sym_cache))
  get_setting raise_on_empty d = boolean r i d.options.raise_on_empty

  unfoldable pub set_setting : Setting → V → Usual V Cache → Result (V × Usual V Cache)
  unfolding array_class_set cache_keys_set cache_strings_set cache_expunge_set capacity_set
      decimal_set hash_class_set omit_null_set symbol_keys_set raise_on_empty_set
  set_setting array_class v d = array_class_set r i v d
  set_setting cache_keys v d = cache_keys_set r i v d
  set_setting cache_strings v d = cache_strings_set r i v d
  set_setting cache_expunge v d = cache_expunge_set r i v d
  set_setting capacity v d = capacity_set r i v d
  set_setting decimal v d = decimal_set r i v d
  set_setting hash_class v d = hash_class_set r i v d
  set_setting omit_null v d = omit_null_set r i v d
  set_setting symbol_keys v d = symbol_keys_set r i v d
  set_setting raise_on_empty v d = raise_on_empty_set r i v d
