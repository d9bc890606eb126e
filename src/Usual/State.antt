-- ===== src/Usual/State.antt =====
-- ext/oj_windows/usual.h: the delegate's state. The functions that its options choose are named here, by
-- data types, and stand in `Options`.
use oj_windows.Base.{ℕ, Bool, true, false, Option, none, List, [], Bytes}
use oj_windows.Usual.Ruby.{Ruby, Interner}
use oj_windows.Usual.Stacks.{Stack}

-- `struct _col`: `ki` is -1 for an array.
pub record Col : Type 0 where
  pub vi : ℕ
  pub ki : Option ℕ

abbrev pub col : ℕ → Option ℕ → Col
col v k = record { vi = v; ki = k }

-- `union _key`: up to 29 bytes stand in the entry, more in a copy of their own.
pub data Key : Type 0 where
  inline copied : Bytes → Key

-- `get_key`, by the function that it points to.
pub data GetKey : Type 0 where
  cache_key str_key sym_key : GetKey

-- `key_cache`, by the cache that it points to.
pub data KeyCache : Type 0 where
  of_strings of_symbols : KeyCache

-- The `decimal` option, which chooses the handlers of floats and big numbers.
pub data Decimal : Type 0 where
  auto bigdecimal float ruby : Decimal

-- `array_class` and `hash_class` are nil for plain arrays and hashes. `class_array`, `class_hash` and
-- `omit_null` say which handlers stand in the parser's tables. `block` is rb_block_given_p.
pub record Options (V : Type 0) : Type 0 where
  pub get_key : GetKey
  pub key_cache : KeyCache
  pub array_class : V
  pub hash_class : V
  pub class_array : Bool
  pub class_hash : Bool
  pub decimal : Decimal
  pub omit_null : Bool
  pub cache_str : ℕ
  pub cache_xrate : ℕ
  pub cache_keys : Bool
  pub raise_on_empty : Bool
  pub block : Bool

-- `yielded` are the objects that the block has been given, in their order.
pub record Usual (V S : Type 0) : Type 0 where
  pub values : Stack V
  pub cols : Stack Col
  pub keys : Stack Key
  pub str_cache : S
  pub sym_cache : Option S
  pub options : Options V
  pub yielded : List V

module _ {V : Type 0} (r : Ruby V) where
  -- form_str and form_sym.
  abbrev pub form_str : Bytes → V
  form_str s = r.freeze (r.utf8_str s)

  abbrev pub form_sym : Bytes → V
  form_sym s = r.str_intern (r.utf8_str s)

  abbrev pub default_options : Bool → Options V
  default_options block = record {
    get_key = cache_key;
    key_cache = of_strings;
    array_class = r.nil;
    hash_class = r.nil;
    class_array = false;
    class_hash = false;
    decimal = auto;
    omit_null = false;
    cache_str = 6;
    cache_xrate = 1;
    cache_keys = true;
    raise_on_empty = false;
    block = block;
  }

  -- oj_init_usual.
  unfoldable pub oj_init_usual : (k : Interner V) → Bool → Usual V k.Cache
  oj_init_usual k block = record {
    values = record { items = []; cap = 4096 };
    keys = record { items = []; cap = 4096 };
    cols = record { items = []; cap = 256 };
    str_cache = k.create (form_str) true;
    sym_cache = none;
    options = default_options block;
    yielded = [];
  }
