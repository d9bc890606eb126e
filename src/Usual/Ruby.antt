-- ===== src/Usual/Ruby.antt =====
-- What ext/oj_windows/usual.c uses of Ruby's C interface and of ext/oj_windows/cache.c.
use oj_windows.Base.{ℕ, Bool, ◌≡◌, Option, List, Bytes, All, ◌<◌}
use oj_windows.Base.Int.{ℤ}
use oj_windows.Parser.State.{LongDouble, Result, ok}

-- Ruby's functions as `usual.c` calls them. An array and a hash stand for what they are made of: nothing
-- is written to them once they are made. A call of a method, which may be any code, may raise; the
-- functions that make strings, symbols, arrays and hashes are taken to return.
pub record Ruby (V : Type 0) : Type 0 where
  pub undef : V
  pub nil : V
  pub true_object : V
  pub false_object : V
  pub is_undef : V → Bool
  pub is_nil : V → Bool
  pub is_true : V → Bool
  -- LONG2NUM of an int64_t, which it takes as a `long`.
  pub long_num : ℤ → V
  -- RB_INTEGER_TYPE_P, and NUM2INT and NUM2LONG.
  pub is_integer : V → Bool
  pub num_int : V → Result ℤ
  pub float_new : LongDouble → V
  -- `sprintf(buf, "%Lg", x)`.
  pub long_double_text : LongDouble → Bytes
  pub big_decimal : V → Result V
  pub to_f : V → Result V
  pub str_new : Bytes → V
  pub utf8_str : Bytes → V
  pub freeze : V → V
  pub str_intern : V → V
  -- rb_ary_new_from_values, and rb_hash_new with rb_hash_bulk_insert.
  pub array : List V → V
  pub hash : List V → V
  pub new_instance : V → Result V
  -- `obj[key] = value` and `obj << value`: the object afterwards.
  pub set_member : V → V → V → Result V
  pub push_element : V → V → Result V
  pub is_class : V → Bool
  pub has_set_member : V → Bool
  pub has_push_element : V → Bool
  -- ID2SYM(rb_intern(name)).
  pub symbol : Bytes → V
  -- The text of a String or Symbol, up to its NUL.
  pub text : V → Option Bytes

-- The string cache as its clients see it: `Holds f c` says that `c` keeps forms by `f`. A key is a C
-- string of its length, so it has no NUL.
pub record Interner (V : Type 0) : Type 1 where
  pub Cache : Type 0
  pub Holds : (Bytes → V) → Cache → Type 0
  pub create : (Bytes → V) → Bool → Cache
  pub intern : Cache → Bytes → Result (V × Cache)
  pub set_rate : ℕ → Cache → Cache
  -- The cache behind a mark, and the values that it has marked.
  pub mark : Cache → Cache × List V
  pub create-Holds : (f : Bytes → V) (m : Bool) → Holds f (create f m)
  pub intern-Holds :
      (f : Bytes → V) (c : Cache) (k : Bytes)
      → Holds f c
      → All (λ b. 0 < b) k
      → (e : Cache) × (intern c k ≡ ok (f k, e)) × Holds f e
  pub set_rate-Holds : (f : Bytes → V) (n : ℕ) (c : Cache) → Holds f c → Holds f (set_rate n c)
  pub mark-Holds : (f : Bytes → V) (c : Cache) → Holds f c → Holds f (mark c).0
