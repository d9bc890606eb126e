-- ===== src/Usual/Handlers.antt =====
-- ext/oj_windows/usual.c: the callbacks for simple values and for opening brackets. Those for a member of
-- an object take its key.
use oj_windows.Base.{◌+◌, none, some, Bytes, ltb, length, if◌then◌else◌}
use oj_windows.Parser.State.{LongDouble, Result, ok, ◌>>=◌}
use oj_windows.Usual.Ruby.{Ruby, Interner}
use oj_windows.Usual.Stacks.{grow, put}
use oj_windows.Usual.State.{Col, col, Decimal, bigdecimal, float, ruby, Usual}
use oj_windows.Usual.Keys.{push_key}

module _ {V S : Type 0} (r : Ruby V) where
  unfoldable pub push : V → Usual V S → Result (Usual V S)
  push v d = do s ← put v (grow 0 d.values); ok (record d { values = s })

  -- push2: a place for the key, and the value.
  unfoldable pub push2 : V → Usual V S → Result (Usual V S)
  push2 v d = do s ← put r.undef (grow 1 d.values); t ← put v s; ok (record d { values = t })

  -- assure_cstack, and the start of a collection.
  unfoldable pub open_col : Col → Usual V S → Result (Usual V S)
  open_col c d = do s ← put c (grow 1 d.cols); ok (record d { cols = s })

  unfoldable pub open_object : Usual V S → Result (Usual V S)
  unfolding open_col push
  open_object d = do
    e ← open_col (col (length d.values.items) (some (length d.keys.items))) d
    push r.undef e

  unfoldable pub open_object_key : Bytes → Usual V S → Result (Usual V S)
  unfolding open_col push2 push_key
  open_object_key k d = do
    e ← push_key k d
    f ← open_col (col (length e.values.items + 1) (some (length e.keys.items))) e
    push2 r.undef f

  unfoldable pub open_array : Usual V S → Result (Usual V S)
  unfolding open_col push
  open_array d = do e ← open_col (col (length d.values.items) none) d; push r.undef e

  unfoldable pub open_array_key : Bytes → Usual V S → Result (Usual V S)
  unfolding open_col push2 push_key
  open_array_key k d = do
    e ← push_key k d
    f ← open_col (col (length e.values.items + 1) none) e
    push2 r.undef f

  -- The callbacks of the form `push_key(p); push2(p, v)`.
  unfoldable pub push_member : Bytes → V → Usual V S → Result (Usual V S)
  unfolding push_key push2
  push_member k v d = push_key k d >>= push2 v

  -- add_float and add_float_as_big.
  unfoldable pub add_float : Decimal → LongDouble → Usual V S → Result (Usual V S)
  unfolding push
  add_float bigdecimal x d = r.big_decimal (r.str_new (r.long_double_text x)) >>= λ v. push v d
  add_float _ x d = push (r.float_new x) d

  unfoldable pub add_float_key : Decimal → Bytes → LongDouble → Usual V S → Result (Usual V S)
  unfolding push_key push2
  add_float_key bigdecimal k x d = do
    e ← push_key k d
    v ← r.big_decimal (r.str_new (r.long_double_text x))
    push2 v e
  add_float_key _ k x d = push_member k (r.float_new x) d

  -- add_big, add_big_as_float and add_big_as_ruby.
  unfoldable pub add_big : Decimal → Bytes → Usual V S → Result (Usual V S)
  unfolding push
  add_big float s d = do b ← r.big_decimal (r.str_new s); v ← r.to_f b; push v d
  add_big ruby s d = r.to_f (r.str_new s) >>= λ v. push v d
  add_big _ s d = r.big_decimal (r.str_new s) >>= λ v. push v d

  unfoldable pub add_big_key : Decimal → Bytes → Bytes → Usual V S → Result (Usual V S)
  unfolding push_key push2
  add_big_key float k s d = do
    b ← r.big_decimal (r.str_new s)
    e ← push_key k d
    v ← r.to_f b
    push2 v e
  add_big_key ruby k s d = do e ← push_key k d; v ← r.to_f (r.str_new s); push2 v e
  add_big_key _ k s d = do e ← push_key k d; v ← r.big_decimal (r.str_new s); push2 v e

module _ {V : Type 0} (r : Ruby V) (i : Interner V) where
  open i use {Cache, intern}

  -- The string of add_str and add_str_key: a short one from the cache, which freezes it.
  unfoldable pub str_value : Bytes → Usual V Cache → Result (V × Usual V Cache)
  str_value s d =
      if ltb (length s) d.options.cache_str
      then (do (v, e) ← intern d.str_cache s; ok (v, record d { str_cache = e }))
      else ok (r.utf8_str s, d)

  unfoldable pub add_str : Bytes → Usual V Cache → Result (Usual V Cache)
  unfolding str_value push
  add_str s d = do (v, e) ← str_value s d; push r v e

  unfoldable pub add_str_key : Bytes → Bytes → Usual V Cache → Result (Usual V Cache)
  unfolding str_value push_member
  add_str_key k s d = do (v, e) ← str_value s d; push_member r k v e
