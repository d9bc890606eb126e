-- ===== src/Usual/Objects.antt =====
-- Ruby values as data, for runs of the delegates.
use oj_windows.Base.{Bool, true, false, Option, none, some, List, [], ◌∷◌, Bytes}
use oj_windows.Base.Int.{ℤ}
use oj_windows.Parser.State.{LongDouble, Result, ok, raised, type_error}
use oj_windows.Usual.Ruby.{Ruby, Interner}
use oj_windows.Usual.Cached.{string_cache}

mutual
  pub data Obj : Type 0 where
    undef_obj nil_obj true_obj false_obj : Obj
    int_obj : ℤ → Obj
    float_obj : LongDouble → Obj
    str_obj frozen_obj sym_obj : Bytes → Obj
    arr_obj hash_obj : Objs → Obj

  pub data Objs : Type 0 where
    no_objs : Objs
    more_objs : Obj → Objs → Objs

abbrev pub objs : List Obj → Objs
objs [] = no_objs
objs (x ∷ xs) = more_objs x (objs xs)

abbrev pub is_undef_obj : Obj → Bool
is_undef_obj undef_obj = true
is_undef_obj _ = false

abbrev pub is_nil_obj : Obj → Bool
is_nil_obj nil_obj = true
is_nil_obj _ = false

abbrev pub is_true_obj : Obj → Bool
is_true_obj true_obj = true
is_true_obj _ = false

abbrev pub is_int_obj : Obj → Bool
is_int_obj (int_obj n) = true
is_int_obj _ = false

abbrev pub frozen : Obj → Obj
frozen (str_obj s) = frozen_obj s
frozen x = x

abbrev pub symbol_of : Obj → Obj
symbol_of (str_obj s) = sym_obj s
symbol_of x = x

abbrev pub text_of : Obj → Option Bytes
text_of (str_obj s) = some s
text_of (sym_obj s) = some s
text_of _ = none

abbrev pub number_of : Obj → Result ℤ
number_of (int_obj n) = ok n
number_of _ = raised type_error

-- No classes: every call of a method raises.
abbrev pub objects : Ruby Obj
objects = record {
  undef = undef_obj;
  nil = nil_obj;
  true_object = true_obj;
  false_object = false_obj;
  is_undef = is_undef_obj;
  is_nil = is_nil_obj;
  is_true = is_true_obj;
  long_num = int_obj;
  is_integer = is_int_obj;
  num_int = number_of;
  float_new = float_obj;
  long_double_text = λ x. [];
  big_decimal = λ x. raised type_error;
  to_f = λ x. raised type_error;
  str_new = str_obj;
  utf8_str = str_obj;
  freeze = frozen;
  str_intern = symbol_of;
  array = λ xs. arr_obj (objs xs);
  hash = λ xs. hash_obj (objs xs);
  new_instance = λ x. raised type_error;
  set_member = λ x y z. raised type_error;
  push_element = λ x y. raised type_error;
  is_class = λ x. false;
  has_set_member = λ x. false;
  has_push_element = λ x. false;
  symbol = sym_obj;
  text = text_of;
}

abbrev pub caches : Interner Obj
caches = string_cache Obj
