-- ===== src/Parser/State.antt =====
-- ext/oj_windows/parser.h and the state handling of parser.c: the parser, its number, the callbacks
-- of a delegate and the outcome of a call.
use oj_windows.Base.{
  ℕ, ◌+◌, Bool, false, Option, none, [], Bytes, leb, if◌then◌else◌, replicate, ◌==◌,
}
use oj_windows.Base.Int.{ℤ, pos}
use oj_windows.Parser.Tables.{Map, at_value}

-- TOP_FUN, ARRAY_FUN and OBJECT_FUN: an entry of `stack`, and the index of a callback table.
pub data Fun : Type 0 where
  top_fun array_fun object_fun : Fun

pub data ValueType : Type 0 where
  oj_none oj_null oj_true oj_false oj_int oj_decimal oj_big : ValueType
  oj_string oj_object oj_array : ValueType

-- A `long double` as the expression that the code evaluates: the machine's rounding is not part of
-- the source.
pub data LongDouble : Type 0 where
  of_int : ℤ → LongDouble
  opposite : LongDouble → LongDouble
  over times : LongDouble → LongDouble → LongDouble
  pow_map : ℕ → LongDouble
  powl : ℤ → LongDouble

pub record Num : Type 0 where
  pub dub : LongDouble
  pub fixnum : ℤ
  pub len : ℕ
  pub div : ℤ
  pub exp : ℤ
  pub shift : ℕ
  pub neg : Bool
  pub exp_neg : Bool

abbrev pub zero_num : Num
zero_num = record {
  dub = of_int (pos 0);
  fixnum = pos 0;
  len = 0;
  div = pos 0;
  exp = pos 0;
  shift = 0;
  neg = false;
  exp_neg = false;
}

-- `key` and `buf` are the contents of the two growing buffers. `next_map` may be NULL. The delegate's
-- context `ctx` is passed beside the parser, and its callback tables are `Delegate.call`.
pub record Parser : Type 0 where
  pub map : Map
  pub next_map : Option Map
  pub depth : ℕ
  pub stack : ℕ → Fun
  pub num : Num
  pub key : Bytes
  pub buf : Bytes
  pub token : Bytes
  pub line : ℕ
  pub cur : ℕ
  pub col : ℤ
  pub ri : ℕ
  pub ucode : ℕ
  pub type : ValueType
  pub just_one : Bool

abbrev pub stack_size : ℕ
stack_size = 1024

pub data Message : Type 0 where
  expected_null expected_true expected_false : Message
  invalid_character : ℕ → Message
  unexpected_character : ℕ → ℕ → Message
  unexpected_object_close unexpected_array_close invalid_unicode bad_token : Message
  object_not_closed array_not_closed not_closed : Message

-- What is raised: a parse error with its line and column, or what a delegate raises.
pub data Exception : Type 0 where
  parser_error : Message → ℕ → ℤ → Exception
  hash_size_error array_size_error depth_error total_elements_error : Exception
  index_error key_too_long open_error read_error : Exception
  handler_error : ℕ → Exception
  arg_error type_error empty_string : Exception

-- `fault` is an access outside an array or through NULL.
pub data Result {ℓ} (A : Type ℓ) : Type ℓ where
  ok : A → Result A
  raised : Exception → Result A
  fault : Result A

infixl 5 ◌>>=◌
abbrev pub ◌>>=◌ {ℓ κ} : {A : Type ℓ} {B : Type κ} → Result A → (A → Result B) → Result B
ok a >>= f = f a
raised e >>= f = raised e
fault >>= f = fault

-- The members of `struct _funcs`.
pub data Call : Type 0 where
  add_null add_true add_false add_int add_float add_big add_str : Call
  open_array close_array open_object close_object : Call

-- `funcs[fun].call(p)` and `start(p)`. A callback reads the parser and changes its own context.
pub record Delegate (C : Type 0) : Type 0 where
  pub call : Fun → Call → Parser → C → Result C
  pub start : Parser → C → Result C

-- `p->funcs[p->stack[p->depth]].call(p)`.
unfoldable pub invoke : {C : Type 0} → Delegate C → Call → Parser → C → Result C
invoke d f p c = d.call (p.stack p.depth) f p c

-- parse_error.
abbrev pub parse_error {ℓ} : {A : Type ℓ} → Parser → Message → Result A
parse_error p m = raised (parser_error m p.line p.col)

-- `p->depth++; p->stack[p->depth] = f`, which the source does without a look at the array's size.
unfoldable pub push_fun : Fun → Parser → Result Parser
push_fun f p =
    if leb stack_size (p.depth + 1)
    then fault
    else ok
        (record p { depth = p.depth + 1; stack = λ i. if i == p.depth + 1 then f else p.stack i })

-- memset and buf_init of `parser_new`.
abbrev pub new_parser : Parser
new_parser = record {
  map = at_value;
  next_map = none;
  depth = 0;
  stack = λ i. top_fun;
  num = zero_num;
  key = [];
  buf = [];
  token = replicate 8 0;
  line = 0;
  cur = 0;
  col = pos 0;
  ri = 0;
  ucode = 0;
  type = oj_none;
  just_one = false;
}

-- parser_reset: `stack`, `token`, `line`, `cur`, `col`, `ri`, `ucode`, `type` and `just_one` stay.
unfoldable pub parser_reset : Parser → Parser
parser_reset p = record p {
  num = zero_num;
  key = [];
  buf = [];
  map = at_value;
  next_map = none;
  depth = 0;
}
