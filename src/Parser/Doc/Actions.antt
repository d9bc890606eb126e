-- ===== src/Parser/Doc/Actions.antt =====
-- What the tables of ext/oj_windows/parser.c say about the bytes of a document.
use oj_windows.Base.{
  ℕ, ◌≤◌, ◌≡◌, ◌⊎◌, inl, inr, refl, Bool, true, not, ◌&&◌, ◌||◌, leb, ◌==◌, passes, passes-each,
  arith,
}
use oj_windows.Parser.Tables.{
  Map, at_value, at_comma, at_after, at_digit, at_zero, at_key1, at_key, at_colon, at_string,
  at_neg, Action, action, code_at, decode,
}

-- The tables in front of a value.
abbrev pub IsOpen : Map → Type 0
IsOpen m = (m ≡ at_value) ⊎ (m ≡ at_comma)

pub action-IsOpen :
    {m : Map} (b : ℕ) {a : Action}
    → IsOpen m
    → action at_value b ≡ a
    → action at_comma b ≡ a
    → action m b ≡ a
action-IsOpen b (inl e) h k = rw e h
action-IsOpen b (inr e) h k = rw e k

pub value_quote : action at_value b'"' ≡ Action.val_quote
unfolding action
value_quote = refl

pub value_bracket : action at_value b'[' ≡ Action.open_array
unfolding action
value_bracket = refl

pub value_brace : action at_value b'{' ≡ Action.open_object
unfolding action
value_brace = refl

pub value_n : action at_value b'n' ≡ Action.val_null
unfolding action
value_n = refl

pub value_t : action at_value b't' ≡ Action.val_true
unfolding action
value_t = refl

pub value_f : action at_value b'f' ≡ Action.val_false
unfolding action
value_f = refl

pub value_minus : action at_value b'-' ≡ Action.val_neg
unfolding action
value_minus = refl

pub value_zero : action at_value b'0' ≡ Action.val0
unfolding action
value_zero = refl

pub comma_quote : action at_comma b'"' ≡ Action.val_quote
unfolding action
comma_quote = refl

pub comma_bracket : action at_comma b'[' ≡ Action.open_array
unfolding action
comma_bracket = refl

pub comma_brace : action at_comma b'{' ≡ Action.open_object
unfolding action
comma_brace = refl

pub comma_n : action at_comma b'n' ≡ Action.val_null
unfolding action
comma_n = refl

pub comma_t : action at_comma b't' ≡ Action.val_true
unfolding action
comma_t = refl

pub comma_f : action at_comma b'f' ≡ Action.val_false
unfolding action
comma_f = refl

pub comma_minus : action at_comma b'-' ≡ Action.val_neg
unfolding action
comma_minus = refl

pub comma_zero : action at_comma b'0' ≡ Action.val0
unfolding action
comma_zero = refl

pub value_close : action at_value b']' ≡ Action.close_array
unfolding action
value_close = refl

pub after_comma : action at_after b',' ≡ Action.after_comma
unfolding action
after_comma = refl

pub after_close : action at_after b']' ≡ Action.close_array
unfolding action
after_close = refl

pub after_end : action at_after b'}' ≡ Action.close_object
unfolding action
after_end = refl

pub digit_comma : action at_digit b',' ≡ Action.num_comma
unfolding action
digit_comma = refl

pub digit_close : action at_digit b']' ≡ Action.num_close_array
unfolding action
digit_close = refl

pub digit_end : action at_digit b'}' ≡ Action.num_close_object
unfolding action
digit_end = refl

pub zero_comma : action at_zero b',' ≡ Action.num_comma
unfolding action
zero_comma = refl

pub zero_close : action at_zero b']' ≡ Action.num_close_array
unfolding action
zero_close = refl

pub zero_end : action at_zero b'}' ≡ Action.num_close_object
unfolding action
zero_end = refl

pub key1_quote : action at_key1 b'"' ≡ Action.key_quote
unfolding action
key1_quote = refl

pub key1_end : action at_key1 b'}' ≡ Action.close_object
unfolding action
key1_end = refl

pub key_quote : action at_key b'"' ≡ Action.key_quote
unfolding action
key_quote = refl

pub colon_colon : action at_colon b':' ≡ Action.colon_colon
unfolding action
colon_colon = refl

pub string_quote : action at_string b'"' ≡ Action.str_quote
unfolding action
string_quote = refl

pub string_slash : action at_string b'\\' ≡ Action.str_slash
unfolding action
string_slash = refl

pub neg_zero : action at_neg b'0' ≡ Action.num_zero
unfolding action
neg_zero = refl

decoded :
    (m : Map) (b : ℕ) (code : ℕ) {a : Action}
    → decode code ≡ a
    → code_at m b ≡ code
    → action m b ≡ a
unfolding action
decoded m b code h e = rw e h

value_digit_test : ℕ → Bool
value_digit_test b = not (leb b'1' b && leb b b'9') || (code_at at_value b == b'h')

value_digit_table : passes value_digit_test 256 ≡ true
unfolding passes code_at value_digit_test
value_digit_table = refl

pub value_digit-code : (b : ℕ) → b'1' ≤ b → b ≤ b'9' → code_at at_value b ≡ b'h'
unfolding value_digit_test
value_digit-code b lo hi =
    ground (arith, passes-each value_digit_test 256 b (omega arith) value_digit_table)

value_digit_action : decode b'h' ≡ Action.val_digit
unfolding decode
value_digit_action = refl

pub value_digit : (b : ℕ) → b'1' ≤ b → b ≤ b'9' → action at_value b ≡ Action.val_digit
value_digit b lo hi = decoded at_value b b'h' value_digit_action (value_digit-code b lo hi)

comma_digit_test : ℕ → Bool
comma_digit_test b = not (leb b'1' b && leb b b'9') || (code_at at_comma b == b'h')

comma_digit_table : passes comma_digit_test 256 ≡ true
unfolding passes code_at comma_digit_test
comma_digit_table = refl

pub comma_digit-code : (b : ℕ) → b'1' ≤ b → b ≤ b'9' → code_at at_comma b ≡ b'h'
unfolding comma_digit_test
comma_digit-code b lo hi =
    ground (arith, passes-each comma_digit_test 256 b (omega arith) comma_digit_table)

comma_digit_action : decode b'h' ≡ Action.val_digit
unfolding decode
comma_digit_action = refl

pub comma_digit : (b : ℕ) → b'1' ≤ b → b ≤ b'9' → action at_comma b ≡ Action.val_digit
comma_digit b lo hi = decoded at_comma b b'h' comma_digit_action (comma_digit-code b lo hi)

neg_digit_test : ℕ → Bool
neg_digit_test b = not (leb b'1' b && leb b b'9') || (code_at at_neg b == b'-')

neg_digit_table : passes neg_digit_test 256 ≡ true
unfolding passes code_at neg_digit_test
neg_digit_table = refl

pub neg_digit-code : (b : ℕ) → b'1' ≤ b → b ≤ b'9' → code_at at_neg b ≡ b'-'
unfolding neg_digit_test
neg_digit-code b lo hi =
    ground (arith, passes-each neg_digit_test 256 b (omega arith) neg_digit_table)

neg_digit_action : decode b'-' ≡ Action.neg_digit
unfolding decode
neg_digit_action = refl

pub neg_digit : (b : ℕ) → b'1' ≤ b → b ≤ b'9' → action at_neg b ≡ Action.neg_digit
neg_digit b lo hi = decoded at_neg b b'-' neg_digit_action (neg_digit-code b lo hi)

digit_digit_test : ℕ → Bool
digit_digit_test b = not (leb b'0' b && leb b b'9') || (code_at at_digit b == b'N')

digit_digit_table : passes digit_digit_test 256 ≡ true
unfolding passes code_at digit_digit_test
digit_digit_table = refl

pub digit_digit-code : (b : ℕ) → b'0' ≤ b → b ≤ b'9' → code_at at_digit b ≡ b'N'
unfolding digit_digit_test
digit_digit-code b lo hi =
    ground (arith, passes-each digit_digit_test 256 b (omega arith) digit_digit_table)
