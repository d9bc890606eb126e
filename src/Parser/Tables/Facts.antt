-- ===== src/Parser/Tables/Facts.antt =====
-- What the tables of ext/oj_windows/parser.c say about classes of bytes, checked over all 256 values.
use oj_windows.Base.{
  ℕ, ◌<◌, ◌≡◌, refl, Bool, true, false, not, ◌&&◌, ◌==◌, passes, passes-each, Bytes, All,
}
use oj_windows.Parser.Tables.{
  Map, Action, action, code_at, at_value, at_null, at_true, at_false, at_comma, at_after, at_key1,
  at_key, at_colon, at_neg, at_zero, at_digit, at_dot, at_frac, at_exp_sign, at_exp_zero, at_exp,
  at_big_digit, at_big_dot, at_big_frac, at_big_exp_sign, at_big_exp_zero, at_big_exp, at_string,
  at_esc, at_u, at_utf, at_trail,
}

abbrev pub IsByte : ℕ → Type 0
IsByte b = b < 256

abbrev pub IsBytes : Bytes → Type 0
IsBytes = All IsByte

-- The tables of a number that is kept as text.
abbrev pub is_big : Map → Bool
is_big at_big_digit = true
is_big at_big_dot = true
is_big at_big_frac = true
is_big at_big_exp_sign = true
is_big at_big_exp_zero = true
is_big at_big_exp = true
is_big _ = false

abbrev pub is_neg : Map → Bool
is_neg at_neg = true
is_neg _ = false

-- What a case of the switch relies on: the byte belongs to the class that its inner loop scans, and a
-- loop that can leave its first digit to a table of big numbers does not start from one.
abbrev pub expects : Action → Map → ℕ → Bool
expects Action.val_digit m b = (code_at at_digit b == b'N') && not (is_big m)
expects Action.neg_digit m b = is_neg m
expects Action.num_digit m b = (code_at at_digit b == b'N') && not (is_big m)
expects Action.exp_digit m b = (code_at at_digit b == b'N') && not (is_big m)
expects Action.num_frac m b = (code_at at_frac b == b'v') && not (is_big m)
expects Action.big_digit m b = code_at at_digit b == b'N'
expects Action.big_exp m b = code_at at_digit b == b'N'
expects Action.big_frac m b = code_at at_frac b == b'v'
expects Action.str_ok m b = code_at at_string b == b'R'
expects _ m b = true

abbrev check : Map → ℕ → Bool
check m b = expects (action m b) m b

table_ok_value : passes (check at_value) 256 ≡ true
unfolding passes action
table_ok_value = refl

table_ok_null : passes (check at_null) 256 ≡ true
unfolding passes action
table_ok_null = refl

table_ok_true : passes (check at_true) 256 ≡ true
unfolding passes action
table_ok_true = refl

table_ok_false : passes (check at_false) 256 ≡ true
unfolding passes action
table_ok_false = refl

table_ok_comma : passes (check at_comma) 256 ≡ true
unfolding passes action
table_ok_comma = refl

table_ok_after : passes (check at_after) 256 ≡ true
unfolding passes action
table_ok_after = refl

table_ok_key1 : passes (check at_key1) 256 ≡ true
unfolding passes action
table_ok_key1 = refl

table_ok_key : passes (check at_key) 256 ≡ true
unfolding passes action
table_ok_key = refl

table_ok_colon : passes (check at_colon) 256 ≡ true
unfolding passes action
table_ok_colon = refl

table_ok_neg : passes (check at_neg) 256 ≡ true
unfolding passes action
table_ok_neg = refl

table_ok_zero : passes (check at_zero) 256 ≡ true
unfolding passes action
table_ok_zero = refl

table_ok_digit : passes (check at_digit) 256 ≡ true
unfolding passes action
table_ok_digit = refl

table_ok_dot : passes (check at_dot) 256 ≡ true
unfolding passes action
table_ok_dot = refl

table_ok_frac : passes (check at_frac) 256 ≡ true
unfolding passes action
table_ok_frac = refl

table_ok_exp_sign : passes (check at_exp_sign) 256 ≡ true
unfolding passes action
table_ok_exp_sign = refl

table_ok_exp_zero : passes (check at_exp_zero) 256 ≡ true
unfolding passes action
table_ok_exp_zero = refl

table_ok_exp : passes (check at_exp) 256 ≡ true
unfolding passes action
table_ok_exp = refl

table_ok_big_digit : passes (check at_big_digit) 256 ≡ true
unfolding passes action
table_ok_big_digit = refl

table_ok_big_dot : passes (check at_big_dot) 256 ≡ true
unfolding passes action
table_ok_big_dot = refl

table_ok_big_frac : passes (check at_big_frac) 256 ≡ true
unfolding passes action
table_ok_big_frac = refl

table_ok_big_exp_sign : passes (check at_big_exp_sign) 256 ≡ true
unfolding passes action
table_ok_big_exp_sign = refl

table_ok_big_exp_zero : passes (check at_big_exp_zero) 256 ≡ true
unfolding passes action
table_ok_big_exp_zero = refl

table_ok_big_exp : passes (check at_big_exp) 256 ≡ true
unfolding passes action
table_ok_big_exp = refl

table_ok_string : passes (check at_string) 256 ≡ true
unfolding passes action
table_ok_string = refl

table_ok_esc : passes (check at_esc) 256 ≡ true
unfolding passes action
table_ok_esc = refl

table_ok_u : passes (check at_u) 256 ≡ true
unfolding passes action
table_ok_u = refl

table_ok_utf : passes (check at_utf) 256 ≡ true
unfolding passes action
table_ok_utf = refl

table_ok_trail : passes (check at_trail) 256 ≡ true
unfolding passes action
table_ok_trail = refl

-- Every table fits the cases that its codes lead to.
pub expects-action : (m : Map) (b : ℕ) → IsByte b → expects (action m b) m b ≡ true
expects-action at_value b h = passes-each (check at_value) 256 b h table_ok_value
expects-action at_null b h = passes-each (check at_null) 256 b h table_ok_null
expects-action at_true b h = passes-each (check at_true) 256 b h table_ok_true
expects-action at_false b h = passes-each (check at_false) 256 b h table_ok_false
expects-action at_comma b h = passes-each (check at_comma) 256 b h table_ok_comma
expects-action at_after b h = passes-each (check at_after) 256 b h table_ok_after
expects-action at_key1 b h = passes-each (check at_key1) 256 b h table_ok_key1
expects-action at_key b h = passes-each (check at_key) 256 b h table_ok_key
expects-action at_colon b h = passes-each (check at_colon) 256 b h table_ok_colon
expects-action at_neg b h = passes-each (check at_neg) 256 b h table_ok_neg
expects-action at_zero b h = passes-each (check at_zero) 256 b h table_ok_zero
expects-action at_digit b h = passes-each (check at_digit) 256 b h table_ok_digit
expects-action at_dot b h = passes-each (check at_dot) 256 b h table_ok_dot
expects-action at_frac b h = passes-each (check at_frac) 256 b h table_ok_frac
expects-action at_exp_sign b h = passes-each (check at_exp_sign) 256 b h table_ok_exp_sign
expects-action at_exp_zero b h = passes-each (check at_exp_zero) 256 b h table_ok_exp_zero
expects-action at_exp b h = passes-each (check at_exp) 256 b h table_ok_exp
expects-action at_big_digit b h = passes-each (check at_big_digit) 256 b h table_ok_big_digit
expects-action at_big_dot b h = passes-each (check at_big_dot) 256 b h table_ok_big_dot
expects-action at_big_frac b h = passes-each (check at_big_frac) 256 b h table_ok_big_frac
expects-action at_big_exp_sign b h =
    passes-each (check at_big_exp_sign) 256 b h table_ok_big_exp_sign
expects-action at_big_exp_zero b h =
    passes-each (check at_big_exp_zero) 256 b h table_ok_big_exp_zero
expects-action at_big_exp b h = passes-each (check at_big_exp) 256 b h table_ok_big_exp
expects-action at_string b h = passes-each (check at_string) 256 b h table_ok_string
expects-action at_esc b h = passes-each (check at_esc) 256 b h table_ok_esc
expects-action at_u b h = passes-each (check at_u) 256 b h table_ok_u
expects-action at_utf b h = passes-each (check at_utf) 256 b h table_ok_utf
expects-action at_trail b h = passes-each (check at_trail) 256 b h table_ok_trail
