-- ===== src/Parser/Step.antt =====
-- ext/oj_windows/parser.c, parse: the switch of the loop.
pub mod Loop
pub mod Nest
pub mod Digits
pub mod Text
pub mod Word
use oj_windows.Base.{ℕ, suc, ◌+◌, Bool, ◌&&◌, [], ◌∷◌, Bytes, ◌==◌, if◌then◌else◌}
use oj_windows.Parser.Tables
use oj_windows.Parser.Tables.{Action, Map, at_trail, mode_of, action}
use oj_windows.Parser.State.{
  Parser, expected_null, expected_true, expected_false, invalid_character, unexpected_character,
  Result, ok, ◌>>=◌, Delegate, parse_error,
}
use Loop.{Machine, machine}
use Nest.{
  skip_newline, after_comma, num_comma, open_object_step, open_array_step, close_object_step,
  close_array_step, num_close_object, num_close_array, num_spc, num_newline,
}
use Digits.{
  val0, val_neg, val_digit, num_digit, neg_digit, num_dot, num_frac, frac_e, num_zero, exp_sign,
  exp_digit, big_digit, big_dot, big_frac, big_e, big_exp_sign, big_exp,
}
use Text.{
  colon_colon, key_quote, val_quote, str_quote, str_ok, str_slash, esc_ok, esc_u, u_ok, utf_lead,
  utfx,
}
use Word.{val_null, val_true, val_false, token_ok}

-- byte_error.
unfoldable pub byte_error : {C : Type 0} → Parser → ℕ → Result (Machine C)
byte_error p b =
    if mode_of p.map == b'N'
    then parse_error p expected_null
    else if mode_of p.map == b'T'
    then parse_error p expected_true
    else if mode_of p.map == b'F'
    then parse_error p expected_false
    else if mode_of p.map == b's'
    then parse_error p (invalid_character b)
    else parse_error p (unexpected_character b (mode_of p.map))

-- What follows the switch: with `just_one`, a value table at the top becomes the trailing table.
abbrev pub trail : {C : Type 0} → Machine C → Machine C
trail m =
    let p = m.parser in
    if (p.depth == 0) && ((mode_of p.map == b'v') && p.just_one)
    then record m { parser = record p { map = at_trail } }
    else m

module _ {C : Type 0} (d : Delegate C) where
  unfoldable pub dispatch : Action → Parser → C → ℕ → ℕ → Bytes → Result (Machine C)
  unfolding skip_newline
  dispatch Action.skip_newline p c i b bs = skip_newline d p c i bs
  dispatch Action.skip_char p c i b bs = ok (machine p c (i + 1) bs)
  dispatch Action.colon_colon p c i b bs = colon_colon d p c i bs
  dispatch Action.key_quote p c i b bs = key_quote d p c i bs
  dispatch Action.after_comma p c i b bs = after_comma d p c i bs
  dispatch Action.val_quote p c i b bs = val_quote d p c i bs
  dispatch Action.open_object p c i b bs = open_object_step d p c i bs
  dispatch Action.num_close_object p c i b bs = num_close_object d p c i bs
  dispatch Action.close_object p c i b bs = close_object_step d p c i bs
  dispatch Action.open_array p c i b bs = open_array_step d p c i bs
  dispatch Action.num_close_array p c i b bs = num_close_array d p c i bs
  dispatch Action.close_array p c i b bs = close_array_step d p c i bs
  dispatch Action.num_comma p c i b bs = num_comma d p c i bs
  dispatch Action.val0 p c i b bs = val0 p c i bs
  dispatch Action.val_neg p c i b bs = val_neg p c i bs
  dispatch Action.val_digit p c i b bs = val_digit p c i b bs
  dispatch Action.num_digit p c i b bs = num_digit p c i b bs
  dispatch Action.num_dot p c i b bs = num_dot p c i bs
  dispatch Action.num_frac p c i b bs = num_frac p c i b bs
  dispatch Action.frac_e p c i b bs = frac_e p c i bs
  dispatch Action.num_zero p c i b bs = num_zero p c i bs
  dispatch Action.neg_digit p c i b bs = neg_digit p c i b bs
  dispatch Action.exp_sign p c i b bs = exp_sign p c i b bs
  dispatch Action.exp_digit p c i b bs = exp_digit p c i b bs
  dispatch Action.big_digit p c i b bs = big_digit p c i b bs
  dispatch Action.big_dot p c i b bs = big_dot p c i bs
  dispatch Action.big_frac p c i b bs = big_frac p c i b bs
  dispatch Action.big_e p c i b bs = big_e p c i b bs
  dispatch Action.big_exp_sign p c i b bs = big_exp_sign p c i b bs
  dispatch Action.big_exp p c i b bs = big_exp p c i b bs
  dispatch Action.num_spc p c i b bs = num_spc d p c i bs
  dispatch Action.num_newline p c i b bs = num_newline d p c i bs
  dispatch Action.str_ok p c i b bs = str_ok d p c i b bs
  dispatch Action.str_slash p c i b bs = str_slash d p c i bs
  dispatch Action.str_quote p c i b bs = str_quote d p c i bs
  dispatch Action.esc_u p c i b bs = esc_u d p c i bs
  dispatch Action.u_ok p c i b bs = u_ok d p c i b bs
  dispatch Action.esc_ok p c i b bs = esc_ok d p c i b bs
  dispatch Action.utf1 p c i b bs = utf_lead d 1 p c i b bs
  dispatch Action.utf2 p c i b bs = utf_lead d 2 p c i b bs
  dispatch Action.utf3 p c i b bs = utf_lead d 3 p c i b bs
  dispatch Action.utfx p c i b bs = utfx d p c i b bs
  dispatch Action.val_null p c i b bs = val_null d p c i b bs
  dispatch Action.val_true p c i b bs = val_true d p c i b bs
  dispatch Action.val_false p c i b bs = val_false d p c i b bs
  dispatch Action.token_ok p c i b bs = token_ok d p c i b bs
  dispatch Action.char_err p c i b bs = byte_error p b
  dispatch Action.done p c i b bs = ok (machine p c (i + 1) bs)
  dispatch Action.no_action p c i b bs = ok (machine p c (i + 1) bs)

  -- One pass of the loop at the byte `b`.
  unfoldable pub step : Parser → C → ℕ → ℕ → Bytes → Result (Machine C)
  step p c i b bs = do m ← dispatch (action p.map b) p c i b bs; ok (trail m)
