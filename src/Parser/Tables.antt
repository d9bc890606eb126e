-- ===== src/Parser/Tables.antt =====
-- ext/oj_windows/parser.c: the action codes, the tables and their lookup. A table is a list of 257
-- codes, the last of which names the table's mode.
pub mod Rows
pub mod Values
pub mod Numbers
pub mod Bigs
pub mod Strings
pub mod Facts
use oj_windows.Base.{
  ℕ, ◌+◌, Bool, List, [], ◌∷◌, ◌++◌, Bytes, codes, get_or, replicate, ◌==◌, if◌then◌else◌,
}
use Values.{
  value_map, null_map, true_map, false_map, comma_map, after_map, key1_map, key_map, colon_map,
}
use Numbers.{neg_map, zero_map, digit_map, dot_map, frac_map, exp_sign_map, exp_zero_map, exp_map}
use Bigs.{big_digit_map, big_dot_map, big_frac_map, big_exp_sign_map, big_exp_zero_map, big_exp_map}
use Strings.{string_map, esc_map, u_map, utf_map, space_map, trail_map}

-- The cases of the switch in `parse`, under the names of the enumeration.
pub data Action : Type 0 where
  skip_char skip_newline val_null val_true val_false val_neg val0 val_digit val_quote : Action
  open_array open_object close_array close_object after_comma key_quote colon_colon : Action
  num_spc num_newline num_dot num_comma num_frac frac_e exp_sign exp_digit str_quote : Action
  neg_digit str_slash esc_ok big_digit big_dot u_ok token_ok num_close_object : Action
  num_close_array big_frac big_e big_exp_sign big_exp utf1 num_digit num_zero utf2 utf3 : Action
  str_ok utfx esc_u char_err done no_action : Action

-- A code that no case of the switch names is its `default`.
unfoldable pub decode : ℕ → Action
decode c =
    if c == b'a'
    then skip_char
    else if c == b'b'
    then skip_newline
    else if c == b'c'
    then val_null
    else if c == b'd'
    then val_true
    else if c == b'e'
    then val_false
    else if c == b'f'
    then val_neg
    else if c == b'g'
    then val0
    else if c == b'h'
    then val_digit
    else if c == b'i'
    then val_quote
    else if c == b'k'
    then open_array
    else if c == b'l'
    then open_object
    else if c == b'm'
    then close_array
    else if c == b'n'
    then close_object
    else if c == b'o'
    then after_comma
    else if c == b'p'
    then key_quote
    else if c == b'q'
    then colon_colon
    else if c == b'r'
    then num_spc
    else if c == b's'
    then num_newline
    else if c == b't'
    then num_dot
    else if c == b'u'
    then num_comma
    else if c == b'v'
    then num_frac
    else if c == b'w'
    then frac_e
    else if c == b'x'
    then exp_sign
    else if c == b'y'
    then exp_digit
    else if c == b'z'
    then str_quote
    else if c == b'-'
    then neg_digit
    else if c == b'A'
    then str_slash
    else if c == b'B'
    then esc_ok
    else if c == b'C'
    then big_digit
    else if c == b'D'
    then big_dot
    else if c == b'E'
    then u_ok
    else if c == b'F'
    then token_ok
    else if c == b'G'
    then num_close_object
    else if c == b'H'
    then num_close_array
    else if c == b'I'
    then big_frac
    else if c == b'J'
    then big_e
    else if c == b'K'
    then big_exp_sign
    else if c == b'L'
    then big_exp
    else if c == b'M'
    then utf1
    else if c == b'N'
    then num_digit
    else if c == b'O'
    then num_zero
    else if c == b'P'
    then utf2
    else if c == b'Q'
    then utf3
    else if c == b'R'
    then str_ok
    else if c == b'S'
    then utfx
    else if c == b'U'
    then esc_u
    else if c == b'.'
    then char_err
    else if c == b'X'
    then done
    else no_action

-- What `p->map` and `p->next_map` point at; `space_map` is only read directly.
pub data Map : Type 0 where
  at_value at_null at_true at_false at_comma at_after at_key1 at_key at_colon at_neg : Map
  at_zero at_digit at_dot at_frac at_exp_sign at_exp_zero at_exp at_big_digit at_big_dot : Map
  at_big_frac at_big_exp_sign at_big_exp_zero at_big_exp at_string at_esc at_u at_utf : Map
  at_trail : Map

unfoldable pub table : Map → Bytes
unfolding value_map null_map true_map false_map comma_map after_map key1_map key_map colon_map
    neg_map zero_map digit_map dot_map frac_map exp_sign_map exp_zero_map exp_map big_digit_map
    big_dot_map big_frac_map big_exp_sign_map big_exp_zero_map big_exp_map string_map esc_map u_map
    utf_map trail_map
table at_value = value_map
table at_null = null_map
table at_true = true_map
table at_false = false_map
table at_comma = comma_map
table at_after = after_map
table at_key1 = key1_map
table at_key = key_map
table at_colon = colon_map
table at_neg = neg_map
table at_zero = zero_map
table at_digit = digit_map
table at_dot = dot_map
table at_frac = frac_map
table at_exp_sign = exp_sign_map
table at_exp_zero = exp_zero_map
table at_exp = exp_map
table at_big_digit = big_digit_map
table at_big_dot = big_dot_map
table at_big_frac = big_frac_map
table at_big_exp_sign = big_exp_sign_map
table at_big_exp_zero = big_exp_zero_map
table at_big_exp = big_exp_map
table at_string = string_map
table at_esc = esc_map
table at_u = u_map
table at_utf = utf_map
table at_trail = trail_map

-- `m[b]` for a byte `b`.
unfoldable pub code_at : Map → ℕ → ℕ
unfolding table
code_at m b = get_or (table m) b b'.'

unfoldable pub space_code : ℕ → ℕ
unfolding space_map
space_code b = get_or space_map b b'.'

-- `m[256]`, the letter of the mode.
unfoldable pub mode_of : Map → ℕ
unfolding table
mode_of m = get_or (table m) 256 b'.'

unfoldable pub action : Map → ℕ → Action
unfolding code_at decode
action m b = decode (code_at m b)

abbrev dots : ℕ → Bytes
dots n = replicate n b'.'

-- The bytes that the escapes of a string stand for.
unfoldable pub esc_byte_map : Bytes
esc_byte_map =
    dots 34
    ++ ((34 ∷ [])
        ++ (dots 12
            ++ ((47 ∷ [])
                ++ (dots 44
                    ++ ((92 ∷ [])
                        ++ (dots 5
                            ++ ((8 ∷ [])
                                ++ (dots 3
                                    ++ ((12 ∷ [])
                                        ++ (dots 7
                                            ++ ((10 ∷ [])
                                                ++ (dots 3
                                                    ++ ((13 ∷ [])
                                                        ++ (dots 1
                                                            ++ ((9 ∷ [])
                                                            ++ (dots 138
                                                            ++ (b'b' ∷ [])))))))))))))))))

-- The values of the hexadecimal digits.
unfoldable pub hex_map : Bytes
hex_map =
    dots 48
    ++ ((0 ∷ 1 ∷ 2 ∷ 3 ∷ 4 ∷ 5 ∷ 6 ∷ 7 ∷ 8 ∷ 9 ∷ [])
        ++ (dots 7
            ++ ((10 ∷ 11 ∷ 12 ∷ 13 ∷ 14 ∷ 15 ∷ [])
                ++ (dots 26 ++ ((10 ∷ 11 ∷ 12 ∷ 13 ∷ 14 ∷ 15 ∷ []) ++ dots 153)))))

unfoldable pub esc_byte : ℕ → ℕ
unfolding esc_byte_map
esc_byte b = get_or esc_byte_map b 0

unfoldable pub hex : ℕ → ℕ
unfolding hex_map
hex b = get_or hex_map b 0
