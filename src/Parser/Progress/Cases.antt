-- ===== src/Parser/Progress/Cases.antt =====
-- Each case of ext/oj_windows/parser.c's `parse`, but those that begin a digit loop, passes a byte.
use oj_windows.Base.{ℕ, ◌≡◌, true, [], ◌∷◌, Bytes, arith, length, codes, ◌==◌}
use oj_windows.Parser.Tables.{
  Map, at_null, at_true, at_false, at_string, at_digit, at_frac, code_at,
}
use oj_windows.Parser.Tables.Facts.{IsBytes}
use oj_windows.Parser.State.{
  Parser, Message, expected_null, expected_true, expected_false, Call, add_null, add_true,
  add_false, ok, Delegate,
}
use oj_windows.Parser.Step.Loop.{Machine, machine, unscanned, drop_bytes}
use oj_windows.Parser.Step.Nest.{
  skip_newline, after_comma, num_comma, open_object_step, open_array_step, close_object_step,
  close_array_step, num_close_object, num_close_array, num_spc, num_newline,
}
use oj_windows.Parser.Step.Digits.{big_digit, big_frac, big_exp}
use oj_windows.Parser.Step.Text.{
  colon_colon, key_quote, val_quote, str_quote, str_ok, str_slash, esc_ok, esc_u, u_ok, u_done,
  utf_lead, utfx,
}
use oj_windows.Parser.Step.Word.{
  val_word, val_null, val_true, val_false, token_end, token_mode, token_ok,
}
use oj_windows.Parser.Progress.Post.{Ensures, returns, raises, faults, bind_any, either}
use oj_windows.Parser.Progress.Scans.{Left, Left-unscanned, Left-skip_space, Left-drop, Left-trans}

-- What is left is a part of the bytes behind the current one.
abbrev pub Passes : {C : Type 0} → Bytes → Machine C → Type 0
Passes bs m = Left bs m.rest

pub Left-refl : (bs : Bytes) → IsBytes bs → Left bs bs
Left-refl bs h = record { shorter = omega arith; bytes = h }

module _ {C : Type 0} (d : Delegate C) (p : Parser) (c : C) (i : ℕ) (bs : Bytes)
    (h : IsBytes bs) where
  pass : {q : Parser} {e : C} {j : ℕ} → Ensures (Passes bs) (ok (machine q e j bs))
  pass = returns (Left-refl bs h)

  pub Passes-skip_newline : Ensures (Passes bs) (skip_newline d p c i bs)
  unfolding skip_newline
  Passes-skip_newline = returns (Left-skip_space bs h)

  pub Passes-after_comma : Ensures (Passes bs) (after_comma d p c i bs)
  unfolding after_comma
  Passes-after_comma = search (raises, bind_any, either, pass)

  pub Passes-num_comma : Ensures (Passes bs) (num_comma d p c i bs)
  unfolding num_comma
  Passes-num_comma = search (raises, bind_any, either, pass)

  pub Passes-open_object : Ensures (Passes bs) (open_object_step d p c i bs)
  unfolding open_object_step
  Passes-open_object = search (raises, bind_any, either, pass)

  pub Passes-open_array : Ensures (Passes bs) (open_array_step d p c i bs)
  unfolding open_array_step
  Passes-open_array = search (raises, bind_any, either, pass)

  pub Passes-close_object : Ensures (Passes bs) (close_object_step d p c i bs)
  unfolding close_object_step
  Passes-close_object = search (raises, bind_any, either, pass)

  pub Passes-close_array : Ensures (Passes bs) (close_array_step d p c i bs)
  unfolding close_array_step
  Passes-close_array = search (raises, bind_any, either, pass)

  pub Passes-num_spc : Ensures (Passes bs) (num_spc d p c i bs)
  unfolding num_spc
  Passes-num_spc = search (raises, bind_any, either, pass)

  pub Passes-colon_colon : Ensures (Passes bs) (colon_colon d p c i bs)
  unfolding colon_colon
  Passes-colon_colon = search (raises, bind_any, either, pass)

  pub Passes-str_quote : Ensures (Passes bs) (str_quote d p c i bs)
  unfolding str_quote
  Passes-str_quote = search (raises, bind_any, either, pass)

  pub Passes-str_slash : Ensures (Passes bs) (str_slash d p c i bs)
  unfolding str_slash
  Passes-str_slash = search (raises, bind_any, either, pass)

  pub Passes-esc_u : Ensures (Passes bs) (esc_u d p c i bs)
  unfolding esc_u
  Passes-esc_u = search (raises, bind_any, either, pass)

  pub Passes-num_newline : Ensures (Passes bs) (num_newline d p c i bs)
  unfolding num_newline
  Passes-num_newline = bind_any _ λ a. returns (Left-skip_space bs h)

  scan : (m : Map) (a : ℕ) → Left bs (unscanned m a bs)
  scan m a = Left-unscanned m a bs h

  close : (m : Map) (a : ℕ) → Left bs (drop_bytes 1 (unscanned m a bs))
  close m a = Left-trans (scan m a) (Left-drop 1 (unscanned m a bs) (scan m a).bytes)

  pub Passes-key_quote : Ensures (Passes bs) (key_quote d p c i bs)
  unfolding key_quote
  Passes-key_quote = either _ (returns (close at_string b'R')) (returns (scan at_string b'R'))

  pub Passes-val_quote : Ensures (Passes bs) (val_quote d p c i bs)
  unfolding val_quote
  Passes-val_quote =
      either _ (bind_any _ λ a. returns (close at_string b'R')) (returns (scan at_string b'R'))

  pub Passes-u_done : (utf8 : Bytes) → Ensures (Passes bs) (u_done d p c i bs utf8)
  unfolding u_done
  Passes-u_done [] = raises
  Passes-u_done (u ∷ us) = search (bind_any, pass)

  pub Passes-token_end :
      (word : Bytes) (f : Call) (e : Message) → Ensures (Passes bs) (token_end d word f e p c i bs)
  unfolding token_end
  Passes-token_end word f e = search (raises, bind_any, either, pass)

  dropped : (n : ℕ) → Left bs (drop_bytes n bs)
  dropped n = Left-drop n bs h

  pub Passes-val_word :
      (more : Bytes) (f : Call) (m : Map) (e : Message) (b : ℕ)
      → Ensures (Passes bs) (val_word d more f m e p c i b bs)
  unfolding val_word
  Passes-val_word more f m e b =
      either _ (bind_any _ λ a. returns (dropped (length more)))
        (either _ (returns (record { shorter = omega arith; bytes = tt })) raises)

module _ {C : Type 0} (d : Delegate C) (p : Parser) (c : C) (i : ℕ) (b : ℕ) (bs : Bytes)
    (h : IsBytes bs) where
  passed : {q : Parser} {e : C} {j : ℕ} → Ensures (Passes bs) (ok (machine q e j bs))
  passed = returns (Left-refl bs h)

  pub Passes-num_close_object : Ensures (Passes bs) (num_close_object d p c i bs)
  unfolding num_close_object
  Passes-num_close_object = bind_any _ λ a. Passes-close_object d a.0 a.1 i bs h

  pub Passes-num_close_array : Ensures (Passes bs) (num_close_array d p c i bs)
  unfolding num_close_array
  Passes-num_close_array = bind_any _ λ a. Passes-close_array d a.0 a.1 i bs h

  pub Passes-esc_ok : Ensures (Passes bs) (esc_ok d p c i b bs)
  unfolding esc_ok
  Passes-esc_ok = search (raises, bind_any, either, passed)

  pub Passes-u_ok : Ensures (Passes bs) (u_ok d p c i b bs)
  unfolding u_ok
  Passes-u_ok = search (either, Passes-u_done d, passed, h)

  pub Passes-utf_lead : (n : ℕ) → Ensures (Passes bs) (utf_lead d n p c i b bs)
  unfolding utf_lead
  Passes-utf_lead n = search (raises, bind_any, either, passed)

  pub Passes-utfx : Ensures (Passes bs) (utfx d p c i b bs)
  unfolding utfx
  Passes-utfx = search (raises, bind_any, either, passed)

  token : (mode : ℕ) (q : Parser) → Ensures (Passes bs) (token_mode d mode q c i bs)
  unfolding token_mode
  token mode q = either _ (Passes-token_end d q c i bs h (codes "null") add_null expected_null) (
      either _ (Passes-token_end d q c i bs h (codes "false") add_false expected_false)
        (either _ (Passes-token_end d q c i bs h (codes "true") add_true expected_true) raises))

  pub Passes-token_ok : Ensures (Passes bs) (token_ok d p c i b bs)
  unfolding token_ok
  Passes-token_ok = search (either, faults, token)

  pub Passes-val_null : Ensures (Passes bs) (val_null d p c i b bs)
  unfolding val_null
  Passes-val_null = Passes-val_word d p c i bs h (codes "ull") add_null at_null expected_null b

  pub Passes-val_true : Ensures (Passes bs) (val_true d p c i b bs)
  unfolding val_true
  Passes-val_true = Passes-val_word d p c i bs h (codes "rue") add_true at_true expected_true b

  pub Passes-val_false : Ensures (Passes bs) (val_false d p c i b bs)
  unfolding val_false
  Passes-val_false = Passes-val_word d p c i bs h (codes "alse") add_false at_false expected_false b

  -- Loops over a class that the byte belongs to.
  past : (m : Map) (a : ℕ) → (code_at m b == a) ≡ true → Left bs (unscanned m a (b ∷ bs))
  unfolding unscanned
  past m a e = rw e (Left-unscanned m a bs h)

  pub Passes-str_ok :
      (code_at at_string b == b'R') ≡ true → Ensures (Passes bs) (str_ok d p c i b bs)
  unfolding str_ok
  Passes-str_ok e = search (bind_any, either, Passes-quote, unquoted)
    where
      left : Bytes
      left = unscanned at_string b'R' (b ∷ bs)

      closed : Left bs (drop_bytes 1 left)
      closed = Left-trans (past at_string b'R' e) (Left-drop 1 left (past at_string b'R' e).bytes)

      unquoted : {q : Parser} {e : C} {j : ℕ} → Ensures (Passes bs) (ok (machine q e j left))
      unquoted = returns (past at_string b'R' e)

      quoted :
          {q : Parser} {e : C} {j : ℕ}
          → Ensures (Passes bs) (ok (machine q e j (drop_bytes 1 left)))
      quoted = returns closed

      Passes-quote :
          (q : Parser) (j : ℕ) → Ensures (Passes bs) (str_quote d q c j (drop_bytes 1 left))
      Passes-quote q j = search (raises, bind_any, quoted)

  pub Passes-big_digit :
      (code_at at_digit b == b'N') ≡ true → Ensures (Passes bs) (big_digit p c i b bs)
  unfolding big_digit
  Passes-big_digit e = returns (past at_digit b'N' e)

  pub Passes-big_exp :
      (code_at at_digit b == b'N') ≡ true → Ensures (Passes bs) (big_exp p c i b bs)
  unfolding big_exp
  Passes-big_exp e = returns (past at_digit b'N' e)

  pub Passes-big_frac :
      (code_at at_frac b == b'v') ≡ true → Ensures (Passes bs) (big_frac p c i b bs)
  unfolding big_frac
  Passes-big_frac e = returns (past at_frac b'v' e)
