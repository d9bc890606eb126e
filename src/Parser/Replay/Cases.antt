-- ===== src/Parser/Replay/Cases.antt =====
-- Each case of ext/oj_windows/parser.c's `parse` makes the same calls to every delegate.
use Prim.Native.Nat.{bit_or}
use oj_windows.Base.{ℕ, ◌+◌, ◌-◌, ◌*◌, ◌%◌, ◌^◌, ◌≡◌, refl, [], ◌∷◌, ◌++◌, Bytes, codes, set, leb}
use oj_windows.Parser.Tables.{
  Map, at_string, at_utf, esc_byte, at_null, at_true, at_false, mode_of, hex, Action,
}
use oj_windows.Parser.State.{
  Fun, Parser, Message, expected_null, expected_true, expected_false, Call, add_null, add_true,
  add_false, Result, ok, fault, ◌>>=◌, ValueType, oj_none, oj_null, oj_true, oj_false, oj_int,
  oj_decimal, oj_big, oj_string, oj_object, oj_array, Delegate, invoke, push_fun, array_fun,
  object_fun,
}
use oj_windows.Parser.Unicode.{unicode_to_utf8}
use oj_windows.Parser.Num.{calc_num}
use oj_windows.Parser.Step.Loop.{Machine, machine, scanned, deref}
use oj_windows.Parser.Step.Nest.{
  skip_newline, after_comma, num_comma, open_object_step, open_array_step, close_object_step,
  close_array_step, num_close_object, num_close_array, num_spc, num_newline,
}
use oj_windows.Parser.Step.Text.{
  append_text, colon_colon, key_quote, val_quote, str_quote, str_ok, str_slash, esc_ok, esc_u, u_ok,
  u_done, utf_lead, utfx,
}
use oj_windows.Parser.Step.Word.{
  val_word, val_null, val_true, val_false, token_end, token_mode, token_ok,
}
use oj_windows.Parser.Step.Digits.{
  val0, val_neg, num_dot, frac_e, exp_sign, big_dot, big_e, big_exp_sign, num_zero, val_digit,
  num_digit, neg_digit, num_frac, exp_digit, big_digit, big_frac, big_exp,
}
use oj_windows.Parser.Step.{dispatch, byte_error}
use oj_windows.Parser.Trace.{Entry, entry, tracer}
use oj_windows.Parser.Replay.Rules.{
  Trace, Follows, Hands, now_ok, now_raised, now_fault, either, bind_pure, bind_call, bind_num,
  hand, hand_none,
}

module _ {C : Type 0} (react : Entry → C → Result C) (d : Delegate C)
    (agree : (fun : Fun) (f : Call) (p : Parser) (c : C)
      → d.call fun f p c ≡ react (entry fun f p) c) where
  call :
      {es : Trace} {c : C} {rt : Result (Machine Trace)} {kd : C → Result (Machine C)} (fun : Fun)
      (f : Call) (p : Parser)
      → ((e : C) → Follows react (es ++ entry fun f p ∷ []) e rt (kd e))
      → Follows react es c rt (d.call fun f p c >>= kd)
  call fun f p h = bind_call react (agree fun f p _) h

  pub Hands-calc_num :
      (es : Trace) (c : C) (p : Parser) (t : ValueType)
      → p.type ≡ t
      → Hands react es c (calc_num tracer p es) (calc_num d p c)
  unfolding calc_num invoke
  Hands-calc_num es c p oj_int e = rw e (hand react (agree _ _ _ _))
  Hands-calc_num es c p oj_decimal e = rw e (hand react (agree _ _ _ _))
  Hands-calc_num es c p oj_big e = rw e (hand react (agree _ _ _ _))
  Hands-calc_num es c p oj_none e = rw e (hand_none react)
  Hands-calc_num es c p oj_null e = rw e (hand_none react)
  Hands-calc_num es c p oj_true e = rw e (hand_none react)
  Hands-calc_num es c p oj_false e = rw e (hand_none react)
  Hands-calc_num es c p oj_string e = rw e (hand_none react)
  Hands-calc_num es c p oj_object e = rw e (hand_none react)
  Hands-calc_num es c p oj_array e = rw e (hand_none react)

  module _ (es : Trace) (c : C) (p : Parser) (i : ℕ) (bs : Bytes) where
    Follows-open_array :
        Follows react es c (open_array_step tracer p es i bs) (open_array_step d p c i bs)
    unfolding open_array_step
    Follows-open_array =
        call _ _ _
          (λ e. bind_pure react (push_fun array_fun (record p { cur = i })) (λ q. now_ok react))

    Follows-open_object :
        Follows react es c (open_object_step tracer p es i bs) (open_object_step d p c i bs)
    unfolding open_object_step
    Follows-open_object =
        call _ _ _
          (λ e. bind_pure react (push_fun object_fun (record p { cur = i })) (λ q. now_ok react))

    Follows-close_array :
        Follows react es c (close_array_step tracer p es i bs) (close_array_step d p c i bs)
    unfolding close_array_step
    Follows-close_array = search (now_ok, now_raised, now_fault, either, bind_pure, call)

    Follows-close_object :
        Follows react es c (close_object_step tracer p es i bs) (close_object_step d p c i bs)
    unfolding close_object_step
    Follows-close_object = search (now_ok, now_raised, now_fault, either, bind_pure, call)

    Follows-num_comma : Follows react es c (num_comma tracer p es i bs) (num_comma d p c i bs)
    unfolding num_comma
    Follows-num_comma =
        bind_num react _ _ _ _ (Hands-calc_num es c (record p { cur = i }) p.type refl)
          (λ q t e. now_ok react)

    Follows-num_spc : Follows react es c (num_spc tracer p es i bs) (num_spc d p c i bs)
    unfolding num_spc
    Follows-num_spc =
        bind_num react _ _ _ _ (Hands-calc_num es c (record p { cur = i }) p.type refl)
          (λ q t e. now_ok react)

    Follows-num_newline : Follows react es c (num_newline tracer p es i bs) (num_newline d p c i bs)
    unfolding num_newline
    Follows-num_newline =
        bind_num react _ _ _ _ (Hands-calc_num es c (record p { cur = i }) p.type refl)
          (λ q t e. now_ok react)

    Follows-key_quote : Follows react es c (key_quote tracer p es i bs) (key_quote d p c i bs)
    unfolding key_quote
    Follows-key_quote = search (now_ok, now_raised, now_fault, either, bind_pure, call)

    Follows-val_quote : Follows react es c (val_quote tracer p es i bs) (val_quote d p c i bs)
    unfolding val_quote
    Follows-val_quote = search (now_ok, now_raised, now_fault, either, bind_pure, call)

    Follows-str_quote : Follows react es c (str_quote tracer p es i bs) (str_quote d p c i bs)
    unfolding str_quote
    Follows-str_quote = call _ _ _ (λ e. bind_pure react (deref p.next_map) (λ m. now_ok react))

  module _ (es : Trace) (c : C) (p : Parser) (i : ℕ) (bs : Bytes) where
    Follows-num_close_array :
        Follows react es c (num_close_array tracer p es i bs) (num_close_array d p c i bs)
    unfolding num_close_array
    Follows-num_close_array =
        bind_num react _ _ _ _ (Hands-calc_num es c (record p { cur = i }) p.type refl)
          (λ q t e. Follows-close_array t e q i bs)

    Follows-num_close_object :
        Follows react es c (num_close_object tracer p es i bs) (num_close_object d p c i bs)
    unfolding num_close_object
    Follows-num_close_object =
        bind_num react _ _ _ _ (Hands-calc_num es c (record p { cur = i }) p.type refl)
          (λ q t e. Follows-close_object t e q i bs)

    Follows-token_end :
        (word : Bytes) (f : Call) (m : Message)
        → Follows react es c (token_end tracer word f m p es i bs) (token_end d word f m p c i bs)
    unfolding token_end
    Follows-token_end word f m = search (now_ok, now_raised, now_fault, either, bind_pure, call)

    Follows-u_done :
        (s : Bytes) → Follows react es c (u_done tracer p es i bs s) (u_done d p c i bs s)
    unfolding u_done
    Follows-u_done [] = now_raised react
    Follows-u_done (b ∷ s) = bind_pure react (append_text p (b ∷ s)) (λ q. now_ok react)

  module _ (es : Trace) (c : C) (p : Parser) (i b : ℕ) (bs : Bytes) where
    Follows-val_word :
        (more : Bytes) (f : Call) (m : Map) (e : Message)
        → Follows react es c
            (val_word tracer more f m e p es i b bs)
            (val_word d more f m e p c i b bs)
    unfolding val_word
    Follows-val_word more f m e = search (now_ok, now_raised, now_fault, either, bind_pure, call)

    Follows-token_mode :
        (mode : ℕ) (q : Parser)
        → Follows react es c (token_mode tracer mode q es i bs) (token_mode d mode q c i bs)
    unfolding token_mode
    Follows-token_mode mode q =
        either react _ (Follows-token_end es c q i bs (codes "null") add_null expected_null) (
          either react _ (Follows-token_end es c q i bs (codes "false") add_false expected_false) (
            either react _ (Follows-token_end es c q i bs (codes "true") add_true expected_true)
              (now_raised react)))

    Follows-token_ok : Follows react es c (token_ok tracer p es i b bs) (token_ok d p c i b bs)
    unfolding token_ok
    Follows-token_ok = either react {rd = fault} (leb 8 p.ri) (now_fault react) (
        Follows-token_mode (mode_of p.map) (record p { token = set p.token p.ri b; ri = p.ri + 1 }))

    Follows-str_ok : Follows react es c (str_ok tracer p es i b bs) (str_ok d p c i b bs)
    unfolding str_ok
    Follows-str_ok =
        bind_pure react (append_text p (scanned at_string b'R' (b ∷ bs)))
          (λ q. either react _ (Follows-str_quote es c q _ _) (now_ok react))

    Follows-esc_ok : Follows react es c (esc_ok tracer p es i b bs) (esc_ok d p c i b bs)
    unfolding esc_ok
    Follows-esc_ok = bind_pure react (append_text p (esc_byte b ∷ [])) (λ q. now_ok react)

    Follows-u_ok : Follows react es c (u_ok tracer p es i b bs) (u_ok d p c i b bs)
    unfolding u_ok
    Follows-u_ok =
        let q = record p { ri = p.ri + 1; ucode = bit_or (p.ucode * 2 ^ 4 % 2 ^ 32) (hex b) } in
        either react {st = ok (machine q es (i + 1) bs)} (leb 4 (p.ri + 1))
          (Follows-u_done es c q i bs (unicode_to_utf8 q.ucode)) (now_ok react)

    Follows-utfx : Follows react es c (utfx tracer p es i b bs) (utfx d p c i b bs)
    unfolding utfx
    Follows-utfx =
        bind_pure react (append_text (record p { ri = p.ri - 1 }) (b ∷ [])) (λ q. now_ok react)

    Follows-utf_lead :
        (n : ℕ) → Follows react es c (utf_lead tracer n p es i b bs) (utf_lead d n p c i b bs)
    unfolding utf_lead
    Follows-utf_lead n =
        bind_pure react (append_text (record p { ri = n; map = at_utf }) (b ∷ []))
          (λ q. now_ok react)

    Follows-byte_error : Follows react es c (byte_error p b) (byte_error p b)
    unfolding byte_error
    Follows-byte_error = search (now_raised, either) depth 8

  pub Follows-dispatch :
      (a : Action) (es : Trace) (c : C) (p : Parser) (i b : ℕ) (bs : Bytes)
      → Follows react es c (dispatch tracer a p es i b bs) (dispatch d a p c i b bs)
  unfolding dispatch skip_newline after_comma colon_colon str_slash esc_u val_null val_true
      val_false val0 val_neg num_dot frac_e exp_sign big_dot big_e big_exp_sign num_zero val_digit
      num_digit neg_digit num_frac exp_digit big_digit big_frac big_exp
  Follows-dispatch Action.key_quote es c p i b bs = Follows-key_quote es c p i bs
  Follows-dispatch Action.val_quote es c p i b bs = Follows-val_quote es c p i bs
  Follows-dispatch Action.open_object es c p i b bs = Follows-open_object es c p i bs
  Follows-dispatch Action.num_close_object es c p i b bs = Follows-num_close_object es c p i bs
  Follows-dispatch Action.close_object es c p i b bs = Follows-close_object es c p i bs
  Follows-dispatch Action.open_array es c p i b bs = Follows-open_array es c p i bs
  Follows-dispatch Action.num_close_array es c p i b bs = Follows-num_close_array es c p i bs
  Follows-dispatch Action.close_array es c p i b bs = Follows-close_array es c p i bs
  Follows-dispatch Action.num_comma es c p i b bs = Follows-num_comma es c p i bs
  Follows-dispatch Action.num_spc es c p i b bs = Follows-num_spc es c p i bs
  Follows-dispatch Action.num_newline es c p i b bs = Follows-num_newline es c p i bs
  Follows-dispatch Action.str_quote es c p i b bs = Follows-str_quote es c p i bs
  Follows-dispatch Action.str_ok es c p i b bs = Follows-str_ok es c p i b bs
  Follows-dispatch Action.u_ok es c p i b bs = Follows-u_ok es c p i b bs
  Follows-dispatch Action.esc_ok es c p i b bs = Follows-esc_ok es c p i b bs
  Follows-dispatch Action.utfx es c p i b bs = Follows-utfx es c p i b bs
  Follows-dispatch Action.token_ok es c p i b bs = Follows-token_ok es c p i b bs
  Follows-dispatch Action.utf1 es c p i b bs = Follows-utf_lead es c p i b bs 1
  Follows-dispatch Action.utf2 es c p i b bs = Follows-utf_lead es c p i b bs 2
  Follows-dispatch Action.utf3 es c p i b bs = Follows-utf_lead es c p i b bs 3
  Follows-dispatch Action.val_null es c p i b bs =
      Follows-val_word es c p i b bs (codes "ull") add_null at_null expected_null
  Follows-dispatch Action.val_true es c p i b bs =
      Follows-val_word es c p i b bs (codes "rue") add_true at_true expected_true
  Follows-dispatch Action.val_false es c p i b bs =
      Follows-val_word es c p i b bs (codes "alse") add_false at_false expected_false
  Follows-dispatch Action.char_err es c p i b bs = Follows-byte_error es c p i b bs
  Follows-dispatch Action.skip_newline es c p i b bs = now_ok react
  Follows-dispatch Action.skip_char es c p i b bs = now_ok react
  Follows-dispatch Action.colon_colon es c p i b bs = now_ok react
  Follows-dispatch Action.after_comma es c p i b bs = now_ok react
  Follows-dispatch Action.val0 es c p i b bs = now_ok react
  Follows-dispatch Action.val_neg es c p i b bs = now_ok react
  Follows-dispatch Action.val_digit es c p i b bs = now_ok react
  Follows-dispatch Action.num_digit es c p i b bs = now_ok react
  Follows-dispatch Action.num_dot es c p i b bs = now_ok react
  Follows-dispatch Action.num_frac es c p i b bs = now_ok react
  Follows-dispatch Action.frac_e es c p i b bs = now_ok react
  Follows-dispatch Action.num_zero es c p i b bs = now_ok react
  Follows-dispatch Action.neg_digit es c p i b bs = now_ok react
  Follows-dispatch Action.exp_sign es c p i b bs = now_ok react
  Follows-dispatch Action.exp_digit es c p i b bs = now_ok react
  Follows-dispatch Action.big_digit es c p i b bs = now_ok react
  Follows-dispatch Action.big_dot es c p i b bs = now_ok react
  Follows-dispatch Action.big_frac es c p i b bs = now_ok react
  Follows-dispatch Action.big_e es c p i b bs = now_ok react
  Follows-dispatch Action.big_exp_sign es c p i b bs = now_ok react
  Follows-dispatch Action.big_exp es c p i b bs = now_ok react
  Follows-dispatch Action.str_slash es c p i b bs = now_ok react
  Follows-dispatch Action.esc_u es c p i b bs = now_ok react
  Follows-dispatch Action.done es c p i b bs = now_ok react
  Follows-dispatch Action.no_action es c p i b bs = now_ok react
