-- ===== src/Parser/Progress.antt =====
-- The loop of ext/oj_windows/parser.c's `parse` ends: every pass leaves less to do.
pub mod Post
pub mod Scans
pub mod Cases
use oj_windows.Base.{
  ◌⊎◌, ℕ, zero, suc, ◌+◌, ◌*◌, ◌≤◌, ◌<◌, ◌≡◌, ◌≢◌, refl, inl, inr, Bool, true, false, not, ◌&&◌,
  some, none, [], ◌∷◌, Bytes, arith, length, ◌==◌, Bool-cases, if◌then◌else◌,
}
use oj_windows.Base.Int.{negsuc}
use oj_windows.Parser.Tables
use oj_windows.Parser.Tables.{
  Action, Map, at_value, at_trail, at_digit, action, code_at, mode_of, at_null, at_true, at_false,
  at_comma, at_after, at_key1, at_key, at_colon, at_neg, at_zero, at_dot, at_frac, at_exp_sign,
  at_exp_zero, at_exp, at_big_digit, at_big_dot, at_big_frac, at_big_exp_sign, at_big_exp_zero,
  at_big_exp, at_string, at_esc, at_u, at_utf,
}
use oj_windows.Parser.Tables.Facts.{IsByte, IsBytes, is_big, is_neg, expects, expects-action}
use oj_windows.Parser.State.{
  Parser, parser_reset, Exception, Result, ok, raised, fault, ◌>>=◌, Delegate,
}
use oj_windows.Parser.Num.{int_digits, frac_digits, exp_digits}
use oj_windows.Parser.Step.Loop.{Machine, machine}
use oj_windows.Parser.Step.{dispatch, step, trail, byte_error}
use oj_windows.Parser.Step.Digits.{
  val0, val_neg, num_dot, frac_e, exp_sign, big_dot, big_e, big_exp_sign, num_zero, val_digit,
  num_digit, neg_digit, num_frac, exp_digit,
}
use oj_windows.Parser.Run.{c_string, parser_parse, run, parse, Run, and_then, after, finish, enough}
use Post.{Ensures, returns, raises, faults, of_ok, bind_any, bind-Ensures, either}
use Scans.{
  Left, weight, work, weight-le, work-Left, Left-int_digits, Left-frac_digits, Left-exp_digits,
  work-int_digits, work-frac_digits, work-exp_digits,
}
use Cases

-- Less than `w` is left to do.
pub record Falls {C : Type 0} (w : ℕ) (m : Machine C) : Type 0 where
  pub less : work m.parser m.rest < w
  pub bytes : IsBytes m.rest

-- A case that passes its byte leaves less.
passes :
    {C : Type 0} {bs : Bytes} {r : Result (Machine C)} (v : ℕ)
    → Ensures (λ m. Left bs m.rest) r
    → Ensures (Falls (3 * suc (length bs) + v)) r
passes v (returns {a} h) =
    returns (record { less = omega (arith, work-Left a.parser h); bytes = h.bytes })
passes v raises = raises
passes v faults = faults

-- The digit loops leave less, too: they pass the digit, or turn to a table of big numbers.
module _ {C : Type 0} (p : Parser) (c : C) (i b : ℕ) (bs : Bytes) (h : IsBytes (b ∷ bs)) where
  Falls-num_digit :
      (code_at at_digit b == b'N') ≡ true
      → 1 ≤ weight p.map
      → Ensures (Falls (work p (b ∷ bs))) (num_digit p c i b bs)
  unfolding num_digit
  Falls-num_digit e n = returns (record {
    less = omega (arith, work-int_digits _ i b bs h.1 e);
    bytes = (Left-int_digits _ i (b ∷ bs) h).bytes;
  })

  Falls-num_frac :
      (code_at at_frac b == b'v') ≡ true
      → 1 ≤ weight p.map
      → Ensures (Falls (work p (b ∷ bs))) (num_frac p c i b bs)
  unfolding num_frac
  Falls-num_frac e n = returns (record {
    less = omega (arith, work-frac_digits _ i b bs h.1 e);
    bytes = (Left-frac_digits _ i (b ∷ bs) h).bytes;
  })

  Falls-exp_digit :
      (code_at at_digit b == b'N') ≡ true
      → 1 ≤ weight p.map
      → Ensures (Falls (work p (b ∷ bs))) (exp_digit p c i b bs)
  unfolding exp_digit
  Falls-exp_digit e n = returns (record {
    less = omega (arith, work-exp_digits _ i b bs h.1 e);
    bytes = (Left-exp_digits _ i (b ∷ bs) h).bytes;
  })

  Falls-val_digit :
      (code_at at_digit b == b'N') ≡ true
      → 1 ≤ weight p.map
      → Ensures (Falls (work p (b ∷ bs))) (val_digit p c i b bs)
  unfolding val_digit
  Falls-val_digit e n = returns (record {
    less = omega (arith, work-int_digits _ i b bs h.1 e);
    bytes = (Left-int_digits _ i (b ∷ bs) h).bytes;
  })

  Falls-neg_digit : weight p.map ≡ 2 → Ensures (Falls (work p (b ∷ bs))) (neg_digit p c i b bs)
  unfolding neg_digit
  Falls-neg_digit n = returns (record {
    less = omega (arith, (Left-int_digits p i (b ∷ bs) h).shorter);
    bytes = (Left-int_digits p i (b ∷ bs) h).bytes;
  })

not-is_big : (m : Map) → not (is_big m) ≡ true → 1 ≤ weight m
not-is_big at_neg e = omega arith
not-is_big at_big_digit e = cc
not-is_big at_big_dot e = cc
not-is_big at_big_frac e = cc
not-is_big at_big_exp_sign e = cc
not-is_big at_big_exp_zero e = cc
not-is_big at_big_exp e = cc
not-is_big _ e = omega arith

is_neg-weight : (m : Map) → is_neg m ≡ true → weight m ≡ 2
is_neg-weight at_neg e = refl
is_neg-weight _ e = cc

both : (a b : Bool) → (a && b) ≡ true → (a ≡ true) × (b ≡ true)
both true b e = (refl, e)
both false b e = cc

Falls-byte_error :
    {C : Type 0} {w : ℕ} (p : Parser) (b : ℕ) → Ensures (Falls {C = C} w) (byte_error p b)
unfolding byte_error
Falls-byte_error p b = search (either, raises) depth 8

module _ {C : Type 0} (d : Delegate C) where
  Falls-dispatch :
      (a : Action) (p : Parser) (c : C) (i b : ℕ) (bs : Bytes)
      → expects a p.map b ≡ true
      → IsBytes (b ∷ bs)
      → Ensures (Falls (work p (b ∷ bs))) (dispatch d a p c i b bs)
  unfolding dispatch val0 val_neg num_dot frac_e exp_sign big_dot big_e big_exp_sign num_zero
  Falls-dispatch Action.skip_newline p c i b bs e h =
      passes (weight p.map) (Cases.Passes-skip_newline d p c i bs h.1)
  Falls-dispatch Action.colon_colon p c i b bs e h =
      passes (weight p.map) (Cases.Passes-colon_colon d p c i bs h.1)
  Falls-dispatch Action.key_quote p c i b bs e h =
      passes (weight p.map) (Cases.Passes-key_quote d p c i bs h.1)
  Falls-dispatch Action.after_comma p c i b bs e h =
      passes (weight p.map) (Cases.Passes-after_comma d p c i bs h.1)
  Falls-dispatch Action.val_quote p c i b bs e h =
      passes (weight p.map) (Cases.Passes-val_quote d p c i bs h.1)
  Falls-dispatch Action.open_object p c i b bs e h =
      passes (weight p.map) (Cases.Passes-open_object d p c i bs h.1)
  Falls-dispatch Action.num_close_object p c i b bs e h =
      passes (weight p.map) (Cases.Passes-num_close_object d p c i b bs h.1)
  Falls-dispatch Action.close_object p c i b bs e h =
      passes (weight p.map) (Cases.Passes-close_object d p c i bs h.1)
  Falls-dispatch Action.open_array p c i b bs e h =
      passes (weight p.map) (Cases.Passes-open_array d p c i bs h.1)
  Falls-dispatch Action.num_close_array p c i b bs e h =
      passes (weight p.map) (Cases.Passes-num_close_array d p c i b bs h.1)
  Falls-dispatch Action.close_array p c i b bs e h =
      passes (weight p.map) (Cases.Passes-close_array d p c i bs h.1)
  Falls-dispatch Action.num_comma p c i b bs e h =
      passes (weight p.map) (Cases.Passes-num_comma d p c i bs h.1)
  Falls-dispatch Action.num_spc p c i b bs e h =
      passes (weight p.map) (Cases.Passes-num_spc d p c i bs h.1)
  Falls-dispatch Action.num_newline p c i b bs e h =
      passes (weight p.map) (Cases.Passes-num_newline d p c i bs h.1)
  Falls-dispatch Action.str_slash p c i b bs e h =
      passes (weight p.map) (Cases.Passes-str_slash d p c i bs h.1)
  Falls-dispatch Action.str_quote p c i b bs e h =
      passes (weight p.map) (Cases.Passes-str_quote d p c i bs h.1)
  Falls-dispatch Action.esc_u p c i b bs e h =
      passes (weight p.map) (Cases.Passes-esc_u d p c i bs h.1)
  Falls-dispatch Action.skip_char p c i b bs e h =
      passes (weight p.map) (returns (Cases.Left-refl bs h.1))
  Falls-dispatch Action.val0 p c i b bs e h =
      passes (weight p.map) (returns (Cases.Left-refl bs h.1))
  Falls-dispatch Action.val_neg p c i b bs e h =
      passes (weight p.map) (returns (Cases.Left-refl bs h.1))
  Falls-dispatch Action.num_dot p c i b bs e h =
      passes (weight p.map) (returns (Cases.Left-refl bs h.1))
  Falls-dispatch Action.frac_e p c i b bs e h =
      passes (weight p.map) (returns (Cases.Left-refl bs h.1))
  Falls-dispatch Action.num_zero p c i b bs e h =
      passes (weight p.map) (returns (Cases.Left-refl bs h.1))
  Falls-dispatch Action.exp_sign p c i b bs e h =
      passes (weight p.map) (returns (Cases.Left-refl bs h.1))
  Falls-dispatch Action.big_dot p c i b bs e h =
      passes (weight p.map) (returns (Cases.Left-refl bs h.1))
  Falls-dispatch Action.big_e p c i b bs e h =
      passes (weight p.map) (returns (Cases.Left-refl bs h.1))
  Falls-dispatch Action.big_exp_sign p c i b bs e h =
      passes (weight p.map) (returns (Cases.Left-refl bs h.1))
  Falls-dispatch Action.done p c i b bs e h =
      passes (weight p.map) (returns (Cases.Left-refl bs h.1))
  Falls-dispatch Action.no_action p c i b bs e h =
      passes (weight p.map) (returns (Cases.Left-refl bs h.1))
  Falls-dispatch Action.u_ok p c i b bs e h =
      passes (weight p.map) (Cases.Passes-u_ok d p c i b bs h.1)
  Falls-dispatch Action.esc_ok p c i b bs e h =
      passes (weight p.map) (Cases.Passes-esc_ok d p c i b bs h.1)
  Falls-dispatch Action.utfx p c i b bs e h =
      passes (weight p.map) (Cases.Passes-utfx d p c i b bs h.1)
  Falls-dispatch Action.val_null p c i b bs e h =
      passes (weight p.map) (Cases.Passes-val_null d p c i b bs h.1)
  Falls-dispatch Action.val_true p c i b bs e h =
      passes (weight p.map) (Cases.Passes-val_true d p c i b bs h.1)
  Falls-dispatch Action.val_false p c i b bs e h =
      passes (weight p.map) (Cases.Passes-val_false d p c i b bs h.1)
  Falls-dispatch Action.token_ok p c i b bs e h =
      passes (weight p.map) (Cases.Passes-token_ok d p c i b bs h.1)
  Falls-dispatch Action.utf1 p c i b bs e h =
      passes (weight p.map) (Cases.Passes-utf_lead d p c i b bs h.1 1)
  Falls-dispatch Action.utf2 p c i b bs e h =
      passes (weight p.map) (Cases.Passes-utf_lead d p c i b bs h.1 2)
  Falls-dispatch Action.utf3 p c i b bs e h =
      passes (weight p.map) (Cases.Passes-utf_lead d p c i b bs h.1 3)
  Falls-dispatch Action.str_ok p c i b bs e h =
      passes (weight p.map) (Cases.Passes-str_ok d p c i b bs h.1 e)
  Falls-dispatch Action.big_digit p c i b bs e h =
      passes (weight p.map) (Cases.Passes-big_digit d p c i b bs h.1 e)
  Falls-dispatch Action.big_exp p c i b bs e h =
      passes (weight p.map) (Cases.Passes-big_exp d p c i b bs h.1 e)
  Falls-dispatch Action.big_frac p c i b bs e h =
      passes (weight p.map) (Cases.Passes-big_frac d p c i b bs h.1 e)
  Falls-dispatch Action.val_digit p c i b bs e h =
      let (f, n) = both _ _ e in Falls-val_digit p c i b bs h f (not-is_big p.map n)
  Falls-dispatch Action.num_digit p c i b bs e h =
      let (f, n) = both _ _ e in Falls-num_digit p c i b bs h f (not-is_big p.map n)
  Falls-dispatch Action.num_frac p c i b bs e h =
      let (f, n) = both _ _ e in Falls-num_frac p c i b bs h f (not-is_big p.map n)
  Falls-dispatch Action.exp_digit p c i b bs e h =
      let (f, n) = both _ _ e in Falls-exp_digit p c i b bs h f (not-is_big p.map n)
  Falls-dispatch Action.neg_digit p c i b bs e h =
      Falls-neg_digit p c i b bs h (is_neg-weight p.map e)
  Falls-dispatch Action.char_err p c i b bs e h = Falls-byte_error p b

weight-trail : (m : Map) → (mode_of m == b'v') ≡ true → weight m ≡ 1
unfolding mode_of
weight-trail at_value e = refl
weight-trail at_null e = cc
weight-trail at_true e = cc
weight-trail at_false e = cc
weight-trail at_comma e = cc
weight-trail at_after e = cc
weight-trail at_key1 e = cc
weight-trail at_key e = cc
weight-trail at_colon e = cc
weight-trail at_neg e = cc
weight-trail at_zero e = cc
weight-trail at_digit e = cc
weight-trail at_dot e = cc
weight-trail at_frac e = cc
weight-trail at_exp_sign e = cc
weight-trail at_exp_zero e = cc
weight-trail at_exp e = cc
weight-trail at_big_digit e = cc
weight-trail at_big_dot e = cc
weight-trail at_big_frac e = cc
weight-trail at_big_exp_sign e = cc
weight-trail at_big_exp_zero e = cc
weight-trail at_big_exp e = cc
weight-trail at_string e = cc
weight-trail at_esc e = cc
weight-trail at_u e = cc
weight-trail at_utf e = cc
weight-trail at_trail e = cc

Result-cases :
    {A : Type 0} (r : Result A)
    → ((a : A) × (r ≡ ok a)) ⊎ (((x : Exception) × (r ≡ raised x)) ⊎ (r ≡ fault))
Result-cases (ok a) = inl (a, refl)
Result-cases (raised x) = inr (inl (x, refl))
Result-cases fault = inr (inr refl)

module _ {A B : Type 0} where
  and_then-ne-none :
      {P : A → Type 0} {k : A → Run B} (r : Result A)
      → Ensures P r
      → ((a : A) → P a → k a ≢ none)
      → and_then r k ≢ none
  and_then-ne-none (ok a) e f = f a (of_ok e)
  and_then-ne-none (raised x) e f = λ q. cc
  and_then-ne-none fault e f = λ q. cc

  after-ne-none : (k : A → Result B) (r : Run A) → r ≢ none → after r k ≢ none
  after-ne-none k none h = absurd (h refl)
  after-ne-none k (some r) h = λ q. cc

module _ {C : Type 0} (d : Delegate C) where
  Falls-trail : {w : ℕ} (m : Machine C) → Falls w m → Falls w (trail m)
  Falls-trail m f = elim (Bool-cases (stops m.parser)) [
    | inl e ↦ rw e (record {
      less = omega (arith, f.less, weight-trail m.parser.map (both _ _ (both _ _ e).1).0);
      bytes = f.bytes;
    })
    | inr e ↦ rw e f
  ]
    where
      stops : Parser → Bool
      stops p = (p.depth == 0) && ((mode_of p.map == b'v') && p.just_one)

  -- One pass of the loop leaves less to do.
  pub Falls-step :
      (p : Parser) (c : C) (i b : ℕ) (bs : Bytes)
      → IsBytes (b ∷ bs)
      → Ensures (Falls (work p (b ∷ bs))) (step d p c i b bs)
  unfolding step
  Falls-step p c i b bs h =
      bind-Ensures (Falls-dispatch d (action p.map b) p c i b bs (expects-action p.map b h.0) h)
        (λ m f. returns (Falls-trail m f))

  -- Enough fuel for the work left gives an outcome.
  pub run-ne-none :
      (fuel : ℕ) (p : Parser) (c : C) (i : ℕ) (bs : Bytes)
      → IsBytes bs
      → work p bs < fuel
      → run d fuel p c i bs ≢ none
  unfolding run
  run-ne-none zero p c i bs h w = elim w [ ]
  run-ne-none (suc fuel) p c i [] h w = λ e. cc
  run-ne-none (suc fuel) p c i (b ∷ bs) h w =
      and_then-ne-none (step d p c i b bs) (Falls-step p c i b bs h)
        (λ m f. run-ne-none fuel m.parser m.ctx m.at m.rest f.bytes (omega (arith, f.less)))

  pub run-enough-ne-none :
      (p : Parser) (c : C) (json : Bytes) → IsBytes json → run d (enough json) p c 0 json ≢ none
  run-enough-ne-none p c json h =
      run-ne-none (enough json) p c 0 json h (omega (arith, weight-le p.map))

  -- The loop of `parse` ends within its fuel, whatever the delegate does.
  pub parse-ne-none : (p : Parser) (c : C) (json : Bytes) → IsBytes json → parse d p c json ≢ none
  unfolding parse
  parse-ne-none p c json h =
      after-ne-none (finish d) _
        (run-enough-ne-none (record p { line = 1; col = negsuc 0 }) c json h)

  c_string-IsBytes : (bs : Bytes) → IsBytes bs → IsBytes (c_string bs)
  unfolding c_string
  c_string-IsBytes [] h = tt
  c_string-IsBytes (b ∷ bs) h = elim (Bool-cases (b == 0)) [
    | inl e ↦ rw e tt
    | inr e ↦ rw e (h.0, c_string-IsBytes bs h.1)
  ]

  -- Whatever the bytes of the document, the state the parser is in and what the delegate does: the
  -- fuel of three passes for each byte and three more is enough, so that `parser_parse` comes to an
  -- outcome.
  pub parser_parse-ne-none :
      (p : Parser) (c : C) (json : Bytes) → IsBytes json → parser_parse d p c json ≢ none
  unfolding parser_parse
  parser_parse-ne-none p c json h = elim (Result-cases (d.start (parser_reset p) c)) [
    | inl (c', e) ↦ rw e (
        after-ne-none _ _
          (parse-ne-none (parser_reset p) c' (c_string json) (c_string-IsBytes json h)))
    | inr (inl (x, e)) ↦ rw e (λ q. cc)
    | inr (inr e) ↦ rw e (λ q. cc)
  ]
