-- ===== src/Parser/Doc/Texts.antt =====
-- ext/oj_windows/parser.c's `parse` at a string: a run of plain bytes, then escapes with runs behind.
use oj_windows.Base.{
  ℕ, zero, suc, ◌+◌, ◌<◌, ◌≡◌, ◌⊎◌, inl, inr, refl, sym, ap, ◌∙◌, Bool, true, false, some, passes,
  passes-each, ==_iff, if◌then◌else◌, List, [], ◌∷◌, ◌++◌, Bytes, ◌==◌, append_assoc, append-nil,
}
use oj_windows.Parser.Tables.{
  Map, at_value, at_key1, at_key, at_colon, at_string, code_at, mode_of, Action, action, decode,
  esc_byte, at_esc,
}
use oj_windows.Parser.State.{Fun, Parser, invoke}
use oj_windows.Parser.Step.{dispatch}
use oj_windows.Parser.Step.Loop.{Machine, machine, map_at, scanned, unscanned, moved}
use oj_windows.Parser.Step.Text.{
  colon_colon, key_quote, val_quote, str_quote, str_ok, str_slash, esc_ok,
}
use oj_windows.Parser.Trace.{str, place, tracer}
use oj_windows.Parser.Leads.{Leads, pass}
use oj_windows.Parser.Doc.{IsPlain, IsEscapes, print_escapes, escaped, unescape}
use oj_windows.Parser.Doc.Actions.{
  IsOpen, action-IsOpen, value_quote, comma_quote, string_quote, string_slash, key1_quote,
  key_quote as key_quote_action, colon_colon as colon_colon_action,
}
use oj_windows.Parser.Doc.Frame.{Kept, top, After, settled, settled_map}
use oj_windows.Parser.Doc.Behind.{Trace}
use oj_windows.Parser.Doc.Words.{map_at_zero}

-- A scan passes the plain bytes and stops at a quote or a backslash.
pub scanned-plain :
    (r t : Bytes) → IsPlain r → scanned at_string b'R' t ≡ [] → scanned at_string b'R' (r ++ t) ≡ r
unfolding scanned
scanned-plain [] t h e = e
scanned-plain (b ∷ r) t h e = rw (h.0.1, scanned-plain r t h.1 e)

pub unscanned-plain :
    (r t : Bytes)
    → IsPlain r
    → unscanned at_string b'R' t ≡ t
    → unscanned at_string b'R' (r ++ t) ≡ t
unfolding unscanned
unscanned-plain [] t h e = e
unscanned-plain (b ∷ r) t h e = rw (h.0.1, unscanned-plain r t h.1 e)

escapes-scanned :
    (es : List (ℕ × Bytes)) (rest : Bytes) → scanned at_string b'R' (print_escapes es ++ rest) ≡ []
unfolding scanned code_at
escapes-scanned [] rest = refl
escapes-scanned ((c, r) ∷ es) rest = refl

escapes-unscanned :
    (es : List (ℕ × Bytes)) (rest : Bytes)
    → unscanned at_string b'R' (print_escapes es ++ rest) ≡ print_escapes es ++ rest
unfolding unscanned code_at
escapes-unscanned [] rest = refl
escapes-unscanned ((c, r) ∷ es) rest = refl

pub not-key : (n : ℕ) → (mode_of (settled_map n) == b':') ≡ false
unfolding mode_of
not-key zero = refl
not-key (suc n) = refl

str_ok_action : decode b'R' ≡ Action.str_ok
unfolding decode
str_ok_action = refl

plain-action :
    (b : ℕ) → (b < 256) × (code_at at_string b ≡ b'R') → action at_string b ≡ Action.str_ok
unfolding action
plain-action b h = rw h.1 str_ok_action

abbrev is_escape : Action → Bool
is_escape Action.esc_ok = true
is_escape _ = false

abbrev escape_test : ℕ → Bool
escape_test b = if is_escape (action at_esc b) then esc_byte b == escaped b else true

escape_table : passes escape_test 256 ≡ true
unfolding passes action esc_byte
escape_table = refl

-- The table's byte is the one that JSON gives.
esc_byte-escaped : (b : ℕ) → b < 256 → action at_esc b ≡ Action.esc_ok → esc_byte b ≡ escaped b
esc_byte-escaped b h e = (==_iff (esc_byte b) (escaped b)).0 (
    ap (λ a. if is_escape a then esc_byte b == escaped b else true) (sym e)
    ∙ passes-each escape_test 256 b h escape_table)

module _ (n : ℕ) (f : ℕ → Fun) (c : Trace) (rest : Bytes) (Q : Machine Trace → Type 0) where
  -- The string is complete, and the quote has been read.
  abbrev Goes : Bytes → Bytes → Type 0
  Goes key s =
      (m : Machine Trace) → After n f (c ++ place (f n) key (str s) ∷ []) rest m → Leads tracer Q m

  -- In a string, in front of `bs`, with `s` still to be read.
  abbrev InText : Bytes → Bytes → Type 0
  InText s bs =
      (p : Parser) (i : ℕ)
      → Kept n f p
      → p.map ≡ at_string
      → p.next_map ≡ some (settled_map n)
      → Goes p.key (p.buf ++ s)
      → Leads tracer Q (machine p c i (bs ++ rest))

  closed :
      (p : Parser) (i j : ℕ)
      → Kept n f p
      → Goes p.key p.buf
      → Leads tracer Q (
          machine
            (record p { cur = i; map = settled_map n })
            (c ++ place (f n) p.key (str p.buf) ∷ [])
            j
            rest)
  closed p i j k go = go _ (settled (record { depth = k.depth; stack = k.stack; one = k.one }) refl)

  at_quote : InText [] (print_escapes [])
  unfolding dispatch str_quote invoke
  at_quote p i k e x go =
      pass tracer Action.str_quote
        {m = machine (record p { cur = i; map = settled_map n })
          (c ++ place (f n) p.key (str p.buf) ∷ []) (i + 1) rest}
        (rw e string_quote) (rw (x, top k)) k.one (closed p i (i + 1) k (rw append-nil at go))

  -- A run that the quote ends is read in one pass, quote included.
  last_run : (b : ℕ) (r : Bytes) → IsPlain (b ∷ r) → InText (b ∷ r) ((b ∷ r) ++ print_escapes [])
  unfolding dispatch str_ok invoke
  last_run b r h p i k e x go =
      let t = b'"' ∷ rest in
      let j = moved i (b ∷ (r ++ t)) t in
      rw (append_assoc (b ∷ r)) (
        pass tracer Action.str_ok
          {m = machine (record p { buf = p.buf ++ (b ∷ r); cur = j; map = settled_map n })
            (c ++ place (f n) p.key (str (p.buf ++ (b ∷ r))) ∷ []) (j + 1) rest}
          (rw e (plain-action b h.0))
          (rw (
            scanned-plain (b ∷ r) t h (escapes-scanned [] rest),
            unscanned-plain (b ∷ r) t h (escapes-unscanned [] rest),
            x,
            not-key n,
            top k,
          ))
          k.one
          (closed (record p { buf = p.buf ++ (b ∷ r) }) _ _
            (record { depth = k.depth; stack = k.stack; one = k.one }) go))

  -- A run that an escape follows.
  inner_run :
      (b : ℕ) (r : Bytes) (e : ℕ × Bytes) (es : List (ℕ × Bytes))
      → IsPlain (b ∷ r)
      → InText (unescape (e ∷ es)) (print_escapes (e ∷ es))
      → InText ((b ∷ r) ++ unescape (e ∷ es)) ((b ∷ r) ++ print_escapes (e ∷ es))
  unfolding dispatch str_ok
  inner_run b r e es h next p i k m x go =
      let t = print_escapes (e ∷ es) ++ rest in
      rw (append_assoc (b ∷ r)) (
        pass tracer Action.str_ok
          {m = machine (record p { buf = p.buf ++ (b ∷ r) }) c (moved i (b ∷ (r ++ t)) t) t}
          (rw m (plain-action b h.0))
          (rw (
            scanned-plain (b ∷ r) t h (escapes-scanned (e ∷ es) rest),
            unscanned-plain (b ∷ r) t h (escapes-unscanned (e ∷ es) rest),
            x,
            not-key n,
          ))
          k.one
          (next (record p { buf = p.buf ++ (b ∷ r) }) _
            (record { depth = k.depth; stack = k.stack; one = k.one }) m x (rw append_assoc go)))

  -- A run, given the escapes behind it.
  in_run :
      (r : Bytes) (es : List (ℕ × Bytes))
      → IsPlain r
      → InText (unescape es) (print_escapes es)
      → InText (r ++ unescape es) (r ++ print_escapes es)
  in_run [] es h next = next
  in_run (b ∷ r) [] h next = rw append-nil (last_run b r h)
  in_run (b ∷ r) (e ∷ es) h next = inner_run b r e es h next

  in_text : (es : List (ℕ × Bytes)) → IsEscapes es → InText (unescape es) (print_escapes es)
  unfolding dispatch str_slash esc_ok
  in_text [] h = at_quote
  in_text ((b, r) ∷ es) h = λ p i k e x go.
      pass tracer Action.str_slash (rw e string_slash) refl k.one (
        pass tracer Action.esc_ok
          {m = machine (record p { buf = p.buf ++ escaped b ∷ []; map = at_string }) c (i + 1 + 1)
            ((r ++ print_escapes es) ++ rest)}
          h.0.1 (rw (x, not-key n, esc_byte-escaped b h.0.0 h.0.1)) k.one
          (in_run r es h.0.2 (in_text es h.1)
            (record p { buf = p.buf ++ escaped b ∷ []; map = at_string }) _
            (record { depth = k.depth; stack = k.stack; one = k.one }) refl x (rw append_assoc go)))

module _ (n : ℕ) (f : ℕ → Fun) (p : Parser) (c : Trace) (i : ℕ) (rest : Bytes) (k : Kept n f p)
    (o : IsOpen p.map) {Q : Machine Trace → Type 0} where
  pub text-Leads :
      (r : Bytes) (es : List (ℕ × Bytes))
      → IsPlain r
      → IsEscapes es
      → Goes n f c rest Q p.key (r ++ unescape es)
      → Leads tracer Q (machine p c i (b'"' ∷ ((r ++ print_escapes es) ++ rest)))
  unfolding dispatch val_quote invoke
  text-Leads r [] h hs go =
      let t = b'"' ∷ rest in
      let j = moved (i + 1) (r ++ t) t in
      rw (append_assoc r) (
        pass tracer Action.val_quote
          {m = machine (record p { buf = r; cur = j; map = map_at 0 p })
            (c ++ place (f n) p.key (str r) ∷ []) (j + 1) rest}
          (action-IsOpen b'"' o value_quote comma_quote)
          (rw (
            scanned-plain r t h (escapes-scanned [] rest),
            unscanned-plain r t h (escapes-unscanned [] rest),
            top k,
          ))
          k.one
          (rw append-nil at go _ (
            settled (record { depth = k.depth; stack = k.stack; one = k.one })
              (map_at_zero n p k.depth))))
  text-Leads r (e ∷ es) h hs go =
      let t = print_escapes (e ∷ es) ++ rest in
      let j = moved (i + 1) (r ++ t) t in
      rw (append_assoc r) (
        pass tracer Action.val_quote
          {m = machine (record p { buf = r; map = at_string; next_map = some (map_at 0 p) }) c j t}
          (action-IsOpen b'"' o value_quote comma_quote)
          (rw (
            scanned-plain r t h (escapes-scanned (e ∷ es) rest),
            unscanned-plain r t h (escapes-unscanned (e ∷ es) rest),
          ))
          k.one
          (in_text n f c rest Q (e ∷ es) hs
            (record p { buf = r; map = at_string; next_map = some (map_at 0 p) }) j
            (record { depth = k.depth; stack = k.stack; one = k.one }) refl
            (ap some (map_at_zero n p k.depth)) go))

key_action : {m : Map} → (m ≡ at_key1) ⊎ (m ≡ at_key) → action m b'"' ≡ Action.key_quote
key_action (inl e) = rw e key1_quote
key_action (inr e) = rw e key_quote_action

-- A key and its colon, in front of a member's value.
module _ (n : ℕ) (f : ℕ → Fun) (p : Parser) (c : Trace) (i : ℕ) (rest : Bytes) (k : Kept n f p)
    {Q : Machine Trace → Type 0} where
  pub key-Leads :
      (key : Bytes)
      → IsPlain key
      → (p.map ≡ at_key1) ⊎ (p.map ≡ at_key)
      → ((q : Parser) (j : ℕ)
          → Kept n f q
          → q.map ≡ at_value
          → q.key ≡ key
          → Leads tracer Q (machine q c j rest))
      → Leads tracer Q (machine p c i (b'"' ∷ (key ++ b'"' ∷ b':' ∷ rest)))
  unfolding dispatch key_quote colon_colon
  key-Leads key h o go =
      let t = b'"' ∷ b':' ∷ rest in
      let j = moved (i + 1) (key ++ t) t in
      pass tracer Action.key_quote
        {m = machine (record p { key = key; map = at_colon }) c (j + 1) (b':' ∷ rest)}
        (key_action o)
        (rw (
          scanned-plain key t h (escapes-scanned [] (b':' ∷ rest)),
          unscanned-plain key t h (escapes-unscanned [] (b':' ∷ rest)),
        ))
        k.one
        (pass tracer Action.colon_colon colon_colon_action refl k.one
          (go _ _ (record { depth = k.depth; stack = k.stack; one = k.one }) refl refl))
