-- ===== src/Parser/Doc/Chars.antt =====
-- The bytes of a document in the compact form: none is NUL, so that ext/oj_windows/parser.c's `parse`
-- sees all of them.
use oj_windows.Base.{
  ℕ, zero, suc, ◌<◌, ◌≡◌, ◌≢◌, refl, true, false, List, [], ◌∷◌, ◌++◌, Bytes, All, arith,
}
use oj_windows.Parser.Tables.{Action, action, at_esc, at_string, code_at}
use oj_windows.Parser.Tables.Facts.{IsBytes}
use oj_windows.Parser.Run.{c_string}
use oj_windows.Parser.Doc.{
  Json, null_word, true_word, false_word, number, text, array, object, Items, nil, cons, Fields,
  end, field, IsJson, IsItems, IsFields, IsPlain, IsEscapes, IsDigit, IsNumber, zero_digit, digits,
  print, print_items, print_more, print_fields, print_more_fields, print_escapes,
}

-- A byte that is not the NUL of a C string.
abbrev pub IsChar : ℕ → Type 0
IsChar b = (0 < b) × (b < 256)

abbrev pub IsChars : Bytes → Type 0
IsChars = All IsChar

pub IsChars-append : (bs cs : Bytes) → IsChars bs → IsChars cs → IsChars (bs ++ cs)
IsChars-append [] cs h k = k
IsChars-append (b ∷ bs) cs h k = (h.0, IsChars-append bs cs h.1 k)

pub IsChars-IsBytes : (bs : Bytes) → IsChars bs → IsBytes bs
IsChars-IsBytes [] h = tt
IsChars-IsBytes (b ∷ bs) h = (h.0.1, IsChars-IsBytes bs h.1)

pub c_string-IsChars : (bs : Bytes) → IsChars bs → c_string bs ≡ bs
unfolding c_string
c_string-IsChars [] h = refl
c_string-IsChars (b ∷ bs) h = ground (arith, h.0.0, c_string-IsChars bs h.1)

nul-not-plain : code_at at_string 0 ≢ b'R'
unfolding code_at
nul-not-plain e = omega (arith, e)

plain-IsChar : (b : ℕ) → b < 256 → code_at at_string b ≡ b'R' → IsChar b
plain-IsChar zero h e = absurd (nul-not-plain e)
plain-IsChar (suc b) h e = (omega arith, h)

pub plain-IsChars : (r : Bytes) → IsPlain r → IsChars r
plain-IsChars [] h = tt
plain-IsChars (b ∷ r) h = (plain-IsChar b h.0.0 h.0.1, plain-IsChars r h.1)

nul-not-escape : action at_esc 0 ≢ Action.esc_ok
unfolding action
nul-not-escape e = cc

pub escape-IsChar : (b : ℕ) → b < 256 → action at_esc b ≡ Action.esc_ok → IsChar b
escape-IsChar zero h e = absurd (nul-not-escape e)
escape-IsChar (suc b) h e = (omega arith, h)

escapes-IsChars : (es : List (ℕ × Bytes)) → IsEscapes es → IsChars (print_escapes es)
escapes-IsChars [] h = ((omega arith, omega arith), tt)
escapes-IsChars ((b, r) ∷ es) h =
    let tail = IsChars-append r _ (plain-IsChars r h.0.2) (escapes-IsChars es h.1) in
    ((omega arith, omega arith), (escape-IsChar b h.0.0 h.0.1, tail))

digits-IsChars : (ds : Bytes) → All IsDigit ds → IsChars ds
digits-IsChars [] h = tt
digits-IsChars (b ∷ ds) h = ((omega (arith, h.0.0), omega (arith, h.0.1)), digits-IsChars ds h.1)

number-IsChars : (ds : Bytes) → IsNumber ds → IsChars ds
number-IsChars ds zero_digit = ((omega arith, omega arith), tt)
number-IsChars ds (digits {b} {bs} g d h l) = digits-IsChars (b ∷ bs) (d, h)

member-IsChars :
    (k : Bytes) (v fs : Bytes)
    → IsChars k
    → IsChars v
    → IsChars fs
    → IsChars (k ++ b'"' ∷ b':' ∷ (v ++ fs))
member-IsChars k v fs h g hs =
    IsChars-append k _ h
      ((omega arith, omega arith), ((omega arith, omega arith), IsChars-append v fs g hs))

mutual
  unfolding IsJson print

  pub print-IsChars : (v : Json) → IsJson v → IsChars (print v)
  print-IsChars null_word h = ground arith
  print-IsChars true_word h = ground arith
  print-IsChars false_word h = ground arith
  print-IsChars (number true ds) h = ((omega arith, omega arith), number-IsChars ds h)
  print-IsChars (number false ds) h = number-IsChars ds h
  print-IsChars (text r es) h = (
    (omega arith, omega arith),
    IsChars-append r _ (plain-IsChars r h.0) (escapes-IsChars es h.1),
  )
  print-IsChars (array xs) h = ((omega arith, omega arith), items-IsChars xs h)
  print-IsChars (object fs) h = ((omega arith, omega arith), fields-IsChars fs h)

  items-IsChars : (xs : Items) → IsItems xs → IsChars (print_items xs)
  items-IsChars nil h = ((omega arith, omega arith), tt)
  items-IsChars (cons x xs) h =
      IsChars-append (print x) _ (print-IsChars x h.0) (more-IsChars xs h.1)

  more-IsChars : (xs : Items) → IsItems xs → IsChars (print_more xs)
  more-IsChars nil h = ((omega arith, omega arith), tt)
  more-IsChars (cons x xs) h = (
    (omega arith, omega arith),
    IsChars-append (print x) _ (print-IsChars x h.0) (more-IsChars xs h.1),
  )

  fields-IsChars : (fs : Fields) → IsFields fs → IsChars (print_fields fs)
  fields-IsChars end h = ((omega arith, omega arith), tt)
  fields-IsChars (field k v fs) h = (
    (omega arith, omega arith),
    member-IsChars k _ _ (plain-IsChars k h.0) (print-IsChars v h.1) (more_fields-IsChars fs h.2),
  )

  more_fields-IsChars : (fs : Fields) → IsFields fs → IsChars (print_more_fields fs)
  more_fields-IsChars end h = ((omega arith, omega arith), tt)
  more_fields-IsChars (field k v fs) h = (
    (omega arith, omega arith),
    (
      (omega arith, omega arith),
      member-IsChars k _ _ (plain-IsChars k h.0) (print-IsChars v h.1) (more_fields-IsChars fs h.2),
    ),
  )
