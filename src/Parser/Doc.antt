-- ===== src/Parser/Doc.antt =====
-- Documents in the compact form, and the calls that ext/oj_windows/parser.c is to make for them: the
-- specification of the parser.
pub mod Actions
pub mod Frame
pub mod Behind
pub mod Words
pub mod Texts
pub mod Numbers
pub mod Brackets
pub mod Nest
pub mod Chars
pub mod Whole
pub mod Deep
pub mod Pieces
use oj_windows.Base.{
  ℕ, zero, suc, ◌+◌, ◌-◌, ◌*◌, ◌≤◌, ◌<◌, ◌≡◌, ◌≢◌, ◌⊎◌, Bool, true, false, List, [], ◌∷◌, ◌++◌,
  Bytes, All, codes, ◌==◌, if◌then◌else◌,
}
use oj_windows.Base.Int.{ℤ, pos}
use oj_windows.Parser.Tables.{code_at, at_string, at_digit, action, at_esc, Action}
use oj_windows.Parser.State.{Fun, array_fun, object_fun}
use oj_windows.Parser.Num.{big_limit, negate}
use oj_windows.Parser.Trace.{
  Event, null, true_value, false_value, int, str, array_start, array_end, object_start, object_end,
  Entry, place, place_end,
}
use Prim.Native.Nat.{max}

-- A string is a run of plain bytes, and then escapes with a run behind each. An integer is a sign and
-- digits. The keys are plain.
mutual
  pub data Json : Type 0 where
    null_word true_word false_word : Json
    number : Bool → Bytes → Json
    text : Bytes → List (ℕ × Bytes) → Json
    array : Items → Json
    object : Fields → Json

  pub data Items : Type 0 where
    nil : Items
    cons : Json → Items → Items

  pub data Fields : Type 0 where
    end : Fields
    field : Bytes → Json → Fields → Fields

-- Bytes that stand for themselves in a string.
abbrev pub IsPlain : Bytes → Type 0
IsPlain = All (λ b. (b < 256) × (code_at at_string b ≡ b'R'))

abbrev pub IsEscapes : List (ℕ × Bytes) → Type 0
IsEscapes = All (λ (e : ℕ × Bytes). (e.0 < 256) × (action at_esc e.0 ≡ Action.esc_ok) × IsPlain e.1)

-- The number that digits stand for, behind a number `n`.
abbrev pub digits_value : ℕ → Bytes → ℕ
digits_value n [] = n
digits_value n (b ∷ bs) = digits_value (n * 10 + (b - b'0')) bs

abbrev pub IsDigit : ℕ → Type 0
IsDigit b = (b'0' ≤ b) × (b ≤ b'9')

-- A zero, or digits with no leading zero whose number fits the machine's.
pub data IsNumber : Bytes → Type 0 where
  zero_digit : IsNumber (b'0' ∷ [])
  digits :
      {b : ℕ} {bs : Bytes}
      → b'0' < b
      → IsDigit b
      → All IsDigit bs
      → digits_value 0 (b ∷ bs) < big_limit
      → IsNumber (b ∷ bs)

unfoldable mutual
  pub IsJson : Json → Type 0
  IsJson (number s ds) = IsNumber ds
  IsJson (text r es) = IsPlain r × IsEscapes es
  IsJson (array xs) = IsItems xs
  IsJson (object fs) = IsFields fs
  IsJson _ = Unit

  pub IsItems : Items → Type 0
  IsItems nil = Unit
  IsItems (cons x xs) = IsJson x × IsItems xs

  pub IsFields : Fields → Type 0
  IsFields end = Unit
  IsFields (field k v fs) = IsPlain k × IsJson v × IsFields fs

unfoldable mutual
  pub height : Json → ℕ
  height (array xs) = suc (height_items xs)
  height (object fs) = suc (height_fields fs)
  height _ = 0

  pub height_items : Items → ℕ
  height_items nil = 0
  height_items (cons x xs) = max (height x) (height_items xs)

  pub height_fields : Fields → ℕ
  height_fields end = 0
  height_fields (field k v fs) = max (height v) (height_fields fs)

abbrev pub print_escapes : List (ℕ × Bytes) → Bytes
print_escapes [] = b'"' ∷ []
print_escapes ((c, r) ∷ es) = b'\\' ∷ c ∷ (r ++ print_escapes es)

-- What JSON has an escaped character stand for.
abbrev pub escaped : ℕ → ℕ
escaped b =
    if b == b'b'
    then 8
    else if b == b't'
    then 9
    else if b == b'n'
    then 10
    else if b == b'f'
    then 12
    else if b == b'r'
    then 13
    else b

abbrev pub unescape : List (ℕ × Bytes) → Bytes
unescape [] = []
unescape ((c, r) ∷ es) = escaped c ∷ (r ++ unescape es)

unfoldable mutual
  pub print : Json → Bytes
  print null_word = codes "null"
  print true_word = codes "true"
  print false_word = codes "false"
  print (number s ds) = if s then b'-' ∷ ds else ds
  print (text r es) = b'"' ∷ (r ++ print_escapes es)
  print (array xs) = b'[' ∷ print_items xs
  print (object fs) = b'{' ∷ print_fields fs

  pub print_items : Items → Bytes
  print_items nil = b']' ∷ []
  print_items (cons x xs) = print x ++ print_more xs

  pub print_more : Items → Bytes
  print_more nil = b']' ∷ []
  print_more (cons x xs) = b',' ∷ (print x ++ print_more xs)

  pub print_fields : Fields → Bytes
  print_fields end = b'}' ∷ []
  print_fields (field k v fs) = b'"' ∷ (k ++ b'"' ∷ b':' ∷ (print v ++ print_more_fields fs))

  pub print_more_fields : Fields → Bytes
  print_more_fields end = b'}' ∷ []
  print_more_fields (field k v fs) =
      b',' ∷ b'"' ∷ (k ++ b'"' ∷ b':' ∷ (print v ++ print_more_fields fs))

abbrev pub number_event : Bool → Bytes → Event
number_event s ds = int (if s then negate (pos (digits_value 0 ds)) else pos (digits_value 0 ds))

-- The calls for a value under callback table `f`, as a member with key `k`.
unfoldable mutual
  pub events : Fun → Bytes → Json → List Entry
  events f k null_word = place f k null ∷ []
  events f k true_word = place f k true_value ∷ []
  events f k false_word = place f k false_value ∷ []
  events f k (number s ds) = place f k (number_event s ds) ∷ []
  events f k (text r es) = place f k (str (r ++ unescape es)) ∷ []
  events f k (array xs) = place f k array_start ∷ (events_items xs ++ place_end f array_end ∷ [])
  events f k (object fs) =
      place f k object_start ∷ (events_fields fs ++ place_end f object_end ∷ [])

  pub events_items : Items → List Entry
  events_items nil = []
  events_items (cons x xs) = events array_fun [] x ++ events_items xs

  pub events_fields : Fields → List Entry
  events_fields end = []
  events_fields (field k v fs) = events object_fun k v ++ events_fields fs
