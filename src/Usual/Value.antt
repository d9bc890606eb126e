-- ===== src/Usual/Value.antt =====
-- The Ruby value of a document, the specification of ext/oj_windows/usual.c, and the callbacks for the
-- document's calls, which make it.
use oj_windows.Base.{◌≤◌, ◌≡◌, Bool, false, List, [], ◌∷◌, ◌++◌, Bytes, length, if◌then◌else◌}
use oj_windows.Base.Int.{ℤ, pos}
use oj_windows.Parser.Num.{negate}
use oj_windows.Parser.Doc.{
  Json, null_word, true_word, false_word, number, text, array, object, Items, nil, cons, Fields,
  end, field, unescape, digits_value,
}
use oj_windows.Usual.Ruby.{Ruby}
use oj_windows.Usual.State.{Options}
use oj_windows.Usual.Keys.{max_key}
use oj_windows.Usual.Kept.{string_form}
use oj_windows.Usual.Ends.{Members, named}

abbrev pub signed : Bool → Bytes → ℤ
signed s ds = if s then negate (pos (digits_value 0 ds)) else pos (digits_value 0 ds)

module _ {V : Type 0} (r : Ruby V) (o : Options V) where
  -- A null member is left out with `omit_null`.
  abbrev pub is_omitted : Json → Bool
  is_omitted null_word = o.omit_null
  is_omitted _ = false

  abbrev pub named_value : Bytes → Json → V → Members V
  named_value k j v = if is_omitted j then [] else (k, v) ∷ []

  unfoldable mutual
    pub value : Json → V
    value null_word = r.nil
    value true_word = r.true_object
    value false_word = r.false_object
    value (number s ds) = r.long_num (signed s ds)
    value (text t es) = string_form r o (t ++ unescape es)
    value (array xs) = r.array (values xs)
    value (object fs) = r.hash (named r o (members fs))

    pub values : Items → List V
    values nil = []
    values (cons x xs) = value x ∷ values xs

    pub members : Fields → Members V
    members end = []
    members (field k v fs) = named_value k v (value v) ++ members fs

-- The keys of a document fit the key stack.
unfoldable mutual
  pub HasKeys : Json → Type 0
  HasKeys (array xs) = HasItemKeys xs
  HasKeys (object fs) = HasFieldKeys fs
  HasKeys _ = Unit

  pub HasItemKeys : Items → Type 0
  HasItemKeys nil = Unit
  HasItemKeys (cons x xs) = HasKeys x × HasItemKeys xs

  pub HasFieldKeys : Fields → Type 0
  HasFieldKeys end = Unit
  HasFieldKeys (field k v fs) = (length k ≤ max_key) × HasKeys v × HasFieldKeys fs

-- Options that build plain arrays and hashes, with no block given.
pub record IsPlainOptions {V : Type 0} (o : Options V) : Type 0 where
  pub array : o.class_array ≡ false
  pub hash : o.class_hash ≡ false
  pub block : o.block ≡ false
