-- ===== src/Usual/Made.antt =====
-- The calls of a document put its value on the stack of ext/oj_windows/usual.c.
use oj_windows.Base.{◌≤◌, sym, subst, [], ◌∷◌, ◌++◌, Bytes, length}
use oj_windows.Parser.State.{Fun, array_fun, object_fun}
use oj_windows.Parser.Trace.{null, true_value, false_value, int, str}
use oj_windows.Usual.Value.{
  signed, named_value, value, values, members, HasKeys, HasItemKeys, HasFieldKeys, IsPlainOptions,
}
use oj_windows.Parser.Doc.{
  Json, null_word, true_word, false_word, number, text, array, object, Items, nil, cons, Fields,
  end, field, IsJson, IsItems, IsFields, events, events_items, events_fields, unescape,
}
use oj_windows.Usual.Facts.{
  unescape-IsKey, plain-IsKey, IsKey-append, members-IsNamed, gaps-append, member_keys-append,
}
use oj_windows.Usual.Build.{
  Adds, Adds-append, Adds-nil, IsOuter, array-IsOuter, outer-Adds, member-Adds, null_member-Adds,
  array-Adds, object-Adds, array_member-Adds, object_member-Adds,
}
use oj_windows.Usual.Ruby.{Ruby, Interner}
use oj_windows.Usual.State.{Options}
use oj_windows.Usual.Keys.{max_key}
use oj_windows.Usual.Calls.{react_plain, react_key}
use oj_windows.Usual.Stage.{push-Makes, push_member-Makes}
use oj_windows.Usual.Kept.{string_form, add_str-Makes, add_str_key-Makes}
use oj_windows.Usual.Ends.{member_keys, gaps}

module _ {V : Type 0} (r : Ruby V) (i : Interner V) {o : Options V} (p : IsPlainOptions o) where
  open i use {Cache}

  mutual
    unfolding value events IsJson HasKeys react_plain react_key

    pub value-Adds :
        (v : Json) (f : Fun) (k : Bytes)
        → IsOuter r i p f k
        → IsJson v
        → HasKeys v
        → Adds r i p (value r o v ∷ []) [] (events f k v)
    value-Adds null_word f k q j h =
        outer-Adds r i p f k null r.nil q (λ vs cs ks d s. push-Makes r i s r.nil)
    value-Adds true_word f k q j h =
        outer-Adds r i p f k true_value r.true_object q
          (λ vs cs ks d s. push-Makes r i s r.true_object)
    value-Adds false_word f k q j h =
        outer-Adds r i p f k false_value r.false_object q
          (λ vs cs ks d s. push-Makes r i s r.false_object)
    value-Adds (number b ds) f k q j h =
        let v = r.long_num (signed b ds) in
        outer-Adds r i p f k (int (signed b ds)) v q (λ vs cs ks d s. push-Makes r i s v)
    value-Adds (text t es) f k q j h =
        let n = IsKey-append t (unescape es) (plain-IsKey t j.0) (unescape-IsKey es j.1) in
        outer-Adds r i p f k (str (t ++ unescape es)) (string_form r o (t ++ unescape es)) q
          (λ vs cs ks d s. add_str-Makes r i s (t ++ unescape es) n)
    value-Adds (array xs) f k q j h =
        array-Adds r i p f k (values r o xs) (events_items xs) q (items-Adds xs j h)
    value-Adds (object fs) f k q j h =
        object-Adds r i p f k (members r o fs) (events_fields fs) q (members-IsNamed r o fs j)
          (fields-Adds fs j h)

    member_value-Adds :
        (v : Json) (k : Bytes)
        → length k ≤ max_key
        → IsJson v
        → HasKeys v
        → (let ms = named_value r o k v (value r o v) in
            Adds r i p (gaps r ms) (member_keys ms) (events object_fun k v))
    member_value-Adds null_word k l j h = null_member-Adds r i p k l
    member_value-Adds true_word k l j h =
        member-Adds r i p k true_value r.true_object
          (λ vs cs ks d s. push_member-Makes r i s k r.true_object l)
    member_value-Adds false_word k l j h =
        member-Adds r i p k false_value r.false_object
          (λ vs cs ks d s. push_member-Makes r i s k r.false_object l)
    member_value-Adds (number b ds) k l j h =
        let v = r.long_num (signed b ds) in
        member-Adds r i p k (int (signed b ds)) v (λ vs cs ks d s. push_member-Makes r i s k v l)
    member_value-Adds (text t es) k l j h =
        let n = IsKey-append t (unescape es) (plain-IsKey t j.0) (unescape-IsKey es j.1) in
        member-Adds r i p k (str (t ++ unescape es)) (string_form r o (t ++ unescape es))
          (λ vs cs ks d s. add_str_key-Makes r i s k (t ++ unescape es) l n)
    member_value-Adds (array xs) k l j h =
        array_member-Adds r i p k l (values r o xs) (events_items xs) (items-Adds xs j h)
    member_value-Adds (object fs) k l j h =
        object_member-Adds r i p k l (members r o fs) (events_fields fs) (members-IsNamed r o fs j)
          (fields-Adds fs j h)

    items-Adds :
        (xs : Items) → IsItems xs → HasItemKeys xs → Adds r i p (values r o xs) [] (events_items xs)
    items-Adds nil j h = Adds-nil r i p
    items-Adds (cons x xs) j h =
        Adds-append r i p (value r o x ∷ []) (values r o xs) [] [] (events array_fun [] x)
          (events_items xs) (value-Adds x array_fun [] (array-IsOuter r i p []) j.0 h.0)
          (items-Adds xs j.1 h.1)

    fields-Adds :
        (fs : Fields)
        → IsFields fs
        → HasFieldKeys fs
        → Adds r i p (gaps r (members r o fs)) (member_keys (members r o fs)) (events_fields fs)
    fields-Adds end j h = Adds-nil r i p
    fields-Adds (field k v fs) j h =
        let ms = named_value r o k v (value r o v) in
        let ns = members r o fs in
        subst
          (λ l. Adds r i p l (member_keys (ms ++ ns)) (events object_fun k v ++ events_fields fs))
          (sym (gaps-append r ms ns))
          (subst
            (λ l. Adds r i p (gaps r ms ++ gaps r ns) l (events object_fun k v ++ events_fields fs))
            (sym (member_keys-append r ms ns))
            (Adds-append r i p (gaps r ms) (gaps r ns) (member_keys ms) (member_keys ns)
              (events object_fun k v) (events_fields fs) (member_value-Adds v k h.0 j.1 h.1)
              (fields-Adds fs j.2 h.2)))
