-- ===== src/Parser/Doc/Nest.antt =====
-- ext/oj_windows/parser.c's `parse` at a value of a document: the loop gets past the value, and has
-- made the calls that the specification lists.
use oj_windows.Base.{
  ℕ, suc, ◌+◌, ◌<◌, ◌≡◌, inl, inr, refl, ap, ◌∙◌, [], ◌∷◌, ◌++◌, Bytes, arith, append_assoc,
  append-nil,
}
use oj_windows.Parser.Tables.{at_value, at_key1, Action, code_at}
use oj_windows.Parser.State.{Fun, array_fun, object_fun, Parser}
use oj_windows.Parser.Step.{dispatch}
use oj_windows.Parser.Step.Loop.{Machine, machine}
use oj_windows.Parser.Trace.{
  Entry, place, place_end, array_start, array_end, object_start, object_end, tracer,
}
use oj_windows.Parser.Leads.{Leads, pass}
use oj_windows.Parser.Doc.{
  Json, null_word, true_word, false_word, number, text, array, object, Items, nil, cons, Fields,
  end, field, IsJson, IsItems, IsFields, height, height_items, height_fields, print, print_items,
  print_more, print_fields, print_more_fields, events, events_items, events_fields,
}
use oj_windows.Parser.Doc.Actions.{
  IsOpen, action-IsOpen, value_bracket, comma_bracket, value_brace, comma_brace, value_close,
  key1_end,
}
use oj_windows.Parser.Doc.Frame.{
  Kept, After, settled, closed-Kept, closed-map, close_array-ok, close_object-ok,
}
use oj_windows.Parser.Doc.Behind.{Trace, comma-array, comma-object, close-array, close-object}
use oj_windows.Parser.Doc.Words.{null-Leads, true-Leads, false-Leads}
use oj_windows.Parser.Doc.Texts.{text-Leads, key-Leads}
use oj_windows.Parser.Doc.Numbers.{IsEnd, number-Leads}
use oj_windows.Parser.Doc.Brackets.{
  pushed, pushed_top, opened, opened-Kept, open_array-ok, open_object-ok, After-pushed,
}

-- An element's calls do not depend on the key that came last.
pub elem-key : (k : Bytes) (x : Json) → events array_fun k x ≡ events array_fun [] x
unfolding events
elem-key k null_word = refl
elem-key k true_word = refl
elem-key k false_word = refl
elem-key k (number s ds) = refl
elem-key k (text r es) = refl
elem-key k (array xs) = refl
elem-key k (object fs) = refl

more-IsEnd : (xs : Items) (rest : Bytes) → IsEnd (print_more xs ++ rest)
unfolding print_more code_at
more-IsEnd nil rest = refl
more-IsEnd (cons x xs) rest = refl

more_fields-IsEnd : (fs : Fields) (rest : Bytes) → IsEnd (print_more_fields fs ++ rest)
unfolding print_more_fields code_at
more_fields-IsEnd end rest = refl
more_fields-IsEnd (field k v fs) rest = refl

bracketed :
    (c : Trace) (s e : Entry) (xs : Trace)
    → ((c ++ s ∷ []) ++ xs) ++ e ∷ [] ≡ c ++ s ∷ (xs ++ e ∷ [])
bracketed c s e xs = rw (append_assoc (c ++ s ∷ []) xs) (append_assoc c (s ∷ []) (xs ++ e ∷ []))

member-text :
    (s : Bytes) (v : Json) (fs : Fields) (rest : Bytes)
    → print_fields (field s v fs) ++ rest
      ≡ b'"' ∷ (s ++ b'"' ∷ b':' ∷ (print v ++ (print_more_fields fs ++ rest)))
unfolding print_fields
member-text s v fs rest =
    ap (λ t. b'"' ∷ t)
      (append_assoc s _ rest
        ∙ ap (λ t. s ++ b'"' ∷ b':' ∷ t) (append_assoc (print v) (print_more_fields fs) rest))

module _ (Q : Machine Trace → Type 0) where
  -- Everything that comes behind the calls `c` leads on.
  abbrev Goes : ℕ → (ℕ → Fun) → Trace → Bytes → Type 0
  Goes n f c rest = (m : Machine Trace) → After n f c rest m → Leads tracer Q m

  mutual
    unfolding IsJson height print events dispatch

    pub value-Leads :
        (v : Json) (n : ℕ) (f : ℕ → Fun) (p : Parser) (c : Trace) (i : ℕ) (rest : Bytes)
        → IsJson v
        → n + height v < 1024
        → Kept n f p
        → IsOpen p.map
        → IsEnd rest
        → Goes n f (c ++ events (f n) p.key v) rest
        → Leads tracer Q (machine p c i (print v ++ rest))
    value-Leads null_word n f p c i rest h r k o z go = null-Leads n f p c i rest k o go
    value-Leads true_word n f p c i rest h r k o z go = true-Leads n f p c i rest k o go
    value-Leads false_word n f p c i rest h r k o z go = false-Leads n f p c i rest k o go
    value-Leads (number s ds) n f p c i rest h r k o z go =
        number-Leads n f p c i rest k o z Q s ds h go
    value-Leads (text t es) n f p c i rest h r k o z go =
        text-Leads n f p c i rest k o t es h.0 h.1 go
    value-Leads (array xs) n f p c i rest h r k o z go =
        pass tracer Action.open_array
          {m = machine (opened array_fun at_value p i) (c ++ place (f n) p.key array_start ∷ [])
            (i + 1) (print_items xs ++ rest)}
          (action-IsOpen b'[' o value_bracket comma_bracket)
          (open_array-ok n f p c i (print_items xs ++ rest) k (omega arith)) k.one
          (items-Leads xs n (pushed f n array_fun) (opened array_fun at_value p i) _ (i + 1) rest h
            (omega arith) (opened-Kept n f array_fun at_value p i k) (pushed_top f n array_fun) refl
            (λ m a. go m (
              rw (bracketed c _ _ _) at (
                After-pushed n f array_fun
                  ((c ++ place (f n) p.key array_start ∷ []) ++ events_items xs) rest array_end
                  a))))
    value-Leads (object fs) n f p c i rest h r k o z go =
        pass tracer Action.open_object
          {m = machine (opened object_fun at_key1 p i) (c ++ place (f n) p.key object_start ∷ [])
            (i + 1) (print_fields fs ++ rest)}
          (action-IsOpen b'{' o value_brace comma_brace)
          (open_object-ok n f p c i (print_fields fs ++ rest) k (omega arith)) k.one
          (fields-Leads fs n (pushed f n object_fun) (opened object_fun at_key1 p i) _ (i + 1) rest
            h (omega arith) (opened-Kept n f object_fun at_key1 p i k) (pushed_top f n object_fun)
            refl
            (λ m a. go m (
              rw (bracketed c _ _ _) at (
                After-pushed n f object_fun
                  ((c ++ place (f n) p.key object_start ∷ []) ++ events_fields fs) rest object_end
                  a))))

    pub items-Leads :
        (xs : Items) (n : ℕ) (f : ℕ → Fun) (p : Parser) (c : Trace) (i : ℕ) (rest : Bytes)
        → IsItems xs
        → suc n + height_items xs < 1024
        → Kept (suc n) f p
        → f (suc n) ≡ array_fun
        → p.map ≡ at_value
        → Goes n f ((c ++ events_items xs) ++ place_end (f n) array_end ∷ []) rest
        → Leads tracer Q (machine p c i (print_items xs ++ rest))
    items-Leads nil n f p c i rest h r k a e go =
        pass tracer Action.close_array (rw e value_close) (close_array-ok n f k a c i rest)
          (closed-Kept n f k i).one
          (rw append-nil at go _ (settled (closed-Kept n f k i) (closed-map n f k i)))
    items-Leads (cons x xs) n f p c i rest h r k a e go = rw (append_assoc (print x)) (
        value-Leads x (suc n) f p c i (print_more xs ++ rest) h.0 (omega arith) k (inl e)
          (more-IsEnd xs rest)
          (λ m b.
            more-Leads xs n f _ rest h.1 (omega arith) a m b
              (rw (a, elem-key p.key x, append_assoc c (events array_fun [] x)) go)))

    pub more-Leads :
        (xs : Items) (n : ℕ) (f : ℕ → Fun) (c : Trace) (rest : Bytes)
        → IsItems xs
        → suc n + height_items xs < 1024
        → f (suc n) ≡ array_fun
        → (m : Machine Trace) → After (suc n) f c (print_more xs ++ rest) m
        → Goes n f ((c ++ events_items xs) ++ place_end (f n) array_end ∷ []) rest
        → Leads tracer Q m
    more-Leads nil n f c rest h r a m b go = close-array n f c rest a b (rw append-nil at go)
    more-Leads (cons x xs) n f c rest h r a m b go =
        comma-array n f c ((print x ++ print_more xs) ++ rest) a b λ q j k e.
          rw (append_assoc (print x)) (
            value-Leads x (suc n) f q c j (print_more xs ++ rest) h.0 (omega arith) k (inr e)
              (more-IsEnd xs rest)
              (λ m b.
                more-Leads xs n f _ rest h.1 (omega arith) a m b
                  (rw (a, elem-key q.key x, append_assoc c (events array_fun [] x)) go)))

    pub fields-Leads :
        (fs : Fields) (n : ℕ) (f : ℕ → Fun) (p : Parser) (c : Trace) (i : ℕ) (rest : Bytes)
        → IsFields fs
        → suc n + height_fields fs < 1024
        → Kept (suc n) f p
        → f (suc n) ≡ object_fun
        → p.map ≡ at_key1
        → Goes n f ((c ++ events_fields fs) ++ place_end (f n) object_end ∷ []) rest
        → Leads tracer Q (machine p c i (print_fields fs ++ rest))
    fields-Leads end n f p c i rest h r k a e go =
        pass tracer Action.close_object (rw e key1_end) (close_object-ok n f k a c i rest)
          (closed-Kept n f k i).one
          (rw append-nil at go _ (settled (closed-Kept n f k i) (closed-map n f k i)))
    fields-Leads (field s v fs) n f p c i rest h r k a e go = rw (member-text s v fs rest) (
        key-Leads (suc n) f p c i (print v ++ (print_more_fields fs ++ rest)) k s h.0 (inl e)
          (λ q j k' e' g.
            value-Leads v (suc n) f q c j (print_more_fields fs ++ rest) h.1 (omega arith) k'
              (inl e') (more_fields-IsEnd fs rest)
              (λ m b.
                more_fields-Leads fs n f _ rest h.2 (omega arith) a m b
                  (rw (a, g, append_assoc c (events object_fun s v)) go))))

    pub more_fields-Leads :
        (fs : Fields) (n : ℕ) (f : ℕ → Fun) (c : Trace) (rest : Bytes)
        → IsFields fs
        → suc n + height_fields fs < 1024
        → f (suc n) ≡ object_fun
        → (m : Machine Trace) → After (suc n) f c (print_more_fields fs ++ rest) m
        → Goes n f ((c ++ events_fields fs) ++ place_end (f n) object_end ∷ []) rest
        → Leads tracer Q m
    more_fields-Leads end n f c rest h r a m b go =
        close-object n f c rest a b (rw append-nil at go)
    more_fields-Leads (field s v fs) n f c rest h r a m b go =
        comma-object n f c (print_fields (field s v fs) ++ rest) a b λ p i k e.
          rw (member-text s v fs rest) (
            key-Leads (suc n) f p c i (print v ++ (print_more_fields fs ++ rest)) k s h.0 (inr e)
              (λ q j k' e' g.
                value-Leads v (suc n) f q c j (print_more_fields fs ++ rest) h.1 (omega arith) k'
                  (inl e') (more_fields-IsEnd fs rest)
                  (λ m b.
                    more_fields-Leads fs n f _ rest h.2 (omega arith) a m b
                      (rw (a, g, append_assoc c (events object_fun s v)) go))))
