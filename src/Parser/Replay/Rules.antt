-- ===== src/Parser/Replay/Rules.antt =====
-- A delegate that reacts to recorded calls, and what it is for a case of ext/oj_windows/parser.c's
-- `parse` to make the same calls to it as to the recording delegate.
use oj_windows.Base.{
  ℕ, ◌≡◌, refl, sym, ap, ◌∙◌, subst, Bool, true, false, List, [], ◌∷◌, ◌++◌, Bytes, append-nil,
  append_assoc, if◌then◌else◌,
}
use oj_windows.Parser.State.{Parser, Exception, Result, ok, raised, fault, ◌>>=◌}
use oj_windows.Parser.Step.Loop.{Machine, machine}
use oj_windows.Parser.Trace.{Entry}

abbrev pub Trace : Type 0
Trace = List Entry

pub bind_assoc :
    {A B D : Type 0} (r : Result A) (f : A → Result B) (g : B → Result D)
    → (r >>= f >>= g) ≡ (r >>= λ a. f a >>= g)
bind_assoc (ok a) f g = refl
bind_assoc (raised e) f g = refl
bind_assoc fault f g = refl

pub bind_ext :
    {A B : Type 0} (r : Result A) {f g : A → Result B}
    → ((a : A) → f a ≡ g a)
    → (r >>= f) ≡ (r >>= g)
bind_ext (ok a) h = h a
bind_ext (raised e) h = refl
bind_ext fault h = refl

pub ok-injective : {A : Type 0} {a b : A} → ok a ≡ ok b → a ≡ b
ok-injective e = cc

-- The calls of a trace, in turn.
unfoldable pub react_all : {C : Type 0} → (Entry → C → Result C) → Trace → C → Result C
react_all react [] c = ok c
react_all react (e ∷ es) c = react e c >>= react_all react es

module _ {C : Type 0} (react : Entry → C → Result C) where
  pub react_all-append :
      (a b : Trace) (c : C) → react_all react (a ++ b) c ≡ react_all react a c >>= react_all react b
  unfolding react_all
  react_all-append [] b c = refl
  react_all-append (e ∷ a) b c =
      bind_ext (react e c) (react_all-append a b)
      ∙ sym (bind_assoc (react e c) (react_all react a) (react_all react b))

  -- Where the recording delegate's run returns, behind the calls `es`, the other's is what it makes of
  -- the new calls, and stops where it raises.
  pub record Follows (es : Trace) (c : C) (rt : Result (Machine Trace)) (rd : Result (Machine C))
      : Type 0 where
    pub replay :
        (m : Machine Trace)
        → rt ≡ ok m
        → (new : Trace) × (m.ctx ≡ es ++ new)
          × (rd ≡ (react_all react new c >>= λ e. ok (machine m.parser e m.at m.rest)))

  -- The same of calc_num.
  pub record Hands (es : Trace) (c : C) (rt : Result (Parser × Trace)) (rd : Result (Parser × C))
      : Type 0 where
    pub replay :
        (q : Parser) (t : Trace)
        → rt ≡ ok (q, t)
        → (new : Trace) × (t ≡ es ++ new) × (rd ≡ (react_all react new c >>= λ e. ok (q, e)))

  pub now_ok :
      {es : Trace} {c : C} {p : Parser} {i : ℕ} {bs : Bytes}
      → Follows es c (ok (machine p es i bs)) (ok (machine p c i bs))
  unfolding react_all
  now_ok {es} {c} = record {
    replay = λ m e. (
      [],
      ap (λ n. n.ctx) (sym (ok-injective e)) ∙ sym (append-nil es),
      ap (λ n. ok (machine n.parser c n.at n.rest)) (ok-injective e),
    );
  }

  pub now_raised :
      {es : Trace} {c : C} {x : Exception} {rd : Result (Machine C)} → Follows es c (raised x) rd
  now_raised = record { replay = λ m e. cc }

  pub now_fault : {es : Trace} {c : C} {rd : Result (Machine C)} → Follows es c fault rd
  now_fault = record { replay = λ m e. cc }

  pub either :
      {es : Trace} {c : C} {rt st : Result (Machine Trace)} {rd sd : Result (Machine C)} (b : Bool)
      → Follows es c rt rd
      → Follows es c st sd
      → Follows es c (if b then rt else st) (if b then rd else sd)
  either true h k = h
  either false h k = k

  pub bind_pure :
      {A : Type 0} {es : Trace} {c : C} {kt : A → Result (Machine Trace)}
      {kd : A → Result (Machine C)} (r : Result A)
      → ((a : A) → Follows es c (kt a) (kd a))
      → Follows es c (r >>= kt) (r >>= kd)
  bind_pure (ok a) h = h a
  bind_pure (raised x) h = now_raised
  bind_pure fault h = now_fault

  -- The new calls and then some.
  pub bind_step :
      {es : Trace} {c : C} {rt : Result (Machine Trace)} {kd : C → Result (Machine C)} (new : Trace)
      → ((e : C) → Follows (es ++ new) e rt (kd e))
      → Follows es c rt (react_all react new c >>= kd)
  bind_step {es} {c} {rt} {kd} new h = record {
    replay = λ m e. go m e (react_all react new c) refl;
  }
    where
      go :
          (m : Machine Trace)
          → rt ≡ ok m
          → (r : Result C) → react_all react new c ≡ r
          → (more : Trace) × (m.ctx ≡ es ++ more)
            × ((react_all react new c >>= kd)
                ≡ (react_all react more c >>= λ e. ok (machine m.parser e m.at m.rest)))
      go m e (ok d) f =
          let (more, t, k) = (h d).replay m e in
          (new ++ more, t ∙ append_assoc es new more, rw (react_all-append, f) k)
      go m e (raised x) f =
          let (more, t, k) = (h c).replay m e in
          (new ++ more, t ∙ append_assoc es new more, rw (react_all-append, f) refl)
      go m e fault f =
          let (more, t, k) = (h c).replay m e in
          (new ++ more, t ∙ append_assoc es new more, rw (react_all-append, f) refl)

  react_all-one : (x : Entry) (c : C) → react x c ≡ react_all react (x ∷ []) c
  unfolding react_all
  react_all-one x c = go (react x c)
    where
      go : (r : Result C) → r ≡ (r >>= λ d. ok d)
      go (ok d) = refl
      go (raised e) = refl
      go fault = refl

  -- A call.
  pub bind_call :
      {es : Trace} {c : C} {rt : Result (Machine Trace)} {kd : C → Result (Machine C)} {x : Entry}
      {r : Result C}
      → r ≡ react x c
      → ((e : C) → Follows (es ++ x ∷ []) e rt (kd e))
      → Follows es c rt (r >>= kd)
  bind_call {x = x} {r} e h = rw (e, react_all-one x _) (bind_step (x ∷ []) h)

  -- A number handed over, and what follows.
  pub bind_num :
      {es : Trace} {c : C} (rt : Result (Parser × Trace)) (rd : Result (Parser × C))
      (kt : Parser × Trace → Result (Machine Trace)) (kd : Parser × C → Result (Machine C))
      → Hands es c rt rd
      → ((q : Parser) (t : Trace) (e : C) → Follows t e (kt (q, t)) (kd (q, e)))
      → Follows es c (rt >>= kt) (rd >>= kd)
  bind_num (raised x) rd kt kd h k = now_raised
  bind_num fault rd kt kd h k = now_fault
  bind_num {es} {c} (ok (q, t)) rd kt kd h k =
      let (new, e, f) = h.replay q t refl in
      rw (f, bind_assoc (react_all react new c) (λ e. ok (q, e)) kd)
        (bind_step new (λ d. subst (λ z. Follows z d (kt (q, t)) (kd (q, d))) e (k q t d)))

  pub hand :
      {es : Trace} {c : C} {q : Parser} {x : Entry} {r : Result C}
      → r ≡ react x c
      → Hands es c (ok (q, es ++ x ∷ [])) (r >>= λ e. ok (q, e))
  hand {c = c} {x = x} e = record {
    replay = λ p t h.
        let f = ok-injective h in
        (x ∷ [], sym (ap (λ y. y.1) f), rw (e, react_all-one x c, ap (λ y. y.0) f));
  }

  pub hand_none : {es : Trace} {c : C} {q : Parser} → Hands es c (ok (q, es)) (ok (q, c))
  unfolding react_all
  hand_none {es} {c} = record {
    replay = λ p t h.
        let f = ok-injective h in
        ([], sym (ap (λ y. y.1) f) ∙ sym (append-nil es), ap (λ y. ok (y.0, c)) f);
  }
