-- ===== src/Parser/Replay/Whole.antt =====
-- ext/oj_windows/parser.c's loop, its end and `parser_parse` make the same calls to every delegate.
use oj_windows.Base.{
  ℕ, zero, suc, ◌≡◌, refl, sym, ap, ◌∙◌, subst, ◌&&◌, some, [], ◌∷◌, ◌++◌, Bytes, append_assoc,
  append-nil, if◌then◌else◌, ◌==◌, Bool-cases, inl, inr,
}
use oj_windows.Base.Int.{negsuc}
use oj_windows.Parser.Tables.{at_trail, mode_of, action}
use oj_windows.Parser.State.{
  Fun, Call, Parser, Result, ok, raised, fault, ◌>>=◌, Delegate, parser_reset,
}
use oj_windows.Parser.Num.{calc_num}
use oj_windows.Parser.Step.{step, trail, dispatch}
use oj_windows.Parser.Step.Loop.{Machine, machine}
use oj_windows.Parser.Run.{
  Run, and_then, after, run, finish, parse, parser_parse, enough, c_string, ends_num,
  validate_document_end,
}
use oj_windows.Parser.Trace.{Entry, entry, tracer}
use oj_windows.Parser.Closed.{and_then-ok, bind-ok, after-ok}
use oj_windows.Parser.Replay.Rules.{
  Trace, react_all, react_all-append, Follows, Hands, bind_assoc, ok-injective, hand_none,
}
use oj_windows.Parser.Replay.Cases.{Follows-dispatch, Hands-calc_num}

-- `trail` looks at the parser only.
abbrev trailed : Parser → Parser
trailed p =
    if (p.depth == 0) && ((mode_of p.map == b'v') && p.just_one)
    then record p { map = at_trail }
    else p

trail-eq : {C : Type 0} (m : Machine C) → trail m ≡ machine (trailed m.parser) m.ctx m.at m.rest
trail-eq m =
    let p = m.parser in
    elim (Bool-cases ((p.depth == 0) && ((mode_of p.map == b'v') && p.just_one))) [
      | inl h ↦ rw h
      | inr h ↦ rw h
    ]

finish_lem :
    {C : Type 0} (d : Delegate C) (m : Machine C)
    → finish d m ≡ (
        let p = m.parser in
        if p.depth == 0
        then (if ends_num (mode_of p.map)
            then calc_num d (record p { cur = m.at }) m.ctx
            else ok (p, m.ctx))
        else ok (p, m.ctx))
unfolding finish calc_num ends_num
finish_lem d m = refl

and_then-bind :
    {A B D : Type 0} (r : Result A) (f : A → B) (k : B → Run D)
    → and_then (r >>= λ a. ok (f a)) k ≡ and_then r (λ a. k (f a))
and_then-bind (ok a) f k = refl
and_then-bind (raised x) f k = refl
and_then-bind fault f k = refl

module _ {C : Type 0} (react : Entry → C → Result C) (d : Delegate C)
    (agree : (fun : Fun) (f : Call) (p : Parser) (c : C)
      → d.call fun f p c ≡ react (entry fun f p) c) where
  abbrev Replayed : Trace → C → Machine Trace → Result (Machine C) → Type 0
  Replayed es c m rd =
      (new : Trace) × (m.ctx ≡ es ++ new)
      × (rd ≡ (react_all react new c >>= λ e. ok (machine m.parser e m.at m.rest)))

  trail-Replayed :
      (es : Trace) (c : C) (n : Machine Trace) (rd : Result (Machine C))
      → Replayed es c n rd
      → Replayed es c (machine (trailed n.parser) n.ctx n.at n.rest) (rd >>= λ m. ok (trail m))
  trail-Replayed es c n rd (new, u, v) = (
    new,
    u,
    ap (λ r. r >>= λ m. ok (trail m)) v
        ∙ bind_assoc (react_all react new c) (λ e. ok (machine n.parser e n.at n.rest))
            (λ m. ok (trail m))
        ∙ ap (λ k. react_all react new c >>= k)
            (λ i e. ok (trail-eq (machine n.parser e n.at n.rest) i)),
  )

  step-Follows :
      (es : Trace) (c : C) (p : Parser) (i b : ℕ) (bs : Bytes)
      → Follows react es c (step tracer p es i b bs) (step d p c i b bs)
  unfolding step
  step-Follows es c p i b bs = record {
    replay = λ m e.
        let (n, s, t) = bind-ok (dispatch tracer (action p.map b) p es i b bs) _ e in
        let r = (Follows-dispatch react d agree (action p.map b) es c p i b bs).replay n s in
        subst (λ m. Replayed es c m (dispatch d (action p.map b) p c i b bs >>= λ m. ok (trail m)))
          (sym (trail-eq n) ∙ ok-injective t)
          (trail-Replayed es c n (dispatch d (action p.map b) p c i b bs) r);
  }

  -- The loop behind some calls.
  and_then-replay :
      (es new : Trace) (c : C) (k : C → Run (Machine C)) (m : Machine Trace)
      → ((e : C)
          → (more : Trace) × (m.ctx ≡ (es ++ new) ++ more)
            × (k e ≡ some (react_all react more e >>= λ d. ok (machine m.parser d m.at m.rest))))
      → (r : Result C) → react_all react new c ≡ r
      → (all : Trace) × (m.ctx ≡ es ++ all)
        × (and_then r k ≡ some (react_all react all c >>= λ d. ok (machine m.parser d m.at m.rest)))
  and_then-replay es new c k m h (ok e) f =
      let (more, t, u) = h e in
      (new ++ more, t ∙ append_assoc es new more, rw (react_all-append, f) u)
  and_then-replay es new c k m h (raised x) f =
      let (more, t, u) = h c in
      (new ++ more, t ∙ append_assoc es new more, rw (react_all-append, f) refl)
  and_then-replay es new c k m h fault f =
      let (more, t, u) = h c in
      (new ++ more, t ∙ append_assoc es new more, rw (react_all-append, f) refl)

  -- The same behind a step's machine.
  and_then-machine :
      (es new : Trace) (c : C) (p : Parser) (i : ℕ) (bs : Bytes) (fuel : ℕ) (m : Machine Trace)
      → ((e : C)
          → (more : Trace) × (m.ctx ≡ (es ++ new) ++ more)
            × (run d fuel p e i bs
                ≡ some (react_all react more e >>= λ d. ok (machine m.parser d m.at m.rest))))
      → (all : Trace) × (m.ctx ≡ es ++ all)
        × (and_then
              (react_all react new c >>= λ e. ok (machine p e i bs))
              (λ m. run d fuel m.parser m.ctx m.at m.rest)
            ≡ some (react_all react all c >>= λ d. ok (machine m.parser d m.at m.rest)))
  and_then-machine es new c p i bs fuel m h =
      rw
        (and_then-bind (react_all react new c) (λ e. machine p e i bs)
          (λ m. run d fuel m.parser m.ctx m.at m.rest))
        (and_then-replay es new c (λ e. run d fuel p e i bs) m h (react_all react new c) refl)

  run-replay :
      (fuel : ℕ) (es : Trace) (c : C) (p : Parser) (i : ℕ) (bs : Bytes) (m : Machine Trace)
      → run tracer fuel p es i bs ≡ some (ok m)
      → (new : Trace) × (m.ctx ≡ es ++ new)
        × (run d fuel p c i bs
            ≡ some (react_all react new c >>= λ e. ok (machine m.parser e m.at m.rest)))
  unfolding run react_all
  run-replay zero es c p i bs m e = cc
  run-replay (suc fuel) es c p i [] m e =
      let f : machine p es i [] ≡ m = cc in
      (
        [],
        ap (λ n. n.ctx) (sym f) ∙ sym (append-nil es),
        ap (λ n. some (ok (machine n.parser c n.at n.rest))) f,
      )
  run-replay (suc fuel) es c p i (b ∷ bs) m e =
      let (n, s, t) = and_then-ok (step tracer p es i b bs) _ e in
      let (new, u, v) = (step-Follows es c p i b bs).replay n s in
      let go = λ (x : C).
        run-replay fuel (es ++ new) x n.parser n.at n.rest m
          (subst (λ z. run tracer fuel n.parser z n.at n.rest ≡ some (ok m)) u t) in
      rw v (and_then-machine es new c n.parser n.at n.rest fuel m go)

  finish-Hands :
      (es : Trace) (c : C) (m : Machine Trace)
      → Hands react es c
          (finish tracer (machine m.parser es m.at m.rest))
          (finish d (machine m.parser c m.at m.rest))
  finish-Hands es c m =
      let p = m.parser in
      rw (finish_lem tracer (machine p es m.at m.rest), finish_lem d (machine p c m.at m.rest))
        (elim (Bool-cases (p.depth == 0)) [
          | inl h ↦ rw h (elim (Bool-cases (ends_num (mode_of p.map))) [
            | inl k ↦ rw k (Hands-calc_num react d agree es c (record p { cur = m.at }) p.type refl)
            | inr k ↦ rw k (hand_none react)
          ])
          | inr h ↦ rw h (hand_none react)
        ])

  Hands-bind :
      (es new : Trace) (c : C) (q : Parser) (t : Trace) (k : C → Result (Parser × C))
      → ((e : C)
          → (more : Trace) × (t ≡ (es ++ new) ++ more)
            × (k e ≡ (react_all react more e >>= λ d. ok (q, d))))
      → (r : Result C) → react_all react new c ≡ r
      → (all : Trace) × (t ≡ es ++ all)
        × ((react_all react new c >>= k) ≡ (react_all react all c >>= λ d. ok (q, d)))
  Hands-bind es new c q t k h (ok e) f =
      let (more, u, v) = h e in
      (new ++ more, u ∙ append_assoc es new more, rw (react_all-append, f) v)
  Hands-bind es new c q t k h (raised x) f =
      let (more, u, v) = h c in
      (new ++ more, u ∙ append_assoc es new more, rw (react_all-append, f) refl)
  Hands-bind es new c q t k h fault f =
      let (more, u, v) = h c in
      (new ++ more, u ∙ append_assoc es new more, rw (react_all-append, f) refl)

  -- What a returning run of `parse` behind some calls is for the other delegate.
  parse-replay :
      (es : Trace) (c : C) (p q : Parser) (t : Trace) (json : Bytes)
      → parse tracer p es json ≡ some (ok (q, t))
      → (new : Trace) × (t ≡ es ++ new)
        × (parse d p c json ≡ some (react_all react new c >>= λ e. ok (q, e)))
  unfolding parse
  parse-replay es c p q t json e =
      let s = record p { line = 1; col = negsuc 0 } in
      let (m, u, v) = after-ok (run tracer (enough json) s es 0 json) (finish tracer) e in
      let (new, x, y) = run-replay (enough json) es c s 0 json m u in
      let w : finish tracer (machine m.parser (es ++ new) m.at m.rest) ≡ ok (q, t) =
        subst (λ z. finish tracer (machine m.parser z m.at m.rest) ≡ ok (q, t)) x v in
      let k = λ (e : C). finish d (machine m.parser e m.at m.rest) in
      let (all, g, h) =
        Hands-bind es new c q t k (λ e. (finish-Hands (es ++ new) e m).replay q t w)
          (react_all react new c) refl in
      (
        all,
        g,
        ap (λ r. after r (finish d)) y
            ∙ ap some (
                bind_assoc (react_all react new c) (λ e. ok (machine m.parser e m.at m.rest))
                  (finish d)
                ∙ h),
      )

  -- For a delegate whose callbacks do no more with a call than the recording delegate can read: if
  -- `parser_parse` returns for the recording delegate, with some calls, then for this one it ends as the
  -- calls do, made in turn from the state that `start` leaves, and where they all return the parser is the
  -- same.
  pub parser_parse-replay :
      (p q : Parser) (c c' : C) (t : Trace) (json : Bytes)
      → d.start (parser_reset p) c ≡ ok c'
      → parser_parse tracer p [] json ≡ some (ok (q, t))
      → parser_parse d p c json ≡ some (react_all react t c' >>= λ e. ok (q, e))
  unfolding parser_parse
  parser_parse-replay p q c c' t json h e =
      let p' = parser_reset p in
      let ((r, e'), u, v) = after-ok (parse tracer p' [] (c_string json)) _ e in
      let (x, y, z) = bind-ok (validate_document_end r) (λ _. ok (r, e')) v in
      let (new, f, g) = parse-replay [] c' p' r e' (c_string json) u in
      let k = λ (n : Parser × C). validate_document_end n.0 >>= λ _. ok n in
      let same : (r, new) ≡ (q, t) = ap (λ w. (r, w)) (sym f) ∙ ok-injective z in
      let end : parser_parse d p c json ≡ some (react_all react new c' >>= λ e. ok (r, e)) =
        ap (λ s. and_then s (λ e. after (parse d p' e (c_string json)) k)) h
        ∙ ap (λ s. after s k) g
        ∙ ap some (
            bind_assoc (react_all react new c') (λ e. ok (r, e)) k
            ∙ ap (λ s. react_all react new c' >>= λ e. s >>= λ _. ok (r, e)) y) in
      subst
        (λ (n : Parser × Trace).
          parser_parse d p c json ≡ some (react_all react n.1 c' >>= λ e. ok (n.0, e)))
        same end
