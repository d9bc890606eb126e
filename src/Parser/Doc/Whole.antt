-- ===== src/Parser/Doc/Whole.antt =====
-- ext/oj_windows/parser.c's `parser_parse` at a whole document.
use oj_windows.Base.{
  ℕ, zero, suc, ◌≤◌, ◌<◌, ◌≡◌, ◌⊎◌, inl, inr, refl, ◌∙◌, true, false, some, [], Bytes, arith,
  append-nil, Bool-cases, ◌==◌, if◌then◌else◌,
}
use oj_windows.Base.Int.{negsuc}
use oj_windows.Parser.Tables.{Map, at_value, at_digit, at_zero, mode_of}
use oj_windows.Parser.State.{Fun, top_fun, Parser, ok, ◌>>=◌, parser_reset}
use oj_windows.Parser.Num.{calc_num}
use oj_windows.Parser.Step.Loop.{Machine, machine}
use oj_windows.Parser.Run.{
  Run, after, run, c_string, enough, finish, parse, parser_parse, validate_document_end, ends_num,
}
use oj_windows.Parser.Trace.{tracer}
use oj_windows.Parser.Leads.{Leads, now, run-Leads}
use oj_windows.Parser.Progress.{run-enough-ne-none}
use oj_windows.Parser.Doc.{Json, IsJson, height, print, events}
use oj_windows.Parser.Doc.Frame.{Kept, After, settled, pending, handed, calc_num-pending}
use oj_windows.Parser.Doc.Behind.{Trace, handed-Kept}
use oj_windows.Parser.Doc.Nest.{value-Leads}
use oj_windows.Parser.Doc.Chars.{IsChars-IsBytes, c_string-IsChars, print-IsChars}

-- A parser in between documents: a new one, or one that a document has left.
pub record IsReady (p : Parser) : Type 0 where
  pub one : p.just_one ≡ false
  pub stack : p.stack 0 ≡ top_fun

abbrev pub tops : ℕ → Fun
tops n = top_fun

-- The end of the input, with the calls `c` made or one to make.
abbrev AtEnd : Trace → Machine Trace → Type 0
AtEnd c m = After 0 tops c [] m × (m.rest ≡ [])

Kept-IsReady : {p : Parser} → Kept 0 tops p → IsReady p
Kept-IsReady k = record { one = k.one; stack = k.stack 0 (omega arith) }

valid_at_value : (q : Parser) → q.depth ≡ 0 → q.map ≡ at_value → validate_document_end q ≡ ok tt
unfolding validate_document_end mode_of
valid_at_value q d e = rw (d, e) (elim (Bool-cases (q.ri == 0)) [ inl h ↦ rw h | inr h ↦ rw h ])

valid_num :
    (q : Parser)
    → q.depth ≡ 0
    → (q.map ≡ at_digit) ⊎ (q.map ≡ at_zero)
    → validate_document_end q ≡ ok tt
unfolding validate_document_end mode_of
valid_num q d (inl e) = rw (d, e) (elim (Bool-cases (q.ri == 0)) [ inl h ↦ rw h | inr h ↦ rw h ])
valid_num q d (inr e) = rw (d, e) (elim (Bool-cases (q.ri == 0)) [ inl h ↦ rw h | inr h ↦ rw h ])

num_ends : (m : Map) → (m ≡ at_digit) ⊎ (m ≡ at_zero) → ends_num (mode_of m) ≡ true
unfolding ends_num mode_of
num_ends m (inl e) = rw e
num_ends m (inr e) = rw e

value-no_end : ends_num (mode_of at_value) ≡ false
unfolding ends_num mode_of
value-no_end = refl

After-rest :
    {n : ℕ} {f : ℕ → Fun} {c : Trace} {rest : Bytes} {m : Machine Trace}
    → After n f c rest m
    → m.rest ≡ rest
After-rest (settled k e) = refl
After-rest (pending k h s) = refl

finish_eq :
    (m : Machine Trace) (p : Parser)
    → m.parser ≡ p
    → p.depth ≡ 0
    → finish tracer m ≡ (
        if ends_num (mode_of p.map)
        then calc_num tracer (record p { cur = m.at }) m.ctx
        else ok (p, m.ctx))
unfolding finish calc_num ends_num
finish_eq m p e d = rw (e, d)

pub finish-After :
    (c : Trace) (m : Machine Trace)
    → After 0 tops c [] m
    → (q : Parser) × IsReady q × (finish tracer m ≡ ok (q, c)) × (validate_document_end q ≡ ok tt)
finish-After c m (settled {p} k e) = (
  p,
  Kept-IsReady k,
  rw (finish_eq (machine p c _ []) p refl k.depth, e, value-no_end),
  valid_at_value p k.depth e,
)
finish-After c m (pending {p} {e} {i} {x} k h s) = (
  handed p i,
  Kept-IsReady (handed-Kept i k),
  rw (
    finish_eq (machine p e i []) p refl k.depth,
    num_ends p.map h.map,
    calc_num-pending 0 tops p e i x k h,
    ← s,
  ),
  valid_num (handed p i) k.depth h.map,
)

tops-stack : (p : Parser) → IsReady p → (i : ℕ) → i ≤ 0 → p.stack i ≡ tops i
tops-stack p r zero h = r.stack
tops-stack p r (suc i) h = absurd (omega arith)

abbrev pub first : Parser → Parser
first p = record (parser_reset p) { line = 1; col = negsuc 0 }

pub first-Kept : (p : Parser) → IsReady p → Kept 0 tops (first p)
unfolding parser_reset
first-Kept p r = record { depth = refl; stack = tops-stack p r; one = r.one }

pub first-map : (p : Parser) → (first p).map ≡ at_value
unfolding parser_reset
first-map p = refl

first-key : (p : Parser) → (parser_reset p).key ≡ []
unfolding parser_reset
first-key p = refl

-- The loop gets to the end of a document.
pub run-events :
    (v : Json) (p : Parser)
    → IsJson v
    → height v < 1024
    → IsReady p
    → (m : Machine Trace) × After 0 tops (events top_fun [] v) [] m
      × (run tracer (enough (print v)) (first p) [] 0 (print v) ≡ some (ok m))
run-events v p h r y =
    let goes : (m : Machine Trace)
        → After 0 tops (events (tops 0) (first p).key v) [] m
        → Leads tracer (AtEnd (events top_fun [] v)) m =
      λ m a. now (rw (first-key p) at a, After-rest a) in
    let (m, (a, over), e) =
      run-Leads tracer {m = machine (first p) [] 0 (print v)} (λ n q. q.1)
        (rw append-nil at (
          value-Leads (AtEnd (events top_fun [] v)) v 0 tops (first p) [] 0 [] h (omega arith)
            (first-Kept p y) (inl (first-map p)) tt goes))
        (enough (print v))
        (run-enough-ne-none tracer (first p) [] (print v)
          (IsChars-IsBytes (print v) (print-IsChars v h))) in
    (m, a, e)

-- From the outcome of the loop to that of the whole.
pub parser_parse-run :
    (p : Parser) (c : Trace) (text : Bytes) (r : Run (Machine Trace))
    → c_string text ≡ text
    → run tracer (enough text) (first p) [] 0 text ≡ r
    → parser_parse tracer p c text
      ≡ after (after r (finish tracer)) (λ (q, e). validate_document_end q >>= λ _. ok (q, e))
unfolding parser_parse parse
parser_parse-run p c text r s e = rw (s, e)

-- A document in the compact form of fewer than 1,024 levels is read by a ready parser to its end: the
-- parser is ready again, and the recording delegate has the calls that the
-- specification lists, in their order.
pub parser_parse-print :
    (v : Json) (p : Parser) (c : Trace)
    → IsJson v
    → height v < 1024
    → IsReady p
    → (q : Parser) × IsReady q
      × (parser_parse tracer p c (print v) ≡ some (ok (q, events top_fun [] v)))
parser_parse-print v p c h r y =
    let (m, a, e) = run-events v p h r y in
    let (q, y', f, g) = finish-After (events top_fun [] v) m a in
    (
      q,
      y',
      parser_parse-run p c (print v) _ (c_string-IsChars (print v) (print-IsChars v h)) e
          ∙ rw (f, g),
    )
