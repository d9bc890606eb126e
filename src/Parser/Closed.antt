-- ===== src/Parser/Closed.antt =====
-- What ext/oj_windows/parser.c's `parser_parse` checks behind the input.
use oj_windows.Base.{◌≡◌, refl, sym, ◌∙◌, ap, some, none, Bytes, arith}
use oj_windows.Parser.State.{Parser, Result, ok, raised, fault, ◌>>=◌, Delegate, parser_reset}
use oj_windows.Parser.Run.{
  validate_primitives, c_string, parse, parser_parse, validate_document_end,
  validate_non_primitives, Run, after, and_then,
}

ok-parser :
    {C : Type 0} {p q : Parser} {c e : C}
    → ◌≡◌ {A = Result (Parser × C)} (ok (p, c)) (ok (q, e))
    → p ≡ q
ok-parser h = cc

module _ {A B : Type 0} where
  pub and_then-ok :
      (r : Result A) (k : A → Run B) {b : B}
      → and_then r k ≡ some (ok b)
      → (a : A) × (r ≡ ok a) × (k a ≡ some (ok b))
  and_then-ok (ok a) k e = (a, refl, e)
  and_then-ok (raised x) k e = cc
  and_then-ok fault k e = cc

  pub bind-ok :
      (r : Result A) (k : A → Result B) {b : B}
      → (r >>= k) ≡ ok b
      → (a : A) × (r ≡ ok a) × (k a ≡ ok b)
  bind-ok (ok a) k e = (a, refl, e)
  bind-ok (raised x) k e = cc
  bind-ok fault k e = cc

  pub after-ok :
      (r : Run A) (k : A → Result B) {b : B}
      → after r k ≡ some (ok b)
      → (a : A) × (r ≡ some (ok a)) × (k a ≡ ok b)
  after-ok none k e = cc
  after-ok (some (ok a)) k e = (a, refl, cc)
  after-ok (some (raised x)) k e = cc
  after-ok (some fault) k e = cc

-- What `validate_document_end` passes has every bracket closed.
pub valid-closed : (q : Parser) (u : Unit {0}) → validate_document_end q ≡ ok u → q.depth ≡ 0
unfolding validate_document_end validate_non_primitives
valid-closed q u e =
    let (x, y, z) = bind-ok (validate_primitives q) (λ _. validate_non_primitives q) e in
    ground (arith, z)

module _ {C : Type 0} (d : Delegate C) where
  -- Whatever the document and the delegate: if `parser_parse` returns, it is at depth 0, and `parse`
  -- came to the same state, which `validate_document_end` passes.
  pub parser_parse-closed :
      (p : Parser) (c : C) (json : Bytes) (q : Parser) (e : C)
      → parser_parse d p c json ≡ some (ok (q, e))
      → q.depth ≡ 0
  unfolding parser_parse
  parser_parse-closed p c json q e h =
      let (c', s, t) = and_then-ok (d.start (parser_reset p) c) _ h in
      let ((r, e'), u, v) = after-ok (parse d (parser_reset p) c' (c_string json)) _ t in
      let (x, y, z) = bind-ok (validate_document_end r) (λ _. ok (r, e')) v in
      ap (λ t. t.depth) (sym (ok-parser z)) ∙ valid-closed r x y
