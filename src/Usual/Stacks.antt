-- ===== src/Usual/Stacks.antt =====
-- The growing stacks of ext/oj_windows/usual.c: `head`, `tail` and `end` of the values, the collections
-- and the keys.
use oj_windows.Base.{
  ℕ, ◌+◌, ◌*◌, ◌≤◌, ◌<◌, ◌≡◌, ap, ◌∙◌, append_assoc, List, [], ◌∷◌, ◌++◌, length, length-append,
  ltb, leb, if◌then◌else◌, arith,
}
use oj_windows.Parser.State.{Result, ok, fault, ◌>>=◌}

-- `items` are the entries from `head` up to `tail`, the first one pushed first, and `cap` is `end - head`.
pub record Stack (A : Type 0) : Type 0 where
  pub items : List A
  pub cap : ℕ

module _ {A : Type 0} where
  -- `if (end <= tail + extra)`: the array is reallocated at twice its size, which is taken to fit the memory.
  unfoldable pub grow : ℕ → Stack A → Stack A
  grow extra s = if leb s.cap (length s.items + extra) then record s { cap = s.cap * 2 } else s

  -- `*tail = a; tail++`, where a write at `end` is a fault.
  unfoldable pub put : A → Stack A → Result (Stack A)
  put a s =
      if ltb (length s.items) s.cap then ok (record s { items = s.items ++ a ∷ [] }) else fault

  -- Room for one entry more always, and for the two that `push2` writes, if it has doubled.
  pub record IsRoomy (s : Stack A) : Type 0 where
    pub two : 2 ≤ s.cap
    pub within : length s.items ≤ s.cap

  pub grow-items : (n : ℕ) (s : Stack A) → (grow n s).items ≡ s.items
  unfolding grow
  grow-items n s = ground arith

  pub grow-IsRoomy : (n : ℕ) (s : Stack A) → IsRoomy s → IsRoomy (grow n s)
  unfolding grow
  grow-IsRoomy n s r = ground arith

  pub grow-room : (n : ℕ) (s : Stack A) → n ≤ 1 → IsRoomy s → length s.items + n < (grow n s).cap
  unfolding grow
  grow-room n s h r = ground (arith, r.two, r.within)

  pub put-room :
      (a : A) (s : Stack A)
      → length s.items < s.cap
      → put a s ≡ ok (record s { items = s.items ++ a ∷ [] })
  unfolding put
  put-room a s h = ground arith

  pub append-IsRoomy :
      (a : A) (s : Stack A)
      → length s.items < s.cap
      → IsRoomy s
      → IsRoomy (record s { items = s.items ++ a ∷ [] })
  append-IsRoomy a s h r = record {
    two = r.two;
    within = omega (arith, length-append s.items (a ∷ []));
  }

  -- Entries on a stack that has grown for them.
  abbrev pub Puts : List A → Stack A → Result (Stack A) → Type 0
  Puts more s res = (t : Stack A) × (res ≡ ok t) × (t.items ≡ s.items ++ more) × IsRoomy t

  pub grow-put :
      (n : ℕ) (a : A) (s : Stack A) → n ≤ 1 → IsRoomy s → Puts (a ∷ []) s (put a (grow n s))
  grow-put n a s h r =
      let room : length (grow n s).items < (grow n s).cap =
        rw (grow-items n s) (omega (arith, grow-room n s h r)) in
      (
        record (grow n s) { items = (grow n s).items ++ a ∷ [] },
        put-room a (grow n s) room,
        ap (λ l. l ++ a ∷ []) (grow-items n s),
        append-IsRoomy a (grow n s) room (grow-IsRoomy n s r),
      )

  pub grow-put-put :
      (a b : A) (s : Stack A) → IsRoomy s → Puts (a ∷ b ∷ []) s (put a (grow 1 s) >>= put b)
  grow-put-put a b s r =
      let g = grow 1 s in
      let e = grow-items 1 s in
      let room : length g.items + 1 < g.cap = rw e (grow-room 1 s (omega arith) r) in
      let t : Stack A = record g { items = g.items ++ a ∷ [] } in
      let more : length t.items < t.cap = omega (arith, length-append g.items (a ∷ []), room) in
      (
        record t { items = t.items ++ b ∷ [] },
        rw (put-room a g (omega (arith, room))) (put-room b t more),
        append_assoc g.items (a ∷ []) (b ∷ []) ∙ ap (λ l. l ++ a ∷ b ∷ []) e,
        append-IsRoomy b t more (append-IsRoomy a g (omega (arith, room)) (grow-IsRoomy 1 s r)),
      )
