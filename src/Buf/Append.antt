-- ===== src/Buf/Append.antt =====
-- ext/oj_windows/buf.h: appending, against the list of the bytes appended.
use oj_windows.Base.{
  ℕ, suc, ◌+◌, ◌-◌, ◌*◌, ◌/◌, ◌^◌, ◌≤◌, ◌<◌, ◌≡◌, inl, inr, refl, ap, sym, ◌∙◌, Bool, true, false,
  none, some, [], ◌∷◌, ◌++◌, Bytes, length, set, take, replicate, leb, lt→ltb, Bool-cases,
  if◌then◌else◌, append-nil, arith, length-take, length-set, get_elem?, get_elem?-set_self, map,
}
use oj_windows.Parser.State.{ok}
use oj_windows.Cells.{copy_to, copy_to-ok, take-set_same, take-kept, length-filled, map_some-append}
use oj_windows.Buf.{
  Buf, buf_init, buf_reset, grow, buf_str, new_length, write, buf_append_string, buf_append,
}

-- `end` is the array's last byte, which keeps room for the NUL, and `tail` is not behind it.
pub record IsBuf (b : Buf) : Type 0 where
  pub size : length b.cells ≡ suc b.end
  pub room : b.tail ≤ b.end
  pub some_room : 4 ≤ b.end

-- The buffer holds `s`.
pub record Holds (s : Bytes) (b : Buf) : Type 0 where
  pub valid : IsBuf b
  pub text : take b.tail b.cells ≡ map some s

write-Holds :
    (s t : Bytes) (b : Buf)
    → Holds s b
    → b.tail + length t ≤ b.end
    → (q : Buf) × (write t b ≡ ok q) × Holds (s ++ t) q
unfolding write
write-Holds s t b h room =
    let (cells, e, l, k) = copy_to-ok b.tail t b.cells (omega (arith, h.valid.size)) in
    (
      record b { cells = cells; tail = b.tail + length t },
      rw e,
      record {
        valid = record { size = l ∙ h.valid.size; room = room; some_room = h.valid.some_room };
        text = k ∙ ap (λ z. z ++ map some t) h.text ∙ sym (map_some-append s t);
      },
    )

kept-Holds :
    (n m : ℕ) (s : Bytes) (b : Buf)
    → Holds s b
    → suc b.end ≤ n
    → m ≤ n
    → b.tail ≤ m
    → Holds s (record b {
      cells = take m b.cells ++ replicate (n - length (take m b.cells)) none;
      end = n - 1;
      heap = true;
    })
kept-Holds n m s b h k l t =
    let fits : length (take m b.cells) ≤ n = omega (arith, length-take m b.cells) in
    record {
      valid = record {
        size = omega (arith, length-filled n m b.cells none fits);
        room = omega (arith, h.valid.room);
        some_room = omega (arith, h.valid.some_room);
      };
      text = take-kept b.tail m b.cells _ t (omega (arith, h.valid.size, h.valid.room)) ∙ h.text;
    }

grow-Holds : (n : ℕ) (s : Bytes) (b : Buf) → Holds s b → suc b.end ≤ n → Holds s (grow n b)
unfolding grow
grow-Holds n s b h k = elim (Bool-cases b.heap) [
  | inl e ↦ rw e (kept-Holds n n s b h k (omega arith) (omega (arith, h.valid.room)))
  | inr e ↦ rw e (kept-Holds n b.end s b h k (omega arith) h.valid.room)
]

grow-end : (n : ℕ) (b : Buf) → (grow n b).end ≡ n - 1
unfolding grow
grow-end n b = refl

grow-tail : (n : ℕ) (b : Buf) → (grow n b).tail ≡ b.tail
unfolding grow
grow-tail n b = refl

new_length-small : (a b : ℕ) → 2 * a + b < 2 ^ 64 → new_length a b ≡ a + b + a / 2
new_length-small a b h = omega arith

-- A write behind a test that makes room.
appended-Holds :
    (s t : Bytes) (b : Buf) (test : Bool) (n : ℕ)
    → Holds s b
    → suc b.end ≤ n
    → b.tail + length t ≤ n - 1
    → (test ≡ false → b.tail + length t ≤ b.end)
    → (q : Buf) × (write t (if test then grow n b else b) ≡ ok q) × Holds (s ++ t) q
appended-Holds s t b true n h k l m =
    write-Holds s t (grow n b) (grow-Holds n s b h k) (omega (arith, grow-end n b, grow-tail n b))
appended-Holds s t b false n h k l m = write-Holds s t b h (m refl)

buf_append_string_eq :
    (c : ℕ) (t : Bytes) (b : Buf)
    → buf_append_string (c ∷ t) b
      ≡ write (c ∷ t) (
          if leb b.end (b.tail + length (c ∷ t))
          then grow (new_length b.end (length (c ∷ t))) b
          else b)
unfolding buf_append_string write grow
buf_append_string_eq c t b = ground arith

buf_append_eq :
    (c : ℕ) (b : Buf)
    → buf_append c b ≡ write (c ∷ []) (if leb b.end b.tail then grow (new_length b.end 0) b else b)
unfolding buf_append write grow
buf_append_eq c b = refl

not-leb : (a b : ℕ) → leb a b ≡ false → b < a
not-leb a b h = ground arith

-- On a buffer that holds `s`, `buf_append_string` of `t` ends without an access outside the array, and
-- the buffer holds `s` and then `t`, while the sizes stay in what a `size_t` can count.
pub buf_append_string-Holds :
    (s t : Bytes) (b : Buf)
    → Holds s b
    → 2 * b.end + length t < 2 ^ 64
    → (q : Buf) × (buf_append_string t b ≡ ok q) × Holds (s ++ t) q
unfolding buf_append_string
buf_append_string-Holds s [] b h r = (b, refl, rw append-nil h)
buf_append_string-Holds s (c ∷ t) b h r =
    let n = new_length b.end (length (c ∷ t)) in
    let large = new_length-small b.end (length (c ∷ t)) r in
    rw (buf_append_string_eq c t b) (
      appended-Holds s (c ∷ t) b (leb b.end (b.tail + length (c ∷ t))) n h
        (omega (arith, large, h.valid.some_room))
        (omega (arith, large, h.valid.room, h.valid.some_room))
        (λ e. omega (arith, not-leb b.end (b.tail + length (c ∷ t)) e)))

-- On a buffer that holds `s`, `buf_append` of a byte ends without an access outside the array, and the
-- buffer holds `s` and then the byte, while the sizes stay in what a `size_t` can count.
pub buf_append-Holds :
    (s : Bytes) (c : ℕ) (b : Buf)
    → Holds s b
    → 2 * b.end < 2 ^ 64
    → (q : Buf) × (buf_append c b ≡ ok q) × Holds (s ++ c ∷ []) q
buf_append-Holds s c b h r =
    let n = new_length b.end 0 in
    let large = new_length-small b.end 0 (omega arith) in
    rw (buf_append_eq c b) (
      appended-Holds s (c ∷ []) b (leb b.end b.tail) n h (omega (arith, large, h.valid.some_room))
        (omega (arith, large, h.valid.room, h.valid.some_room))
        (λ e. omega (arith, not-leb b.end b.tail e)))

-- A new buffer is empty, and one that `buf_reset` has been called on is empty again.
pub buf_init-Holds : Holds [] buf_init
buf_init-Holds = record {
  valid = record { size = refl; room = omega arith; some_room = omega arith };
  text = refl;
}

pub buf_reset-Holds : (s : Bytes) (b : Buf) → Holds s b → Holds [] (buf_reset b)
buf_reset-Holds s b h = record {
  valid = record { size = h.valid.size; room = omega arith; some_room = h.valid.some_room };
  text = refl;
}

-- `buf_str` ends without an access outside the array: the buffer holds what it held, and a NUL stands
-- behind it.
pub buf_str-Holds :
    (s : Bytes) (b : Buf)
    → Holds s b
    → (q : Buf) × (buf_str b ≡ ok q) × Holds s q × (get_elem? q.cells q.tail ≡ some (some 0))
unfolding buf_str copy_to
buf_str-Holds s b h =
    let inside : b.tail < length b.cells = omega (arith, h.valid.size, h.valid.room) in
    (
      record b { cells = set b.cells b.tail (some 0) },
      rw (lt→ltb b.tail (length b.cells) inside),
      record {
        valid = record {
          size = length-set b.cells b.tail (some 0) ∙ h.valid.size;
          room = h.valid.room;
          some_room = h.valid.some_room;
        };
        text = take-set_same b.cells b.tail (some 0) ∙ h.text;
      },
      get_elem?-set_self b.cells b.tail (some 0) inside,
    )
