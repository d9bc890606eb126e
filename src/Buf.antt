-- ===== src/Buf.antt =====
-- ext/oj_windows/buf.h: a buffer of bytes that grows, and moves from the struct's own array to the heap.
pub mod Append
mod Tests
use oj_windows.Base.{
  ℕ, suc, ◌+◌, ◌-◌, ◌/◌, ◌%◌, ◌^◌, Bool, true, false, Option, none, some, List, [], ◌∷◌, ◌++◌,
  Bytes, length, set, take, replicate, leb, ltb, ◌==◌, if◌then◌else◌,
}
use oj_windows.Cells.{copy_to}
use oj_windows.Parser.State.{Result, ok, fault, ◌>>=◌}

-- The bytes that `head` points at, none where nothing has been written; `end` and `tail` as offsets
-- from `head`; and whether `head` has left `base`.
pub record Buf : Type 0 where
  pub cells : List (Option ℕ)
  pub end : ℕ
  pub tail : ℕ
  pub heap : Bool

abbrev pub base_size : ℕ
base_size = 1024

abbrev pub buf_init : Buf
buf_init = record { cells = replicate base_size none; end = base_size - 1; tail = 0; heap = false }

abbrev pub buf_reset : Buf → Buf
buf_reset b = record b { tail = 0 }

abbrev pub buf_len : Buf → ℕ
buf_len b = b.tail

-- OJ_R_ALLOC_N with memcpy of `len` bytes out of `base`, or OJ_R_REALLOC_N.
unfoldable pub grow : ℕ → Buf → Buf
grow new_len b =
    let kept = if b.heap then take new_len b.cells else take b.end b.cells in
    record b {
      cells = kept ++ replicate (new_len - length kept) none;
      end = new_len - 1;
      heap = true;
    }

-- buf_str, less the pointer that it returns: the bytes end with a NUL.
unfoldable pub buf_str : Buf → Result Buf
unfolding copy_to
buf_str b = do cells ← copy_to b.tail (0 ∷ []) b.cells; ok (record b { cells = cells })

-- The new length of buf_append_string, a `size_t`.
abbrev pub new_length : ℕ → ℕ → ℕ
new_length len slen = (len + slen + len / 2) % 2 ^ 64

unfoldable pub write : Bytes → Buf → Result Buf
unfolding copy_to
write s b = do
  cells ← copy_to b.tail s b.cells
  ok (record b { cells = cells; tail = b.tail + length s })

unfoldable pub buf_append_string : Bytes → Buf → Result Buf
unfolding grow write
buf_append_string s b =
    if length s == 0
    then ok b
    else write s (if leb b.end (b.tail + length s) then grow (new_length b.end (length s)) b else b)

unfoldable pub buf_append : ℕ → Buf → Result Buf
unfolding grow write
buf_append c b = write (c ∷ []) (if leb b.end b.tail then grow (new_length b.end 0) b else b)
