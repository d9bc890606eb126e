-- ===== src/Buf/Tests.antt =====
-- The growing buffer on concrete bytes.
use oj_windows.Base.{◌≡◌, some, [], ◌∷◌, ◌++◌, Bytes, replicate, get_elem?, arith}
use oj_windows.Parser.State.{ok}
use oj_windows.Buf.{Buf, buf_init, buf_str, buf_append, buf_append_string}
use oj_windows.Buf.Append.{
  Holds, buf_init-Holds, buf_append_string-Holds, buf_append-Holds, buf_str-Holds,
}

-- More than the struct's own array has room for.
abbrev long : Bytes
long = replicate 1500 b'a'

buf_append_string-Holds_example :
    (q : Buf) × (buf_append_string long buf_init ≡ ok q) × Holds ([] ++ long) q
buf_append_string-Holds_example =
    buf_append_string-Holds [] long buf_init buf_init-Holds (omega arith)

buf_append-Holds_example : (q : Buf) × (buf_append b'x' buf_init ≡ ok q) × Holds (b'x' ∷ []) q
buf_append-Holds_example = buf_append-Holds [] b'x' buf_init buf_init-Holds (omega arith)

buf_str-Holds_example :
    (q : Buf) × (buf_str buf_init ≡ ok q) × Holds [] q × (get_elem? q.cells q.tail ≡ some (some 0))
buf_str-Holds_example = buf_str-Holds [] buf_init buf_init-Holds
