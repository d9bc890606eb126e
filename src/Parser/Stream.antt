-- ===== src/Parser/Stream.antt =====
-- ext/oj_windows/parser.c: documents that come in pieces, from a reader or a file, and the option
-- `just_one`. What the reader and the file answer is an argument.
use oj_windows.Base.{
  Bool, Option, none, some, List, [], ◌∷◌, Bytes, ltb, ◌==◌, if◌then◌else◌, length,
}
use oj_windows.Parser.State.{
  Parser, not_closed, open_error, read_error, ok, raised, Delegate, parse_error, parser_reset,
}
use oj_windows.Parser.Run.{Run, and_then, parse, c_string}

-- One pass of `load`: `readpartial` fills the buffer and `eof?` answers, or `readpartial` raises
-- EOFError.
pub data Answer : Type 0 where
  piece : Bytes → Bool → Answer
  end_of_file : Answer

-- A run and then another.
abbrev pub then_run : {A B : Type 0} → Run A → (A → Run B) → Run B
then_run none k = none
then_run (some r) k = and_then r k

module _ {C : Type 0} (d : Delegate C) where
  -- `parse` on a piece that is not empty.
  unfoldable pub feed : Parser → C → Bytes → Run (Parser × C)
  unfolding parse c_string
  feed p c bs = if length bs == 0 then some (ok (p, c)) else parse d p c (c_string bs)

  -- The loop of `load` over the answers; with no more answers it is still waiting, `none`.
  unfoldable pub load_loop : List Answer → Parser → C → Run (Parser × C)
  unfolding feed
  load_loop [] p c = none
  load_loop (end_of_file ∷ rest) p c = some (ok (p, c))
  load_loop (piece bs eof ∷ rest) p c = then_run (feed p c bs) λ (q, e).
      let more = load_loop rest q e in
      if eof then some (if ltb 0 q.depth then parse_error q not_closed else ok (q, e)) else more

  -- parser_load, before the delegate's `result`.
  unfoldable pub parser_load : Parser → C → List Answer → Run (Parser × C)
  unfolding load_loop parser_reset
  parser_load p c rest = let q = parser_reset p in and_then (d.start q c) λ e. load_loop rest q e

  -- The loop of `parser_file` over what `read` returns, none for an error; the end of the list is
  -- the end of the file.
  unfoldable pub file_loop : List (Option Bytes) → Parser → C → Run (Parser × C)
  unfolding parse c_string
  file_loop [] p c = some (ok (p, c))
  file_loop (none ∷ rs) p c = some (raised read_error)
  file_loop (some bs ∷ rs) p c = then_run (parse d p c (c_string bs)) λ (q, e). file_loop rs q e

  -- parser_file, before the delegate's `result`; none for a file that cannot be opened.
  unfoldable pub parser_file : Parser → C → Option (List (Option Bytes)) → Run (Parser × C)
  unfolding file_loop parser_reset
  parser_file p c file =
      let q = parser_reset p in
      and_then (d.start q c)
        λ e. elim file [ none ↦ some (raised open_error) | some rs ↦ file_loop rs q e ]

abbrev pub parser_just_one : Parser → Bool
parser_just_one p = p.just_one

abbrev pub parser_just_one_set : Bool → Parser → Parser
parser_just_one_set v p = record p { just_one = v }
