-- ===== src/Parser/Step/Loop.antt =====
-- ext/oj_windows/parser.c, parse: the variables of the loop, its inner scans and small tests.
use oj_windows.Base.{
  ℕ, zero, suc, ◌+◌, ◌-◌, Bool, true, false, ◌&&◌, Option, none, some, [], ◌∷◌, Bytes, length, ◌==◌,
  if◌then◌else◌,
}
use oj_windows.Parser.Tables.{Map, at_value, at_after, code_at, space_code, mode_of}
use oj_windows.Parser.State.{Fun, object_fun, array_fun, Parser, Result, ok, fault}

pub record Machine (C : Type 0) : Type 0 where
  pub parser : Parser
  pub ctx : C
  pub at : ℕ
  pub rest : Bytes

abbrev pub machine : {C : Type 0} → Parser → C → ℕ → Bytes → Machine C
machine p c i bs = record { parser = p; ctx = c; at = i; rest = bs }

-- `for (; code == m[*b]; b++) {}`: the bytes that it passes, and those it leaves.
unfoldable pub scanned : Map → ℕ → Bytes → Bytes
scanned m a [] = []
scanned m a (b ∷ bs) = if code_at m b == a then b ∷ scanned m a bs else []

unfoldable pub unscanned : Map → ℕ → Bytes → Bytes
unscanned m a [] = []
unscanned m a (b ∷ bs) = if code_at m b == a then unscanned m a bs else b ∷ bs

-- `for (; SKIP_CHAR == space_map[*b]; b++) {}`
unfoldable pub skip_space : Bytes → Bytes
skip_space [] = []
skip_space (b ∷ bs) = if space_code b == b'a' then skip_space bs else b ∷ bs

-- `*b`, which is 0 at the end of the input.
abbrev pub head_byte : Bytes → ℕ
head_byte [] = 0
head_byte (b ∷ bs) = b

-- `b += n`.
abbrev pub drop_bytes : ℕ → Bytes → Bytes
drop_bytes zero bs = bs
drop_bytes (suc n) [] = []
drop_bytes (suc n) (b ∷ bs) = drop_bytes n bs

-- The position of `left`, the end of the bytes `bs` that begin at `i`.
abbrev pub moved : ℕ → Bytes → Bytes → ℕ
moved i bs left = i + (length bs - length left)

-- `b[1] == w[0] && b[2] == w[1] && ...`
unfoldable pub starts : Bytes → Bytes → Bool
starts [] bs = true
starts (w ∷ ws) [] = false
starts (w ∷ ws) (b ∷ bs) = (w == b) && starts ws bs

abbrev pub is_object : Fun → Bool
is_object object_fun = true
is_object _ = false

abbrev pub is_array : Fun → Bool
is_array array_fun = true
is_array _ = false

-- `(n == p->depth) ? value_map : after_map`
abbrev pub map_at : ℕ → Parser → Map
map_at n p = if p.depth == n then at_value else at_after

-- `':' == p->next_map[256]`
abbrev pub is_key : Option Map → Result Bool
is_key none = fault
is_key (some m) = ok (mode_of m == b':')

abbrev pub deref : Option Map → Result Map
deref none = fault
deref (some m) = ok m
