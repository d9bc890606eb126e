-- ===== src/Parser/Tables/Rows.antt =====
-- The tables of ext/oj_windows/parser.c are string literals of 32 characters to a row.
use Prim.Native.String.{String}
use oj_windows.Base.{List, [], ◌∷◌, ◌++◌, Bytes, codes}

unfoldable pub rows : List String → Bytes
rows [] = []
rows (s ∷ ss) = codes s ++ rows ss
