-- ===== src/Parser/Tables/Strings.antt =====
-- ext/oj_windows/parser.c: the tables for strings, escapes and blanks.
use oj_windows.Base.{[], ◌∷◌, Bytes}
use oj_windows.Parser.Tables.Rows.{rows}

unfoldable pub string_map : Bytes
unfolding rows
string_map = rows (
    "................................" ∷ "RRzRRRRRRRRRRRRRRRRRRRRRRRRRRRRR"
    ∷ "RRRRRRRRRRRRRRRRRRRRRRRRRRRRARRR" ∷ "RRRRRRRRRRRRRRRRRRRRRRRRRRRRRRRR"
    ∷ "................................" ∷ "................................"
    ∷ "MMMMMMMMMMMMMMMMMMMMMMMMMMMMMMMM" ∷ "PPPPPPPPPPPPPPPPQQQQQQQQ........s" ∷ [])

unfoldable pub esc_map : Bytes
unfolding rows
esc_map = rows (
    "................................" ∷ "..B............B................"
    ∷ "............................B..." ∷ "..B...B.......B...B.BU.........."
    ∷ "................................" ∷ "................................"
    ∷ "................................" ∷ "................................~" ∷ [])

unfoldable pub u_map : Bytes
unfolding rows
u_map = rows (
    "................................" ∷ "................EEEEEEEEEE......"
    ∷ ".EEEEEE........................." ∷ ".EEEEEE........................."
    ∷ "................................" ∷ "................................"
    ∷ "................................" ∷ "................................u" ∷ [])

unfoldable pub utf_map : Bytes
unfolding rows
utf_map = rows (
    "................................" ∷ "................................"
    ∷ "................................" ∷ "................................"
    ∷ "SSSSSSSSSSSSSSSSSSSSSSSSSSSSSSSS" ∷ "SSSSSSSSSSSSSSSSSSSSSSSSSSSSSSSS"
    ∷ "................................" ∷ "................................8" ∷ [])

unfoldable pub space_map : Bytes
unfolding rows
space_map = rows (
    ".........ab..a.................." ∷ "a..............................."
    ∷ "................................" ∷ "................................"
    ∷ "................................" ∷ "................................"
    ∷ "................................" ∷ "................................S" ∷ [])

unfoldable pub trail_map : Bytes
unfolding rows
trail_map = rows (
    ".........ab..a.................." ∷ "a..............................."
    ∷ "................................" ∷ "................................"
    ∷ "................................" ∷ "................................"
    ∷ "................................" ∷ "................................R" ∷ [])
