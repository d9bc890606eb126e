-- ===== src/Parser/Tables/Bigs.antt =====
-- ext/oj_windows/parser.c: the tables for numbers kept as text.
use oj_windows.Base.{[], ◌∷◌, Bytes}
use oj_windows.Parser.Tables.Rows.{rows}

unfoldable pub big_digit_map : Bytes
unfolding rows
big_digit_map = rows (
    ".........rs..r.................." ∷ "r...........u.D.CCCCCCCCCC......"
    ∷ ".....J.......................H.." ∷ ".....J.......................G.."
    ∷ "................................" ∷ "................................"
    ∷ "................................" ∷ "................................D" ∷ [])

unfoldable pub big_dot_map : Bytes
unfolding rows
big_dot_map = rows (
    "................................" ∷ "................IIIIIIIIII......"
    ∷ "................................" ∷ "................................"
    ∷ "................................" ∷ "................................"
    ∷ "................................" ∷ "................................o" ∷ [])

unfoldable pub big_frac_map : Bytes
unfolding rows
big_frac_map = rows (
    ".........rs..r.................." ∷ "r...........u...IIIIIIIIII......"
    ∷ ".....J.......................H.." ∷ ".....J.......................G.."
    ∷ "................................" ∷ "................................"
    ∷ "................................" ∷ "................................g" ∷ [])

unfoldable pub big_exp_sign_map : Bytes
unfolding rows
big_exp_sign_map = rows (
    "................................" ∷ "...........K.K..LLLLLLLLLL......"
    ∷ "................................" ∷ "................................"
    ∷ "................................" ∷ "................................"
    ∷ "................................" ∷ "................................B" ∷ [])

unfoldable pub big_exp_zero_map : Bytes
unfolding rows
big_exp_zero_map = rows (
    "................................" ∷ "................LLLLLLLLLL......"
    ∷ "................................" ∷ "................................"
    ∷ "................................" ∷ "................................"
    ∷ "................................" ∷ "................................Z" ∷ [])

unfoldable pub big_exp_map : Bytes
unfolding rows
big_exp_map = rows (
    ".........rs..r.................." ∷ "r...........u...LLLLLLLLLL......"
    ∷ ".............................H.." ∷ ".............................G.."
    ∷ "................................" ∷ "................................"
    ∷ "................................" ∷ "................................Y" ∷ [])
