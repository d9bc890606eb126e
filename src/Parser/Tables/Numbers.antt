-- ===== src/Parser/Tables/Numbers.antt =====
-- ext/oj_windows/parser.c: the tables for numbers that fit the machine.
use oj_windows.Base.{[], ◌∷◌, Bytes}
use oj_windows.Parser.Tables.Rows.{rows}

unfoldable pub neg_map : Bytes
unfolding rows
neg_map = rows (
    "................................" ∷ "................O---------......"
    ∷ "................................" ∷ "................................"
    ∷ "................................" ∷ "................................"
    ∷ "................................" ∷ "................................-" ∷ [])

unfoldable pub zero_map : Bytes
unfolding rows
zero_map = rows (
    ".........rs..r.................." ∷ "r...........u.t................."
    ∷ ".............................H.." ∷ ".............................G.."
    ∷ "................................" ∷ "................................"
    ∷ "................................" ∷ "................................0" ∷ [])

unfoldable pub digit_map : Bytes
unfolding rows
digit_map = rows (
    ".........rs..r.................." ∷ "r...........u.t.NNNNNNNNNN......"
    ∷ ".....w.......................H.." ∷ ".....w.......................G.."
    ∷ "................................" ∷ "................................"
    ∷ "................................" ∷ "................................d" ∷ [])

unfoldable pub dot_map : Bytes
unfolding rows
dot_map = rows (
    "................................" ∷ "................vvvvvvvvvv......"
    ∷ "................................" ∷ "................................"
    ∷ "................................" ∷ "................................"
    ∷ "................................" ∷ "................................." ∷ [])

unfoldable pub frac_map : Bytes
unfolding rows
frac_map = rows (
    ".........rs..r.................." ∷ "r...........u...vvvvvvvvvv......"
    ∷ ".....w.......................H.." ∷ ".....w.......................G.."
    ∷ "................................" ∷ "................................"
    ∷ "................................" ∷ "................................f" ∷ [])

unfoldable pub exp_sign_map : Bytes
unfolding rows
exp_sign_map = rows (
    "................................" ∷ "...........x.x..yyyyyyyyyy......"
    ∷ "................................" ∷ "................................"
    ∷ "................................" ∷ "................................"
    ∷ "................................" ∷ "................................x" ∷ [])

unfoldable pub exp_zero_map : Bytes
unfolding rows
exp_zero_map = rows (
    "................................" ∷ "................yyyyyyyyyy......"
    ∷ "................................" ∷ "................................"
    ∷ "................................" ∷ "................................"
    ∷ "................................" ∷ "................................z" ∷ [])

unfoldable pub exp_map : Bytes
unfolding rows
exp_map = rows (
    ".........rs..r.................." ∷ "r...........u...yyyyyyyyyy......"
    ∷ ".............................H.." ∷ ".............................G.."
    ∷ "................................" ∷ "................................"
    ∷ "................................" ∷ "................................X" ∷ [])
