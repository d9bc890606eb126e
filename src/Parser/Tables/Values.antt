-- ===== src/Parser/Tables/Values.antt =====
-- ext/oj_windows/parser.c: the tables for values, literals, separators and keys.
use oj_windows.Base.{[], ◌∷◌, Bytes}
use oj_windows.Parser.Tables.Rows.{rows}

unfoldable pub value_map : Bytes
unfolding rows
value_map = rows (
    "X........ab..a.................." ∷ "a.i..........f..ghhhhhhhhh......"
    ∷ "...........................k.m.." ∷ "......e.......c.....d......l.n.."
    ∷ "................................" ∷ "................................"
    ∷ "................................" ∷ "................................v" ∷ [])

unfoldable pub null_map : Bytes
unfolding rows
null_map = rows (
    "................................" ∷ "............o..................."
    ∷ "................................" ∷ "............F........F.........."
    ∷ "................................" ∷ "................................"
    ∷ "................................" ∷ "................................N" ∷ [])

unfoldable pub true_map : Bytes
unfolding rows
true_map = rows (
    "................................" ∷ "............o..................."
    ∷ "................................" ∷ ".....F............F..F.........."
    ∷ "................................" ∷ "................................"
    ∷ "................................" ∷ "................................T" ∷ [])

unfoldable pub false_map : Bytes
unfolding rows
false_map = rows (
    "................................" ∷ "............o..................."
    ∷ "................................" ∷ ".F...F......F......F............"
    ∷ "................................" ∷ "................................"
    ∷ "................................" ∷ "................................F" ∷ [])

unfoldable pub comma_map : Bytes
unfolding rows
comma_map = rows (
    ".........ab..a.................." ∷ "a.i..........f..ghhhhhhhhh......"
    ∷ "...........................k...." ∷ "......e.......c.....d......l...."
    ∷ "................................" ∷ "................................"
    ∷ "................................" ∷ "................................," ∷ [])

unfoldable pub after_map : Bytes
unfolding rows
after_map = rows (
    "X........ab..a.................." ∷ "a...........o..................."
    ∷ ".............................m.." ∷ ".............................n.."
    ∷ "................................" ∷ "................................"
    ∷ "................................" ∷ "................................a" ∷ [])

unfoldable pub key1_map : Bytes
unfolding rows
key1_map = rows (
    ".........ab..a.................." ∷ "a.p............................."
    ∷ "................................" ∷ ".............................n.."
    ∷ "................................" ∷ "................................"
    ∷ "................................" ∷ "................................K" ∷ [])

unfoldable pub key_map : Bytes
unfolding rows
key_map = rows (
    ".........ab..a.................." ∷ "a.p............................."
    ∷ "................................" ∷ "................................"
    ∷ "................................" ∷ "................................"
    ∷ "................................" ∷ "................................k" ∷ [])

unfoldable pub colon_map : Bytes
unfolding rows
colon_map = rows (
    ".........ab..a.................." ∷ "a.........................q....."
    ∷ "................................" ∷ "................................"
    ∷ "................................" ∷ "................................"
    ∷ "................................" ∷ "................................:" ∷ [])
