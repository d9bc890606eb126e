-- ===== src/Cache/Hash.antt =====
-- ext/oj_windows/cache.c, hash_calc: 64-bit arithmetic on the bytes of a key.
use Prim.Native.Nat.{bit_or, bit_xor}
use oj_windows.Base.{ℕ, ◌*◌, ◌/◌, ◌%◌, ◌^◌, [], ◌∷◌, Bytes, length}

abbrev word : ℕ
word = 2 ^ 64

-- M.
abbrev murmur : ℕ
murmur = 0x5bd1e995

-- `h ^= h >> n`.
abbrev fold_down : ℕ → ℕ → ℕ
fold_down n h = bit_xor h (h / 2 ^ n)

-- The four bytes of a round.
abbrev four : ℕ → ℕ → ℕ → ℕ → ℕ
four a b c d = bit_or (bit_or (bit_or a (b * 2 ^ 8)) (c * 2 ^ 16)) (d * 2 ^ 24)

abbrev round : ℕ → ℕ → ℕ
round k h = bit_xor (h * murmur % word) (fold_down 24 (k * murmur % word) * murmur % word)

-- The rounds, and the one to three bytes behind them.
unfoldable pub hash_rounds : ℕ → Bytes → ℕ
hash_rounds h [] = h
hash_rounds h (a ∷ []) = bit_xor h a
hash_rounds h (a ∷ b ∷ []) = bit_xor h (bit_or a (b * 2 ^ 8) % 2 ^ 16 * 2 ^ 8)
hash_rounds h (a ∷ b ∷ c ∷ []) = bit_xor (bit_xor h (bit_or a (b * 2 ^ 8) % 2 ^ 16 * 2 ^ 8)) c
hash_rounds h (a ∷ b ∷ c ∷ d ∷ key) = hash_rounds (round (four a b c d) h) key

unfoldable pub hash_calc : Bytes → ℕ
unfolding hash_rounds
hash_calc key =
    let h = hash_rounds (length key) key * murmur % word in
    fold_down 15 (fold_down 13 h * murmur % word)
