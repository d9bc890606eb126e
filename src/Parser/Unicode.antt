-- ===== src/Parser/Unicode.antt =====
-- ext/oj_windows/parser.c, unicodeToUtf8: a code point as bytes.
use Prim.Native.Nat.{bit_and, bit_or}
use oj_windows.Base.{ℕ, ◌/◌, ◌%◌, ◌^◌, [], ◌∷◌, Bytes, leb, if◌then◌else◌}

-- `0x80 | ((code >> k) & 0x3F)`, stored in a byte.
abbrev follow : ℕ → ℕ → ℕ
follow code k = bit_or 0x80 (bit_and (code / 2 ^ k) 0x3F) % 256

-- `mark | (code >> k)`, stored in a byte.
abbrev lead : ℕ → ℕ → ℕ → ℕ
lead mark code k = bit_or mark (code / 2 ^ k) % 256

-- Codes above 0x7FFFFFFF give no bytes.
unfoldable pub unicode_to_utf8 : ℕ → Bytes
unicode_to_utf8 code =
    if leb code 0x7F
    then code % 256 ∷ []
    else if leb code 0x7FF
    then lead 0xC0 code 6 ∷ follow code 0 ∷ []
    else if leb code 0xFFFF
    then lead 0xE0 code 12 ∷ follow code 6 ∷ follow code 0 ∷ []
    else if leb code 0x1FFFFF
    then lead 0xF0 code 18 ∷ follow code 12 ∷ follow code 6 ∷ follow code 0 ∷ []
    else if leb code 0x3FFFFFF
    then lead 0xF8 code 24 ∷ follow code 18 ∷ follow code 12 ∷ follow code 6 ∷ follow code 0 ∷ []
    else if leb code 0x7FFFFFFF
    then lead 0xFC code 30
      ∷ follow code 24
      ∷ follow code 18
      ∷ follow code 12
      ∷ follow code 6
      ∷ follow code 0
      ∷ []
    else []
