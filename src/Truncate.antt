-- ===== src/Truncate.antt =====
-- armatureanalytics/event.go: `truncateUTF8`, which cuts a string to a number of bytes without
-- cutting a character.
pub mod Whole
use mcp_analytics_go.Prelude.{
  ℕ, zero, suc, Bool, true, false, ◌||◌, List, [], ◌∷◌, Text, length, take, ltb, leb, if◌then◌else◌,
}

-- `isUTF8RuneStart`
abbrev pub is_utf8_rune_start : ℕ → Bool
is_utf8_rune_start b = ltb b 0x80 || leb 0xC0 b

-- `s[i]`; the index is in range where this is called.
unfoldable pub byte_at : ℕ → Text → ℕ
byte_at i [] = 0
byte_at zero (c ∷ s) = c
byte_at (suc i) (c ∷ s) = byte_at i s

-- The loop that walks back to the start of a character.
unfoldable pub walk_back : Text → ℕ → ℕ
walk_back s zero = zero
walk_back s (suc i) =
    let before = walk_back s i in if is_utf8_rune_start (byte_at (suc i) s) then suc i else before

-- `truncateUTF8`
unfoldable pub truncate_utf8 : Text → ℕ → Text × Bool
truncate_utf8 s max_bytes =
    if leb (length s) max_bytes then (s, false) else (take (walk_back s max_bytes) s, true)
