-- ===== src/Tests/Truncate.antt =====
-- armatureanalytics/event.go: a two-byte character at the cut.
use mathlib.Core.List.{flatten}
use mcp_analytics_go.Prelude.{List, [], ◌∷◌, ◌≡◌, refl, Text, length, all, ltb, true}
use mcp_analytics_go.Truncate.{truncate_utf8, walk_back, byte_at}
use mcp_analytics_go.Truncate.Whole.{KeepsWhole, truncate_utf8-KeepsWhole}

-- "aé"
abbrev two_characters : List Text
two_characters = (b'a' ∷ []) ∷ (0xC3 ∷ 0xA9 ∷ []) ∷ []

cut_to_two : truncate_utf8 (b'a' ∷ 0xC3 ∷ 0xA9 ∷ []) 2 ≡ (b'a' ∷ [], true)
unfolding truncate_utf8 walk_back byte_at
cut_to_two = refl

truncate_utf8-KeepsWhole_example :
    KeepsWhole two_characters 2 (truncate_utf8 (flatten two_characters) 2).0
    × ((truncate_utf8 (flatten two_characters) 2).1 ≡ ltb 2 (length (flatten two_characters)))
unfolding all
truncate_utf8-KeepsWhole_example =
    truncate_utf8-KeepsWhole two_characters 2 ((refl, refl), ((refl, refl), tt))
