-- ===== src/Hints.antt =====
-- armatureanalytics/tools.go: `StripTelemetryHint`, which takes the sentences that earlier releases
-- appended to tool descriptions off again.
pub mod Strip
pub mod Legacy
use mcp_analytics_go.Prelude.{
  ℕ, zero, suc, ◌-◌, Bool, true, false, ◌&&◌, Option, none, some, List, [], ◌∷◌, ◌++◌, map, Text,
  bytes, text_eq, length, take, drop, leb, ◌==◌, if◌then◌else◌,
}

-- `strings.HasSuffix`, `strings.TrimSuffix` of a string that has it, and `strings.TrimLeft` of
-- line feeds.
unfoldable pub has_suffix : Text → Text → Bool
has_suffix s suffix =
    leb (length suffix) (length s) && text_eq (drop (length s - length suffix) s) suffix

unfoldable pub trim_suffix : Text → Text → Text
trim_suffix s suffix = take (length s - length suffix) s

unfoldable pub trim_left_newlines : Text → Text
trim_left_newlines [] = []
trim_left_newlines (c ∷ s) = let rest = trim_left_newlines s in if c == b'\n' then rest else c ∷ s

-- What one pass over the suffixes finds.
pub data Pass : Type 0 where
  -- the description is one of them, less its line feeds
  whole : Pass
  -- it ended in one of them; this is left
  stripped : Text → Pass
  unchanged : Pass

-- The inner loop of `stripLegacyTelemetryHint`.
unfoldable pub strip_pass : List Text → Text → Pass
strip_pass [] description = unchanged
strip_pass (suffix ∷ suffixes) description =
    let rest = strip_pass suffixes description in
    if text_eq description (trim_left_newlines suffix)
    then whole
    else if has_suffix description suffix
    then stripped (trim_suffix description suffix)
    else rest

-- The outer loop, on fuel: `none` is out of fuel.
unfoldable pub strip_loop : List Text → ℕ → Text → Option Text
strip_loop suffixes zero description = none
strip_loop suffixes (suc fuel) description = elim (strip_pass suffixes description) [
  | whole ↦ some []
  | stripped shorter ↦ strip_loop suffixes fuel shorter
  | unchanged ↦ some description
]

-- `legacyTelemetrySuffixes`: each hint followed by each sentence, then the bare hint.
unfoldable pub with_sentences : Text → List Text → List Text
with_sentences hint [] = hint ∷ []
with_sentences hint (sentence ∷ sentences) =
    (hint ++ bytes " " ++ sentence) ∷ with_sentences hint sentences

unfoldable pub suffixes_of : List Text → List Text → List Text
suffixes_of [] sentences = []
suffixes_of (hint ∷ hints) sentences = with_sentences hint sentences ++ suffixes_of hints sentences
