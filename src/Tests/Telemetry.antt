-- ===== src/Tests/Telemetry.antt =====
-- armatureanalytics/tools.go: small telemetry blocks and descriptions.
use mcp_analytics_go.Prelude.{
  ◌≡◌, refl, Option, none, some, [], ◌∷◌, ◌++◌, Text, bytes, if◌then◌else◌, text_eq,
}
use mcp_analytics_go.Json.{Fields, string, object, field, no_fields, lookup_field, string_field}
use mcp_analytics_go.Telemetry.{
  Telemetry, no_telemetry, normalize_telemetry, first_non_empty, telemetry_key,
  extract_telemetry_from_args,
}
use mcp_analytics_go.Telemetry.Normal.{IsNormal}
use mcp_analytics_go.Telemetry.Extract.{first_string, extract_block_fields}
use mcp_analytics_go.Telemetry.FieldMap.{
  apply_telemetry_field_map, arg_string, normalize_telemetry-apply_telemetry_field_map,
}
use mcp_analytics_go.Hints.Strip.{Strips}
use mcp_analytics_go.Hints.Legacy.{
  legacy_telemetry_suffixes, strip_legacy_telemetry_hint, strip_legacy_telemetry_hint-Strips,
  telemetry_description_hint_legacy,
}

abbrev purposeful : Telemetry
purposeful = record no_telemetry { call_purpose = bytes "find"; context = bytes "old" }

abbrev block : Fields
block = field (bytes "call_purpose") (string (bytes "find")) no_fields

-- One block is known as JSON.
abbrev read : Text → Option Fields
read s = if text_eq s (bytes "{}") then some block else none

abbrev with_block : Fields
with_block = field telemetry_key (object block) (field (bytes "q") (string (bytes "x")) no_fields)

abbrev with_text : Fields
with_text = field telemetry_key (string (bytes "{}")) no_fields

abbrev entry : Text × Text
entry = (bytes "call_purpose", bytes "q")

extract_block_fields_example :
    ((extract_telemetry_from_args read (some with_block)).0.user_intent
      ≡ first_string
          (string_field (bytes "user_intent") block ∷ string_field (bytes "intent") block ∷ []))
    × ((extract_telemetry_from_args read (some with_block)).0.agent_thinking
        ≡ first_string (
            string_field (bytes "call_purpose") block
            ∷ string_field (bytes "agent_thinking") block
            ∷ string_field (bytes "context") block
            ∷ []))
    × IsNormal (extract_telemetry_from_args read (some with_block)).0
unfolding lookup_field text_eq bytes
extract_block_fields_example = extract_block_fields read with_block block refl

normalize_telemetry-apply_telemetry_field_map_example :
    ((normalize_telemetry
        (apply_telemetry_field_map no_telemetry (object with_block) (entry ∷ []))).user_intent
      ≡ first_non_empty ([] ∷ [] ∷ arg_string (entry ∷ []) with_block (bytes "user_intent") ∷ []))
    × ((normalize_telemetry
          (apply_telemetry_field_map no_telemetry (object with_block) (entry ∷ []))).agent_thinking
        ≡ first_non_empty (
            []
            ∷ []
            ∷ []
            ∷ arg_string (entry ∷ []) with_block (bytes "call_purpose")
            ∷ arg_string (entry ∷ []) with_block (bytes "agent_thinking")
            ∷ []))
normalize_telemetry-apply_telemetry_field_map_example =
    normalize_telemetry-apply_telemetry_field_map no_telemetry with_block entry []

abbrev hint : Text
hint = bytes "\nUse it."

abbrev described : Text
described = bytes "Finds." ++ hint

strip_legacy_telemetry_hint-Strips_example :
    (r : Text) × (strip_legacy_telemetry_hint (bytes "Finds." ++ telemetry_description_hint_legacy)
      ≡ some r)
    × Strips legacy_telemetry_suffixes (bytes "Finds." ++ telemetry_description_hint_legacy) r
    × (strip_legacy_telemetry_hint r ≡ some r)
strip_legacy_telemetry_hint-Strips_example =
    strip_legacy_telemetry_hint-Strips (bytes "Finds." ++ telemetry_description_hint_legacy)
