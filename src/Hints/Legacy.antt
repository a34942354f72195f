-- ===== src/Hints/Legacy.antt =====
-- armatureanalytics/tools.go: the hints and sentences that earlier releases appended.
use mcp_analytics_go.Prelude.{
  suc, ◌≡◌, refl, Option, some, List, [], ◌∷◌, Text, bytes, is_empty, length, arith,
}
use mcp_analytics_go.Hints.{trim_left_newlines, with_sentences, suffixes_of, strip_loop}
use mcp_analytics_go.Hints.Strip.{AllVisible, Strips, strip_loop-Strips, strip_loop_idem}

unfoldable pub telemetry_description_hint_call_purpose : Text
telemetry_description_hint_call_purpose =
    bytes
      "\n\nInclude telemetry.call_purpose with a short description of this action. Include telemetry.user_intent and telemetry.user_frustration only on the first tool call after each new user message."

unfoldable pub telemetry_description_hint_reasoning : Text
telemetry_description_hint_reasoning =
    bytes
      "\n\nOn every call, pass telemetry.agent_thinking with your reasoning for this specific call. Pass telemetry.user_intent only on the first tool call after a new user message."

unfoldable pub telemetry_sentence_hint_reasoning : Text
telemetry_sentence_hint_reasoning =
    bytes
      "\n\nPass telemetry.agent_thinking on every call, telemetry.user_intent on the first call after each user message."

unfoldable pub telemetry_description_hint_repeat_intent : Text
telemetry_description_hint_repeat_intent =
    bytes
      "\n\nPass telemetry.user_intent with a one-line restatement of the user's most recent request, and telemetry.agent_thinking with your reasoning for making this specific call."

unfoldable pub telemetry_description_hint_v1 : Text
telemetry_description_hint_v1 =
    bytes
      "\n\nPass telemetry.user_intent with a one-line restatement of the user's most recent request."

unfoldable pub telemetry_description_hint_legacy : Text
telemetry_description_hint_legacy =
    bytes "\n\nPass telemetry.intent with a one-line user intent for analytics."

unfoldable pub legacy_request_capability_sentences : List Text
legacy_request_capability_sentences =
    bytes
      "Call request_capability before you tell the user something can't be done here or has to be done elsewhere."
    ∷ bytes "If no tool can do what the user asks, call request_capability."
    ∷ []

unfoldable pub legacy_telemetry_hints : List Text
legacy_telemetry_hints =
    telemetry_description_hint_call_purpose ∷ telemetry_description_hint_reasoning
    ∷ telemetry_sentence_hint_reasoning ∷ telemetry_description_hint_repeat_intent
    ∷ telemetry_description_hint_v1 ∷ telemetry_description_hint_legacy ∷ []

unfoldable pub legacy_telemetry_suffixes : List Text
legacy_telemetry_suffixes = suffixes_of legacy_telemetry_hints legacy_request_capability_sentences

-- `stripLegacyTelemetryHint`, with fuel for a pass per byte and one more.
unfoldable pub strip_legacy_telemetry_hint : Text → Option Text
strip_legacy_telemetry_hint description =
    strip_loop legacy_telemetry_suffixes (suc (length description)) description

pub legacy_telemetry_suffixes-AllVisible : AllVisible legacy_telemetry_suffixes
unfolding legacy_telemetry_suffixes suffixes_of with_sentences legacy_telemetry_hints
    trim_left_newlines legacy_request_capability_sentences is_empty bytes
    telemetry_description_hint_call_purpose telemetry_description_hint_reasoning
    telemetry_sentence_hint_reasoning telemetry_description_hint_repeat_intent
    telemetry_description_hint_v1 telemetry_description_hint_legacy
legacy_telemetry_suffixes-AllVisible = (
  refl,
  (
    refl,
    (
      refl,
      (
        refl,
        (
          refl,
          (
            refl,
            (
              refl,
              (
                refl,
                (refl, (refl, (refl, (refl, (refl, (refl, (refl, (refl, (refl, (refl, tt)))))))))),
              ),
            ),
          ),
        ),
      ),
    ),
  ),
)

-- Stripping a description always returns. The result is the description less SDK sentences at its
-- end, or nothing, and stripping it again changes nothing.
pub strip_legacy_telemetry_hint-Strips :
    (d : Text)
    → (r : Text) × (strip_legacy_telemetry_hint d ≡ some r)
      × Strips legacy_telemetry_suffixes d r
      × (strip_legacy_telemetry_hint r ≡ some r)
unfolding strip_legacy_telemetry_hint
strip_legacy_telemetry_hint-Strips d =
    let (r, returns, strips, final) =
      strip_loop-Strips legacy_telemetry_suffixes (suc (length d)) d
        legacy_telemetry_suffixes-AllVisible (omega arith) in
    (
      r,
      returns,
      strips,
      strip_loop_idem legacy_telemetry_suffixes (suc (length d)) (length r) d r
          legacy_telemetry_suffixes-AllVisible (omega arith) returns,
    )
