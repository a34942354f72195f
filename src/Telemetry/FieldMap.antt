-- ===== src/Telemetry/FieldMap.antt =====
-- armatureanalytics/tools.go: `applyTelemetryFieldMap`, the opt-in export of customer arguments.
use mcp_analytics_go.Prelude.{
  ◌≡◌, true, not, ◌&&◌, Option, none, some, List, [], ◌∷◌, Text, bytes, is_empty, text_eq,
  if◌then◌else◌, arith,
}
use mcp_analytics_go.Json.{Value, Fields, object, string_field}
use mcp_analytics_go.Telemetry.{Telemetry, first_non_empty, normalize_telemetry}
use mcp_analytics_go.Telemetry.Normal.{is_empty→eq}

-- `Config.TelemetryFieldMap`: from a telemetry field to the name of a top-level argument. Reading a
-- missing entry gives the empty string.
abbrev pub FieldMap : Type 0
FieldMap = List (Text × Text)

unfoldable pub mapped_key : Text → FieldMap → Text
mapped_key name [] = []
mapped_key name ((k, v) ∷ m) = if text_eq k name then v else mapped_key name m

abbrev pub or_blank : Option Text → Text
or_blank none = []
or_blank (some s) = s

-- `argString`
unfoldable pub arg_string : FieldMap → Fields → Text → Text
arg_string field_map m name =
    let key = mapped_key name field_map in
    if is_empty key then [] else or_blank (string_field key m)

unfoldable pub fill_intent : FieldMap → Fields → Telemetry → Telemetry
fill_intent field_map m t =
    if is_empty t.user_intent && is_empty t.intent
    then record t { user_intent = arg_string field_map m (bytes "user_intent") }
    else t

unfoldable pub fill_purpose : FieldMap → Fields → Telemetry → Telemetry
fill_purpose field_map m t =
    let purpose = arg_string field_map m (bytes "call_purpose") in
    if not t.call_purpose_present
      && is_empty t.call_purpose
      && is_empty t.agent_thinking
      && is_empty t.context
    then (if not (is_empty purpose)
        then record t { call_purpose = purpose; call_purpose_present = true }
        else record t { agent_thinking = arg_string field_map m (bytes "agent_thinking") })
    else t

unfoldable pub apply_telemetry_field_map : Telemetry → Value → FieldMap → Telemetry
apply_telemetry_field_map t args [] = t
apply_telemetry_field_map t (object m) (entry ∷ field_map) =
    fill_purpose (entry ∷ field_map) m (fill_intent (entry ∷ field_map) m t)
apply_telemetry_field_map t _ (entry ∷ field_map) = t

normal_intent :
    (field_map : FieldMap) (m : Fields) (t : Telemetry)
    → (normalize_telemetry (fill_purpose field_map m (fill_intent field_map m t))).user_intent
      ≡ first_non_empty
          (t.user_intent ∷ t.intent ∷ arg_string field_map m (bytes "user_intent") ∷ [])
unfolding normalize_telemetry fill_purpose fill_intent first_non_empty is_empty
normal_intent field_map m t = ground (
  arith,
  is_empty→eq t.user_intent,
  is_empty→eq t.intent,
  is_empty→eq (arg_string field_map m (bytes "user_intent")),
)

normal_purpose :
    (field_map : FieldMap) (m : Fields) (t : Telemetry)
    → (normalize_telemetry (fill_purpose field_map m (fill_intent field_map m t))).agent_thinking
      ≡ (if t.call_purpose_present
          then t.call_purpose
          else first_non_empty (
              t.call_purpose
              ∷ t.agent_thinking
              ∷ t.context
              ∷ arg_string field_map m (bytes "call_purpose")
              ∷ arg_string field_map m (bytes "agent_thinking")
              ∷ []))
unfolding normalize_telemetry fill_purpose fill_intent first_non_empty is_empty
normal_purpose field_map m t = ground (
  arith,
  is_empty→eq t.call_purpose,
  is_empty→eq t.agent_thinking,
  is_empty→eq t.context,
  is_empty→eq (arg_string field_map m (bytes "call_purpose")),
  is_empty→eq (arg_string field_map m (bytes "agent_thinking")),
)

-- With a field map that is not empty and arguments that are a map, what is exported is the call's
-- own telemetry where it has any, else the mapped arguments: for the intent user_intent, intent
-- and then the mapped argument; for the purpose an explicit call_purpose, even a blank one, else
-- the first that is not empty of the call's three spellings, the argument mapped for
-- call_purpose and the one mapped for agent_thinking.
pub normalize_telemetry-apply_telemetry_field_map :
    (t : Telemetry) (m : Fields) (entry : Text × Text) (rest : FieldMap)
    → ((normalize_telemetry (apply_telemetry_field_map t (object m) (entry ∷ rest))).user_intent
        ≡ first_non_empty
            (t.user_intent ∷ t.intent ∷ arg_string (entry ∷ rest) m (bytes "user_intent") ∷ []))
      × ((normalize_telemetry
            (apply_telemetry_field_map t (object m) (entry ∷ rest))).agent_thinking
          ≡ (if t.call_purpose_present
              then t.call_purpose
              else first_non_empty (
                  t.call_purpose
                  ∷ t.agent_thinking
                  ∷ t.context
                  ∷ arg_string (entry ∷ rest) m (bytes "call_purpose")
                  ∷ arg_string (entry ∷ rest) m (bytes "agent_thinking")
                  ∷ [])))
unfolding apply_telemetry_field_map
normalize_telemetry-apply_telemetry_field_map t m entry rest =
    (normal_intent (entry ∷ rest) m t, normal_purpose (entry ∷ rest) m t)
