-- ===== src/Telemetry.antt =====
-- armatureanalytics/tools.go: the telemetry block that a tool call may carry. This file models
-- its normal form, its extraction from the arguments and the opt-in map of customer fields.
pub mod Normal
pub mod Extract
pub mod FieldMap
use mcp_analytics_go.Prelude.{
  ℕ, ◌≡◌, Bool, true, false, not, ◌&&◌, ◌||◌, Option, none, some, List, [], ◌∷◌, Text, bytes,
  is_empty, text_eq, ◌==◌, if◌then◌else◌,
}
use mcp_analytics_go.Json.{
  Value, Fields, object, string, lookup_field, remove_field, put_field, as_string, string_field,
}

pub record Telemetry : Type 0 where
  pub user_turn : ℕ
  pub user_intent : Text
  pub call_purpose : Text
  pub agent_thinking : Text
  pub user_frustration : Text
  pub intent : Text
  pub context : Text
  pub frustration_level : Text
  pub call_purpose_present : Bool

-- `Telemetry{}`
abbrev pub no_telemetry : Telemetry
no_telemetry = record {
  user_turn = 0;
  user_intent = [];
  call_purpose = [];
  agent_thinking = [];
  user_frustration = [];
  intent = [];
  context = [];
  frustration_level = [];
  call_purpose_present = false;
}

-- `firstNonEmpty`
unfoldable pub first_non_empty : List Text → Text
first_non_empty [] = []
first_non_empty (v ∷ values) = if is_empty v then first_non_empty values else v

unfoldable pub normalize_telemetry : Telemetry → Telemetry
normalize_telemetry t =
    let user_intent = first_non_empty (t.user_intent ∷ t.intent ∷ []) in
    let agent_thinking : Text =
      if t.call_purpose_present || not (is_empty t.call_purpose)
      then t.call_purpose
      else first_non_empty (t.agent_thinking ∷ t.context ∷ []) in
    record no_telemetry {
      user_intent = user_intent;
      agent_thinking = agent_thinking;
      intent = user_intent;
      context = agent_thinking;
      call_purpose_present = t.call_purpose_present && is_empty t.call_purpose;
    }

-- `a != (Telemetry{})`
unfoldable pub is_set : Telemetry → Bool
is_set t = not (
    t.user_turn == 0
    && is_empty t.user_intent
    && is_empty t.call_purpose
    && is_empty t.agent_thinking
    && is_empty t.user_frustration
    && is_empty t.intent
    && is_empty t.context
    && is_empty t.frustration_level
    && not t.call_purpose_present)

-- `firstTelemetry` of recorder.go
unfoldable pub first_telemetry : Telemetry → Telemetry → Telemetry
first_telemetry a b = if is_set a then a else b

-- The first case of the switch of `extractTelemetryFromArgs`: a block that is a map. `user_intent`
-- shadows `intent` where it is a string, and so do the three spellings of the purpose.
unfoldable pub choose_intent : Option Text → Option Text → Telemetry → Telemetry
choose_intent (some user_intent) intent t = record t { user_intent = user_intent }
choose_intent none (some intent) t = record t { intent = intent }
choose_intent none none t = t

unfoldable pub choose_purpose : Option Text → Option Text → Option Text → Telemetry → Telemetry
choose_purpose (some call_purpose) agent_thinking context t = record t {
  call_purpose = call_purpose;
  call_purpose_present = true;
}
choose_purpose none (some agent_thinking) context t = record t { agent_thinking = agent_thinking }
choose_purpose none none (some context) t = record t { context = context }
choose_purpose none none none t = t

unfoldable pub extract_block : Fields → Telemetry
extract_block v =
    choose_purpose (string_field (bytes "call_purpose") v) (string_field (bytes "agent_thinking") v)
      (string_field (bytes "context") v)
      (choose_intent (string_field (bytes "user_intent") v) (string_field (bytes "intent") v)
        no_telemetry)

abbrev pub telemetry_key : Text
telemetry_key = bytes "telemetry"

-- The end of `extractTelemetryFromArgs`: the normal form and the copy without the block.
unfoldable pub cleaned_args : Telemetry → Fields → Telemetry × Option Fields
cleaned_args t args = (normalize_telemetry t, some (remove_field telemetry_key args))

-- `json.Unmarshal` into a map is a parameter: `none` is an error, and `null` gives no entry.
module _ (unmarshal : Text → Option Fields) where
  -- A string block is decoded and put in its place, and the function calls itself: the block is
  -- then a map, so that the call takes the first case.
  unfoldable pub extract_decoded : Option Fields → Fields → Telemetry × Option Fields
  extract_decoded none args = cleaned_args no_telemetry args
  extract_decoded (some m) args =
      cleaned_args (extract_block m) (put_field telemetry_key (object m) args)

  unfoldable pub extract_value : Option Value → Fields → Telemetry × Option Fields
  extract_value none args = (no_telemetry, some args)
  extract_value (some (object v)) args = cleaned_args (extract_block v) args
  extract_value (some (string v)) args = extract_decoded (unmarshal v) args
  extract_value (some _) args = cleaned_args no_telemetry args

  -- `extractTelemetryFromArgs`; `none` is the nil map.
  unfoldable pub extract_telemetry_from_args : Option Fields → Telemetry × Option Fields
  extract_telemetry_from_args none = (no_telemetry, none)
  extract_telemetry_from_args (some args) = extract_value (lookup_field telemetry_key args) args
