-- ===== src/Event/Prepare.antt =====
-- armatureanalytics/event.go: what is taken of a tool call, sanitized and redacted.
use mcp_analytics_go.Prelude.{
  Bool, true, false, not, ◌&&◌, Option, none, some, Text, bytes, is_empty, if◌then◌else◌, ◌>>=◌, [],
  ◌∷◌,
}
use mcp_analytics_go.Json.{Value, Fields, null, string, as_string}
use mcp_analytics_go.Client.{ClientInfo}
use mcp_analytics_go.Session.{trim_space}
use mcp_analytics_go.Telemetry.{Telemetry, normalize_telemetry, is_set}
use mcp_analytics_go.Secrets.{redact_secrets, redact_secrets_in_string}
use mcp_analytics_go.Sanitize.{sanitize_value, has_prefix}
use mcp_analytics_go.Event.{
  Payload, plain, telemetry_payload, is_nil, Env, redaction_failed_placeholder, kind_tool_call,
  stringify_preview,
}

-- `ToolCallInput`, with the text of its error. A nil argument or result is `null`. `Redact` gives
-- `none` where it panics. Of the actor's headers it holds `Authorization`, which alone is read.
pub record ToolCallInput (T : Type 0) : Type 0 where
  pub tool_name : Text
  pub request_id : Text
  pub args : Value
  pub result : Value
  pub err : Option Text
  pub is_tool_error : Bool
  pub error_type : Text
  pub session_id : Text
  pub actor_seed : Text
  pub started_at : T
  pub finished_at : T
  pub client_info : Option ClientInfo
  pub telemetry : Telemetry
  pub workflow_run_id : Text
  pub request_meta : Fields
  pub capability_request : Bool
  pub redact : Option (Payload → Option Payload)
  pub redact_secrets_setting : Option Bool
  pub actor_headers : Text
  pub actor_identifier : Text
  pub actor_identifier_resolved : Bool

-- `RedactableToolCall`
pub record Candidate (D : Type 0) : Type 0 where
  pub kind : Text
  pub tool_name : Text
  pub status : Text
  pub duration_ms : D
  pub session_id : Text
  pub input : Payload
  pub output : Payload
  pub error_message : Option Text
  pub telemetry : Option Telemetry

abbrev pub secrets_enabled : Option Bool → Bool
secrets_enabled none = true
secrets_enabled (some configured) = configured

abbrev pub or_text : Option Text → Text → Text
or_text none fallback = fallback
or_text (some s) fallback = s

module _ {T D : Type 0} (env : Env T D) where
  -- `callLegacyRedact`, or what is prepared where there is no callback.
  abbrev pub call_redact : Option (Payload → Option Payload) → Payload → Option Payload
  call_redact none prepared = some prepared
  call_redact (some redact) prepared = redact prepared

  abbrev pub or_failed : Option Payload → Payload
  or_failed none = plain (string redaction_failed_placeholder)
  or_failed (some v) = v

  -- `prepareForPreview`
  unfoldable pub prepare_for_preview : Value → Option (Payload → Option Payload) → Bool → Payload
  prepare_for_preview value redact secrets =
      let prepared = sanitize_value env.matches_payload env.replace_embedded value in
      let cleaned = if secrets then redact_secrets env.lower env.rules prepared else prepared in
      or_failed (call_redact redact (plain cleaned))

  -- The text of what `Redact` makes of an error.
  abbrev pub error_text : Option Payload → Text
  error_text none = redaction_failed_placeholder
  error_text (some (plain (string s))) = s
  error_text (some v) = stringify_preview env v

  -- `prepareErrorMessage`
  unfoldable pub prepare_error_message : Text → Option (Payload → Option Payload) → Bool → Text
  prepare_error_message message redact secrets = error_text (
      call_redact redact
        (plain (string (if secrets then redact_secrets_in_string env.rules message else message))))

  -- `sanitizeTelemetryText`
  unfoldable pub sanitize_telemetry_text : Text → Bool → Text
  sanitize_telemetry_text value secrets =
      let sanitized =
        or_text
          (as_string
            (some (sanitize_value env.matches_payload env.replace_embedded (string value))))
          value in
      if secrets then redact_secrets_in_string env.rules sanitized else sanitized

  -- `(*Telemetry).UnmarshalJSON`
  abbrev pub with_call_purpose : Telemetry → Option Text → Option Telemetry
  with_call_purpose t none = none
  with_call_purpose t (some purpose) =
      some (record t { call_purpose = purpose; call_purpose_present = true })

  unfoldable pub unmarshal_telemetry : Text → Option Telemetry
  unmarshal_telemetry data_text = do
    (t, raw) ← env.decode_plain data_text
    if has_prefix (trim_space raw) (b'"' ∷ [])
        then with_call_purpose t (env.decode_string raw)
        else some t

  -- `telemetryFromAny`
  unfoldable pub telemetry_from_any : Payload → Option Telemetry
  telemetry_from_any (telemetry_payload t) = some t
  telemetry_from_any (plain v) = do data_text ← env.marshal (plain v); unmarshal_telemetry data_text

  unfoldable pub redact_telemetry : Option (Payload → Option Payload) → Telemetry → Option Telemetry
  redact_telemetry none t = some t
  redact_telemetry (some redact) t = do
    redacted ← redact (telemetry_payload t)
    converted ← telemetry_from_any redacted
    some (normalize_telemetry converted)

  -- `prepareTelemetry`
  unfoldable pub prepare_telemetry :
      Telemetry → Option (Payload → Option Payload) → Bool → Option Telemetry
  prepare_telemetry telemetry redact secrets =
      let t = normalize_telemetry telemetry in
      let user_intent = sanitize_telemetry_text t.user_intent secrets in
      let agent_thinking = sanitize_telemetry_text t.agent_thinking secrets in
      redact_telemetry redact (record t {
        user_intent = user_intent;
        agent_thinking = agent_thinking;
        intent = user_intent;
        context = agent_thinking;
      })

  abbrev pub is_error : Option Text → Bool
  is_error none = false
  is_error (some e) = true

  abbrev pub call_ok : ToolCallInput T → Bool
  call_ok input = not (is_error input.err) && not input.is_tool_error

  abbrev pub error_of : ToolCallInput T → Text
  error_of input =
      if is_empty input.error_type then or_text input.err (bytes "tool_error") else input.error_type

  -- `prepareToolCallCandidate`
  unfoldable pub prepare_tool_call_candidate : ToolCallInput T → Candidate D
  prepare_tool_call_candidate input =
      let secrets = secrets_enabled input.redact_secrets_setting in
      record {
        kind = kind_tool_call;
        tool_name = input.tool_name;
        status = if call_ok input then bytes "ok" else bytes "error";
        duration_ms = env.millis_between input.started_at input.finished_at;
        session_id = input.session_id;
        input = prepare_for_preview input.args input.redact secrets;
        output =
            if is_nil (plain input.result)
            then plain null
            else prepare_for_preview input.result input.redact secrets;
        error_message =
            if call_ok input
            then none
            else some (prepare_error_message (error_of input) input.redact secrets);
        telemetry =
            if is_set input.telemetry
            then prepare_telemetry input.telemetry input.redact secrets
            else none;
      }
