-- ===== src/Event/Build.antt =====
-- armatureanalytics/event.go: the events that are built.
use mcp_analytics_go.Prelude.{
  ℕ, Bool, true, false, not, ◌&&◌, Option, none, some, Text, bytes, ◌++◌, is_empty, length, leb,
  if◌then◌else◌, text_eq,
}
use mcp_analytics_go.Json.{
  Value, Fields, null, boolean, string, object, field, no_fields, put_field, lookup_field,
}
use mcp_analytics_go.Client.{ClientInfo}
use mcp_analytics_go.Session.{random_uuid}
use mcp_analytics_go.Telemetry.{Telemetry, no_telemetry, normalize_telemetry}
use mcp_analytics_go.Truncate.{truncate_utf8}
use mcp_analytics_go.Event.{
  max_preview_bytes, max_source_bytes, max_capabilities_bytes, max_request_meta_bytes,
  redaction_failed_placeholder, Payload, plain, is_nil, Event, Env, kind_tool_call,
  kind_session_init, kind_actor_identity, string_ptr_or_nil, string_or_nil, actor_id_of,
  event_id_of, stringify_preview,
}
use mcp_analytics_go.Event.Prepare.{ToolCallInput, Candidate, prepare_tool_call_candidate}

-- `SessionInitInput`
pub record SessionInitInput (T : Type 0) : Type 0 where
  pub session_id : Text
  pub actor_seed : Text
  pub started_at : T
  pub client_info : Option ClientInfo
  pub workflow_run_id : Text
  pub actor_headers : Text
  pub actor_identifier : Text

abbrev pub put_text : Text → Text → Fields → Fields
put_text key s meta = if is_empty s then meta else put_field key (string s) meta

abbrev pub fits_capabilities : Option Text → Bool
fits_capabilities none = false
fits_capabilities (some data_text) = leb (length data_text) max_capabilities_bytes

abbrev pub has_fields : Fields → Bool
has_fields no_fields = false
has_fields (field k v m) = true

abbrev pub or_null : Text → Fields → Option Value → Fields
or_null key meta none = put_field key null meta
or_null key meta (some v) = meta

-- `if _, ok := meta[key]; !ok { meta[key] = nil }`
abbrev pub present : Text → Fields → Fields
present key meta = or_null key meta (lookup_field key meta)

module _ {T D : Type 0} (env : Env T D) where
  unfoldable pub put_capabilities : Option Fields → Fields → Fields
  put_capabilities none meta = meta
  put_capabilities (some capabilities) meta =
      if has_fields capabilities && fits_capabilities (env.marshal (plain (object capabilities)))
      then put_field (bytes "capabilities") (object capabilities) meta
      else meta

  -- `mergeClientInfo`
  unfoldable pub merge_client_info : Option ClientInfo → Fields → Fields
  merge_client_info none meta = meta
  merge_client_info (some info) meta = put_capabilities info.capabilities (
      put_text (bytes "protocol_version") info.protocol_version (
        put_text (bytes "client_version") info.version
          (put_text (bytes "client_name") info.name meta)))

  -- `BuildActorIdentityEvent`
  unfoldable pub build_actor_identity_event : Text → Text → T → Event D
  build_actor_identity_event actor_id identifier started_at = record {
    event_id = event_id_of env actor_id kind_actor_identity identifier;
    kind = kind_actor_identity;
    actor_id = actor_id;
    session_id_hint = none;
    started_at = env.stamp started_at;
    finished_at = env.stamp started_at;
    duration_ms = env.no_time;
    ok = true;
    error = none;
    metadata = put_field (bytes "identifier") (string identifier) no_fields;
    script_source = none;
    script_source_truncated = false;
    result_preview = none;
    result_truncated = false;
    is_workflow = false;
    workflow_run_id = bytes "";
  }

  unfoldable pub session_init_metadata : Option ClientInfo → Fields
  session_init_metadata info = present (bytes "capabilities") (
      present (bytes "protocol_version") (
        present (bytes "client_version")
          (present (bytes "client_name") (merge_client_info info no_fields))))

  -- `BuildSessionInitEvent`
  unfoldable pub build_session_init_event : SessionInitInput T → Event D
  build_session_init_event input =
      let actor_id = actor_id_of env input.actor_seed in
      record {
        event_id =
            event_id_of env actor_id kind_session_init
              (actor_id ++ (bytes ":session_init:" ++ input.session_id));
        kind = kind_session_init;
        actor_id = actor_id;
        session_id_hint = string_ptr_or_nil input.session_id;
        started_at = env.stamp input.started_at;
        finished_at = env.stamp input.started_at;
        duration_ms = env.no_time;
        ok = true;
        error = none;
        metadata = session_init_metadata input.client_info;
        script_source = none;
        script_source_truncated = false;
        result_preview = none;
        result_truncated = false;
        is_workflow = not (is_empty input.workflow_run_id);
        workflow_run_id = input.workflow_run_id;
      }

  unfoldable pub capped_meta : Fields → Option Text → Value × Bool
  capped_meta request_meta none = (string (bytes "[unserialisable]"), false)
  capped_meta request_meta (some data_text) =
      if leb (length data_text) max_request_meta_bytes
      then (object request_meta, false)
      else (string (truncate_utf8 data_text max_request_meta_bytes).0, true)

  -- `capRequestMeta`
  unfoldable pub cap_request_meta : Fields → Value × Bool
  cap_request_meta request_meta =
      capped_meta request_meta (env.marshal (plain (object request_meta)))

  unfoldable pub put_request_meta : Fields → Fields → Fields
  put_request_meta request_meta meta =
      let (value, truncated) = cap_request_meta request_meta in
      let with_value = put_field (bytes "request_meta") value meta in
      if has_fields request_meta
      then (if truncated
          then put_field (bytes "request_meta_truncated") (boolean true) with_value
          else with_value)
      else meta

  -- The request id that seeds the event id; the minted one is from random bytes.
  unfoldable pub scoped_request_id : ToolCallInput T → (ℕ → ℕ) → Text
  scoped_request_id input raw =
      if is_empty input.request_id
      then random_uuid raw
      else if is_empty input.session_id
      then input.request_id
      else input.session_id ++ (bytes "#" ++ input.request_id)

  abbrev pub normalized : Option Telemetry → Telemetry
  normalized none = no_telemetry
  normalized (some t) = normalize_telemetry t

  unfoldable pub result_preview_of : Payload → Option Text × Bool
  result_preview_of output =
      let (preview, truncated) = truncate_utf8 (stringify_preview env output) max_preview_bytes in
      if is_nil output then (none, false) else (some preview, truncated)

  unfoldable pub source_of : Candidate D → Text × Bool
  source_of candidate =
      truncate_utf8
        (bytes "MCP tool call: "
          ++ (candidate.tool_name
              ++ (bytes "\n\nInput:\n" ++ stringify_preview env candidate.input)))
        max_source_bytes

  unfoldable pub input_preview_of : Candidate D → Text
  input_preview_of candidate =
      (truncate_utf8 (stringify_preview env candidate.input) max_preview_bytes).0

  unfoldable pub call_metadata : Candidate D → Fields
  call_metadata candidate =
      let tel = normalized candidate.telemetry in
      put_field (bytes "input_preview") (string (input_preview_of candidate)) (
        put_field (bytes "context") (string_or_nil tel.agent_thinking) (
          put_field (bytes "intent") (string_or_nil tel.user_intent) (
            put_field (bytes "agent_thinking") (string_or_nil tel.agent_thinking) (
              put_field (bytes "user_intent") (string_or_nil tel.user_intent)
                (put_field (bytes "tool_name") (string candidate.tool_name) no_fields)))))

  unfoldable pub tool_call_metadata : ToolCallInput T → Candidate D → Fields
  tool_call_metadata input candidate =
      let meta = call_metadata candidate in
      let marked =
        if input.capability_request
        then put_field (bytes "capability_request") (boolean true) meta
        else meta in
      merge_client_info input.client_info (put_request_meta input.request_meta marked)

  -- `assembleToolCallEvent`
  unfoldable pub assemble_tool_call_event : ToolCallInput T → Candidate D → (ℕ → ℕ) → Event D
  assemble_tool_call_event input candidate raw =
      let actor_id = actor_id_of env input.actor_seed in
      record {
        event_id = event_id_of env actor_id kind_tool_call (scoped_request_id input raw);
        kind = kind_tool_call;
        actor_id = actor_id;
        session_id_hint = string_ptr_or_nil candidate.session_id;
        started_at = env.stamp input.started_at;
        finished_at = env.stamp input.finished_at;
        duration_ms = candidate.duration_ms;
        ok = text_eq candidate.status (bytes "ok");
        error = candidate.error_message;
        metadata = tool_call_metadata input candidate;
        script_source = some (source_of candidate).0;
        script_source_truncated = (source_of candidate).1;
        result_preview = (result_preview_of candidate.output).0;
        result_truncated = (result_preview_of candidate.output).1;
        is_workflow = not (is_empty input.workflow_run_id);
        workflow_run_id = input.workflow_run_id;
      }

  -- `BuildToolCallEvent`
  unfoldable pub build_tool_call_event : ToolCallInput T → (ℕ → ℕ) → Event D
  build_tool_call_event input raw =
      assemble_tool_call_event input (prepare_tool_call_candidate env input) raw

-- What `RedactEvent` returns: an error or a panic, nil, or a candidate.
pub data Verdict (D : Type 0) : Type 0 where
  hook_failed : Verdict D
  drop_event : Verdict D
  replaced : Candidate D → Verdict D

-- `RedactEventHook`: the candidate that it was given, as it leaves it, and what it returns.
abbrev pub EventHook : Type 0 → Type 0
EventHook D = Candidate D → Candidate D × Verdict D

abbrev pub closed_candidate : {D : Type 0} → Candidate D → Candidate D
closed_candidate candidate = record candidate {
  input = plain (string redaction_failed_placeholder);
  output = plain (string redaction_failed_placeholder);
  error_message = some redaction_failed_placeholder;
  telemetry = none;
}

unfoldable pub judged : {D : Type 0} → Candidate D × Verdict D → Option (Candidate D)
judged (candidate, hook_failed) = some (closed_candidate candidate)
judged (candidate, drop_event) = none
judged (candidate, replaced redacted) = some redacted

unfoldable pub apply_hook : {D : Type 0} → Option (EventHook D) → Candidate D → Option (Candidate D)
apply_hook none candidate = some candidate
apply_hook (some hook) candidate = judged (hook candidate)

module _ {T D : Type 0} (env : Env T D) where
  abbrev pub assembled : ToolCallInput T → (ℕ → ℕ) → Option (Candidate D) → Option (Event D)
  assembled input raw none = none
  assembled input raw (some candidate) = some (assemble_tool_call_event env input candidate raw)

  -- `FinalizeToolCallEvent`
  unfoldable pub finalize_tool_call_event :
      ToolCallInput T → Option (EventHook D) → (ℕ → ℕ) → Option (Event D)
  finalize_tool_call_event input hook raw =
      assembled input raw (apply_hook hook (prepare_tool_call_candidate env input))
