-- ===== src/Tests/Event.antt =====
-- armatureanalytics/event.go: one tool call, its event, and a hook that fails.
use mcp_analytics_go.Prelude.{
  ℕ, ◌≡◌, ◌⊎◌, ◌≤◌, refl, true, false, none, some, [], ◌∷◌, Text, bytes, length, is_empty, all,
}
use mcp_analytics_go.Json.{string, object, field, no_fields, lookup_field}
use mcp_analytics_go.Telemetry.{no_telemetry}
use mcp_analytics_go.Event.{Payload, Env, max_preview_bytes, max_source_bytes}
use mcp_analytics_go.Event.Prepare.{ToolCallInput, Candidate}
use mcp_analytics_go.Event.Build.{
  hook_failed, EventHook, build_tool_call_event, finalize_tool_call_event, scoped_request_id,
  assemble_tool_call_event,
}
use mcp_analytics_go.Event.Identity.{Collision, event_id-injective}
use mcp_analytics_go.Event.Closed.{finalize-closed}
use mcp_analytics_go.Event.Limits.{Within, FoundFits, assemble-Within}

-- A hash of two bytes, the length and the first byte.
abbrev first_byte : Text → ℕ
first_byte [] = 0
first_byte (c ∷ s) = c

abbrev pub small_env : Env ℕ ℕ
small_env = record {
  sha256_hex = λ s. length s ∷ first_byte s ∷ [];
  marshal = λ v. some (bytes "{}");
  stamp = λ t. t ∷ [];
  millis_between = λ t u. u;
  no_time = 0;
  lower = λ s. s;
  matches_payload = λ s. false;
  replace_embedded = λ s. s;
  rules = [];
  decode_plain = λ s. some (no_telemetry, []);
  decode_string = λ s. some s;
}

abbrev pub asked : ToolCallInput ℕ
asked = record {
  tool_name = bytes "search";
  request_id = bytes "7";
  args = object (field (bytes "q") (string (bytes "go")) no_fields);
  result = string (bytes "found");
  err = none;
  is_tool_error = false;
  error_type = [];
  session_id = bytes "s1";
  actor_seed = bytes "ann";
  started_at = 1;
  finished_at = 4;
  client_info = none;
  telemetry = no_telemetry;
  workflow_run_id = [];
  request_meta = field (bytes "progressToken") (string (bytes "p")) no_fields;
  capability_request = false;
  redact = none;
  redact_secrets_setting = none;
  actor_headers = [];
  actor_identifier = [];
  actor_identifier_resolved = true;
}

abbrev pub zeros : ℕ → ℕ
zeros i = 0

-- The call repeated, with another result.
abbrev pub repeated : ToolCallInput ℕ
repeated = record asked { result = string (bytes "nothing") }

event_id-injective_example :
    (((build_tool_call_event small_env asked zeros).actor_id
        ≡ (build_tool_call_event small_env repeated zeros).actor_id)
      × (asked.session_id ≡ repeated.session_id)
      × (asked.request_id ≡ repeated.request_id))
    ⊎ Collision small_env.sha256_hex
unfolding is_empty all bytes build_tool_call_event assemble_tool_call_event scoped_request_id
event_id-injective_example =
    event_id-injective small_env asked repeated zeros zeros 2 (λ s. refl) refl refl refl refl refl
      refl refl

abbrev refuse : EventHook ℕ
refuse candidate = (candidate, hook_failed)

finalize-closed_example :
    finalize_tool_call_event small_env
      (record asked {
        args = string (bytes "secret");
        result = string (bytes "secret");
        telemetry = no_telemetry;
        error_type = bytes "secret";
      })
      (some refuse)
      zeros
    ≡ finalize_tool_call_event small_env asked (some refuse) zeros
finalize-closed_example =
    finalize-closed small_env asked refuse zeros (string (bytes "secret")) (string (bytes "secret"))
      no_telemetry (bytes "secret") (record { fails = λ c. refl; keeps = λ c. refl })

abbrev pub asked_candidate : Candidate ℕ
asked_candidate = record {
  kind = bytes "tool_call";
  tool_name = bytes "search";
  status = bytes "ok";
  duration_ms = 3;
  session_id = bytes "s1";
  input = Payload.plain (string (bytes "go"));
  output = Payload.plain (string (bytes "found"));
  error_message = none;
  telemetry = none;
}

assemble-Within_example :
    Within max_source_bytes
      (assemble_tool_call_event small_env asked asked_candidate zeros).script_source
    × Within max_preview_bytes
        (assemble_tool_call_event small_env asked asked_candidate zeros).result_preview
    × ((s : Text) × (lookup_field
            (bytes "input_preview")
            (assemble_tool_call_event small_env asked asked_candidate zeros).metadata
          ≡ some (string s))
        × (length s ≤ max_preview_bytes))
    × FoundFits small_env (
        lookup_field
          (bytes "request_meta")
          (assemble_tool_call_event small_env asked asked_candidate zeros).metadata)
assemble-Within_example = assemble-Within small_env asked asked_candidate zeros
