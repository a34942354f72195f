-- ===== src/Tests/Recorder.antt =====
-- armatureanalytics/recorder.go: two calls of one session, behind the default settings.
use mcp_analytics_go.Prelude.{
  ℕ, ◌≡◌, ◌≤◌, ◌<◌, refl, Bool, true, false, ◌&&◌, Option, none, some, List, [], ◌∷◌, Text, bytes,
  length, is_empty, text_eq, text_eq_refl, text_is_eq, arith,
}
use mcp_analytics_go.Json.{Fields, field, no_fields, string, lookup_field}
use mcp_analytics_go.Session.{
  ClientName, or_fallback, trim_dashes, trim_left_dashes, slug_loop, trim_space, trim_front,
  slug_step, slug_session_part, anonymous_stateless_client, build_stateless_session_id,
}
use mcp_analytics_go.Telemetry.{Telemetry, no_telemetry}
use mcp_analytics_go.Event.{Event}
use mcp_analytics_go.Event.Prepare.{ToolCallInput}
use mcp_analytics_go.Event.Build.{assemble_tool_call_event}
use mcp_analytics_go.Recorder.{
  Config, capture_enabled, Identifiers, new_recorder, max_identifiers, Recorder, Recorded,
  tool_call, settled, identifier_of, actor_of, session_of, events_of, events_of_all,
}
use mcp_analytics_go.Recorder.Inits.{has_init}
use mcp_analytics_go.Recorder.Capture.{events_of-hides_telemetry}
use mcp_analytics_go.Recorder.Sessions.{session_init-once}
use mcp_analytics_go.Recorder.Identifiers.{has_key, actor_identifiers_le}
use mcp_analytics_go.Recorder.Hooks.{
  CallToolRequest, call_context, args_value, Ending, abandoned, ended, PassesOn, ended-PassesOn,
}
use mcp_analytics_go.Recorder.Clients.{client_name-build}
use mcp_analytics_go.Tests.Event.{small_env, asked, repeated, zeros, asked_candidate}

abbrev pub capture_off : Config ℕ ℕ
capture_off = record {
  actor_seed_of = none;
  actor_identifier_of = some (λ ctx. bytes "ann");
  send_feedback = none;
  request_capability = none;
  capture_telemetry = some false;
  redact = none;
  redact_secrets = none;
  redact_event = none;
  telemetry_field_map = [];
}

abbrev none_owned : Text → Bool
none_owned name = false

abbrev first_of : Identifiers → Text
first_of [] = []
first_of ((k, v) ∷ m) = k

abbrev told : Telemetry
told = record no_telemetry { user_intent = bytes "buy a house" }

events_of-hides_telemetry_example :
    events_of small_env capture_off none_owned first_of
      (tool_call (record asked { telemetry = told }) 0 zeros)
      new_recorder
    ≡ events_of small_env capture_off none_owned first_of (tool_call asked 0 zeros) new_recorder
unfolding capture_enabled
events_of-hides_telemetry_example =
    events_of-hides_telemetry small_env capture_off none_owned first_of asked 0 zeros new_recorder
      told refl

abbrev first_call : Recorded ℕ ℕ
first_call = tool_call asked 0 zeros

abbrev second_call : Recorded ℕ ℕ
second_call = tool_call repeated 0 zeros

session_init-once_example :
    (bs es fs gs : List (Event ℕ)) × (r r1 r2 r3 : Recorder) × (events_of_all small_env capture_off
        none_owned first_of [] new_recorder
      ≡ some (bs, r))
    × (events_of small_env capture_off none_owned first_of first_call r ≡ some (es, r1))
    × (events_of_all small_env capture_off none_owned first_of (second_call ∷ []) r1
        ≡ some (fs, r2))
    × (events_of small_env capture_off none_owned first_of second_call r2 ≡ some (gs, r3))
    × ((has_init es && has_init gs) ≡ false)
unfolding session_of actor_of settled is_empty bytes identifier_of
session_init-once_example =
    session_init-once small_env capture_off none_owned first_of [] (second_call ∷ []) first_call
      second_call refl refl refl (omega arith)

first_of-begins : (m : Identifiers) → 0 < length m → has_key (first_of m) m ≡ true
unfolding has_key
first_of-begins [] h = absurd (omega (arith, h))
first_of-begins ((k, v) ∷ m) h = rw (text_eq_refl k) refl

actor_identifiers_le_example :
    (es : List (Event ℕ)) × (r : Recorder) × (events_of_all small_env capture_off none_owned
        first_of
        (first_call ∷ second_call ∷ [])
        new_recorder
      ≡ some (es, r))
    × (length r.actor_identifiers ≤ max_identifiers)
actor_identifiers_le_example =
    actor_identifiers_le small_env capture_off none_owned first_of (first_call ∷ second_call ∷ [])
      (record { begins = first_of-begins })

abbrev sevens : ℕ → ℕ
sevens i = 7

abbrev editor : ClientName
editor = record { name = bytes "editor"; version = bytes "1" }

-- A call in the session that was built for the editor.
abbrev from_editor : ToolCallInput ℕ
from_editor = record asked { session_id = build_stateless_session_id (some editor) [] sevens }

client_name-build_example :
    lookup_field
      (bytes "client_name")
      (assemble_tool_call_event small_env
        (settled capture_off none_owned from_editor 0)
        asked_candidate
        zeros).metadata
    ≡ some (string (slug_session_part (bytes "editor") anonymous_stateless_client))
unfolding slug_session_part anonymous_stateless_client bytes text_eq is_empty or_fallback
    trim_dashes trim_left_dashes slug_loop trim_space trim_front slug_step
client_name-build_example =
    client_name-build small_env capture_off none_owned from_editor 0 asked_candidate sevens zeros
      editor [] (λ i. omega arith) refl refl refl

abbrev request : CallToolRequest
request = record {
  name = bytes "search";
  arguments = some (field (bytes "telemetry") (string (bytes "{}")) no_fields);
  authorization = [];
  workflow_run = [];
}

abbrev request_args : Fields
request_args = field (bytes "telemetry") (string (bytes "{}")) no_fields

abbrev decode_none : Text → Option Fields
decode_none s = none

abbrev begun_at : ℕ
begun_at = 1

abbrev ended_at : ℕ
ended_at = 2

abbrev cancelled : Ending
cancelled = abandoned none

ended-PassesOn_example :
    (passed : Option Fields) × ((ended
        (call_context decode_none none_owned none_owned request begun_at (bytes "s1") none)
        ended_at
        cancelled).args
      ≡ args_value passed)
    × PassesOn decode_none (none_owned (bytes "search")) request_args passed
ended-PassesOn_example =
    ended-PassesOn decode_none none_owned none_owned request request_args begun_at ended_at
      (bytes "s1") none cancelled refl
