-- ===== src/Recorder.antt =====
-- armatureanalytics/recorder.go: what the recorder remembers of sessions and actors, and the
-- events that it makes of a call or an initialize.
mod Settings
pub mod Capture
pub mod Inits
pub mod Sessions
pub mod Identifiers
pub mod Clients
pub mod Hooks
pub mod Connections
unfoldable pub use Settings.*
use mcp_analytics_go.Prelude.{
  ℕ, Bool, true, false, not, ◌&&◌, ◌||◌, Option, none, some, List, [], ◌∷◌, ◌++◌, Text, bytes,
  is_empty, text_eq, text_is_eq, length, leb, if◌then◌else◌, ◌>>=◌,
}
use mcp_analytics_go.Client.{ClientInfo}
use mcp_analytics_go.KeySet.{BoundedKeySet, new_bounded_key_set, add}
use mcp_analytics_go.Session.{ClientName, parse_stateless_session_client_info}
use mcp_analytics_go.Telemetry.{Telemetry, no_telemetry}
use mcp_analytics_go.Telemetry.FieldMap.{apply_telemetry_field_map}
use mcp_analytics_go.Event.{Event, Env, actor_id_of}
use mcp_analytics_go.Event.Prepare.{ToolCallInput}
use mcp_analytics_go.Event.Build.{
  SessionInitInput, build_actor_identity_event, build_session_init_event, finalize_tool_call_event,
}

-- `fillClientInfoFromSessionID`
abbrev pub client_of : Option ClientName → Option ClientInfo
client_of none = none
client_of (some c) =
    some (record { name = c.name; version = c.version; protocol_version = []; capabilities = none })

abbrev pub named_by : ClientInfo → Option ClientName → ClientInfo
named_by info none = info
named_by info (some parsed) = record info {
  name = parsed.name;
  version = if is_empty info.version then parsed.version else info.version;
}

unfoldable pub fill_client_info_from_session_id : Option ClientInfo → Text → Option ClientInfo
fill_client_info_from_session_id none session_id =
    client_of (parse_stateless_session_client_info session_id)
fill_client_info_from_session_id (some info) session_id = some (
    if not (is_empty info.name)
    then info
    else named_by info (parse_stateless_session_client_info session_id))

-- `actorIdentifiers`: a Go map, with each key once. Reading a missing key gives the empty text.
abbrev pub Identifiers : Type 0
Identifiers = List (Text × Text)

unfoldable pub identifier_at : Text → Identifiers → Text
identifier_at actor_id [] = []
identifier_at actor_id ((k, v) ∷ m) = if text_eq k actor_id then v else identifier_at actor_id m

-- `delete(m, key)`
unfoldable pub without : Text → Identifiers → Identifiers
without key [] = []
without key ((k, v) ∷ m) = if text_eq k key then without key m else (k, v) ∷ without key m

-- `m[key] = value`
unfoldable pub with_identifier : Text → Text → Identifiers → Identifiers
with_identifier key value m = (key, value) ∷ without key m

abbrev pub max_identifiers : ℕ
max_identifiers = 10000

-- What the recorder remembers for its events.
pub record Recorder : Type 0 where
  pub lazy_sessions : BoundedKeySet Text
  pub actor_identifiers : Identifiers

-- `NewRecorder`
unfoldable pub new_recorder : Recorder
new_recorder = record { lazy_sessions = new_bounded_key_set 10000; actor_identifiers = [] }

abbrev pub to_list : {A : Type 0} → Option A → List A
to_list none = []
to_list (some a) = a ∷ []

-- A call of `RecordToolCall` or `RecordSessionInit`, its context and the random bytes it draws.
pub data Recorded (Ctx T : Type 0) : Type 0 where
  tool_call : ToolCallInput T → Ctx → (ℕ → ℕ) → Recorded Ctx T
  session_init : SessionInitInput T → Ctx → Recorded Ctx T

-- `in.SessionID != "" && r.lazySessions.Add(actorID+":"+in.SessionID)`; `none` is a panic.
unfoldable pub session_key : Text → Text → Text
session_key actor_id session_id = actor_id ++ (bytes ":" ++ session_id)

unfoldable pub add_session : Text → Text → BoundedKeySet Text → Option (BoundedKeySet Text × Bool)
add_session actor_id session_id s =
    if is_empty session_id then some (s, false) else add (session_key actor_id session_id) s

-- The room that `identityEventFor` makes; `first_key` is the key with which an iteration of the
-- map begins.
unfoldable pub evicted : (Identifiers → Text) → Identifiers → Identifiers
evicted first_key m = if leb max_identifiers (length m) then without (first_key m) m else m

module _ {T D : Type 0} (env : Env T D) (first_key : Identifiers → Text) where
  -- `identityEventFor`
  unfoldable pub identity_event_for : Text → Text → T → Identifiers → Option (Event D) × Identifiers
  identity_event_for actor_id identifier started_at m =
      if is_empty identifier
      then (none, m)
      else if text_eq (identifier_at actor_id m) identifier
      then (none, m)
      else (
        some (build_actor_identity_event env actor_id identifier started_at),
        with_identifier actor_id identifier (evicted first_key m),
      )

module _ {Ctx T D : Type 0} (cfg : Config Ctx D) where
  unfoldable pub identifier_of : ToolCallInput T → Ctx → Text
  identifier_of input ctx =
      if input.actor_identifier_resolved then input.actor_identifier else actor_identifier cfg ctx

  -- The input as the work of `RecordSessionInit` leaves it.
  unfoldable pub settled_init : SessionInitInput T → Ctx → SessionInitInput T
  settled_init input ctx = record input {
    actor_seed =
        non_empty_or input.actor_identifier
          (non_empty_or input.actor_seed (resolve_actor_seed cfg ctx input.actor_headers));
    client_info = fill_client_info_from_session_id input.client_info input.session_id;
  }

-- `owned` is the registry of tools that own their telemetry field.
module _ {Ctx T D : Type 0} (cfg : Config Ctx D) (owned : Text → Bool) where
  -- The telemetry that `buildToolCallEvents` exports.
  unfoldable pub exported_telemetry : ToolCallInput T → Telemetry
  exported_telemetry input =
      if not (capture_enabled cfg)
      then no_telemetry
      else apply_telemetry_field_map
          (if owned input.tool_name then no_telemetry else input.telemetry) input.args
          cfg.telemetry_field_map

  -- The input as `buildToolCallEvents` leaves it.
  unfoldable pub settled : ToolCallInput T → Ctx → ToolCallInput T
  settled input ctx = record input {
    actor_seed =
        non_empty_or (identifier_of cfg input ctx)
          (non_empty_or input.actor_seed (resolve_actor_seed cfg ctx input.actor_headers));
    telemetry = exported_telemetry input;
    redact = cfg.redact;
    redact_secrets_setting = cfg.redact_secrets;
    client_info = fill_client_info_from_session_id input.client_info input.session_id;
  }

-- The input as `RecordToolCall` and `RecordSessionInit` hand it to their works.
module _ {Ctx T D : Type 0} (cfg : Config Ctx D) where
  abbrev pub resolved : ToolCallInput T → Ctx → ToolCallInput T
  resolved input ctx = record input {
    actor_identifier = actor_identifier cfg ctx;
    actor_identifier_resolved = true;
  }

  abbrev pub resolved_init : SessionInitInput T → Ctx → SessionInitInput T
  resolved_init input ctx = record input { actor_identifier = actor_identifier cfg ctx }

-- The actor id and the session id under which a work is remembered.
unfoldable pub actor_of :
    {Ctx T D : Type 0} → Env T D → Config Ctx D → (Text → Bool) → Recorded Ctx T → Text
actor_of env cfg owned (tool_call input ctx raw) =
    actor_id_of env (settled cfg owned (resolved cfg input ctx) ctx).actor_seed
actor_of env cfg owned (session_init input ctx) =
    actor_id_of env (settled_init cfg (resolved_init cfg input ctx) ctx).actor_seed

unfoldable pub session_of : {Ctx T : Type 0} → Recorded Ctx T → Text
session_of (tool_call input ctx raw) = input.session_id
session_of (session_init input ctx) = input.session_id

abbrev pub init_of : {T : Type 0} → ToolCallInput T → SessionInitInput T
init_of input = record {
  session_id = input.session_id;
  actor_seed = input.actor_seed;
  started_at = input.started_at;
  client_info = input.client_info;
  workflow_run_id = input.workflow_run_id;
  actor_headers = [];
  actor_identifier = [];
}

module _ {Ctx T D : Type 0} (env : Env T D) (cfg : Config Ctx D) where
  -- The rest of `buildToolCallEvents`, after the session is added.
  abbrev pub tool_call_events :
      ToolCallInput T
      → (ℕ → ℕ)
      → Option (Event D) × Identifiers
      → BoundedKeySet Text × Bool
      → List (Event D) × Recorder
  tool_call_events input raw (identity, identifiers) (lazy, fresh) = (
    to_list identity
        ++ ((if fresh then build_session_init_event env (init_of input) ∷ [] else [])
            ++ to_list (finalize_tool_call_event env input cfg.redact_event raw)),
    record { lazy_sessions = lazy; actor_identifiers = identifiers },
  )

  -- The rest of the work of `RecordSessionInit`.
  abbrev pub session_init_events :
      SessionInitInput T
      → Option (Event D) × Identifiers
      → BoundedKeySet Text × Bool
      → List (Event D) × Recorder
  session_init_events input (identity, identifiers) (lazy, fresh) = (
    to_list identity
        ++ (if is_empty input.session_id || fresh
            then build_session_init_event env input ∷ []
            else []),
    record { lazy_sessions = lazy; actor_identifiers = identifiers },
  )

module _ {Ctx T D : Type 0} (env : Env T D) (cfg : Config Ctx D) (owned : Text → Bool)
    (first_key : Identifiers → Text) where
  -- `buildToolCallEvents`
  unfoldable pub build_tool_call_events :
      ToolCallInput T → Ctx → (ℕ → ℕ) → Recorder → Option (List (Event D) × Recorder)
  build_tool_call_events given ctx raw r = do
    let input = settled cfg owned given ctx
    let actor_id = actor_id_of env input.actor_seed
    let identity =
        identity_event_for env first_key actor_id (identifier_of cfg given ctx) input.started_at
          r.actor_identifiers
    added ← add_session actor_id input.session_id r.lazy_sessions
    some (tool_call_events env cfg input raw identity added)

  -- The work of `RecordSessionInit`.
  unfoldable pub build_session_init_events :
      SessionInitInput T → Ctx → Recorder → Option (List (Event D) × Recorder)
  build_session_init_events given ctx r = do
    let input = settled_init cfg given ctx
    let actor_id = actor_id_of env input.actor_seed
    let identity =
        identity_event_for env first_key actor_id input.actor_identifier input.started_at
          r.actor_identifiers
    added ← add_session actor_id input.session_id r.lazy_sessions
    some (session_init_events env cfg input identity added)

  -- The events of a work that `RecordToolCall` or `RecordSessionInit` has queued.
  unfoldable pub events_of : Recorded Ctx T → Recorder → Option (List (Event D) × Recorder)
  events_of (tool_call input ctx raw) r = build_tool_call_events (resolved cfg input ctx) ctx raw r
  events_of (session_init input ctx) r =
      build_session_init_events (resolved_init cfg input ctx) ctx r

  -- The queue runs the works one after the other; the events of all of them.
  unfoldable pub events_of_all :
      List (Recorded Ctx T) → Recorder → Option (List (Event D) × Recorder)
  events_of_all [] r = some ([], r)
  events_of_all (x ∷ xs) r = do
    (es, r1) ← events_of x r
    (fs, r2) ← events_of_all xs r1
    some (es ++ fs, r2)
