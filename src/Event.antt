-- ===== src/Event.antt =====
-- armatureanalytics/event.go: the events that are sent, and how a tool call becomes one.
pub mod Prepare
pub mod Build
pub mod Identity
pub mod Closed
pub mod Limits
use mcp_analytics_go.Prelude.{
  ℕ, Bool, Option, List, Text, bytes, ◌++◌, [], ◌∷◌, is_empty, none, some, if◌then◌else◌, true,
  false,
}
use mcp_analytics_go.Json.{Value, Fields, null, string}
use mcp_analytics_go.Telemetry.{Telemetry}

abbrev pub max_preview_bytes : ℕ
max_preview_bytes = 8192

abbrev pub max_source_bytes : ℕ
max_source_bytes = 32768

abbrev pub max_capabilities_bytes : ℕ
max_capabilities_bytes = 4096

abbrev pub max_request_meta_bytes : ℕ
max_request_meta_bytes = 4096

unfoldable pub redaction_failed_placeholder : Text
redaction_failed_placeholder = bytes "[redaction failed]"

-- What the callbacks of a customer get and return: a decoded value, or the telemetry.
pub data Payload : Type 0 where
  plain : Value → Payload
  telemetry_payload : Telemetry → Payload

-- `v == nil`
abbrev pub is_nil : Payload → Bool
is_nil (plain null) = true
is_nil _ = false

-- `Event`; the three lists that are always empty are left out. `T` and `D` are the times and the
-- durations.
pub record Event (D : Type 0) : Type 0 where
  pub event_id : Text
  pub kind : Text
  pub actor_id : Text
  pub session_id_hint : Option Text
  pub started_at : Text
  pub finished_at : Text
  pub duration_ms : D
  pub ok : Bool
  pub error : Option Text
  pub metadata : Fields
  pub script_source : Option Text
  pub script_source_truncated : Bool
  pub result_preview : Option Text
  pub result_truncated : Bool
  pub is_workflow : Bool
  pub workflow_run_id : Text

-- What the package takes from elsewhere: SHA-256 in hex, `json.Marshal` (`none` is an error), the
-- time as text, the milliseconds between two times and their zero, `strings.ToLower`, the
-- patterns of sanitizing, the rules of redaction, and `json.Unmarshal` into the fields of
-- `Telemetry` with the raw call_purpose, and into a string.
pub record Env (T D : Type 0) : Type 0 where
  pub sha256_hex : Text → Text
  pub marshal : Payload → Option Text
  pub stamp : T → Text
  pub millis_between : T → T → D
  pub no_time : D
  pub lower : Text → Text
  pub matches_payload : Text → Bool
  pub replace_embedded : Text → Text
  pub rules : List (Text → Text)
  pub decode_plain : Text → Option (Telemetry × Text)
  pub decode_string : Text → Option Text

unfoldable pub kind_tool_call : Text
kind_tool_call = bytes "tool_call"

unfoldable pub kind_session_init : Text
kind_session_init = bytes "session_init"

unfoldable pub kind_actor_identity : Text
kind_actor_identity = bytes "actor_identity"

-- `stringPtrOrNil` and `stringOrNil`
abbrev pub string_ptr_or_nil : Text → Option Text
string_ptr_or_nil s = if is_empty s then none else some s

abbrev pub string_or_nil : Text → Value
string_or_nil s = if is_empty s then null else string s

module _ {T D : Type 0} (env : Env T D) where
  -- `ActorID`
  unfoldable pub actor_id_of : Text → Text
  actor_id_of seed = env.sha256_hex (if is_empty seed then bytes "anonymous" else seed)

  -- `EventID`
  unfoldable pub event_id_of : Text → Text → Text → Text
  event_id_of actor_id kind request_id =
      env.sha256_hex (actor_id ++ (bytes " " ++ (kind ++ (bytes " " ++ request_id))))

  abbrev pub marshalled : Option Text → Text
  marshalled none = bytes "[unserialisable]"
  marshalled (some data_text) = data_text

  -- `stringifyPreview`
  unfoldable pub stringify_preview : Payload → Text
  stringify_preview v = if is_nil v then bytes "undefined" else marshalled (env.marshal v)
