-- ===== src/Recorder/Hooks.antt =====
-- armatureanalytics/recorder.go: what the hooks take of a call, and the input that they hand on when
-- it ends.
use mcp_analytics_go.Prelude.{
  ◌≡◌, refl, Bool, true, false, Option, none, some, [], Text, bytes, if◌then◌else◌,
}
use mcp_analytics_go.Json.{Value, Fields, null, object}
use mcp_analytics_go.Client.{ClientInfo}
use mcp_analytics_go.Session.{trim_space}
use mcp_analytics_go.Telemetry.{
  Telemetry, no_telemetry, first_telemetry, extract_telemetry_from_args,
}
use mcp_analytics_go.Telemetry.Extract.{Cleaned, extract_strips}
use mcp_analytics_go.Event.Prepare.{ToolCallInput}

-- `mcp.CallToolRequest`: the name, the arguments, and the headers that are read.
pub record CallToolRequest : Type 0 where
  pub name : Text
  pub arguments : Option Fields
  pub authorization : Text
  pub workflow_run : Text

-- `callContext`
pub record CallContext (T : Type 0) : Type 0 where
  pub tool_name : Text
  pub args : Value
  pub telemetry : Telemetry
  pub started_at : T
  pub session_id : Text
  pub client_info : Option ClientInfo
  pub actor_headers : Text
  pub workflow_run_id : Text

abbrev pub args_value : Option Fields → Value
args_value none = null
args_value (some m) = object m

-- `json.Unmarshal` into a map, the registry of owned tools, and the pattern of workflow run ids are
-- parameters.
module _ (unmarshal : Text → Option Fields) (owned : Text → Bool)
    (is_workflow_run : Text → Bool) where
  -- `WorkflowRunIDFromHeaders`
  unfoldable pub workflow_run_id_from_headers : Text → Text
  workflow_run_id_from_headers header =
      let value = trim_space header in if is_workflow_run value then value else []

  -- The telemetry and the arguments of a call, as `onBeforeAny` takes them.
  unfoldable pub taken_args : CallToolRequest → Telemetry × Option Fields
  taken_args req =
      if owned req.name
      then (no_telemetry, req.arguments)
      else extract_telemetry_from_args unmarshal req.arguments

  -- The call that `onBeforeAny` stores.
  unfoldable pub call_context :
      {T : Type 0} → CallToolRequest → T → Text → Option ClientInfo → CallContext T
  call_context req now session_id client_info = record {
    tool_name = req.name;
    args = args_value (taken_args req).1;
    telemetry = (taken_args req).0;
    started_at = now;
    session_id = session_id;
    client_info = client_info;
    actor_headers = req.authorization;
    workflow_run_id = workflow_run_id_from_headers req.workflow_run;
  }

-- The fields that all three ends of a call fill alike.
unfoldable pub input_of : {T : Type 0} → CallContext T → T → ToolCallInput T
input_of cc now = record {
  tool_name = cc.tool_name;
  request_id = [];
  args = cc.args;
  result = null;
  err = none;
  is_tool_error = false;
  error_type = [];
  session_id = cc.session_id;
  actor_seed = [];
  started_at = cc.started_at;
  finished_at = now;
  client_info = cc.client_info;
  telemetry = cc.telemetry;
  workflow_run_id = cc.workflow_run_id;
  request_meta = Fields.no_fields;
  capability_request = false;
  redact = none;
  redact_secrets_setting = none;
  actor_headers = cc.actor_headers;
  actor_identifier = [];
  actor_identifier_resolved = false;
}

abbrev pub is_tool_error_of : Option Bool → Bool
is_tool_error_of none = false
is_tool_error_of (some flag) = flag

abbrev pub or_tool_error : Option Text → Text
or_tool_error none = bytes "tool_error"
or_tool_error (some message) = message

abbrev pub or_canceled : Option Text → Text
or_canceled none = bytes "context canceled"
or_canceled (some cause) = cause

module _ {T : Type 0} where
  -- `onSuccess`; the flag is `IsError` of a result that is a `CallToolResult`, and `capability`
  -- says that the result carried a reservation.
  unfoldable pub success_input :
      CallContext T → T → Value → Option Bool → Telemetry → Bool → ToolCallInput T
  success_input cc now result error_flag from_context capability = record (input_of cc now) {
    result = result;
    is_tool_error = is_tool_error_of error_flag;
    telemetry = first_telemetry cc.telemetry from_context;
    capability_request = capability;
  }

  -- `onError`
  unfoldable pub error_input : CallContext T → T → Option Text → Telemetry → ToolCallInput T
  error_input cc now call_err from_context = record (input_of cc now) {
    err = some (or_tool_error call_err);
    telemetry = first_telemetry cc.telemetry from_context;
  }

  -- `onAbandonedCall`
  unfoldable pub abandoned_input : CallContext T → T → Option Text → ToolCallInput T
  abandoned_input cc now cause = record (input_of cc now) { err = some (or_canceled cause) }

-- What the hooks pass on of the arguments: of an owned tool all, of another all but the telemetry
-- argument.
abbrev pub PassesOn : (Text → Option Fields) → Bool → Fields → Option Fields → Type 0
PassesOn unmarshal true args passed = passed ≡ some args
PassesOn unmarshal false args passed = Cleaned unmarshal args passed

-- How a call ends.
pub data Ending : Type 0 where
  succeeded : Value → Option Bool → Telemetry → Bool → Ending
  failed : Option Text → Telemetry → Ending
  abandoned : Option Text → Ending

unfoldable pub ended : {T : Type 0} → CallContext T → T → Ending → ToolCallInput T
ended cc now (succeeded result error_flag from_context capability) =
    success_input cc now result error_flag from_context capability
ended cc now (failed call_err from_context) = error_input cc now call_err from_context
ended cc now (abandoned cause) = abandoned_input cc now cause

module _ (unmarshal : Text → Option Fields) (owned : Text → Bool)
    (is_workflow_run : Text → Bool) where
  taken-PassesOn :
      (b : Bool) (req : CallToolRequest) (args : Fields)
      → owned req.name ≡ b
      → req.arguments ≡ some args
      → PassesOn unmarshal b args (taken_args unmarshal owned is_workflow_run req).1
  unfolding taken_args
  taken-PassesOn true req args o given = rw o given
  taken-PassesOn false req args o given = rw (o, given) (extract_strips unmarshal args)

  -- However a call ends, what is recorded of its arguments is all of them for a tool that owns its
  -- telemetry field, and for another one all but the telemetry argument.
  pub ended-PassesOn :
      {T : Type 0} (req : CallToolRequest) (args : Fields) (started now : T) (session_id : Text)
      (client_info : Option ClientInfo) (ending : Ending)
      → req.arguments ≡ some args
      → (passed : Option Fields) × ((ended
            (call_context unmarshal owned is_workflow_run req started session_id client_info)
            now
            ending).args
          ≡ args_value passed)
        × PassesOn unmarshal (owned req.name) args passed
  unfolding ended call_context success_input error_input abandoned_input input_of
  ended-PassesOn req args started now session_id client_info (succeeded result flag t capability)
        given =
      (_, refl, taken-PassesOn (owned req.name) req args refl given)
  ended-PassesOn req args started now session_id client_info (failed e t) given =
      (_, refl, taken-PassesOn (owned req.name) req args refl given)
  ended-PassesOn req args started now session_id client_info (abandoned cause) given =
      (_, refl, taken-PassesOn (owned req.name) req args refl given)
