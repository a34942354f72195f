-- ===== src/Feedback.antt =====
-- armatureanalytics/send_feedback.go: the tool of the SDK by which an agent reports a missing
-- capability, and the marker that joins its result to the reservation of the handler.
pub mod Marker
pub mod Inject
use mcp_analytics_go.Prelude.{
  ℕ, Bool, true, false, not, ◌&&◌, ◌||◌, Option, none, some, List, [], ◌∷◌, Text, bytes, is_empty,
  text_eq, length, ltb, if◌then◌else◌,
}
use mcp_analytics_go.Json.{Value, Fields, lookup_field, as_string}
use mcp_analytics_go.Session.{trim_space}
use mcp_analytics_go.Recorder.{Config, send_feedback_enabled, send_feedback_explicit}

unfoldable pub send_feedback_tool_name : Text
send_feedback_tool_name = bytes "send_feedback"

unfoldable pub send_feedback_argument_name : Text
send_feedback_argument_name = bytes "capability"

abbrev pub send_feedback_argument_max_length : ℕ
send_feedback_argument_max_length = 1000

unfoldable pub send_feedback_result_marker : Text
send_feedback_result_marker = bytes "armature.dev/send-feedback"

-- What the additional fields of a result's `_meta` hold: JSON, or a reservation by its number.
pub data Extra : Type 0 where
  json : Value → Extra
  reservation : ℕ → Extra

abbrev pub Extras : Type 0
Extras = List (Text × Extra)

-- `mcp.Meta`; a nil map has no fields.
pub record Meta : Type 0 where
  pub progress_token : Option Value
  pub additional_fields : Extras

-- `mcp.CallToolResult`
pub record ToolResult : Type 0 where
  pub text : Text
  pub is_error : Bool
  pub meta : Option Meta

unfoldable pub find_extra : Text → Extras → Option Extra
find_extra key [] = none
find_extra key ((k, x) ∷ m) = if text_eq k key then some x else find_extra key m

unfoldable pub delete_extra : Text → Extras → Extras
delete_extra key [] = []
delete_extra key ((k, x) ∷ m) =
    let rest = delete_extra key m in if text_eq k key then rest else (k, x) ∷ rest

unfoldable pub put_extra : Text → Extra → Extras → Extras
put_extra key x m = (key, x) ∷ delete_extra key m

abbrev pub meta_or_new : Option Meta → Meta
meta_or_new none = record { progress_token = none; additional_fields = [] }
meta_or_new (some m) = m

abbrev pub with_marker : ℕ → Meta → Meta
with_marker i m = record m {
  additional_fields = put_extra send_feedback_result_marker (reservation i) m.additional_fields;
}

-- `markCapabilityResult`
unfoldable pub mark_capability_result : Option ℕ → ToolResult → ToolResult
mark_capability_result none result = result
mark_capability_result (some i) result = record result {
  meta = some (with_marker i (meta_or_new result.meta));
}

abbrev pub has_extras : Extras → Bool
has_extras [] = false
has_extras (x ∷ m) = true

abbrev pub is_some : Option Value → Bool
is_some none = false
is_some (some v) = true

-- `consumeCapabilityResult`: the meta without the marker, and no meta where nothing is left of it.
abbrev pub without_marker : Meta → Option Meta
without_marker m =
    let rest = delete_extra send_feedback_result_marker m.additional_fields in
    if not (has_extras rest) && not (is_some m.progress_token)
    then none
    else some (record m { additional_fields = rest })

abbrev pub consume_found : Option Extra → Meta → ToolResult → Option ℕ × ToolResult
consume_found (some (reservation i)) m result = (some i, record result { meta = without_marker m })
consume_found _ m result = (none, result)

abbrev pub consume_meta : Option Meta → ToolResult → Option ℕ × ToolResult
consume_meta none result = (none, result)
consume_meta (some m) result =
    consume_found (find_extra send_feedback_result_marker m.additional_fields) m result

unfoldable pub consume_capability_result : ToolResult → Option ℕ × ToolResult
consume_capability_result result = consume_meta result.meta result

abbrev pub error_result : Text → ToolResult
error_result message = record { text = message; is_error = true; meta = none }

abbrev pub text_result : Text → ToolResult
text_result message = record { text = message; is_error = false; meta = none }

-- The test of the argument.
abbrev pub is_capability : Option Text → Bool
is_capability none = false
is_capability (some capability) =
    not (is_empty (trim_space capability))
    && not (ltb send_feedback_argument_max_length (length capability))

unfoldable pub answer : Bool → ToolResult
answer valid =
    if valid
    then text_result (bytes "Capability request acknowledged.")
    else error_result (bytes "capability must be a non-empty string of at most 1000 characters")

-- The handler of `AddSendFeedbackTool`, with what `ReserveCapabilityRequest` has answered.
unfoldable pub send_feedback_handler : Option ℕ → Fields → ToolResult
send_feedback_handler none args =
    error_result (bytes "capability request unavailable: analytics recorder is not active")
send_feedback_handler (some i) args =
    mark_capability_result (some i)
      (answer (is_capability (as_string (lookup_field send_feedback_argument_name args))))

-- The server and what `AddSendFeedbackTool` asks of it and of the recorder: whether it has a tool of
-- the name, and `canRecord`.
pub data Added : Type 0 where
  nil_server : Added
  not_active : Added
  name_reserved : Added
  added : Added

-- `AddSendFeedbackTool`; the server is nil or answers whether it has a tool of the name.
unfoldable pub add_send_feedback_tool : Option Bool → Bool → Added
add_send_feedback_tool none can_record = nil_server
add_send_feedback_tool (some has_tool) can_record =
    if not can_record then not_active else if has_tool then name_reserved else added

abbrev pub is_failure : Added → Bool
is_failure added = false
is_failure _ = true

-- `injectSendFeedback`: what became of the registration, if it was tried, and whether `OnError` is
-- called.
unfoldable pub inject_send_feedback :
    {Ctx D : Type 0} → Config Ctx D → Bool → Bool → Bool → Option Bool → Bool → Option Added × Bool
inject_send_feedback cfg disabled has_recorder has_on_error server can_record =
    let outcome = add_send_feedback_tool server can_record in
    if not (send_feedback_enabled cfg) || disabled || not has_recorder
    then (none, false)
    else (some outcome, is_failure outcome && send_feedback_explicit cfg && has_on_error)
