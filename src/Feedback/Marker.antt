-- ===== src/Feedback/Marker.antt =====
-- armatureanalytics/send_feedback.go and recorder.go: the marker is put on every result of a reserved
-- call and is taken off again.
use mcp_analytics_go.Prelude.{
  ℕ, ◌≡◌, refl, Bool, true, false, none, some, Text, bytes, text_eq, if_cases,
}
use mcp_analytics_go.Json.{Fields, as_string, lookup_field}
use mcp_analytics_go.Feedback.{
  ToolResult, put_extra, find_extra, delete_extra, send_feedback_result_marker,
  send_feedback_argument_name, mark_capability_result, consume_capability_result, is_capability,
  answer, send_feedback_handler,
}

-- What is marked with a reservation and has no meta of its own gives back the reservation and is
-- then as it was.
abbrev bare_result : Text → Bool → ToolResult
bare_result text is_error = record { text = text; is_error = is_error; meta = none }

consume-mark :
    (i : ℕ) (text : Text) (is_error : Bool)
    → consume_capability_result (mark_capability_result (some i) (bare_result text is_error))
      ≡ (some i, bare_result text is_error)
unfolding consume_capability_result mark_capability_result put_extra find_extra delete_extra text_eq
    send_feedback_result_marker bytes
consume-mark i text is_error = refl

-- A call of the feedback tool that has a reservation gives the hook that reservation, whether its
-- argument is accepted or refused, and what is left for the client is the answer without the
-- marker. A call that got no reservation gives the hook none, and its error is left as it is.
pub consume-send_feedback_handler :
    (i : ℕ) (args : Fields)
    → (consume_capability_result (send_feedback_handler (some i) args) ≡ (
      some i,
      answer (is_capability (as_string (lookup_field send_feedback_argument_name args))),
    ))
      × (consume_capability_result (send_feedback_handler none args)
          ≡ (none, send_feedback_handler none args))
unfolding send_feedback_handler answer consume_capability_result
consume-send_feedback_handler i args = (
  if_cases (λ r. consume_capability_result (mark_capability_result (some i) r) ≡ (some i, r))
      (is_capability (as_string (lookup_field send_feedback_argument_name args)))
      (λ _. consume-mark i _ false) (λ _. consume-mark i _ true),
  refl,
)
