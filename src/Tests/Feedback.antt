-- ===== src/Tests/Feedback.antt =====
-- armatureanalytics/send_feedback.go: a feedback call, and a server with a tool of the name.
use mcp_analytics_go.Prelude.{◌≡◌, ◌↔◌, true, false, not, ◌&&◌, ◌||◌, none, some, bytes}
use mcp_analytics_go.Json.{Fields, string, field, no_fields, as_string, lookup_field}
use mcp_analytics_go.Recorder.{send_feedback_setting, or_true, is_explicit}
use mcp_analytics_go.Feedback.{
  send_feedback_argument_name, is_capability, answer, send_feedback_handler,
  consume_capability_result, added, inject_send_feedback,
}
use mcp_analytics_go.Feedback.Marker.{consume-send_feedback_handler}
use mcp_analytics_go.Feedback.Inject.{inject_send_feedback_lem}
use mcp_analytics_go.Tests.Recorder.{capture_off}

abbrev wish : Fields
wish = field (bytes "capability") (string (bytes "Export a report.")) no_fields

consume-send_feedback_handler_example :
    (consume_capability_result (send_feedback_handler (some 0) wish) ≡ (
      some 0,
      answer (is_capability (as_string (lookup_field send_feedback_argument_name wish))),
    ))
    × (consume_capability_result (send_feedback_handler none wish)
        ≡ (none, send_feedback_handler none wish))
consume-send_feedback_handler_example = consume-send_feedback_handler 0 wish

inject_send_feedback_lem_example :
    ((inject_send_feedback capture_off false true true (some true) true).0 ≡ some added ↔ (
      (or_true (send_feedback_setting capture_off) && (not false && (true && (true && not true))))
      ≡ true))
    × ((inject_send_feedback capture_off false true true (some true) true).1 ≡ (
        is_explicit (send_feedback_setting capture_off)
        && (not false && (true && (true && (not true || true))))))
inject_send_feedback_lem_example = inject_send_feedback_lem capture_off false true true true true
