-- ===== src/Feedback/Inject.antt =====
-- armatureanalytics/send_feedback.go: when a server gets the feedback tool, and when a failure to give
-- it one is reported.
use mcp_analytics_go.Prelude.{◌≡◌, ◌↔◌, Bool, true, not, ◌&&◌, ◌||◌, some, arith}
use mcp_analytics_go.Recorder.{
  Config, send_feedback_setting, send_feedback_enabled, send_feedback_explicit, or_true,
  is_explicit,
}
use mcp_analytics_go.Feedback.{added, add_send_feedback_tool, inject_send_feedback}

-- A server, which may have a tool of the name already, gets the feedback tool exactly where the
-- setting is not false, the recorder exists, is enabled and can record, and no tool has the name.
-- `OnError` is called exactly where the setting is true, the recorder exists and is enabled, there
-- is an `OnError`, and the recorder cannot record or a tool has the name.
pub inject_send_feedback_lem :
    {Ctx D : Type 0} (cfg : Config Ctx D)
    (disabled has_recorder has_on_error has_tool can_record : Bool)
    → (((inject_send_feedback cfg disabled has_recorder has_on_error (some has_tool) can_record).0
          ≡ some added)
        ↔ ((or_true (send_feedback_setting cfg)
              && (not disabled && (has_recorder && (can_record && not has_tool))))
            ≡ true))
      × ((inject_send_feedback cfg disabled has_recorder has_on_error (some has_tool) can_record).1
          ≡ (is_explicit (send_feedback_setting cfg)
              && (not disabled
                  && (has_recorder && (has_on_error && (not can_record || has_tool))))))
unfolding inject_send_feedback add_send_feedback_tool send_feedback_enabled send_feedback_explicit
inject_send_feedback_lem cfg disabled has_recorder has_on_error has_tool can_record =
    (ground arith, ground arith)
