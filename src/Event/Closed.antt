-- ===== src/Event/Closed.antt =====
-- armatureanalytics/event.go: the whole-event hook fails closed.
use mcp_analytics_go.Prelude.{ℕ, ◌≡◌, refl, sym, ap, ◌∙◌, none, some, Text}
use mcp_analytics_go.Json.{Value, string}
use mcp_analytics_go.Telemetry.{Telemetry}
use mcp_analytics_go.Event.{Env, plain, redaction_failed_placeholder}
use mcp_analytics_go.Event.Prepare.{ToolCallInput, Candidate, prepare_tool_call_candidate}
use mcp_analytics_go.Event.Build.{
  Verdict, hook_failed, EventHook, closed_candidate, judged, apply_hook, assemble_tool_call_event,
  assembled, finalize_tool_call_event, scoped_request_id, tool_call_metadata,
}

-- What a candidate says besides its payload.
abbrev pub envelope : {D : Type 0} → Candidate D → Text × Text × Text × D × Text
envelope c = (c.kind, c.tool_name, c.status, c.duration_ms, c.session_id)

-- A hook that fails on every call and has not rewritten what is no payload.
pub record FailsClosed {D : Type 0} (hook : EventHook D) : Type 0 where
  pub fails : (c : Candidate D) → (hook c).1 ≡ hook_failed
  pub keeps : (c : Candidate D) → envelope (hook c).0 ≡ envelope c

abbrev closed_from : {D : Type 0} → Text × Text × Text × D × Text → Candidate D
closed_from e = record {
  kind = e.0;
  tool_name = e.1;
  status = e.2;
  duration_ms = e.3;
  session_id = e.4;
  input = plain (string redaction_failed_placeholder);
  output = plain (string redaction_failed_placeholder);
  error_message = some redaction_failed_placeholder;
  telemetry = none;
}

judged-failed :
    {D : Type 0} (c : Candidate D) (v : Verdict D)
    → v ≡ hook_failed
    → judged (c, v) ≡ some (closed_candidate c)
unfolding judged
judged-failed c v e = rw e refl

apply_hook-failed :
    {D : Type 0} (hook : EventHook D) (c : Candidate D)
    → FailsClosed hook
    → apply_hook (some hook) c ≡ some (closed_from (envelope c))
unfolding apply_hook
apply_hook-failed hook c h =
    judged-failed (hook c).0 (hook c).1 (h.fails c) ∙ ap (λ e. some (closed_from e)) (h.keeps c)

module _ {T D : Type 0} (env : Env T D) where
  finalize-failed :
      (input : ToolCallInput T) (hook : EventHook D) (raw : ℕ → ℕ)
      → FailsClosed hook
      → finalize_tool_call_event env input (some hook) raw
        ≡ some (
            assemble_tool_call_event env input
              (closed_from (envelope (prepare_tool_call_candidate env input)))
              raw)
  unfolding finalize_tool_call_event
  finalize-failed input hook raw h =
      ap (assembled env input raw)
        (apply_hook-failed hook (prepare_tool_call_candidate env input) h)

  -- Where the whole-event hook fails, the event is the same whatever the arguments, the result,
  -- the telemetry and the classification of the error are, so that nothing of them is in it. The
  -- hook is one that fails on every candidate, leaving all but the payload as it was.
  pub finalize-closed :
      (input : ToolCallInput T) (hook : EventHook D) (raw : ℕ → ℕ) (args result : Value)
      (telemetry : Telemetry) (error_type : Text)
      → FailsClosed hook
      → finalize_tool_call_event env
          (record input {
            args = args;
            result = result;
            telemetry = telemetry;
            error_type = error_type;
          })
          (some hook)
          raw
        ≡ finalize_tool_call_event env input (some hook) raw
  unfolding assemble_tool_call_event prepare_tool_call_candidate scoped_request_id
      tool_call_metadata
  finalize-closed input hook raw args result telemetry error_type h =
      finalize-failed
        (record input {
          args = args;
          result = result;
          telemetry = telemetry;
          error_type = error_type;
        })
        hook raw h
      ∙ sym (finalize-failed input hook raw h)
