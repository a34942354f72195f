-- ===== src/Recorder/Capture.antt =====
-- armatureanalytics/recorder.go: the one point at which supplied telemetry is dropped.
use mcp_analytics_go.Prelude.{
  ℕ, ◌≡◌, refl, inl, inr, Bool, true, false, not, ◌&&◌, Text, Bool-cases, arith,
}
use mcp_analytics_go.Telemetry.{Telemetry}
use mcp_analytics_go.Event.{Env}
use mcp_analytics_go.Event.Prepare.{ToolCallInput}
use mcp_analytics_go.Recorder.{
  Config, capture_enabled, actor_identifier, Identifiers, Recorder, tool_call, exported_telemetry,
  identifier_of, settled, build_tool_call_events, events_of,
}

module _ {Ctx T D : Type 0} (env : Env T D) (cfg : Config Ctx D) (owned : Text → Bool)
    (first_key : Identifiers → Text) where
  exported_telemetry-hides :
      (input : ToolCallInput T) (telemetry : Telemetry)
      → (capture_enabled cfg && not (owned input.tool_name)) ≡ false
      → exported_telemetry cfg owned (record input { telemetry = telemetry })
        ≡ exported_telemetry cfg owned input
  unfolding exported_telemetry
  exported_telemetry-hides input telemetry h = elim (Bool-cases (capture_enabled cfg)) [
    | inr off ↦ rw off refl
    | inl on ↦ let is_owned : owned input.tool_name ≡ true = ground arith in rw (on, is_owned) refl
  ]

  -- Where the capture is off, or the tool owns its telemetry field, the events of a tool call and
  -- what the recorder remembers are the same whatever telemetry is handed in.
  pub events_of-hides_telemetry :
      (input : ToolCallInput T) (ctx : Ctx) (raw : ℕ → ℕ) (r : Recorder) (telemetry : Telemetry)
      → (capture_enabled cfg && not (owned input.tool_name)) ≡ false
      → events_of env cfg owned first_key
          (tool_call (record input { telemetry = telemetry }) ctx raw)
          r
        ≡ events_of env cfg owned first_key (tool_call input ctx raw) r
  unfolding events_of build_tool_call_events settled identifier_of
  events_of-hides_telemetry input ctx raw r telemetry h =
      rw
        (exported_telemetry-hides
          (record input {
            actor_identifier = actor_identifier cfg ctx;
            actor_identifier_resolved = true;
          })
          telemetry h)
        refl
