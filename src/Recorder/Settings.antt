-- ===== src/Recorder/Settings.antt =====
-- armatureanalytics/recorder.go: the settings of a recorder and what is read off them.
use mcp_analytics_go.Prelude.{
  Bool, true, false, Option, none, some, Text, [], is_empty, length, ltb, ◌||◌, if◌then◌else◌,
}
use mcp_analytics_go.Event.{Payload}
use mcp_analytics_go.Event.Build.{EventHook}
use mcp_analytics_go.Telemetry.FieldMap.{FieldMap}

-- `Config`, less what concerns delivery. A callback is a function of the request's context.
pub record Config (Ctx D : Type 0) : Type 0 where
  pub actor_seed_of : Option (Ctx → Text)
  pub actor_identifier_of : Option (Ctx → Text)
  pub send_feedback : Option Bool
  pub request_capability : Option Bool
  pub capture_telemetry : Option Bool
  pub redact : Option (Payload → Option Payload)
  pub redact_secrets : Option Bool
  pub redact_event : Option (EventHook D)
  pub telemetry_field_map : FieldMap

abbrev pub or_true : Option Bool → Bool
or_true none = true
or_true (some b) = b

abbrev pub is_explicit : Option Bool → Bool
is_explicit none = false
is_explicit (some b) = b

abbrev pub first_set : Option Bool → Option Bool → Option Bool
first_set none b = b
first_set (some a) b = some a

abbrev pub non_empty_or : Text → Text → Text
non_empty_or s fallback = if is_empty s then fallback else s

module _ {Ctx D : Type 0} (cfg : Config Ctx D) where
  unfoldable pub capture_enabled : Bool
  capture_enabled = or_true cfg.capture_telemetry

  unfoldable pub send_feedback_setting : Option Bool
  send_feedback_setting = first_set cfg.send_feedback cfg.request_capability

  unfoldable pub send_feedback_enabled : Bool
  send_feedback_enabled = or_true send_feedback_setting

  unfoldable pub send_feedback_explicit : Bool
  send_feedback_explicit = is_explicit send_feedback_setting

  -- `ResolveActorSeed`, with the `Authorization` header
  unfoldable pub resolve_actor_seed : Ctx → Text → Text
  resolve_actor_seed ctx authorization = elim cfg.actor_seed_of [
    | none ↦ authorization
    | some f ↦ non_empty_or (f ctx) authorization
  ]

  abbrev pub usable_identifier : Text → Text
  usable_identifier identifier =
      if is_empty identifier || ltb 8192 (length identifier) then [] else identifier

  -- `actorIdentifier`
  unfoldable pub actor_identifier : Ctx → Text
  actor_identifier ctx = elim cfg.actor_identifier_of [
    | none ↦ []
    | some f ↦ usable_identifier (f ctx)
  ]
