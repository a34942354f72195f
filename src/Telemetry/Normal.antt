-- ===== src/Telemetry/Normal.antt =====
-- armatureanalytics/tools.go: the normal form of the telemetry block.
use mcp_analytics_go.Prelude.{◌≡◌, refl, true, [], ◌∷◌, Text, is_empty, arith}
use mcp_analytics_go.Telemetry.{Telemetry, first_non_empty, normalize_telemetry}

pub is_empty→eq : (s : Text) → is_empty s ≡ true → s ≡ []
unfolding is_empty
is_empty→eq [] h = refl
is_empty→eq (c ∷ s) h = cc

-- Normalizing twice is normalizing once.
pub normalize_telemetry_idem :
    (t : Telemetry) → normalize_telemetry (normalize_telemetry t) ≡ normalize_telemetry t
unfolding normalize_telemetry first_non_empty is_empty
normalize_telemetry_idem t = ground (
  arith,
  is_empty→eq t.call_purpose,
  is_empty→eq t.agent_thinking,
  is_empty→eq t.context,
  is_empty→eq t.user_intent,
  is_empty→eq t.intent,
)

-- A normal form carries no turn number, no frustration and no purpose beside its storage field,
-- and the old spellings mirror the new ones.
pub record IsNormal (t : Telemetry) : Type 0 where
  pub no_turn : t.user_turn ≡ 0
  pub no_purpose : t.call_purpose ≡ []
  pub no_frustration : t.user_frustration ≡ []
  pub no_level : t.frustration_level ≡ []
  pub intent_mirror : t.intent ≡ t.user_intent
  pub context_mirror : t.context ≡ t.agent_thinking
  pub blank_purpose : t.call_purpose_present ≡ true → t.agent_thinking ≡ []

pub normalize_telemetry-IsNormal : (t : Telemetry) → IsNormal (normalize_telemetry t)
unfolding normalize_telemetry
normalize_telemetry-IsNormal t = record {
  no_turn = refl;
  no_purpose = refl;
  no_frustration = refl;
  no_level = refl;
  intent_mirror = refl;
  context_mirror = refl;
  blank_purpose = λ h. ground (arith, is_empty→eq t.call_purpose);
}
