-- ===== src/Telemetry/Extract.antt =====
-- armatureanalytics/tools.go: what `extractTelemetryFromArgs` takes from the arguments of a call,
-- and what it leaves to the handler.
use mcp_analytics_go.Prelude.{
  ◌≡◌, refl, false, Option, none, some, List, [], ◌∷◌, Text, bytes, is_empty, text_eq, text_eq_refl,
  text_eq_iff, if◌then◌else◌, arith,
}
use mcp_analytics_go.Json.{
  Value, Fields, null, boolean, number, json_number, string, array, object, lookup_field,
  remove_field, put_field, string_field, lookup_field-remove_field, lookup_field-put_field,
}
use mcp_analytics_go.Telemetry.{
  Telemetry, no_telemetry, first_non_empty, normalize_telemetry, choose_intent, choose_purpose,
  extract_block, telemetry_key, cleaned_args, extract_decoded, extract_value,
  extract_telemetry_from_args,
}
use mcp_analytics_go.Telemetry.Normal.{is_empty→eq, IsNormal, normalize_telemetry-IsNormal}

-- The first of the candidates that is a string, even if that is empty.
abbrev pub first_string : List (Option Text) → Text
first_string [] = []
first_string (none ∷ os) = first_string os
first_string (some s ∷ os) = s

module _ (unmarshal : Text → Option Fields) where
  -- What the handler receives of the arguments: everything but the telemetry block.
  abbrev pub Cleaned : Fields → Option Fields → Type 0
  Cleaned args cleaned =
      (c : Fields) × (cleaned ≡ some c)
      × ((k : Text)
          → lookup_field k c ≡ (if text_eq telemetry_key k then none else lookup_field k args))

  cleaned_args-Cleaned : (t : Telemetry) (args : Fields) → Cleaned args (cleaned_args t args).1
  unfolding cleaned_args
  cleaned_args-Cleaned t args =
      (remove_field telemetry_key args, refl, λ k. lookup_field-remove_field telemetry_key k args)

  decoded-Cleaned :
      (o : Option Fields) (args : Fields) → Cleaned args (extract_decoded unmarshal o args).1
  unfolding extract_decoded cleaned_args
  decoded-Cleaned none args = cleaned_args-Cleaned no_telemetry args
  decoded-Cleaned (some m) args = (
    remove_field telemetry_key (put_field telemetry_key (object m) args),
    refl,
    λ k. ground (
      arith,
      lookup_field-remove_field telemetry_key k (put_field telemetry_key (object m) args),
      lookup_field-put_field telemetry_key k (object m) args,
    ),
  )

  value-Cleaned :
      (o : Option Value) (args : Fields)
      → lookup_field telemetry_key args ≡ o
      → Cleaned args (extract_value unmarshal o args).1
  unfolding extract_value
  value-Cleaned none args h = (args, refl, λ k. ground (arith, text_eq_iff telemetry_key k))
  value-Cleaned (some (object v)) args h = cleaned_args-Cleaned (extract_block v) args
  value-Cleaned (some (string v)) args h = decoded-Cleaned (unmarshal v) args
  value-Cleaned (some null) args h = cleaned_args-Cleaned no_telemetry args
  value-Cleaned (some (boolean b)) args h = cleaned_args-Cleaned no_telemetry args
  value-Cleaned (some (number n)) args h = cleaned_args-Cleaned no_telemetry args
  value-Cleaned (some (json_number n)) args h = cleaned_args-Cleaned no_telemetry args
  value-Cleaned (some (array xs)) args h = cleaned_args-Cleaned no_telemetry args

  -- Whatever the telemetry argument is, a map, a string that holds JSON or anything else, the
  -- handler receives all other arguments as they were and none of it.
  pub extract_strips :
      (args : Fields) → Cleaned args (extract_telemetry_from_args unmarshal (some args)).1
  unfolding extract_telemetry_from_args
  extract_strips args = value-Cleaned (lookup_field telemetry_key args) args refl

  -- A block in a JSON string is read as the map that it encodes.
  pub extract-unmarshal :
      (args : Fields) (v : Text) (m : Fields)
      → lookup_field telemetry_key args ≡ some (string v)
      → unmarshal v ≡ some m
      → extract_telemetry_from_args unmarshal (some args)
        ≡ extract_telemetry_from_args unmarshal (some (put_field telemetry_key (object m) args))
  unfolding extract_telemetry_from_args extract_value extract_decoded
  extract-unmarshal args v m here decodes = rw (
    here,
    decodes,
    lookup_field-put_field telemetry_key telemetry_key (object m) args,
    text_eq_refl telemetry_key,
  )

purpose_keeps :
    (call_purpose agent_thinking context : Option Text) (t : Telemetry)
    → ((choose_purpose call_purpose agent_thinking context t).user_intent ≡ t.user_intent)
      × ((choose_purpose call_purpose agent_thinking context t).intent ≡ t.intent)
unfolding choose_purpose
purpose_keeps (some c) a x t = (refl, refl)
purpose_keeps none (some a) x t = (refl, refl)
purpose_keeps none none (some x) t = (refl, refl)
purpose_keeps none none none t = (refl, refl)

chosen_intent :
    (user_intent intent : Option Text)
    → first_non_empty (
        (choose_intent user_intent intent no_telemetry).user_intent
        ∷ (choose_intent user_intent intent no_telemetry).intent
        ∷ [])
      ≡ first_string (user_intent ∷ intent ∷ [])
unfolding choose_intent first_non_empty is_empty
chosen_intent (some u) i = ground (arith, is_empty→eq u)
chosen_intent none (some i) = ground (arith, is_empty→eq i)
chosen_intent none none = refl

-- The purpose that is stored, from a telemetry value with none of the three spellings.
chosen_purpose :
    (call_purpose agent_thinking context : Option Text) (t : Telemetry)
    → t.call_purpose ≡ []
    → t.agent_thinking ≡ []
    → t.context ≡ []
    → t.call_purpose_present ≡ false
    → (normalize_telemetry (choose_purpose call_purpose agent_thinking context t)).agent_thinking
      ≡ first_string (call_purpose ∷ agent_thinking ∷ context ∷ [])
unfolding normalize_telemetry choose_purpose first_non_empty is_empty
chosen_purpose (some c) a x t e f g h = refl
chosen_purpose none (some a) x t e f g h = ground (arith, is_empty→eq a)
chosen_purpose none none (some x) t e f g h = ground (arith, is_empty→eq x)
chosen_purpose none none none t e f g h = ground arith

intent_keeps :
    (user_intent intent : Option Text)
    → ((choose_intent user_intent intent no_telemetry).call_purpose ≡ [])
      × ((choose_intent user_intent intent no_telemetry).agent_thinking ≡ [])
      × ((choose_intent user_intent intent no_telemetry).context ≡ [])
      × ((choose_intent user_intent intent no_telemetry).call_purpose_present ≡ false)
unfolding choose_intent
intent_keeps (some u) i = (refl, refl, refl, refl)
intent_keeps none (some i) = (refl, refl, refl, refl)
intent_keeps none none = (refl, refl, refl, refl)

-- From a block that is a map, the call gets the first of user_intent and intent that is a string
-- and the first of call_purpose, agent_thinking and context that is one, an empty string
-- included, in a normal form that carries nothing else.
pub extract_block_fields :
    (unmarshal : Text → Option Fields) (args v : Fields)
    → lookup_field telemetry_key args ≡ some (object v)
    → ((extract_telemetry_from_args unmarshal (some args)).0.user_intent
        ≡ first_string
            (string_field (bytes "user_intent") v ∷ string_field (bytes "intent") v ∷ []))
      × ((extract_telemetry_from_args unmarshal (some args)).0.agent_thinking
          ≡ first_string (
              string_field (bytes "call_purpose") v
              ∷ string_field (bytes "agent_thinking") v
              ∷ string_field (bytes "context") v
              ∷ []))
      × IsNormal (extract_telemetry_from_args unmarshal (some args)).0
unfolding extract_telemetry_from_args extract_value cleaned_args
extract_block_fields unmarshal args v here =
    let user_intent = string_field (bytes "user_intent") v in
    let intent = string_field (bytes "intent") v in
    let purpose = string_field (bytes "call_purpose") v in
    let thinking = string_field (bytes "agent_thinking") v in
    let context = string_field (bytes "context") v in
    let t = choose_intent user_intent intent no_telemetry in
    let (a, b, c, d) = intent_keeps user_intent intent in
    let (same, same') = purpose_keeps purpose thinking context t in
    rw here (
      unfold normalize_telemetry extract_block in
          rw (same, same') (chosen_intent user_intent intent),
      unfold extract_block in chosen_purpose purpose thinking context t a b c d,
      normalize_telemetry-IsNormal (extract_block v),
    )
