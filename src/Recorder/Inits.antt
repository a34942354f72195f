-- ===== src/Recorder/Inits.antt =====
-- armatureanalytics/recorder.go: which of the works of the recorder send a session_init.
use mcp_analytics_go.Prelude.{
  ℕ, ◌≡◌, refl, ◌∙◌, Bool, true, false, ◌||◌, Option, none, some, List, [], ◌∷◌, ◌++◌, Text,
  text_eq, text_is_eq, bytes, is_empty, if_cases, if◌then◌else◌, ◌>>=◌, arith,
}
use mcp_analytics_go.KeySet.{BoundedKeySet}
use mcp_analytics_go.Event.{Env, Event, kind_tool_call, kind_session_init, kind_actor_identity}
use mcp_analytics_go.Event.Prepare.{ToolCallInput, Candidate, prepare_tool_call_candidate}
use mcp_analytics_go.Event.Build.{
  SessionInitInput, build_actor_identity_event, build_session_init_event, assemble_tool_call_event,
  assembled, finalize_tool_call_event, apply_hook,
}
use mcp_analytics_go.Recorder.{
  Config, resolved, resolved_init, actor_of, session_of, Identifiers, Recorder, Recorded, tool_call,
  session_init, to_list, identity_event_for, actor_identifier, add_session, settled, identifier_of,
  tool_call_events, build_tool_call_events, settled_init, init_of, identifier_at,
  session_init_events, build_session_init_events, events_of,
}

-- Whether a session_init is among the events.
unfoldable pub has_init : {D : Type 0} → List (Event D) → Bool
has_init [] = false
has_init (e ∷ es) = text_eq e.kind kind_session_init || has_init es

has_init-append :
    {D : Type 0} (es fs : List (Event D)) → has_init (es ++ fs) ≡ (has_init es || has_init fs)
unfolding has_init
has_init-append [] fs = refl
has_init-append (e ∷ es) fs = ground (arith, has_init-append es fs)

after_none :
    {D : Type 0} (es fs : List (Event D)) (b : Bool)
    → has_init es ≡ false
    → has_init fs ≡ b
    → has_init (es ++ fs) ≡ b
after_none es fs b e f = has_init-append es fs ∙ rw (e, f) refl

before_none :
    {D : Type 0} (es fs : List (Event D)) (b : Bool)
    → has_init es ≡ b
    → has_init fs ≡ false
    → has_init (es ++ fs) ≡ b
before_none es fs b e f = has_init-append es fs ∙ rw (e, f) (ground arith)

-- Which of the works send a session_init, given whether the session was new.
abbrev pub emits : {Ctx T : Type 0} → Recorded Ctx T → Bool → Bool
emits (tool_call input ctx raw) fresh = fresh
emits (session_init input ctx) fresh = is_empty input.session_id || fresh

pub emits_fresh :
    {Ctx T : Type 0} (x : Recorded Ctx T) (fresh : Bool)
    → is_empty (session_of x) ≡ false
    → emits x fresh ≡ fresh
unfolding session_of
emits_fresh (tool_call input ctx raw) fresh id = refl
emits_fresh (session_init input ctx) fresh id = rw id refl

module _ {Ctx T D : Type 0} (env : Env T D) (cfg : Config Ctx D) (owned : Text → Bool)
    (first_key : Identifiers → Text) where
  abbrev pub finish :
      Recorded Ctx T → Recorder → BoundedKeySet Text × Bool → List (Event D) × Recorder
  finish (tool_call input ctx raw) r added =
      tool_call_events env cfg (settled cfg owned (resolved cfg input ctx) ctx) raw
        (identity_event_for env first_key (actor_of env cfg owned (tool_call input ctx raw))
          (actor_identifier cfg ctx) input.started_at r.actor_identifiers)
        added
  finish (session_init input ctx) r added =
      session_init_events env cfg (settled_init cfg (resolved_init cfg input ctx) ctx)
        (identity_event_for env first_key (actor_of env cfg owned (session_init input ctx))
          (actor_identifier cfg ctx) input.started_at r.actor_identifiers)
        added

  pub events_of-finish :
      (x : Recorded Ctx T) (r : Recorder)
      → events_of env cfg owned first_key x r ≡ (
          add_session (actor_of env cfg owned x) (session_of x) r.lazy_sessions >>= λ added.
          some (finish x r added))
  unfolding events_of build_tool_call_events build_session_init_events actor_of session_of settled
      settled_init identifier_of
  events_of-finish (tool_call input ctx raw) r = refl
  events_of-finish (session_init input ctx) r = refl

  finish-lazy :
      (x : Recorded Ctx T) (r : Recorder) (lazy : BoundedKeySet Text) (fresh : Bool)
      → (finish x r (lazy, fresh)).1.lazy_sessions ≡ lazy
  finish-lazy (tool_call input ctx raw) r lazy fresh = refl
  finish-lazy (session_init input ctx) r lazy fresh = refl

  identity-has_init :
      (actor_id identifier : Text) (t : T) (m : Identifiers)
      → has_init (to_list (identity_event_for env first_key actor_id identifier t m).0) ≡ false
  unfolding identity_event_for build_actor_identity_event has_init text_eq bytes kind_session_init
      kind_actor_identity
  identity-has_init actor_id identifier t m =
      if_cases (λ (p : Option (Event D) × Identifiers). has_init (to_list p.0) ≡ false)
        (is_empty identifier) (λ _. refl)
        (λ _.
          if_cases (λ (p : Option (Event D) × Identifiers). has_init (to_list p.0) ≡ false)
            (text_eq (identifier_at actor_id m) identifier) (λ _. refl) (λ _. refl))

  assembled-has_init :
      (input : ToolCallInput T) (raw : ℕ → ℕ) (o : Option (Candidate D))
      → has_init (to_list (assembled env input raw o)) ≡ false
  unfolding assemble_tool_call_event has_init text_eq bytes kind_session_init kind_tool_call
  assembled-has_init input raw none = refl
  assembled-has_init input raw (some candidate) = refl

  init-has_init :
      (input : SessionInitInput T) (b : Bool)
      → has_init (if b then build_session_init_event env input ∷ [] else []) ≡ b
  unfolding build_session_init_event has_init text_eq bytes kind_session_init
  init-has_init input true = refl
  init-has_init input false = refl

  finish-has_init :
      (x : Recorded Ctx T) (r : Recorder) (lazy : BoundedKeySet Text) (fresh : Bool)
      → has_init (finish x r (lazy, fresh)).0 ≡ emits x fresh
  unfolding finalize_tool_call_event settled_init
  finish-has_init (tool_call input ctx raw) r lazy fresh =
      let settled_input = settled cfg owned (resolved cfg input ctx) ctx in
      after_none _ _ fresh
        (identity-has_init (actor_of env cfg owned (tool_call input ctx raw))
          (actor_identifier cfg ctx) input.started_at r.actor_identifiers)
        (before_none _ _ fresh (init-has_init (init_of settled_input) fresh) (
          assembled-has_init settled_input raw
            (apply_hook cfg.redact_event (prepare_tool_call_candidate env settled_input))))
  finish-has_init (session_init input ctx) r lazy fresh =
      after_none _ _ _
        (identity-has_init (actor_of env cfg owned (session_init input ctx))
          (actor_identifier cfg ctx) input.started_at r.actor_identifiers)
        (init-has_init (settled_init cfg (resolved_init cfg input ctx) ctx)
          (is_empty input.session_id || fresh))

  -- A work whose session is taken in runs, and leaves the set that taking it in leaves.
  pub events_of-added :
      (x : Recorded Ctx T) (r : Recorder) (lazy : BoundedKeySet Text) (fresh : Bool)
      → add_session (actor_of env cfg owned x) (session_of x) r.lazy_sessions ≡ some (lazy, fresh)
      → (es : List (Event D)) × (r' : Recorder) × (events_of env cfg owned first_key x r
          ≡ some (es, r'))
        × (r'.lazy_sessions ≡ lazy)
        × (has_init es ≡ emits x fresh)
  events_of-added x r lazy fresh h =
      let done = finish x r (lazy, fresh) in
      (
        done.0,
        done.1,
        events_of-finish x r ∙ rw h refl,
        finish-lazy x r lazy fresh,
        finish-has_init x r lazy fresh,
      )
