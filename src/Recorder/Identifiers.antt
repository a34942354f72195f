-- ===== src/Recorder/Identifiers.antt =====
-- armatureanalytics/recorder.go: when an actor_identity is sent, and how much is remembered for it.
use mcp_analytics_go.Prelude.{
  ◌≤◌, ◌<◌, ◌≡◌, refl, sym, ◌∙◌, inl, inr, Bool, true, false, ◌||◌, Option, none, some, List, [],
  ◌∷◌, ◌++◌, Text, text_eq, text_is_eq, text_eq_refl, is_empty, length, leb, leb→lt, Bool-cases,
  Option-cases, if_cases, arith,
}
use mathlib.Core.Path.{subst}
use mcp_analytics_go.KeySet.{BoundedKeySet}
use mcp_analytics_go.Event.{Env, Event}
use mcp_analytics_go.Recorder.{
  Config, Identifiers, identifier_at, without, with_identifier, max_identifiers, evicted,
  identity_event_for, Recorder, new_recorder, Recorded, tool_call, session_init, events_of,
  events_of_all, actor_of, session_of, add_session,
}
use mcp_analytics_go.Recorder.Sessions.{keys_of, add_all-IsValid, events_of_all-add_all}
use mcp_analytics_go.KeySet.Valid.{IsValid}
use mcp_analytics_go.KeySet.Window.{new_bounded_key_set-IsValid}
use mcp_analytics_go.Recorder.Inits.{finish, events_of-finish}

-- Whether the map has the key.
unfoldable pub has_key : Text → Identifiers → Bool
has_key key [] = false
has_key key ((k, v) ∷ m) = text_eq k key || has_key key m

-- An iteration of a map that is not empty begins with a key that it has.
pub record BeginsWithKey (first_key : Identifiers → Text) : Type 0 where
  pub begins : (m : Identifiers) → 0 < length m → has_key (first_key m) m ≡ true

without-le : (key : Text) (m : Identifiers) → length (without key m) ≤ length m
unfolding without
without-le key [] = omega arith
without-le key ((k, v) ∷ m) = ground (arith, without-le key m)

without-lt :
    (key : Text) (m : Identifiers) → has_key key m ≡ true → length (without key m) < length m
unfolding without has_key
without-lt key [] h = ground (arith, h)
without-lt key ((k, v) ∷ m) h = ground (arith, without-le key m, without-lt key m, h)

evicted-lt :
    (first_key : Identifiers → Text) (m : Identifiers)
    → BeginsWithKey first_key
    → length m ≤ max_identifiers
    → length (evicted first_key m) < max_identifiers
unfolding evicted
evicted-lt first_key m h bound = elim (Bool-cases (leb max_identifiers (length m))) [
  | inl full ↦
      let has : has_key (first_key m) m ≡ true = h.begins m (ground (arith, full)) in
      rw full (omega (arith, without-lt (first_key m) m has))
  | inr room ↦ rw room (leb→lt _ _ room)
]

module _ {T D : Type 0} (env : Env T D) (first_key : Identifiers → Text) where
  -- An actor_identity is sent at most once for an identifier: the same again sends nothing and
  -- changes nothing, whatever was remembered before.
  pub identity_event_for-again :
      (actor_id identifier : Text) (t u : T) (m : Identifiers)
      → identity_event_for env first_key actor_id identifier u
          (identity_event_for env first_key actor_id identifier t m).1
        ≡ (none, (identity_event_for env first_key actor_id identifier t m).1)
  unfolding identity_event_for with_identifier identifier_at
  identity_event_for-again actor_id identifier t u m = elim (Bool-cases (is_empty identifier)) [
    | inl blank ↦ rw blank refl
    | inr named ↦ elim (Bool-cases (text_eq (identifier_at actor_id m) identifier)) [
      | inl same ↦ rw (named, same) (rw same refl)
      | inr changed ↦ rw (named, changed, text_eq_refl actor_id, text_eq_refl identifier) refl
    ]
  ]

  identity_event_for-le :
      (actor_id identifier : Text) (t : T) (m : Identifiers)
      → BeginsWithKey first_key
      → length m ≤ max_identifiers
      → length (identity_event_for env first_key actor_id identifier t m).1 ≤ max_identifiers
  unfolding identity_event_for with_identifier
  identity_event_for-le actor_id identifier t m h bound =
      if_cases (λ (p : Option (Event D) × Identifiers). length p.1 ≤ max_identifiers)
        (is_empty identifier) (λ _. bound)
        (λ _.
          if_cases (λ (p : Option (Event D) × Identifiers). length p.1 ≤ max_identifiers)
            (text_eq (identifier_at actor_id m) identifier) (λ _. bound)
            (λ _.
              omega
                (arith, without-le actor_id (evicted first_key m), evicted-lt first_key m h bound)))

module _ {Ctx T D : Type 0} (env : Env T D) (cfg : Config Ctx D) (owned : Text → Bool)
    (first_key : Identifiers → Text) where
  finish-le :
      (x : Recorded Ctx T) (r : Recorder) (lazy : BoundedKeySet Text) (fresh : Bool)
      → BeginsWithKey first_key
      → length r.actor_identifiers ≤ max_identifiers
      → length (finish env cfg owned first_key x r (lazy, fresh)).1.actor_identifiers
        ≤ max_identifiers
  finish-le (tool_call input ctx raw) r lazy fresh h bound =
      identity_event_for-le env first_key _ _ input.started_at r.actor_identifiers h bound
  finish-le (session_init input ctx) r lazy fresh h bound =
      identity_event_for-le env first_key _ _ input.started_at r.actor_identifiers h bound

  events_of-le :
      (x : Recorded Ctx T) (r r' : Recorder) (es : List (Event D))
      → BeginsWithKey first_key
      → length r.actor_identifiers ≤ max_identifiers
      → events_of env cfg owned first_key x r ≡ some (es, r')
      → length r'.actor_identifiers ≤ max_identifiers
  events_of-le x r r' es h bound run =
      let by_finish = sym (events_of-finish env cfg owned first_key x r) ∙ run in
      elim (Option-cases (add_session (actor_of env cfg owned x) (session_of x) r.lazy_sessions)) [
        | inl panic ↦ let no_run : none ≡ some (es, r') = rw panic at by_finish in absurd (cc)
        | inr ((lazy, fresh), added) ↦
            let done : some (finish env cfg owned first_key x r (lazy, fresh)) ≡ some (es, r') =
              rw added at by_finish in
            let same : finish env cfg owned first_key x r (lazy, fresh) ≡ (es, r') = cc in
            subst (λ p. length p.1.actor_identifiers ≤ max_identifiers) same
              (finish-le x r lazy fresh h bound)
      ]

  events_of_all-le :
      (xs : List (Recorded Ctx T)) (r r' : Recorder) (es : List (Event D))
      → BeginsWithKey first_key
      → length r.actor_identifiers ≤ max_identifiers
      → events_of_all env cfg owned first_key xs r ≡ some (es, r')
      → length r'.actor_identifiers ≤ max_identifiers
  unfolding events_of_all
  events_of_all-le [] r r' es h bound run =
      let same : ([], r) ≡ (es, r') = cc in
      subst (λ (p : List (Event D) × Recorder). length p.1.actor_identifiers ≤ max_identifiers) same
        bound
  events_of_all-le (x ∷ xs) r r' es h bound run =
      elim (Option-cases (events_of env cfg owned first_key x r)) [
        | inl panic ↦ let no_run : none ≡ some (es, r') = rw panic at run in absurd (cc)
        | inr ((e1, r1), first) ↦
            let bound1 = events_of-le x r r1 e1 h bound first in
            elim (Option-cases (events_of_all env cfg owned first_key xs r1)) [
              | inl panic ↦
                  let no_run : none ≡ some (es, r') = rw (first, panic) at run in absurd (cc)
              | inr ((e2, r2), rest) ↦
                  let done : some (e1 ++ e2, r2) ≡ some (es, r') = rw (first, rest) at run in
                  let same : r2 ≡ r' = cc in
                  subst (λ p. length p.actor_identifiers ≤ max_identifiers) same
                    (events_of_all-le xs r1 r2 e2 h bound1 rest)
            ]
      ]

  -- Whatever works a new recorder runs, it gets through all of them, and remembers the
  -- identifiers of at most 10000 actors.
  pub actor_identifiers_le :
      (xs : List (Recorded Ctx T))
      → BeginsWithKey first_key
      → (es : List (Event D)) × (r : Recorder) × (events_of_all env cfg owned first_key xs
            new_recorder
          ≡ some (es, r))
        × (length r.actor_identifiers ≤ max_identifiers)
  unfolding new_recorder
  actor_identifiers_le xs h =
      let start : IsValid (new_recorder).lazy_sessions =
        new_bounded_key_set-IsValid 10000 (omega arith) in
      let (s, added, valid, max) =
        add_all-IsValid (keys_of env cfg owned first_key xs) (new_recorder).lazy_sessions start in
      let (es, r, run, same) =
        events_of_all-add_all env cfg owned first_key xs (new_recorder).lazy_sessions s added
          new_recorder refl in
      (es, r, run, events_of_all-le xs new_recorder r es h (omega arith) run)
