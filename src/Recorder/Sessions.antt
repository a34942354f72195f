-- ===== src/Recorder/Sessions.antt =====
-- armatureanalytics/recorder.go: one session_init for a session of an actor.
use mcp_analytics_go.Prelude.{
  ◌≤◌, ◌<◌, ◌≡◌, refl, sym, ap, ◌∙◌, inl, inr, Bool, true, false, not, ◌&&◌, none, some, List, [],
  ◌∷◌, ◌++◌, Text, text_is_eq, is_empty, length, Bool-cases, Option-cases, if◌then◌else◌, arith,
}
use mathlib.Core.Path.{subst}
use mcp_analytics_go.KeySet.{BoundedKeySet, new_bounded_key_set, add}
use mcp_analytics_go.KeySet.Valid.{IsValid, add-IsValid}
use mcp_analytics_go.KeySet.Window.{add_all, add-add_all, new_bounded_key_set-IsValid}
use mcp_analytics_go.Event.{Env, Event}
use mcp_analytics_go.Recorder.{
  Config, actor_of, session_of, Identifiers, Recorder, new_recorder, Recorded, session_key,
  add_session, events_of, events_of_all,
}
use mcp_analytics_go.Recorder.Inits.{has_init, events_of-added, emits_fresh}

add_all-step :
    (key : Text) (keys : List Text) (s t : BoundedKeySet Text)
    → add_all (key ∷ keys) s ≡ some t
    → (lazy : BoundedKeySet Text) × (fresh : Bool) × (add key s ≡ some (lazy, fresh))
      × (add_all keys lazy ≡ some t)
unfolding add_all
add_all-step key keys s t h = elim (Option-cases (add key s)) [
  | inl panic ↦ let no_run : none ≡ some t = rw (panic, add_all) at h in absurd (cc)
  | inr ((lazy, fresh), added) ↦ (lazy, fresh, added, rw (added, add_all) at h)
]

pub add_all-IsValid :
    (keys : List Text) (s : BoundedKeySet Text)
    → IsValid s
    → (t : BoundedKeySet Text) × (add_all keys s ≡ some t) × IsValid t × (t.max ≡ s.max)
unfolding add_all
add_all-IsValid [] s v = (s, refl, v, refl)
add_all-IsValid (key ∷ keys) s v =
    let (s1, added, v1, max1, _, _) = add-IsValid key s v in
    let (t, all_added, v', max') = add_all-IsValid keys s1 v1 in
    (t, rw (added, add_all) all_added, v', max' ∙ max1)

module _ {Ctx T D : Type 0} (env : Env T D) (cfg : Config Ctx D) (owned : Text → Bool)
    (first_key : Identifiers → Text) where
  -- The keys that works add.
  pub keys_of : List (Recorded Ctx T) → List Text
  keys_of [] = []
  keys_of (x ∷ xs) =
      let rest = keys_of xs in
      if is_empty (session_of x)
      then rest
      else session_key (actor_of env cfg owned x) (session_of x) ∷ rest

  keys_of-le : (xs : List (Recorded Ctx T)) → length (keys_of xs) ≤ length xs
  unfolding keys_of
  keys_of-le [] = omega arith
  keys_of-le (x ∷ xs) = elim (Bool-cases (is_empty (session_of x))) [
    | inl no_session ↦ rw no_session (omega (arith, keys_of-le xs))
    | inr session ↦ rw session (omega (arith, keys_of-le xs))
  ]

  -- The works `xs` run, from a recorder with the set `s`, and leave the set `t`.
  abbrev pub Runs : List (Recorded Ctx T) → BoundedKeySet Text → BoundedKeySet Text → Type 0
  Runs xs s t =
      (r : Recorder)
      → r.lazy_sessions ≡ s
      → (es : List (Event D)) × (r' : Recorder) × (events_of_all env cfg owned first_key xs r
          ≡ some (es, r'))
        × (r'.lazy_sessions ≡ t)

  Runs-cons :
      (x : Recorded Ctx T) (xs : List (Recorded Ctx T)) (s lazy t : BoundedKeySet Text)
      (fresh : Bool)
      → add_session (actor_of env cfg owned x) (session_of x) s ≡ some (lazy, fresh)
      → Runs xs lazy t
      → Runs (x ∷ xs) s t
  unfolding events_of_all
  Runs-cons x xs s lazy t fresh taken rest r same =
      let (es, r1, run, same1, inits) =
        events_of-added env cfg owned first_key x r lazy fresh (rw same taken) in
      let (fs, r2, runs, same2) = rest r1 same1 in (es ++ fs, r2, rw (run, runs) refl, same2)

  pub events_of_all-add_all :
      (xs : List (Recorded Ctx T)) (s t : BoundedKeySet Text)
      → add_all (keys_of xs) s ≡ some t
      → Runs xs s t
  unfolding events_of_all keys_of add_all
  events_of_all-add_all [] s t h = λ r same. ([], r, refl, ground (arith, h))
  events_of_all-add_all (x ∷ xs) s t h = elim (Bool-cases (is_empty (session_of x))) [
    | inl no_session ↦
        let skipped : add_session (actor_of env cfg owned x) (session_of x) s ≡ some (s, false) =
          unfold add_session in rw no_session refl in
        Runs-cons x xs s s t false skipped (events_of_all-add_all xs s t (rw no_session at h))
    | inr session ↦
        let key = session_key (actor_of env cfg owned x) (session_of x) in
        let (lazy, fresh, added, rest) = add_all-step key (keys_of xs) s t (rw session at h) in
        let taken : add_session (actor_of env cfg owned x) (session_of x) s ≡ some (lazy, fresh) =
          unfold add_session in rw session added in
        Runs-cons x xs s lazy t fresh taken (events_of_all-add_all xs lazy t rest)
  ]

  -- The set after the works between, and whether the session is still new to it.
  between_lem :
      (key : Text) (keys : List Text) (s : BoundedKeySet Text)
      → IsValid s
      → length keys < s.max
      → (s1 t t' : BoundedKeySet Text) × (b c : Bool) × (add key s ≡ some (s1, b))
        × (add_all keys s1 ≡ some t)
        × (add key t ≡ some (t', c))
        × ((b && c) ≡ false)
  between_lem key keys s v few =
      let (s1, added, v1, _, _, _) = add-IsValid key s v in
      elim (Bool-cases (s.keys key)) [
        | inl old ↦
            let (t, all_added, v2, _) = add_all-IsValid keys s1 v1 in
            let (t', again, _, _, _, _) = add-IsValid key t v2 in
            (s1, t, t', false, not (t.keys key), added ∙ rw old refl, all_added, again, refl)
        | inr new ↦
            let fresh : add key s ≡ some (s1, true) = added ∙ rw new refl in
            let (t, all_added, again) = add-add_all key keys s s1 v fresh few in
            (s1, t, t, true, false, fresh, all_added, again, refl)
      ]

  once_from :
      (between : List (Recorded Ctx T)) (x y : Recorded Ctx T)
      → is_empty (session_of x) ≡ false
      → actor_of env cfg owned y ≡ actor_of env cfg owned x
      → session_of y ≡ session_of x
      → (r : Recorder) → IsValid r.lazy_sessions
      → length between < r.lazy_sessions.max
      → (es fs gs : List (Event D)) × (r1 r2 r3 : Recorder) × (events_of env cfg owned first_key x r
          ≡ some (es, r1))
        × (events_of_all env cfg owned first_key between r1 ≡ some (fs, r2))
        × (events_of env cfg owned first_key y r2 ≡ some (gs, r3))
        × ((has_init es && has_init gs) ≡ false)
  once_from between x y id same_actor same_session r v few =
      let key = session_key (actor_of env cfg owned x) (session_of x) in
      let (s1, t, t', b, c, added, all_added, again, once) =
        between_lem key (keys_of between) r.lazy_sessions v (omega (arith, keys_of-le between)) in
      let taken : add_session (actor_of env cfg owned x) (session_of x) r.lazy_sessions
          ≡ some (s1, b) =
        unfold add_session in rw id added in
      let (es, r1, run1, same1, init1) = events_of-added env cfg owned first_key x r s1 b taken in
      let (fs, r2, runs, same2) = events_of_all-add_all between s1 t all_added r1 same1 in
      let taken' : add_session (actor_of env cfg owned y) (session_of y) r2.lazy_sessions
          ≡ some (t', c) =
        unfold add_session in rw (same_actor, same_session, id, same2) again in
      let (gs, r3, run2, same3, init2) = events_of-added env cfg owned first_key y r2 t' c taken' in
      let id' : is_empty (session_of y) ≡ false = rw same_session id in
      (
        es,
        fs,
        gs,
        r1,
        r2,
        r3,
        run1,
        runs,
        run2,
        rw (init1, init2, emits_fresh x b id, emits_fresh y c id') once,
      )

  -- From a new recorder, whatever calls and initializes come first: once a session_init is sent
  -- for a session with an id, the next work for the same actor and session sends none, if fewer
  -- than 10000 works came between. No work panics.
  pub session_init-once :
      (before between : List (Recorded Ctx T)) (x y : Recorded Ctx T)
      → is_empty (session_of x) ≡ false
      → actor_of env cfg owned y ≡ actor_of env cfg owned x
      → session_of y ≡ session_of x
      → length between < 10000
      → (bs es fs gs : List (Event D)) × (r r1 r2 r3 : Recorder) × (events_of_all env cfg owned
            first_key before new_recorder
          ≡ some (bs, r))
        × (events_of env cfg owned first_key x r ≡ some (es, r1))
        × (events_of_all env cfg owned first_key between r1 ≡ some (fs, r2))
        × (events_of env cfg owned first_key y r2 ≡ some (gs, r3))
        × ((has_init es && has_init gs) ≡ false)
  session_init-once before between x y id same_actor same_session few =
      let start : IsValid (new_recorder).lazy_sessions =
        unfold new_recorder in new_bounded_key_set-IsValid 10000 (omega arith) in
      let (s, added, valid, max) =
        add_all-IsValid (keys_of before) (new_recorder).lazy_sessions start in
      let (bs, r, run, same) =
        events_of_all-add_all before (new_recorder).lazy_sessions s added new_recorder refl in
      let max' : s.max ≡ 10000 = max ∙ unfold new_recorder new_bounded_key_set in refl in
      let (es, fs, gs, r1, r2, r3, run1, runs, run2, once) =
        once_from between x y id same_actor same_session r (subst IsValid (sym same) valid)
          (omega (arith, ap (λ s. s.max) same, max', few)) in
      (bs, es, fs, gs, r, r1, r2, r3, run, run1, runs, run2, once)
