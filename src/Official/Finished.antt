-- ===== src/Official/Finished.antt =====
-- armatureanalytics/official/official.go: every reservation of a tool call is finished exactly once.
use mcp_analytics_go.Prelude.{
  ℕ, ◌+◌, ◌≡◌, refl, Bool, true, false, Option, none, some, List, [], ◌∷◌, ◌++◌, ◌==◌,
  if◌then◌else◌, arith,
}
use mcp_analytics_go.Lifecycle.Balance.{}
use mcp_analytics_go.Lifecycle.Totals.{total, total-append}
use mcp_analytics_go.Official.Capability.{
  Effect, released, recorded, CallState, FeedbackCall, attach, take_reservation, release_taken,
  feedback_handler, handler_calls, record_taken, middleware_call,
}

abbrev pub is_same : ℕ → ℕ → ℕ
is_same i j = if i == j then 1 else 0

-- How often an effect, a state or a call is for the reservation.
abbrev pub effect_for : ℕ → Effect → ℕ
effect_for i (released j) = is_same i j
effect_for i (recorded j) = is_same i j

abbrev pub held_for : ℕ → Option ℕ → ℕ
held_for i none = 0
held_for i (some j) = is_same i j

abbrev pub made_for : ℕ → FeedbackCall → ℕ
made_for i call = held_for i call.reserved

handler_lem :
    (i : ℕ) (reserved : Option ℕ) (call : FeedbackCall) (state : CallState)
    → call.reserved ≡ reserved
    → held_for i (feedback_handler call state).0
        + total (effect_for i) (feedback_handler call state).1
      ≡ held_for i reserved + held_for i state
unfolding feedback_handler attach total
handler_lem i none call state e = rw e (omega arith)
handler_lem i (some j) call none e = rw e (omega arith)
handler_lem i (some j) call (some k) e = rw e (omega arith)

calls_lem :
    (i : ℕ) (calls : List FeedbackCall) (state : CallState)
    → held_for i (handler_calls calls state).0 + total (effect_for i) (handler_calls calls state).1
      ≡ total (made_for i) calls + held_for i state
unfolding handler_calls total
calls_lem i [] state = omega arith
calls_lem i (call ∷ calls) state =
    let first = handler_lem i call.reserved call state refl in
    let rest = calls_lem i calls (feedback_handler call state).0 in
    let sum =
      total-append (effect_for i) (feedback_handler call state).1
        (handler_calls calls (feedback_handler call state).0).1 in
    omega (arith, first, rest, sum)

release_lem : (i : ℕ) (o : Option ℕ) → total (effect_for i) (release_taken o) ≡ held_for i o
unfolding release_taken total
release_lem i none = refl
release_lem i (some j) = omega arith

record_lem :
    (i : ℕ) (has_params : Bool) (o : Option ℕ)
    → total (effect_for i) (record_taken has_params o) ≡ held_for i o
unfolding record_taken total
record_lem i has_params none = refl
record_lem i true (some j) = omega arith
record_lem i false (some j) = omega arith

-- However often the feedback handler runs in a tool call, whether the call returns or panics and
-- whether its request has parameters: a reservation is released or recorded as often as a handler
-- was given it, so that each one is finished and none twice.
pub middleware_call-finishes :
    (i : ℕ) (calls : List FeedbackCall) (returns has_params : Bool)
    → total (effect_for i) (middleware_call calls returns has_params) ≡ total (made_for i) calls
unfolding middleware_call take_reservation
middleware_call-finishes i calls true has_params =
    let state = (handler_calls calls none).0 in
    let effects = (handler_calls calls none).1 in
    omega (
      arith,
      calls_lem i calls none,
      total-append (effect_for i) effects (record_taken has_params state ++ release_taken none),
      total-append (effect_for i) (record_taken has_params state) (release_taken none),
      record_lem i has_params state,
      release_lem i none,
    )
middleware_call-finishes i calls false has_params =
    let state = (handler_calls calls none).0 in
    let effects = (handler_calls calls none).1 in
    omega (
      arith,
      calls_lem i calls none,
      total-append (effect_for i) effects (release_taken state),
      release_lem i state,
    )
