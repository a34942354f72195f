-- ===== src/Lifecycle/Final.antt =====
-- armatureanalytics/recorder.go: nothing is recorded or sent after a close that has drained.
use mcp_analytics_go.Prelude.{
  ℕ, suc, ◌+◌, ◌≡◌, refl, sym, ◌∙◌, Bool, true, false, Option, none, some, List, [], ◌∷◌, if_cases,
  Eq, arith,
}
use mathlib.Core.Path.{subst}
use mcp_analytics_go.Lifecycle.{
  Thread, storing, taking, checking, entering, queueing, releasing, claiming, building, sending,
  ending, stopping, World, Turn, before_any, on_success, on_error, on_abandoned_call,
  reserve_capability_request, release, start_close, sweep, resume, give_up, gave_up, is_queueing,
  new_world, flag_at, pick, spawn, done, claim, if_active, add_reservation, store_pending_call,
  advance, reserve, resumed, take_turn, run,
}
use mcp_analytics_go.Lifecycle.Balance.{
  running, Balanced, BalancedWith, take_turn-Balanced, run-Balanced, new_world-Balanced,
}
use mcp_analytics_go.Lifecycle.Totals.{total, total-pick, unclaimed, unclaimed-set_flag}

module _ {K Call : Type 0} where
  -- A closed recorder and queue with no reservation in flight, that have recorded `r` and sent `s`.
  pub record IsFinal (r s : List Call) (w : World K Call) : Type 0 where
    pub is_closed : w.closed ≡ true
    pub is_stopped : w.accepting ≡ false
    pub drained : w.inflight ≡ 0
    pub recorded_same : w.recorded ≡ r
    pub sent_same : w.sent ≡ s

  -- The same recorder, with other pending calls, goroutines and drops.
  IsFinal-keeps :
      (r s : List Call) (w : World K Call) (dropped : ℕ) (pending : List (K × Call))
      (threads : List (Thread K Call))
      → IsFinal r s w
      → IsFinal r s (record w { dropped = dropped; pending = pending; threads = threads })
  IsFinal-keeps r s w dropped pending threads f = record {
    is_closed = f.is_closed;
    is_stopped = f.is_stopped;
    drained = f.drained;
    recorded_same = f.recorded_same;
    sent_same = f.sent_same;
  }

  if_active-IsFinal :
      (ready : Bool) (g : World K Call → World K Call) (r s : List Call) (w : World K Call)
      → IsFinal r s w
      → IsFinal r s (if_active ready g w)
  if_active-IsFinal true g r s w f =
      if_cases (IsFinal r s) w.closed
        (λ _. IsFinal-keeps r s w (suc w.dropped) w.pending w.threads f)
        (λ unclosed. absurd (ground (arith, f.is_closed, unclosed)))
  if_active-IsFinal false g r s w f = f

  claim-IsFinal :
      (o : Option Bool) (i : ℕ) (t : Thread K Call) (r s : List Call) (w : World K Call)
      → flag_at i w.claimed ≡ o
      → w.inflight ≡ unclaimed w.claimed + total running w.threads
      → IsFinal r s w
      → IsFinal r s (claim o i t w)
  unfolding claim
  claim-IsFinal none i t r s w p h f = f
  claim-IsFinal (some true) i t r s w p h f = f
  claim-IsFinal (some false) i t r s w p h f =
      absurd (omega (arith, h, f.drained, unclaimed-set_flag i w.claimed p))

  pub reached : (P : World K Call → Type 0) (v w : World K Call) → some v ≡ some w → P v → P w
  reached P v w e p = let same : v ≡ w = cc in subst P same p

module _ {K Call : Type 0} ⦃e : Eq K⦄ where
  store-IsFinal :
      (key : K) (call : Call) (r s : List Call) (w : World K Call)
      → IsFinal r s w
      → IsFinal r s (store_pending_call key call w)
  unfolding store_pending_call
  store-IsFinal key call r s w f =
      if_cases (IsFinal r s) w.closed
        (λ _. IsFinal-keeps r s w (suc w.dropped) w.pending w.threads f)
        (λ unclosed. absurd (ground (arith, f.is_closed, unclosed)))

module _ {K Call : Type 0} ⦃e : Eq K⦄ (ready : Bool) (builds : Call → Bool) where
  advance-IsFinal :
      (t : Thread K Call) (r s : List Call) (w w' : World K Call)
      → BalancedWith t w
      → IsFinal r s w
      → advance ready builds t w ≡ some w'
      → IsFinal r s w'
  unfolding advance
  advance-IsFinal (storing key call) r s w w' h f step =
      reached (IsFinal r s) _ w' step (store-IsFinal key call r s w f)
  advance-IsFinal (taking key marker) r s w w' h f step =
      reached (IsFinal r s) _ w' step (IsFinal-keeps r s w w.dropped _ _ f)
  advance-IsFinal (checking call) r s w w' h f step =
      reached (IsFinal r s) _ w' step (if_active-IsFinal ready (spawn (entering call ∷ [])) r s w f)
  advance-IsFinal (entering call) r s w w' h f step =
      reached (IsFinal r s) _ w' step (if_active-IsFinal ready (spawn (queueing call ∷ [])) r s w f)
  advance-IsFinal (queueing call) r s w w' h f step = reached (IsFinal r s) _ w' step (
      if_cases (IsFinal r s) w.accepting (λ open'. absurd (ground (arith, f.is_stopped, open')))
        (λ _. IsFinal-keeps r s w (suc w.dropped) w.pending w.threads f))
  advance-IsFinal (releasing i) r s w w' h f step =
      reached (IsFinal r s) _ w' step
        (claim-IsFinal (flag_at i w.claimed) i ending r s w refl (omega (arith, h)) f)
  advance-IsFinal (claiming i call) r s w w' h f step =
      reached (IsFinal r s) _ w' step
        (claim-IsFinal (flag_at i w.claimed) i (building call) r s w refl (omega (arith, h)) f)
  advance-IsFinal (building call) r s w w' h f step = absurd (omega (arith, h, f.drained))
  advance-IsFinal (sending call) r s w w' h f step = absurd (omega (arith, h, f.drained))
  advance-IsFinal ending r s w w' h f step = absurd (omega (arith, h, f.drained))
  advance-IsFinal stopping r s w w' h f step =
      reached (IsFinal r s) (record w { accepting = false }) w' step
        (record {
          is_closed = f.is_closed;
          is_stopped = refl;
          drained = f.drained;
          recorded_same = f.recorded_same;
          sent_same = f.sent_same;
        })

  resumed-IsFinal :
      (o : Option (Thread K Call × List (Thread K Call))) (i : ℕ) (r s : List Call)
      (w w' : World K Call)
      → pick i w.threads ≡ o
      → Balanced w
      → IsFinal r s w
      → resumed ready builds o w ≡ some w'
      → IsFinal r s w'
  unfolding resumed Balanced
  resumed-IsFinal none i r s w w' p h f step = reached (IsFinal r s) w w' step f
  resumed-IsFinal (some (t, ts)) i r s w w' p h f step =
      advance-IsFinal t r s (record w { threads = ts }) w'
        (omega (arith, h, total-pick running i w.threads ts t p))
        (IsFinal-keeps r s w w.dropped w.pending ts f) step

  gave_up-IsFinal :
      (o : Option (Thread K Call × List (Thread K Call))) (r s : List Call) (w : World K Call)
      → IsFinal r s w
      → IsFinal r s (gave_up ready builds o w)
  unfolding gave_up
  gave_up-IsFinal none r s w f = f
  gave_up-IsFinal (some (t, ts)) r s w f =
      if_cases (IsFinal r s) (is_queueing t)
        (λ _. IsFinal-keeps r s w (suc w.dropped) w.pending ts f) (λ _. f)

  take_turn-IsFinal :
      (turn : Turn K Call) (r s : List Call) (w w' : World K Call)
      → Balanced w
      → IsFinal r s w
      → take_turn ready builds turn w ≡ some w'
      → IsFinal r s w'
  unfolding take_turn reserve
  take_turn-IsFinal (before_any key call) r s w w' h f step =
      reached (IsFinal r s) _ w' step
        (if_active-IsFinal ready (spawn (storing key call ∷ [])) r s w f)
  take_turn-IsFinal (on_success key marker) r s w w' h f step =
      reached (IsFinal r s) _ w' step (IsFinal-keeps r s w w.dropped w.pending _ f)
  take_turn-IsFinal (on_error key) r s w w' h f step =
      reached (IsFinal r s) _ w' step (IsFinal-keeps r s w w.dropped w.pending _ f)
  take_turn-IsFinal (on_abandoned_call key) r s w w' h f step =
      reached (IsFinal r s) _ w' step (IsFinal-keeps r s w w.dropped w.pending _ f)
  take_turn-IsFinal reserve_capability_request r s w w' h f step =
      reached (IsFinal r s) _ w' step (if_active-IsFinal ready add_reservation r s w f)
  take_turn-IsFinal (release i) r s w w' h f step =
      reached (IsFinal r s) _ w' step (IsFinal-keeps r s w w.dropped w.pending _ f)
  take_turn-IsFinal start_close r s w w' h f step = reached (IsFinal r s) _ w' step (record {
    is_closed = refl;
    is_stopped = f.is_stopped;
    drained = f.drained;
    recorded_same = f.recorded_same;
    sent_same = f.sent_same;
  })
  take_turn-IsFinal sweep r s w w' h f step =
      reached (IsFinal r s) _ w' step (IsFinal-keeps r s w w.dropped [] w.threads f)
  take_turn-IsFinal (resume i) r s w w' h f step =
      resumed-IsFinal (pick i w.threads) i r s w w' refl h f step
  take_turn-IsFinal (give_up i) r s w w' h f step =
      reached (IsFinal r s) _ w' step (gave_up-IsFinal (pick i w.threads) r s w f)

  run-IsFinal :
      (turns : List (Turn K Call)) (r s : List Call) (w : World K Call)
      → Balanced w
      → IsFinal r s w
      → (w' : World K Call) × (run ready builds turns w ≡ some w') × IsFinal r s w'
  unfolding run
  run-IsFinal [] r s w h f = (w, refl, f)
  run-IsFinal (turn ∷ turns) r s w h f =
      let (w1, first, h1) = take_turn-Balanced ready builds turn w h in
      let (w2, rest, f2) =
        run-IsFinal turns r s w1 h1 (take_turn-IsFinal turn r s w w1 h f first) in
      (w2, rw first rest, f2)

  -- From a new recorder: once it is closed, its queue accepts nothing and the in-flight counter is at
  -- zero, as when `Close` returns without an error, no schedule adds a call to the queue, sends
  -- another event of the feedback tool, makes another reservation or takes the counter below zero,
  -- whatever hooks still run, a goroutine on its way into the queue included, or are called later.
  pub closed_final :
      (before after : List (Turn K Call)) (w : World K Call)
      → run ready builds before new_world ≡ some w
      → w.closed ≡ true
      → w.accepting ≡ false
      → w.inflight ≡ 0
      → (w' : World K Call) × (run ready builds after w ≡ some w')
        × (w'.recorded ≡ w.recorded)
        × (w'.sent ≡ w.sent)
        × (w'.inflight ≡ 0)
  closed_final before after w come c stopped d =
      let (v, same, balanced) =
        run-Balanced ready builds before new_world (new_world-Balanced K Call) in
      let (w', done, f) =
        run-IsFinal after w.recorded w.sent w (reached Balanced v w (sym same ∙ come) balanced)
          (record {
            is_closed = c;
            is_stopped = stopped;
            drained = d;
            recorded_same = refl;
            sent_same = refl;
          }) in
      (w', done, f.recorded_same, f.sent_same, f.drained)
