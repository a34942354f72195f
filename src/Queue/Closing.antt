-- ===== src/Queue/Closing.antt =====
-- armatureanalytics/queue.go: what `flush` and `close` promise when they come back.
use mathlib.Core.List.{Perm}
use mcp_analytics_go.Prelude.{
  ◌≡◌, refl, ◌∙◌, Bool, true, false, not, ◌&&◌, Option, none, List, [], ◌∷◌, ◌++◌, append-nil,
  length, leb, arith,
}
use mcp_analytics_go.Queue.{enqueue_locked, notify_locked, flush_locked, close_locked}
use mcp_analytics_go.Queue.World.{
  Phase, World, Action, enqueue, cancel_wait, discard, work, close, after_enqueue, step_worker,
  perform, run_schedule,
}
use mcp_analytics_go.Queue.Discards.{discarded, step_discard-Accounted}
use mcp_analytics_go.Queue.Safety.{IsSafe, Staffed, enqueue_cases}
use mcp_analytics_go.Queue.Fifo.{Accounts}

module _ {ℓ} {I : Type ℓ} where
  drained_lem :
      (running : Bool) (pending : List I) (ws : List (Phase I))
      → Staffed running pending ws
      → not running && leb (length pending) 0 ≡ true
      → (pending ≡ []) × (ws ≡ [])
  drained_lem false [] [] s h = (refl, refl)
  drained_lem true pending ws s h = absurd (cc)
  drained_lem false (x ∷ xs) ws s h = absurd s
  drained_lem false [] (p ∷ ps) s h = absurd s

module _ {ℓ} {I E : Type ℓ} where
  drained :
      (w : World I E)
      → IsSafe w
      → flush_locked w.queue ≡ none
      → (w.queue.pending ≡ []) × (w.workers ≡ [])
  unfolding flush_locked
  drained w v h = drained_lem w.queue.running w.queue.pending w.workers v.staffed (ground arith)

  -- When `flush` returns without an error, in a safe state in which the accounts hold, every item
  -- that was admitted is finished, or was dropped by a caller of `enqueue` that has left the
  -- critical section and is about to finish it, each once.
  pub flush-finished :
      (finalize : I → Option (List E)) (w : World I E)
      → IsSafe w
      → Accounts finalize w
      → flush_locked w.queue ≡ none
      → Perm w.admitted (discarded w.discards ++ w.finished)
  flush-finished finalize w v a h =
      let (no_pending, no_worker) = drained w v h in
      rw append-nil at (rw (no_pending, no_worker) at a.kept)

  -- No worker, and nothing is accepted: what has been sent stays as it is.
  abbrev Quiet : World I E → World I E → Type ℓ
  Quiet w w' =
      (w'.queue.accepting ≡ false)
      × (w'.workers ≡ [])
      × (w'.sent ≡ w.sent)
      × (w'.admitted ≡ w.admitted)

  enqueue-Quiet :
      (item : I) (await : Bool) (w : World I E)
      → w.queue.accepting ≡ false
      → w.workers ≡ []
      → Quiet w (after_enqueue item (enqueue_locked item await w.queue) w)
  enqueue-Quiet item await w shut alone =
      enqueue_cases (λ r. Quiet w (after_enqueue item r w)) item await w.queue (λ _ open' _. cc)
        (λ _. unfold after_enqueue in (shut, alone, refl, refl)) (λ open' _ _. cc) (λ open' _. cc)

  perform-Quiet :
      (finalize : I → Option (List E)) (a : Action I) (w : World I E)
      → w.queue.accepting ≡ false
      → w.workers ≡ []
      → Quiet w (perform finalize a w)
  unfolding perform step_worker
  perform-Quiet finalize (enqueue item await) w shut alone = enqueue-Quiet item await w shut alone
  perform-Quiet finalize cancel_wait w shut alone = (shut, alone, refl, refl)
  perform-Quiet finalize (discard n) w shut alone =
      let a = step_discard-Accounted n w.discards w in
      (rw a.same_queue shut, a.same_workers ∙ alone, a.same_sent, a.same_admitted)
  perform-Quiet finalize (work n ok) w shut alone = rw alone (shut, refl, refl, refl)
  perform-Quiet finalize close w shut alone =
      unfold close_locked notify_locked in (refl, alone, refl, refl)

  run_schedule-Quiet :
      (finalize : I → Option (List E)) (schedule : List (Action I)) (w : World I E)
      → w.queue.accepting ≡ false
      → w.workers ≡ []
      → Quiet w (run_schedule finalize schedule w)
  unfolding run_schedule
  run_schedule-Quiet finalize [] w shut alone = (shut, alone, refl, refl)
  run_schedule-Quiet finalize (a ∷ as') w shut alone =
      let (shut', alone', sent, admitted) = perform-Quiet finalize a w shut alone in
      let (shut'', alone'', sent', admitted') =
        run_schedule-Quiet finalize as' (perform finalize a w) shut' alone' in
      (shut'', alone'', sent' ∙ sent, admitted' ∙ admitted)

  -- Once the queue has stopped accepting and `flush` has returned, as both have when `close`
  -- returns without an error, nothing is admitted and nothing more is sent under any schedule.
  pub close_final :
      (finalize : I → Option (List E)) (schedule : List (Action I)) (w : World I E)
      → IsSafe w
      → w.queue.accepting ≡ false
      → flush_locked w.queue ≡ none
      → ((run_schedule finalize schedule w).sent ≡ w.sent)
        × ((run_schedule finalize schedule w).admitted ≡ w.admitted)
  close_final finalize schedule w v shut h =
      let (_, _, sent, admitted) = run_schedule-Quiet finalize schedule w shut (drained w v h).1 in
      (sent, admitted)
