-- ===== src/Queue/Drain.antt =====
-- armatureanalytics/queue.go: the worker empties the queue, so that `flush` comes back.
use mcp_analytics_go.Prelude.{
  ℕ, ◌+◌, ◌-◌, ◌*◌, ◌≤◌, ◌<◌, ◌≡◌, refl, ap, Bool, true, false, Option, none, List, [], ◌∷◌,
  append-nil, map, length, length-drop, arith,
}
use mcp_analytics_go.Queue.{notify_locked, batch_count, next_batch, take_batch, flush_locked}
use mcp_analytics_go.Queue.World.{
  Phase, top, holding, delivered, settled, World, work, to_list, after_take, finalize_items, resume,
  step_worker, perform, run_schedule,
}
use mcp_analytics_go.Queue.Safety.{
  IsSafe, Staffed, batch_count_bounds, Staffed-worker, send_events_queue, perform-IsSafe,
}

-- The parts of the loop that a worker has still to run before it is at the top again.
abbrev pub parts_left {ℓ} : {I : Type ℓ} → Phase I → ℕ
parts_left top = 1
parts_left (holding _) = 4
parts_left (delivered _) = 3
parts_left settled = 2

abbrev pub workload {ℓ} : {I : Type ℓ} → List (Phase I) → ℕ
workload [] = 0
workload (p ∷ ps) = parts_left p + workload ps

-- A bound for the parts that the worker runs until it returns.
abbrev pub work_left {ℓ} : {I E : Type ℓ} → World I E → ℕ
work_left w = 4 * length w.queue.pending + workload w.workers

module _ {ℓ} {I : Type ℓ} where
  no_worker : (running : Bool) (pending : List I) → Staffed running pending [] → length pending ≡ 0
  no_worker true pending h = absurd h
  no_worker false [] h = refl
  no_worker false (x ∷ xs) h = absurd h

  running_of_workload :
      (running : Bool) (pending : List I) (ws : List (Phase I))
      → Staffed running pending ws
      → workload ws ≡ 0
      → running ≡ false
  running_of_workload false pending ws s h = refl
  running_of_workload true pending [] s h = absurd s
  running_of_workload true pending (top ∷ ps) s h = absurd (omega arith)
  running_of_workload true pending (holding _ ∷ ps) s h = absurd (omega arith)
  running_of_workload true pending (delivered _ ∷ ps) s h = absurd (omega arith)
  running_of_workload true pending (settled ∷ ps) s h = absurd (omega arith)

module _ {ℓ} {I E : Type ℓ} where
  take-work_left :
      (pending : List I) (w : World I E)
      → w.queue.pending ≡ pending
      → 4 * length (after_take w (next_batch pending w.queue)).0.queue.pending
          + workload (to_list (after_take w (next_batch pending w.queue)).1)
        < 4 * length w.queue.pending + 1
  unfolding next_batch notify_locked
  take-work_left [] w same = omega arith
  take-work_left (x ∷ xs) w same =
      let (small, within, some_item) = batch_count_bounds w.queue in
      omega (
        arith,
        length-drop (batch_count w.queue) w.queue.pending,
        ap length same,
        some_item (omega (arith, ap length same)),
      )

  resume-work_left :
      (finalize : I → Option (List E)) (p : Phase I) (ok : Bool) (w : World I E)
      → 4 * length (resume finalize p ok w).0.queue.pending
          + workload (to_list (resume finalize p ok w).1)
        < 4 * length w.queue.pending + parts_left p
  unfolding resume
  resume-work_left finalize top ok w = unfold take_batch in take-work_left w.queue.pending w refl
  resume-work_left finalize (holding items) ok w =
      rw ((send_events_queue ok (finalize_items finalize items) w).0) (omega arith)
  resume-work_left finalize (delivered items) ok w = omega arith
  resume-work_left finalize settled ok w = unfold notify_locked in omega arith

  -- One part of the worker's loop leaves less work, unless there is none.
  step-work_left :
      (finalize : I → Option (List E)) (ok : Bool) (ws : List (Phase I)) (w : World I E)
      → Staffed w.queue.running w.queue.pending ws
      → 4 * length (step_worker finalize 0 ok ws w).0.queue.pending
          + workload (step_worker finalize 0 ok ws w).1
        ≤ 4 * length w.queue.pending + workload ws - 1
  unfolding step_worker
  step-work_left finalize ok [] w h = omega (arith, no_worker w.queue.running w.queue.pending h)
  step-work_left finalize ok (p ∷ ps) w h =
      let (running, batch, alone) = Staffed-worker w.queue.running w.queue.pending p ps h in
      rw (alone, append-nil) (omega (arith, resume-work_left finalize p ok w))

  perform-work_left :
      (finalize : I → Option (List E)) (ok : Bool) (w : World I E)
      → IsSafe w
      → work_left (perform finalize (work 0 ok) w) ≤ work_left w - 1
  unfolding perform
  perform-work_left finalize ok w v = step-work_left finalize ok w.workers w v.staffed

  idle_of_work_left : (w : World I E) → IsSafe w → work_left w ≤ 0 → flush_locked w.queue ≡ none
  unfolding flush_locked
  idle_of_work_left w v h =
      let stopped = running_of_workload w.queue.running w.queue.pending w.workers v.staffed in
      ground (arith, stopped (omega arith))

  -- In a safe state, once the worker has run `work_left` parts of its loop, whether its sends
  -- succeed or not and with no other goroutine in between, `flush` returns.
  pub flush_drained :
      (finalize : I → Option (List E)) (oks : List Bool) (w : World I E)
      → IsSafe w
      → work_left w ≤ length oks
      → flush_locked (run_schedule finalize (map (work 0) oks) w).queue ≡ none
  unfolding run_schedule
  flush_drained finalize [] w v h = idle_of_work_left w v h
  flush_drained finalize (ok ∷ oks) w v h =
      flush_drained finalize oks (perform finalize (work 0 ok) w)
        (perform-IsSafe finalize (work 0 ok) w v) (omega (arith, perform-work_left finalize ok w v))
