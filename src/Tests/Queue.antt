-- ===== src/Tests/Queue.antt =====
-- armatureanalytics/queue.go: a queue of numbers.
use mathlib.Core.List.{Perm}
use mcp_analytics_go.Prelude.{
  ℕ, zero, suc, ◌<◌, ◌≡◌, refl, true, false, Option, none, some, List, [], ◌∷◌, ◌++◌, map, ◌==◌,
  if◌then◌else◌, arith, Bool,
}
use mcp_analytics_go.Queue.{
  enqueue_locked, flush_locked, append_pending, notify_locked, new_privacy_queue, take_batch,
  next_batch, batch_count, close_locked, privacy_queue_capacity,
}
use mcp_analytics_go.Queue.World.{
  World, Action, enqueue, work, close, cancel_wait, new_world, run_schedule, perform, after_enqueue,
  step_worker, resume, finalize_items, send_events, top,
}
use mcp_analytics_go.Queue.Discards.{discarded}
use mcp_analytics_go.Queue.Safety.{IsSafe, run_schedule-IsSafe, new_world-IsSafe}
use mcp_analytics_go.Queue.Wakeups.{flush_wakeup}
use mcp_analytics_go.Queue.Drain.{flush_drained}
use mcp_analytics_go.Queue.Fifo.{Accounts, run_schedule-Accounts, new_world-Accounts}
use mcp_analytics_go.Queue.Closing.{flush-finished, close_final}

-- Every number is its own event, and 3 panics.
abbrev itself : ℕ → Option (List ℕ)
itself n = if n == 3 then none else some (n ∷ [])

abbrev arrivals : List (Action ℕ)
arrivals = enqueue 1 false ∷ enqueue 3 true ∷ work 0 true ∷ enqueue 2 false ∷ cancel_wait ∷ []

abbrev sends : List Bool
sends = true ∷ false ∷ true ∷ true ∷ true ∷ false ∷ true ∷ true ∷ true ∷ true ∷ []

abbrev busy : World ℕ ℕ
busy = run_schedule itself arrivals new_world

abbrev idle : World ℕ ℕ
idle = run_schedule itself (map (work 0) sends) busy

abbrev closed : World ℕ ℕ
closed = run_schedule itself (close ∷ []) idle

abbrev sevens : ℕ → List ℕ
sevens zero = []
sevens (suc n) = 7 ∷ sevens n

abbrev full : World ℕ ℕ
full = record new_world {
  queue = record new_privacy_queue { pending = sevens privacy_queue_capacity; running = true };
  workers = top ∷ [];
}

busy-IsSafe : IsSafe busy
busy-IsSafe = run_schedule-IsSafe itself arrivals new_world new_world-IsSafe

busy-Accounts : Accounts itself busy
busy-Accounts =
    run_schedule-Accounts itself arrivals new_world new_world-IsSafe (new_world-Accounts itself)

idle-IsSafe : IsSafe idle
idle-IsSafe = run_schedule-IsSafe itself (map (work 0) sends) busy busy-IsSafe

idle-Accounts : Accounts itself idle
idle-Accounts = run_schedule-Accounts itself (map (work 0) sends) busy busy-IsSafe busy-Accounts

run_schedule-IsSafe_example : IsSafe busy
run_schedule-IsSafe_example = run_schedule-IsSafe itself arrivals new_world new_world-IsSafe

run_schedule-Accounts_example : Accounts itself idle
run_schedule-Accounts_example =
    run_schedule-Accounts itself (map (work 0) sends) busy busy-IsSafe busy-Accounts

idle_sent : idle.sent ≡ (1 ∷ []) ∷ (2 ∷ []) ∷ []
unfolding run_schedule perform after_enqueue enqueue_locked append_pending notify_locked new_world
    new_privacy_queue step_worker resume take_batch next_batch batch_count send_events
    finalize_items
idle_sent = refl

idle_flush : flush_locked idle.queue ≡ none
unfolding run_schedule perform after_enqueue enqueue_locked append_pending notify_locked new_world
    new_privacy_queue step_worker resume take_batch next_batch batch_count send_events
    finalize_items flush_locked
idle_flush = refl

flush_wakeup_example : 4 < idle.queue.signal
unfolding run_schedule perform after_enqueue enqueue_locked append_pending notify_locked new_world
    new_privacy_queue step_worker resume take_batch next_batch batch_count send_events
    finalize_items flush_locked
flush_wakeup_example = flush_wakeup itself (map (work 0) sends) busy 4 refl idle_flush

flush_drained_example : flush_locked (run_schedule itself (map (work 0) sends) busy).queue ≡ none
unfolding run_schedule perform after_enqueue enqueue_locked append_pending notify_locked new_world
    new_privacy_queue step_worker resume take_batch next_batch batch_count
flush_drained_example = flush_drained itself sends busy busy-IsSafe (omega arith)

flush-finished_example : Perm idle.admitted (discarded idle.discards ++ idle.finished)
flush-finished_example = flush-finished itself idle idle-IsSafe idle-Accounts idle_flush

close_final_example :
    ((run_schedule itself arrivals closed).sent ≡ closed.sent)
    × ((run_schedule itself arrivals closed).admitted ≡ closed.admitted)
unfolding run_schedule perform after_enqueue enqueue_locked append_pending notify_locked new_world
    new_privacy_queue step_worker resume take_batch next_batch batch_count send_events
    finalize_items flush_locked close_locked
close_final_example =
    close_final itself arrivals closed (run_schedule-IsSafe itself (close ∷ []) idle idle-IsSafe)
      refl refl
