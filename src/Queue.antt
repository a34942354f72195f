-- ===== src/Queue.antt =====
-- armatureanalytics/queue.go: the privacy queue between the recorder and the ingest client. What
-- runs under the mutex is one function on the queue's fields; Queue/World.antt composes the
-- parts into the goroutines. The proofs are in the modules below.
pub mod World
pub mod Discards
pub mod Safety
pub mod Wakeups
pub mod Drain
pub mod Fifo
pub mod Closing
use mcp_analytics_go.Prelude.{
  ℕ, suc, Bool, true, false, not, ◌&&◌, Option, none, some, List, [], ◌∷◌, ◌++◌, length, take, drop,
  ltb, leb, if◌then◌else◌,
}

abbrev pub privacy_queue_capacity : ℕ
privacy_queue_capacity = 1000

abbrev pub privacy_queue_batch_size : ℕ
privacy_queue_batch_size = 20

-- The fields that the mutex guards. `signal` counts the channels that `notifyLocked` has closed,
-- so that two values of it are the same channel exactly when they are equal.
pub record PrivacyQueue {ℓ} (I : Type ℓ) : Type ℓ where
  pub pending : List I
  pub running : Bool
  pub accepting : Bool
  pub warned_drop : Bool
  pub signal : ℕ

unfoldable pub new_privacy_queue {ℓ} : {I : Type ℓ} → PrivacyQueue I
new_privacy_queue = record {
  pending = [];
  running = false;
  accepting = true;
  warned_drop = false;
  signal = 0;
}

-- What one pass through the critical section of `enqueue` decides.
pub data Enqueued {ℓ} (I : Type ℓ) : Type ℓ where
  -- the `await` loop waits for the channel to close
  must_wait : ℕ → Enqueued I
  -- the queue no longer accepts
  rejected : Enqueued I
  -- the new queue, the item dropped to make room, the overflow warning, and `go q.run()`
  accepted : PrivacyQueue I → Option I → Bool → Bool → Enqueued I

module _ {ℓ} {I : Type ℓ} where
  unfoldable pub notify_locked : PrivacyQueue I → PrivacyQueue I
  notify_locked q = record q { signal = suc q.signal }

  -- Drops `q.pending[0]`. The queue is full where this is called, so that the first clause is
  -- not reached.
  unfoldable pub drop_oldest : List I → PrivacyQueue I → PrivacyQueue I × Option I × Bool
  drop_oldest [] q = (q, none, false)
  drop_oldest (oldest ∷ rest) q =
      (record q { pending = rest; warned_drop = true }, some oldest, not q.warned_drop)

  unfoldable pub append_pending : I → PrivacyQueue I × Option I × Bool → Enqueued I
  append_pending item (q, dropped, should_warn) =
      accepted (notify_locked (record q { pending = q.pending ++ item ∷ []; running = true }))
        dropped should_warn (not q.running)

  -- `enqueue` between `mu.Lock` and `mu.Unlock`, once through the waiting loop.
  unfoldable pub enqueue_locked : I → Bool → PrivacyQueue I → Enqueued I
  enqueue_locked item await q =
      if await && (q.accepting && leb privacy_queue_capacity (length q.pending))
      then must_wait q.signal
      else if not q.accepting
      then rejected
      else append_pending item (
          if not await && leb privacy_queue_capacity (length q.pending)
          then drop_oldest q.pending q
          else (q, none, false))

  -- `count`: the batch size, or the number of pending items if that is less.
  unfoldable pub batch_count : PrivacyQueue I → ℕ
  batch_count q =
      if ltb (length q.pending) privacy_queue_batch_size
      then length q.pending
      else privacy_queue_batch_size

  unfoldable pub next_batch : List I → PrivacyQueue I → PrivacyQueue I × Option (List I)
  next_batch [] q = (notify_locked (record q { running = false }), none)
  next_batch (_ ∷ _) q = (
    notify_locked (record q { pending = drop (batch_count q) q.pending }),
    some (take (batch_count q) q.pending),
  )

  -- The first critical section of the loop of `run`: the items taken, or `none` when it returns.
  unfoldable pub take_batch : PrivacyQueue I → PrivacyQueue I × Option (List I)
  take_batch q = next_batch q.pending q

  -- One round of `flush`: `none` when it returns, or the channel that it waits on.
  unfoldable pub flush_locked : PrivacyQueue I → Option ℕ
  flush_locked q = if not q.running && leb (length q.pending) 0 then none else some q.signal

  -- `close` up to its call of `flush`.
  unfoldable pub close_locked : PrivacyQueue I → PrivacyQueue I
  close_locked q = notify_locked (record q { accepting = false })
