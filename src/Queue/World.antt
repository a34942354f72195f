-- ===== src/Queue/World.antt =====
-- armatureanalytics/queue.go: the goroutines around the privacy queue, that is the callers of
-- `enqueue` and `close` and the workers that `go q.run()` starts. An action is what one goroutine
-- does between two points at which another can run, and a schedule is any list of actions.
use mcp_analytics_go.Prelude.{
  ℕ, zero, suc, ◌+◌, Bool, false, Option, none, some, List, [], ◌∷◌, ◌++◌, if◌then◌else◌,
}
use mcp_analytics_go.Queue.{
  PrivacyQueue, Enqueued, must_wait, rejected, accepted, new_privacy_queue, notify_locked,
  enqueue_locked, take_batch, close_locked,
}

-- Where a worker stands in the loop of `run`.
pub data Phase {ℓ} (I : Type ℓ) : Type ℓ where
  -- before the first `mu.Lock`
  top : Phase I
  -- after the unlock, with the items it took
  holding : List I → Phase I
  -- after `send`
  delivered : List I → Phase I
  -- after the last `finish`, before the second `mu.Lock`
  settled : Phase I

-- Where a caller of `enqueue` stands behind the unlock until it has accounted for a drop.
pub data Discard {ℓ} (I : Type ℓ) : Type ℓ where
  -- before `finish` on the dropped item; the flag is `shouldWarn`
  finishing : I → Bool → Discard I
  -- before `noteDrop`
  noting : Bool → Discard I
  -- before `warn`
  warning : Discard I

-- The queue, its workers, and what has been observed from outside: the items whose `done` channel
-- is closed, the calls of `send`, `onError`, `onDrop` and `warn`, and the items that `enqueue` has
-- put into the queue. `discards` are the callers of `enqueue` that have a drop to account for.
pub record World {ℓ} (I E : Type ℓ) : Type ℓ where
  pub queue : PrivacyQueue I
  pub workers : List (Phase I)
  pub discards : List (Discard I)
  pub finished : List I
  pub sent : List (List E)
  pub errors : List (List E)
  pub dropped : ℕ
  pub overflow_warnings : ℕ
  pub panic_warnings : ℕ
  pub admitted : List I

pub data Action {ℓ} (I : Type ℓ) : Type ℓ where
  -- one pass of `enqueue`; a caller that has to wait comes back by another action
  enqueue : I → Bool → Action I
  -- a waiting caller whose context is done
  cancel_wait : Action I
  -- the caller at a position among those that have a drop to account for goes on
  discard : ℕ → Action I
  -- the worker at a position runs on; the flag says if a `send` in this part succeeds
  work : ℕ → Bool → Action I
  close : Action I

abbrev pub to_list {ℓ} : {A : Type ℓ} → Option A → List A
to_list none = []
to_list (some a) = a ∷ []

abbrev pub as_number : Bool → ℕ
as_number b = if b then 1 else 0

abbrev pub discard_of {ℓ} : {I : Type ℓ} → Option I → Bool → List (Discard I)
discard_of none should_warn = []
discard_of (some item) should_warn = finishing item should_warn ∷ []

module _ {ℓ} {I E : Type ℓ} where
  unfoldable pub new_world : World I E
  new_world = record {
    queue = new_privacy_queue;
    workers = [];
    discards = [];
    finished = [];
    sent = [];
    errors = [];
    dropped = 0;
    overflow_warnings = 0;
    panic_warnings = 0;
    admitted = [];
  }

  -- `enqueue` up to what follows on the unlock.
  unfoldable pub after_enqueue : I → Enqueued I → World I E → World I E
  after_enqueue item (must_wait _) w = w
  after_enqueue item rejected w = record w { discards = w.discards ++ noting false ∷ [] }
  after_enqueue item (accepted q dropped should_warn start) w = record w {
    queue = q;
    workers = w.workers ++ (if start then top ∷ [] else []);
    discards = w.discards ++ discard_of dropped should_warn;
    admitted = w.admitted ++ item ∷ [];
  }

  -- One call of a caller that has a drop to account for, and how it goes on.
  unfoldable pub account : Discard I → World I E → World I E × Option (Discard I)
  account (finishing item should_warn) w =
      (record w { finished = w.finished ++ item ∷ [] }, some (noting should_warn))
  account (noting should_warn) w =
      (record w { dropped = suc w.dropped }, if should_warn then some warning else none)
  account warning w = (record w { overflow_warnings = suc w.overflow_warnings }, none)

  unfoldable pub step_discard : ℕ → List (Discard I) → World I E → World I E × List (Discard I)
  step_discard n [] w = (w, [])
  step_discard zero (d ∷ ds) w = let (w', d') = account d w in (w', to_list d' ++ ds)
  step_discard (suc n) (d ∷ ds) w = let (w', ds') = step_discard n ds w in (w', d ∷ ds')

  abbrev pub after_take :
      World I E → PrivacyQueue I × Option (List I) → World I E × Option (Phase I)
  after_take w (q, none) = (record w { queue = q }, none)
  after_take w (q, some items) = (record w { queue = q }, some (holding items))

  -- `send`, unless no event is left, and `onError` if it fails.
  unfoldable pub send_events : Bool → List E × ℕ → World I E → World I E
  send_events ok ([], panics) w = record w { panic_warnings = w.panic_warnings + panics }
  send_events ok (event ∷ events, panics) w = record w {
    panic_warnings = w.panic_warnings + panics;
    sent = w.sent ++ (event ∷ events) ∷ [];
    errors = w.errors ++ (if ok then [] else (event ∷ events) ∷ []);
  }

-- What an item's `finalize` returns is a parameter: `none` is a panic.
module _ {ℓ} {I E : Type ℓ} (finalize : I → Option (List E)) where
  abbrev pub collect : Option (List E) → List E × ℕ → List E × ℕ
  collect none (events, panics) = (events, suc panics)
  collect (some finalized) (events, panics) = (finalized ++ events, panics)

  -- The loop over the items: the events in order, and the number of candidates that panicked.
  unfoldable pub finalize_items : List I → List E × ℕ
  finalize_items [] = ([], 0)
  finalize_items (item ∷ items) = collect (finalize item) (finalize_items items)

  -- One part of the loop of `run`; no phase is left when it returns.
  unfoldable pub resume : Phase I → Bool → World I E → World I E × Option (Phase I)
  resume top ok w = after_take w (take_batch w.queue)
  resume (holding items) ok w = (send_events ok (finalize_items items) w, some (delivered items))
  resume (delivered items) ok w = (record w { finished = w.finished ++ items }, some settled)
  resume settled ok w = (record w { queue = notify_locked w.queue }, some top)

  unfoldable pub step_worker : ℕ → Bool → List (Phase I) → World I E → World I E × List (Phase I)
  step_worker n ok [] w = (w, [])
  step_worker zero ok (p ∷ ps) w = let (w', p') = resume p ok w in (w', to_list p' ++ ps)
  step_worker (suc n) ok (p ∷ ps) w = let (w', ps') = step_worker n ok ps w in (w', p ∷ ps')

  unfoldable pub perform : Action I → World I E → World I E
  perform (enqueue item await) w = after_enqueue item (enqueue_locked item await w.queue) w
  perform cancel_wait w = record w { dropped = suc w.dropped }
  perform (discard n) w = let (w', ds) = step_discard n w.discards w in record w' { discards = ds }
  perform (work n ok) w = let (w', ps) = step_worker n ok w.workers w in record w' { workers = ps }
  perform close w = record w { queue = close_locked w.queue }

  unfoldable pub run_schedule : List (Action I) → World I E → World I E
  run_schedule [] w = w
  run_schedule (a ∷ as') w = run_schedule as' (perform a w)
