-- ===== src/Lifecycle.antt =====
-- armatureanalytics/recorder.go: the calls in progress, the reservations of the feedback tool and
-- the shutdown. A world is the recorder with the goroutines that are inside it; a schedule says
-- which of them runs next, one atomic part at a time: a sync.Map operation, a compare-and-swap,
-- or a section under `closeMu`.
pub mod Totals
pub mod Balance
pub mod Final
pub mod Once
pub mod Drain
use mcp_analytics_go.Prelude.{
  ℕ, zero, suc, ◌+◌, Bool, true, false, not, ◌&&◌, Option, none, some, List, [], ◌∷◌, ◌++◌, length,
  if◌then◌else◌, Eq, ◌>>=◌,
}

-- Where a goroutine stands that runs a hook.
pub data Thread (K Call : Type 0) : Type 0 where
  -- before `storePendingCall`
  storing : K → Call → Thread K Call
  -- before `takeCall`, with the reservation that the result carries
  taking : K → Option ℕ → Thread K Call
  -- before the `active` of `onSuccess`, `onError` and `onAbandonedCall`
  checking : Call → Thread K Call
  -- before the `active` of `RecordToolCall`
  entering : Call → Thread K Call
  -- before the critical section of the queue's `enqueue`, or in its wait for room
  queueing : Call → Thread K Call
  -- before the compare-and-swap of `Release`
  releasing : ℕ → Thread K Call
  -- before the compare-and-swap of `RecordReservedCapability`
  claiming : ℕ → Call → Thread K Call
  -- before `buildToolCallEvents`
  building : Call → Thread K Call
  -- before the `send` of `emitReserved`
  sending : Call → Thread K Call
  -- before `inflight.Done`
  ending : Thread K Call
  -- in `Close`, before the critical section of the queue's `close`
  stopping : Thread K Call

-- The recorder and its goroutines. `accepting` is the queue's, `claimed` has a flag for each
-- reservation, `recorded` the calls that the queue has taken, and `sent` those of the feedback tool that were posted.
pub record World (K Call : Type 0) : Type 0 where
  pub closed : Bool
  pub accepting : Bool
  pub dropped : ℕ
  pub pending : List (K × Call)
  pub inflight : ℕ
  pub claimed : List Bool
  pub threads : List (Thread K Call)
  pub recorded : List Call
  pub sent : List Call

-- What happens next: a hook or a method is called, or a goroutine goes on.
pub data Turn (K Call : Type 0) : Type 0 where
  before_any : K → Call → Turn K Call
  on_success : K → Option ℕ → Turn K Call
  on_error : K → Turn K Call
  on_abandoned_call : K → Turn K Call
  reserve_capability_request : Turn K Call
  release : ℕ → Turn K Call
  start_close : Turn K Call
  sweep : Turn K Call
  resume : ℕ → Turn K Call
  -- the context of a goroutine ends that waits for room in the queue
  give_up : ℕ → Turn K Call

abbrev pub new_world : {K Call : Type 0} → World K Call
new_world = record {
  closed = false;
  accepting = true;
  dropped = 0;
  pending = [];
  inflight = 0;
  claimed = [];
  threads = [];
  recorded = [];
  sent = [];
}

-- The flag of a reservation, and the flags with it set.
unfoldable pub flag_at : ℕ → List Bool → Option Bool
flag_at i [] = none
flag_at zero (b ∷ bs) = some b
flag_at (suc i) (b ∷ bs) = flag_at i bs

unfoldable pub set_flag : ℕ → List Bool → List Bool
set_flag i [] = []
set_flag zero (b ∷ bs) = true ∷ bs
set_flag (suc i) (b ∷ bs) = b ∷ set_flag i bs

-- The goroutine that goes on, and the others.
unfoldable pub pick : {A : Type 0} → ℕ → List A → Option (A × List A)
pick i [] = none
pick zero (t ∷ ts) = some (t, ts)
pick (suc i) (t ∷ ts) = do (u, us) ← pick i ts; some (u, t ∷ us)

module _ {K Call : Type 0} ⦃e : Eq K⦄ where
  unfoldable pub find_call : K → List (K × Call) → Option Call
  find_call key [] = none
  find_call key ((k, c) ∷ m) = if e.beq k key then some c else find_call key m

  unfoldable pub delete_call : K → List (K × Call) → List (K × Call)
  delete_call key [] = []
  delete_call key ((k, c) ∷ m) =
      let rest = delete_call key m in if e.beq k key then rest else (k, c) ∷ rest

module _ {K Call : Type 0} where
  abbrev pub spawn : List (Thread K Call) → World K Call → World K Call
  spawn ts w = record w { threads = w.threads ++ ts }

  abbrev pub drop_one : World K Call → World K Call
  drop_one w = record w { dropped = suc w.dropped }

  -- `inflight.Done`; `none` is a counter that would become negative. The panics of
  -- `sync.WaitGroup` on an `Add` that races with a `Wait` are left out.
  unfoldable pub done : ℕ → World K Call → Option (World K Call)
  done zero w = none
  done (suc n) w = some (record w { inflight = n })

  -- `CompareAndSwap(false, true)` on the flag of a reservation, and how its goroutine goes on.
  unfoldable pub claim : Option Bool → ℕ → Thread K Call → World K Call → World K Call
  claim (some false) i t w = spawn (t ∷ []) (record w { claimed = set_flag i w.claimed })
  claim _ i t w = w

  -- `onSuccess` on the pending call, if there is one; a hook without a reservation goes on alike.
  abbrev pub after_take : Option Call → Option ℕ → List (Thread K Call)
  after_take none none = []
  after_take none (some i) = releasing i ∷ []
  after_take (some c) none = checking c ∷ []
  after_take (some c) (some i) = claiming i c ∷ []

  abbrev pub record_one : Call → World K Call → World K Call
  record_one call w = record w { recorded = w.recorded ++ call ∷ [] }

  abbrev pub add_reservation : World K Call → World K Call
  add_reservation w = record w { inflight = suc w.inflight; claimed = w.claimed ++ false ∷ [] }

  -- `active`, and what is done where it holds; `ready` says that the recorder is enabled and can
  -- send. A closed recorder drops the event.
  abbrev pub if_active : Bool → (World K Call → World K Call) → World K Call → World K Call
  if_active ready f w = if not ready then w else if w.closed then drop_one w else f w

module _ {K Call : Type 0} ⦃e : Eq K⦄ where
  -- `storePendingCall`
  unfoldable pub store_pending_call : K → Call → World K Call → World K Call
  store_pending_call key call w =
      if w.closed
      then drop_one w
      else record w { pending = (key, call) ∷ delete_call key w.pending }

  -- `takeCall`, and how the hook goes on.
  abbrev pub take_call : K → Option ℕ → World K Call → World K Call
  take_call key marker w =
      spawn (after_take (find_call key w.pending) marker)
        (record w { pending = delete_call key w.pending })

module _ {K Call : Type 0} where
  -- `onBeforeAny`, up to `storePendingCall`
  abbrev pub start_call : Bool → K → Call → World K Call → World K Call
  start_call ready key call w = if_active ready (spawn (storing key call ∷ [])) w

  -- `RecordToolCall`, up to `enqueue`
  abbrev pub record_tool_call : Bool → Call → World K Call → World K Call
  record_tool_call ready call w = if_active ready (spawn (queueing call ∷ [])) w

  -- Its `enqueue`: a queue that is closed drops the call.
  abbrev pub enqueue_call : Call → World K Call → World K Call
  enqueue_call call w = if w.accepting then record_one call w else drop_one w

  abbrev pub is_queueing : Thread K Call → Bool
  is_queueing (queueing call) = true
  is_queueing _ = false

  -- `Release`, up to `inflight.Done`
  abbrev pub release_reservation : ℕ → World K Call → World K Call
  release_reservation i w = claim (flag_at i w.claimed) i ending w

  -- `RecordReservedCapability`, up to `buildToolCallEvents`
  abbrev pub record_reserved_capability : ℕ → Call → World K Call → World K Call
  record_reserved_capability i call w = claim (flag_at i w.claimed) i (building call) w

  -- `emitReserved`; `builds` says whether the events of a call are not empty.
  abbrev pub emit_reserved : (Call → Bool) → Call → World K Call → World K Call
  emit_reserved builds call w = spawn ((if builds call then sending call else ending) ∷ []) w

  -- Its `run`, up to `inflight.Done`
  abbrev pub send_reserved : Call → World K Call → World K Call
  send_reserved call w = spawn (ending ∷ []) (record w { sent = w.sent ++ call ∷ [] })

  -- `Close`, before it drains the queue and waits, and after that.
  abbrev pub mark_closed : World K Call → World K Call
  mark_closed w = spawn (stopping ∷ []) (record w { closed = true })

  abbrev pub stop_accepting : World K Call → World K Call
  stop_accepting w = record w { accepting = false }

  abbrev pub sweep_pending : World K Call → World K Call
  sweep_pending w = record w { pending = [] }

  -- `ReserveCapabilityRequest`
  unfoldable pub reserve : Bool → World K Call → World K Call
  reserve ready w = if_active ready add_reservation w

module _ {K Call : Type 0} ⦃e : Eq K⦄ (ready : Bool) (builds : Call → Bool) where
  unfoldable pub advance : Thread K Call → World K Call → Option (World K Call)
  advance (storing key call) w = some (store_pending_call key call w)
  advance (taking key marker) w = some (take_call key marker w)
  advance (checking call) w = some (if_active ready (spawn (entering call ∷ [])) w)
  advance (entering call) w = some (record_tool_call ready call w)
  advance (queueing call) w = some (enqueue_call call w)
  advance (releasing i) w = some (release_reservation i w)
  advance (claiming i call) w = some (record_reserved_capability i call w)
  advance (building call) w = some (emit_reserved builds call w)
  advance (sending call) w = some (send_reserved call w)
  advance ending w = done w.inflight w
  advance stopping w = some (stop_accepting w)

  unfoldable pub resumed :
      Option (Thread K Call × List (Thread K Call)) → World K Call → Option (World K Call)
  resumed none w = some w
  resumed (some (t, ts)) w = advance t (record w { threads = ts })

  -- `case <-ctx.Done()` in the wait of `enqueue`
  unfoldable pub gave_up :
      Option (Thread K Call × List (Thread K Call)) → World K Call → World K Call
  gave_up none w = w
  gave_up (some (t, ts)) w = if is_queueing t then drop_one (record w { threads = ts }) else w

  unfoldable pub take_turn : Turn K Call → World K Call → Option (World K Call)
  take_turn (before_any key call) w = some (start_call ready key call w)
  take_turn (on_success key marker) w = some (spawn (taking key marker ∷ []) w)
  take_turn (on_error key) w = some (spawn (taking key none ∷ []) w)
  take_turn (on_abandoned_call key) w = some (spawn (taking key none ∷ []) w)
  take_turn reserve_capability_request w = some (reserve ready w)
  take_turn (release i) w = some (spawn (releasing i ∷ []) w)
  take_turn start_close w = some (mark_closed w)
  take_turn sweep w = some (sweep_pending w)
  take_turn (resume i) w = resumed (pick i w.threads) w
  take_turn (give_up i) w = some (gave_up (pick i w.threads) w)

  -- A schedule, as far as the counter does not become negative.
  unfoldable pub run : List (Turn K Call) → World K Call → Option (World K Call)
  run [] w = some w
  run (turn ∷ turns) w = take_turn turn w >>= run turns
