-- ===== src/Lifecycle/Once.antt =====
-- armatureanalytics/recorder.go: a call is recorded at most once, however its hooks interleave.
use mcp_analytics_go.Prelude.{
  ℕ, zero, suc, ◌+◌, ◌≤◌, ◌≡◌, refl, Bool, true, false, not, Option, none, some, List, [], ◌∷◌,
  ◌++◌, append-nil, if_cases, if◌then◌else◌, Eq, arith,
}
use mcp_analytics_go.Lifecycle.{
  Thread, storing, taking, checking, entering, queueing, releasing, claiming, building, sending,
  ending, stopping, World, Turn, before_any, on_success, on_error, on_abandoned_call,
  reserve_capability_request, release, start_close, sweep, resume, give_up, gave_up, is_queueing,
  new_world, flag_at, pick, find_call, delete_call, spawn, done, claim, after_take, if_active,
  add_reservation, store_pending_call, advance, reserve, resumed, take_turn, run,
}
use mcp_analytics_go.Lifecycle.Final.{reached}
use mcp_analytics_go.Lifecycle.Balance.{Balanced, take_turn-Balanced, new_world-Balanced}
use mcp_analytics_go.Lifecycle.Totals.{total, total-snoc, total-pick}

abbrev pub one_if : {Call : Type 0} → (Call → Bool) → Call → ℕ
one_if is_it c = if is_it c then 1 else 0

-- What `takeCall` has found.
held_taken : {Call : Type 0} → (Call → Bool) → Option Call → ℕ
held_taken is_it none = 0
held_taken is_it (some c) = one_if is_it c

module _ {K Call : Type 0} (is_it : Call → Bool) where
  -- How often a goroutine holds the call.
  abbrev pub held : Thread K Call → ℕ
  held (storing k c) = one_if is_it c
  held (taking k marker) = 0
  held (checking c) = one_if is_it c
  held (entering c) = one_if is_it c
  held (queueing c) = one_if is_it c
  held (releasing i) = 0
  held (claiming i c) = one_if is_it c
  held (building c) = one_if is_it c
  held (sending c) = one_if is_it c
  held ending = 0
  held stopping = 0

  abbrev pub waiting : K × Call → ℕ
  waiting entry = one_if is_it entry.1

  -- How often the call is in the recorder, on its way or delivered.
  unfoldable pub copies : World K Call → ℕ
  copies w =
      total waiting w.pending
      + total held w.threads
      + total (one_if is_it) w.recorded
      + total (one_if is_it) w.sent

  -- How often a schedule begins the call.
  abbrev pub begun : Turn K Call → ℕ
  begun (before_any key c) = one_if is_it c
  begun _ = 0

  after_take_lem :
      (ts : List (Thread K Call)) (o : Option Call) (marker : Option ℕ)
      → total held (ts ++ after_take o marker) ≡ total held ts + held_taken is_it o
  unfolding held_taken
  after_take_lem ts none none = rw (append-nil ts) (omega arith)
  after_take_lem ts none (some i) = total-snoc held ts (releasing i)
  after_take_lem ts (some c) none = total-snoc held ts (checking c)
  after_take_lem ts (some c) (some i) = total-snoc held ts (claiming i c)

module _ {K Call : Type 0} ⦃e : Eq K⦄ (is_it : Call → Bool) where
  delete_call-le :
      (key : K) (m : List (K × Call))
      → total (waiting is_it) (delete_call key m) ≤ total (waiting is_it) m
  unfolding total delete_call
  delete_call-le key [] = omega arith
  delete_call-le key ((k, c) ∷ m) = ground (arith, delete_call-le key m)

  take_call-le :
      (key : K) (m : List (K × Call))
      → held_taken is_it (find_call key m) + total (waiting is_it) (delete_call key m)
        ≤ total (waiting is_it) m
  unfolding total delete_call find_call held_taken
  take_call-le key [] = omega arith
  take_call-le key ((k, c) ∷ m) = ground (arith, take_call-le key m, delete_call-le key m)

  -- What a goroutine makes of the world holds the call no more often than both did.
  Keeps : ℕ → World K Call → World K Call → Type 0
  Keeps n w w' = copies is_it w' ≤ n + copies is_it w

  Keeps-trans :
      (n m : ℕ) (w w1 w2 : World K Call) → Keeps n w w1 → Keeps m w1 w2 → Keeps (n + m) w w2
  unfolding Keeps
  Keeps-trans n m w w1 w2 h k = omega (arith, h, k)

  if_active-Keeps :
      (ready : Bool) (f : World K Call → World K Call) (n : ℕ) (w : World K Call)
      → Keeps n w (f w)
      → Keeps n w (if_active ready f w)
  unfolding Keeps copies
  if_active-Keeps ready f n w h =
      if_cases (Keeps n w) (not ready) (λ _. omega arith)
        (λ _. if_cases (Keeps n w) w.closed (λ _. omega arith) (λ _. h))

  spawn-Keeps : (t : Thread K Call) (w : World K Call) → Keeps (held is_it t) w (spawn (t ∷ []) w)
  unfolding Keeps copies
  spawn-Keeps t w = omega (arith, total-snoc (held is_it) w.threads t)

  claim-Keeps :
      (o : Option Bool) (i : ℕ) (t : Thread K Call) (w : World K Call)
      → Keeps (held is_it t) w (claim o i t w)
  unfolding Keeps copies claim
  claim-Keeps none i t w = omega arith
  claim-Keeps (some true) i t w = omega arith
  claim-Keeps (some false) i t w = omega (arith, total-snoc (held is_it) w.threads t)

  store-Keeps :
      (key : K) (call : Call) (w : World K Call)
      → Keeps (one_if is_it call) w (store_pending_call key call w)
  unfolding Keeps copies store_pending_call total
  store-Keeps key call w =
      if_cases (Keeps (one_if is_it call) w) w.closed (λ _. omega arith)
        (λ _. omega (arith, delete_call-le key w.pending))

  done-Keeps : (n : ℕ) (w w' : World K Call) → done n w ≡ some w' → Keeps 0 w w'
  unfolding Keeps copies done
  done-Keeps zero w w' h = absurd (cc)
  done-Keeps (suc n) w w' h = reached (Keeps 0 w) _ w' h (omega arith)

module _ {K Call : Type 0} ⦃e : Eq K⦄ (ready : Bool) (builds : Call → Bool)
    (is_it : Call → Bool) where
  advance-Keeps :
      (t : Thread K Call) (w w' : World K Call)
      → advance ready builds t w ≡ some w'
      → Keeps is_it (held is_it t) w w'
  unfolding advance
  advance-Keeps (storing key call) w w' step =
      reached (Keeps is_it (one_if is_it call) w) _ w' step (store-Keeps is_it key call w)
  advance-Keeps (taking key marker) w w' step = reached (Keeps is_it 0 w) _ w' step (
      unfold Keeps copies in
      omega (
        arith,
        take_call-le is_it key w.pending,
        after_take_lem is_it w.threads (find_call key w.pending) marker,
      ))
  advance-Keeps (checking call) w w' step = reached (Keeps is_it (one_if is_it call) w) _ w' step (
      if_active-Keeps is_it ready (spawn (entering call ∷ [])) (one_if is_it call) w
        (spawn-Keeps is_it (entering call) w))
  advance-Keeps (entering call) w w' step = reached (Keeps is_it (one_if is_it call) w) _ w' step (
      if_active-Keeps is_it ready (spawn (queueing call ∷ [])) (one_if is_it call) w
        (spawn-Keeps is_it (queueing call) w))
  advance-Keeps (queueing call) w w' step = reached (Keeps is_it (one_if is_it call) w) _ w' step (
      if_cases (Keeps is_it (one_if is_it call) w) w.accepting
        (λ _. unfold Keeps copies in omega (arith, total-snoc (one_if is_it) w.recorded call))
        (λ _. unfold Keeps copies in omega arith))
  advance-Keeps (releasing i) w w' step =
      reached (Keeps is_it 0 w) _ w' step (claim-Keeps is_it (flag_at i w.claimed) i ending w)
  advance-Keeps (claiming i call) w w' step =
      reached (Keeps is_it (one_if is_it call) w) _ w' step
        (claim-Keeps is_it (flag_at i w.claimed) i (building call) w)
  advance-Keeps (building call) w w' step = reached (Keeps is_it (one_if is_it call) w) _ w' step (
      if_cases (λ t. Keeps is_it (one_if is_it call) w (spawn (t ∷ []) w)) (builds call)
        (λ _. spawn-Keeps is_it (sending call) w)
        (λ _. unfold Keeps copies in omega (arith, total-snoc (held is_it) w.threads ending)))
  advance-Keeps (sending call) w w' step = reached (Keeps is_it (one_if is_it call) w) _ w' step (
      unfold Keeps copies in
      omega
        (arith, total-snoc (held is_it) w.threads ending, total-snoc (one_if is_it) w.sent call))
  advance-Keeps ending w w' step = done-Keeps is_it w.inflight w w' step
  advance-Keeps stopping w w' step =
      reached (Keeps is_it 0 w) _ w' step (unfold Keeps copies in omega arith)

  resumed-Keeps :
      (o : Option (Thread K Call × List (Thread K Call))) (i : ℕ) (w w' : World K Call)
      → pick i w.threads ≡ o
      → resumed ready builds o w ≡ some w'
      → Keeps is_it 0 w w'
  unfolding resumed
  resumed-Keeps none i w w' p step =
      reached (Keeps is_it 0 w) w w' step (unfold Keeps in omega arith)
  resumed-Keeps (some (t, ts)) i w w' p step =
      unfold Keeps copies in
      omega (
        arith,
        advance-Keeps t (record w { threads = ts }) w' step,
        total-pick (held is_it) i w.threads ts t p,
      )

  gave_up-Keeps :
      (o : Option (Thread K Call × List (Thread K Call))) (i : ℕ) (w : World K Call)
      → pick i w.threads ≡ o
      → Keeps is_it 0 w (gave_up ready builds o w)
  unfolding gave_up Keeps copies
  gave_up-Keeps none i w p = omega arith
  gave_up-Keeps (some (t, ts)) i w p =
      if_cases (Keeps is_it 0 w) (is_queueing t)
        (λ _. omega (arith, total-pick (held is_it) i w.threads ts t p)) (λ _. omega arith)

  take_turn-Keeps :
      (turn : Turn K Call) (w w' : World K Call)
      → take_turn ready builds turn w ≡ some w'
      → Keeps is_it (begun is_it turn) w w'
  unfolding take_turn reserve
  take_turn-Keeps (before_any key call) w w' step =
      reached (Keeps is_it (one_if is_it call) w) _ w' step (
        if_active-Keeps is_it ready (spawn (storing key call ∷ [])) (one_if is_it call) w
          (spawn-Keeps is_it (storing key call) w))
  take_turn-Keeps (on_success key marker) w w' step =
      reached (Keeps is_it 0 w) _ w' step (spawn-Keeps is_it (taking key marker) w)
  take_turn-Keeps (on_error key) w w' step =
      reached (Keeps is_it 0 w) _ w' step (spawn-Keeps is_it (taking key none) w)
  take_turn-Keeps (on_abandoned_call key) w w' step =
      reached (Keeps is_it 0 w) _ w' step (spawn-Keeps is_it (taking key none) w)
  take_turn-Keeps reserve_capability_request w w' step =
      reached (Keeps is_it 0 w) _ w' step
        (if_active-Keeps is_it ready add_reservation 0 w (unfold Keeps copies in omega arith))
  take_turn-Keeps (release i) w w' step =
      reached (Keeps is_it 0 w) _ w' step (spawn-Keeps is_it (releasing i) w)
  take_turn-Keeps start_close w w' step =
      reached (Keeps is_it 0 w) _ w' step
        (unfold Keeps copies in omega (arith, total-snoc (held is_it) w.threads stopping))
  take_turn-Keeps sweep w w' step =
      reached (Keeps is_it 0 w) _ w' step (unfold Keeps copies total in omega arith)
  take_turn-Keeps (resume i) w w' step = resumed-Keeps (pick i w.threads) i w w' refl step
  take_turn-Keeps (give_up i) w w' step =
      reached (Keeps is_it 0 w) _ w' step (gave_up-Keeps (pick i w.threads) i w refl)

  run-Keeps :
      (turns : List (Turn K Call)) (w : World K Call)
      → Balanced w
      → (w' : World K Call) × (run ready builds turns w ≡ some w')
        × Keeps is_it (total (begun is_it) turns) w w'
  unfolding run total
  run-Keeps [] w h = (w, refl, unfold Keeps in omega arith)
  run-Keeps (turn ∷ turns) w h =
      let (w1, first, h1) = take_turn-Balanced ready builds turn w h in
      let (w2, rest, keeps) = run-Keeps turns w1 h1 in
      (w2, rw first rest, Keeps-trans is_it _ _ w w1 w2 (take_turn-Keeps turn w w1 first) keeps)

  -- From a new recorder, whatever the schedule: the calls of any kind that are put into the queue
  -- and those that are sent for the feedback tool are together no more than the calls of that
  -- kind that have begun, however often and in whatever order success, error and abandonment are
  -- reported for them.
  pub recorded_le :
      (turns : List (Turn K Call))
      → (w : World K Call) × (run ready builds turns new_world ≡ some w)
        × (total (one_if is_it) w.recorded + total (one_if is_it) w.sent
            ≤ total (begun is_it) turns)
  recorded_le turns =
      let (w, done, keeps) = run-Keeps turns new_world (new_world-Balanced K Call) in
      (w, done, unfold Keeps copies total in omega (arith, keeps))
