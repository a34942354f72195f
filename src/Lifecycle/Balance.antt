-- ===== src/Lifecycle/Balance.antt =====
-- armatureanalytics/recorder.go: the in-flight counter that `Flush` waits for.
use mcp_analytics_go.Prelude.{
  ℕ, zero, suc, ◌+◌, ◌≡◌, refl, Bool, true, false, not, Option, none, some, List, [], ◌∷◌,
  append-nil, if_cases, Eq, arith,
}
use mcp_analytics_go.Lifecycle.{
  Thread, storing, taking, checking, entering, queueing, releasing, claiming, building, sending,
  ending, stopping, World, Turn, before_any, on_success, on_error, on_abandoned_call,
  reserve_capability_request, release, start_close, sweep, resume, give_up, gave_up, is_queueing,
  new_world, flag_at, pick, find_call, delete_call, spawn, done, claim, after_take, if_active,
  add_reservation, store_pending_call, advance, reserve, resumed, take_turn, run,
}
use mcp_analytics_go.Lifecycle.Totals.{
  total, total-snoc, total-pick, unclaimed, unclaimed-snoc, unclaimed-set_flag,
}

module _ {K Call : Type 0} where
  -- The goroutines that hold a claimed reservation and have not called `Done`.
  abbrev pub running : Thread K Call → ℕ
  running (building call) = 1
  running (sending call) = 1
  running ending = 1
  running _ = 0

  running-queueing : (t : Thread K Call) → is_queueing t ≡ true → running t ≡ 0
  running-queueing (queueing c) q = refl
  running-queueing (storing k c) q = refl
  running-queueing (taking k marker) q = refl
  running-queueing (checking c) q = refl
  running-queueing (entering c) q = refl
  running-queueing (releasing i) q = refl
  running-queueing (claiming i c) q = refl
  running-queueing stopping q = refl
  running-queueing (building c) q = absurd (cc)
  running-queueing (sending c) q = absurd (cc)
  running-queueing ending q = absurd (cc)

  -- The counter is the number of the reservations that are not claimed, and of the goroutines that
  -- work on a claimed one.
  unfoldable pub Balanced : World K Call → Type 0
  Balanced w = w.inflight ≡ unclaimed w.claimed + total running w.threads

  -- The same, while a goroutine is out of the list.
  abbrev pub BalancedWith : Thread K Call → World K Call → Type 0
  BalancedWith t w = w.inflight ≡ unclaimed w.claimed + (running t + total running w.threads)

  claim-Balanced :
      (o : Option Bool) (i : ℕ) (t : Thread K Call) (w : World K Call)
      → flag_at i w.claimed ≡ o
      → running t ≡ 1
      → w.inflight ≡ unclaimed w.claimed + total running w.threads
      → Balanced (claim o i t w)
  unfolding claim Balanced
  claim-Balanced none i t w f one h = h
  claim-Balanced (some true) i t w f one h = h
  claim-Balanced (some false) i t w f one h =
      omega (arith, h, one, unclaimed-set_flag i w.claimed f, total-snoc running w.threads t)

module _ {K Call : Type 0} ⦃e : Eq K⦄ where
  if_active-Balanced :
      (ready : Bool) (f : World K Call → World K Call) (w : World K Call)
      → Balanced w
      → Balanced (f w)
      → Balanced (if_active ready f w)
  unfolding Balanced
  if_active-Balanced ready f w h g =
      if_cases Balanced (not ready) (λ _. h) (λ _. if_cases Balanced w.closed (λ _. h) (λ _. g))

  spawn-Balanced :
      (t : Thread K Call) (w : World K Call)
      → running t ≡ 0
      → Balanced w
      → Balanced (spawn (t ∷ []) w)
  unfolding Balanced
  spawn-Balanced t w idle h = omega (arith, h, idle, total-snoc running w.threads t)

  after_take-Balanced :
      (o : Option Call) (marker : Option ℕ) (w : World K Call)
      → Balanced w
      → Balanced (spawn (after_take o marker) w)
  unfolding Balanced
  after_take-Balanced none none w h = rw (append-nil w.threads) h
  after_take-Balanced none (some i) w h = spawn-Balanced (releasing i) w refl h
  after_take-Balanced (some c) none w h = spawn-Balanced (checking c) w refl h
  after_take-Balanced (some c) (some i) w h = spawn-Balanced (claiming i c) w refl h

  -- A counter that counts the goroutine can be decreased by `Done`.
  done-Balanced :
      (n : ℕ) (w : World K Call)
      → n ≡ unclaimed w.claimed + (1 + total running w.threads)
      → (w' : World K Call) × (done n w ≡ some w') × Balanced w'
  unfolding done Balanced
  done-Balanced zero w h = absurd (omega (arith, h))
  done-Balanced (suc n) w h = (record w { inflight = n }, refl, omega (arith, h))

  store-Balanced :
      (key : K) (call : Call) (w : World K Call)
      → Balanced w
      → Balanced (store_pending_call key call w)
  unfolding store_pending_call Balanced
  store-Balanced key call w h = if_cases Balanced w.closed (λ _. h) (λ _. h)

  pub still : (t : Thread K Call) (w : World K Call) → running t ≡ 0 → BalancedWith t w → Balanced w
  unfolding Balanced
  still t w idle h = omega (arith, h, idle)

module _ {K Call : Type 0} ⦃e : Eq K⦄ (ready : Bool) (builds : Call → Bool) where
  advance-Balanced :
      (t : Thread K Call) (w : World K Call)
      → BalancedWith t w
      → (w' : World K Call) × (advance ready builds t w ≡ some w') × Balanced w'
  unfolding advance Balanced
  advance-Balanced (storing key call) w h =
      (_, refl, store-Balanced key call w (still (storing key call) w refl h))
  advance-Balanced (taking key marker) w h =
      let taken : World K Call = record w { pending = delete_call key w.pending } in
      (
        _,
        refl,
        after_take-Balanced (find_call key w.pending) marker taken
            (still (taking key marker) taken refl h),
      )
  advance-Balanced (checking call) w h =
      let g = still (checking call) w refl h in
      (
        _,
        refl,
        if_active-Balanced ready (spawn (entering call ∷ [])) w g
            (spawn-Balanced (entering call) w refl g),
      )
  advance-Balanced (entering call) w h =
      let g = still (entering call) w refl h in
      (
        _,
        refl,
        if_active-Balanced ready (spawn (queueing call ∷ [])) w g
            (spawn-Balanced (queueing call) w refl g),
      )
  advance-Balanced (queueing call) w h =
      let g = still (queueing call) w refl h in
      (_, refl, if_cases Balanced w.accepting (λ _. g) (λ _. g))
  advance-Balanced (releasing i) w h = (
    _,
    refl,
    claim-Balanced (flag_at i w.claimed) i ending w refl refl (still (releasing i) w refl h),
  )
  advance-Balanced (claiming i call) w h = (
    _,
    refl,
    claim-Balanced (flag_at i w.claimed) i (building call) w refl refl
        (still (claiming i call) w refl h),
  )
  advance-Balanced (building call) w h = (
    _,
    refl,
    if_cases (λ t. Balanced (spawn (t ∷ []) w)) (builds call)
        (λ _. omega (arith, h, total-snoc running w.threads (sending call)))
        (λ _. omega (arith, h, total-snoc running w.threads ending)),
  )
  advance-Balanced (sending call) w h =
      (_, refl, omega (arith, h, total-snoc running w.threads ending))
  advance-Balanced ending w h = done-Balanced w.inflight w h
  advance-Balanced stopping w h = (_, refl, still stopping w refl h)

  reserve-Balanced : (w : World K Call) → Balanced w → Balanced (reserve ready w)
  unfolding reserve Balanced
  reserve-Balanced w h =
      if_active-Balanced ready add_reservation w h (omega (arith, h, unclaimed-snoc w.claimed))

  resumed-Balanced :
      (o : Option (Thread K Call × List (Thread K Call))) (i : ℕ) (w : World K Call)
      → pick i w.threads ≡ o
      → Balanced w
      → (w' : World K Call) × (resumed ready builds o w ≡ some w') × Balanced w'
  unfolding resumed Balanced
  resumed-Balanced none i w p h = (w, refl, h)
  resumed-Balanced (some (t, ts)) i w p h =
      advance-Balanced t (record w { threads = ts })
        (omega (arith, h, total-pick running i w.threads ts t p))

  gave_up-Balanced :
      (o : Option (Thread K Call × List (Thread K Call))) (i : ℕ) (w : World K Call)
      → pick i w.threads ≡ o
      → Balanced w
      → Balanced (gave_up ready builds o w)
  unfolding gave_up Balanced
  gave_up-Balanced none i w p h = h
  gave_up-Balanced (some (t, ts)) i w p h =
      if_cases Balanced (is_queueing t)
        (λ q. omega (arith, h, total-pick running i w.threads ts t p, running-queueing t q))
        (λ _. h)

  pub take_turn-Balanced :
      (turn : Turn K Call) (w : World K Call)
      → Balanced w
      → (w' : World K Call) × (take_turn ready builds turn w ≡ some w') × Balanced w'
  unfolding take_turn
  take_turn-Balanced (before_any key call) w h = (
    _,
    refl,
    if_active-Balanced ready (spawn (storing key call ∷ [])) w h
        (spawn-Balanced (storing key call) w refl h),
  )
  take_turn-Balanced (on_success key marker) w h =
      (_, refl, spawn-Balanced (taking key marker) w refl h)
  take_turn-Balanced (on_error key) w h = (_, refl, spawn-Balanced (taking key none) w refl h)
  take_turn-Balanced (on_abandoned_call key) w h =
      (_, refl, spawn-Balanced (taking key none) w refl h)
  take_turn-Balanced reserve_capability_request w h = (_, refl, reserve-Balanced w h)
  take_turn-Balanced (release i) w h = (_, refl, spawn-Balanced (releasing i) w refl h)
  take_turn-Balanced start_close w h =
      (_, refl, spawn-Balanced stopping (record w { closed = true }) refl (unfold Balanced in h))
  take_turn-Balanced sweep w h = (record w { pending = [] }, refl, unfold Balanced in h)
  take_turn-Balanced (resume i) w h = resumed-Balanced (pick i w.threads) i w refl h
  take_turn-Balanced (give_up i) w h = (_, refl, gave_up-Balanced (pick i w.threads) i w refl h)

  -- Whatever the schedule, from a recorder with a balanced counter: no `Done` takes the in-flight
  -- counter below zero, and the counter stays balanced, that is the number of the reservations
  -- that nobody has claimed and of the goroutines that still work on a claimed one.
  pub run-Balanced :
      (turns : List (Turn K Call)) (w : World K Call)
      → Balanced w
      → (w' : World K Call) × (run ready builds turns w ≡ some w') × Balanced w'
  unfolding run
  run-Balanced [] w h = (w, refl, h)
  run-Balanced (turn ∷ turns) w h =
      let (w1, first, h1) = take_turn-Balanced turn w h in
      let (w2, rest, h2) = run-Balanced turns w1 h1 in (w2, rw first rest, h2)

pub new_world-Balanced : (K Call : Type 0) → Balanced {K = K} {Call = Call} new_world
unfolding Balanced unclaimed total
new_world-Balanced K Call = refl
