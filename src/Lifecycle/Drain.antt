-- ===== src/Lifecycle/Drain.antt =====
-- armatureanalytics/recorder.go: the goroutines inside the recorder come to an end, so that the wait
-- of `Flush` does.
use mcp_analytics_go.Prelude.{
  ℕ, zero, suc, ◌+◌, ◌≤◌, ◌<◌, ◌≡◌, refl, ap, Bool, true, false, not, Option, none, some, List, [],
  ◌∷◌, append-nil, if_cases, Eq, arith,
}
use mcp_analytics_go.Lifecycle.{
  Thread, storing, taking, checking, entering, queueing, releasing, claiming, building, sending,
  ending, stopping, World, Turn, resume, flag_at, pick, find_call, delete_call, spawn, done, claim,
  after_take, if_active, store_pending_call, advance, resumed, take_turn, run,
}
use mcp_analytics_go.Lifecycle.Final.{reached}
use mcp_analytics_go.Lifecycle.Balance.{Balanced, take_turn-Balanced, running}
use mcp_analytics_go.Lifecycle.Totals.{unclaimed, unclaimed-set_flag, total, total-snoc}

-- The first goroutine runs on, so many times.
unfoldable pub resumes : {K Call : Type 0} → ℕ → List (Turn K Call)
resumes zero = []
resumes (suc n) = resume 0 ∷ resumes n

module _ {K Call : Type 0} where
  -- How many parts a goroutine has before it at most.
  abbrev parts : Thread K Call → ℕ
  parts (storing k c) = 1
  parts (taking k marker) = 5
  parts (checking c) = 3
  parts (entering c) = 2
  parts (queueing c) = 1
  parts (releasing i) = 2
  parts (claiming i c) = 4
  parts (building c) = 3
  parts (sending c) = 2
  parts ending = 1
  parts stopping = 1

  abbrev pub left : World K Call → ℕ
  left w = total parts w.threads

  -- From `w` to `w'` no reservation is given up, and fewer than `n` parts are added.
  record Descends (n : ℕ) (w w' : World K Call) : Type 0 where
    fewer : left w' < n + left w
    claims : unclaimed w'.claimed ≤ unclaimed w.claimed

  if_active-Descends :
      (ready : Bool) (f : World K Call → World K Call) (n : ℕ) (w : World K Call)
      → 0 < n
      → Descends n w (f w)
      → Descends n w (if_active ready f w)
  if_active-Descends ready f n w h d =
      if_cases (Descends n w) (not ready)
        (λ _. record { fewer = omega (arith, h); claims = omega arith })
        (λ _.
          if_cases (Descends n w) w.closed
            (λ _. record { fewer = omega (arith, h); claims = omega arith }) (λ _. d))

  spawn-Descends :
      (n : ℕ) (t : Thread K Call) (w : World K Call) → parts t < n → Descends n w (spawn (t ∷ []) w)
  spawn-Descends n t w h = record {
    fewer = omega (arith, h, total-snoc parts w.threads t);
    claims = omega arith;
  }

  claim-Descends :
      (o : Option Bool) (i n : ℕ) (t : Thread K Call) (w : World K Call)
      → flag_at i w.claimed ≡ o
      → parts t < n
      → Descends n w (claim o i t w)
  unfolding claim
  claim-Descends none i n t w p h = record { fewer = omega (arith, h); claims = omega arith }
  claim-Descends (some true) i n t w p h = record { fewer = omega (arith, h); claims = omega arith }
  claim-Descends (some false) i n t w p h = record {
    fewer = omega (arith, h, total-snoc parts w.threads t);
    claims = omega (arith, unclaimed-set_flag i w.claimed p);
  }

  take-Descends :
      (o : Option Call) (marker : Option ℕ) (w : World K Call)
      → Descends 5 w (spawn (after_take o marker) w)
  take-Descends none none w = record {
    fewer = omega (arith, ap (total parts) (append-nil w.threads));
    claims = omega arith;
  }
  take-Descends none (some i) w = spawn-Descends 5 (releasing i) w (omega arith)
  take-Descends (some c) none w = spawn-Descends 5 (checking c) w (omega arith)
  take-Descends (some c) (some i) w = spawn-Descends 5 (claiming i c) w (omega arith)

  done-Descends : (n : ℕ) (w w' : World K Call) → done n w ≡ some w' → Descends 1 w w'
  unfolding done
  done-Descends zero w w' h = absurd (cc)
  done-Descends (suc n) w w' h =
      reached (Descends 1 w) _ w' h (record { fewer = omega arith; claims = omega arith })

module _ {K Call : Type 0} ⦃e : Eq K⦄ where
  store-Descends :
      (key : K) (call : Call) (w : World K Call) → Descends 1 w (store_pending_call key call w)
  unfolding store_pending_call
  store-Descends key call w =
      if_cases (Descends 1 w) w.closed (λ _. record { fewer = omega arith; claims = omega arith })
        (λ _. record { fewer = omega arith; claims = omega arith })

module _ {K Call : Type 0} ⦃e : Eq K⦄ (ready : Bool) (builds : Call → Bool) where
  advance-Descends :
      (t : Thread K Call) (w w' : World K Call)
      → advance ready builds t w ≡ some w'
      → Descends (parts t) w w'
  unfolding advance
  advance-Descends (storing key call) w w' step =
      reached (Descends 1 w) _ w' step (store-Descends key call w)
  advance-Descends (taking key marker) w w' step =
      let taken : World K Call = record w { pending = delete_call key w.pending } in
      let d = take-Descends (find_call key w.pending) marker taken in
      reached (Descends 5 w) _ w' step (record { fewer = d.fewer; claims = d.claims })
  advance-Descends (checking call) w w' step = reached (Descends 3 w) _ w' step (
      if_active-Descends ready (spawn (entering call ∷ [])) 3 w (omega arith)
        (spawn-Descends 3 (entering call) w (omega arith)))
  advance-Descends (entering call) w w' step = reached (Descends 2 w) _ w' step (
      if_active-Descends ready (spawn (queueing call ∷ [])) 2 w (omega arith)
        (spawn-Descends 2 (queueing call) w (omega arith)))
  advance-Descends (queueing call) w w' step = reached (Descends 1 w) _ w' step (
      if_cases (Descends 1 w) w.accepting
        (λ _. record { fewer = omega arith; claims = omega arith })
        (λ _. record { fewer = omega arith; claims = omega arith }))
  advance-Descends (releasing i) w w' step =
      reached (Descends 2 w) _ w' step
        (claim-Descends (flag_at i w.claimed) i 2 ending w refl (omega arith))
  advance-Descends (claiming i call) w w' step =
      reached (Descends 4 w) _ w' step
        (claim-Descends (flag_at i w.claimed) i 4 (building call) w refl (omega arith))
  advance-Descends (building call) w w' step = reached (Descends 3 w) _ w' step (
      if_cases (λ t. Descends 3 w (spawn (t ∷ []) w)) (builds call)
        (λ _. spawn-Descends 3 (sending call) w (omega arith))
        (λ _. spawn-Descends 3 ending w (omega arith)))
  advance-Descends (sending call) w w' step =
      let d = spawn-Descends 2 ending w (omega arith) in
      reached (Descends 2 w) _ w' step (record { fewer = d.fewer; claims = d.claims })
  advance-Descends ending w w' step = done-Descends w.inflight w w' step
  advance-Descends stopping w w' step =
      reached (Descends 1 w) _ w' step (record { fewer = omega arith; claims = omega arith })

  -- One part of the first goroutine, if there is one.
  resume-Descends :
      (ts : List (Thread K Call)) (n : ℕ) (w w' : World K Call)
      → w.threads ≡ ts
      → left w ≤ suc n
      → resumed ready builds (pick 0 ts) w ≡ some w'
      → (left w' ≤ n) × (unclaimed w'.claimed ≤ unclaimed w.claimed)
  unfolding resumed pick total
  resume-Descends [] n w w' p h step =
      reached (λ v. (left v ≤ n) × (unclaimed v.claimed ≤ unclaimed w.claimed)) w w' step
        (omega (arith, ap (total parts) p), omega arith)
  resume-Descends (t ∷ ts) n w w' p h step =
      let d = advance-Descends t (record w { threads = ts }) w' step in
      (omega (arith, d.fewer, h, ap (total parts) p), d.claims)

  no_parts : (ts : List (Thread K Call)) → total parts ts ≤ 0 → total running ts ≡ 0
  unfolding total
  no_parts [] h = refl
  no_parts (storing k c ∷ ts) h = absurd (omega (arith, h))
  no_parts (taking k marker ∷ ts) h = absurd (omega (arith, h))
  no_parts (checking c ∷ ts) h = absurd (omega (arith, h))
  no_parts (entering c ∷ ts) h = absurd (omega (arith, h))
  no_parts (releasing i ∷ ts) h = absurd (omega (arith, h))
  no_parts (claiming i c ∷ ts) h = absurd (omega (arith, h))
  no_parts (building c ∷ ts) h = absurd (omega (arith, h))
  no_parts (sending c ∷ ts) h = absurd (omega (arith, h))
  no_parts (ending ∷ ts) h = absurd (omega (arith, h))
  no_parts (queueing c ∷ ts) h = absurd (omega (arith, h))
  no_parts (stopping ∷ ts) h = absurd (omega (arith, h))

  drain_lem :
      (n : ℕ) (w : World K Call)
      → Balanced w
      → left w ≤ n
      → (w' : World K Call) × (run ready builds (resumes n) w ≡ some w')
        × (left w' ≤ 0)
        × Balanced w'
        × (unclaimed w'.claimed ≤ unclaimed w.claimed)
  unfolding run resumes
  drain_lem zero w h enough = (w, refl, enough, h, omega arith)
  drain_lem (suc n) w h enough =
      let (w1, first, h1) = take_turn-Balanced ready builds (resume 0) w h in
      let (less, claims) =
        resume-Descends w.threads n w w1 refl enough (unfold take_turn in first) in
      let (w2, rest, none_left, h2, claims2) = drain_lem n w1 h1 less in
      (w2, rw first rest, none_left, h2, omega (arith, claims, claims2))

  -- From a recorder with a balanced counter, when no further hook is called, running the
  -- goroutines inside the recorder, one part at a time, comes to an end after as many parts as
  -- they have left, and the in-flight counter is then at most the number of the reservations that
  -- nobody had claimed: at zero, so that the wait of `Flush` is over, if all were claimed or
  -- released.
  pub drain :
      (w : World K Call)
      → Balanced w
      → (w' : World K Call) × (run ready builds (resumes (left w)) w ≡ some w')
        × (left w' ≡ 0)
        × (w'.inflight ≤ unclaimed w.claimed)
  unfolding Balanced
  drain w h =
      let (w', done, none_left, h', claims) = drain_lem (left w) w h (omega arith) in
      (w', done, omega (arith, none_left), omega (arith, h', claims, no_parts w'.threads none_left))
