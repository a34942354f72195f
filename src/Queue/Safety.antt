-- ===== src/Queue/Safety.antt =====
-- armatureanalytics/queue.go: what holds of the queue under every schedule.
use mcp_analytics_go.Prelude.{
  ℕ, zero, suc, ◌+◌, ◌≤◌, ◌<◌, ◌≡◌, refl, ap, ◌∙◌, Bool, true, false, not, ◌&&◌, Option, none, some,
  List, [], ◌∷◌, ◌++◌, append-nil, length, length-append, length-take, length-drop, take, leb,
  if◌then◌else◌, if_cases, arith,
}
use mcp_analytics_go.Queue.{
  PrivacyQueue, Enqueued, must_wait, rejected, new_privacy_queue, notify_locked, drop_oldest,
  append_pending, enqueue_locked, batch_count, next_batch, take_batch, close_locked,
  privacy_queue_capacity, privacy_queue_batch_size,
}
use mcp_analytics_go.Queue.World.{
  Phase, top, holding, delivered, settled, World, Action, enqueue, cancel_wait, discard, work,
  close, finishing, noting, discard_of, to_list, as_number, new_world, after_enqueue, after_take,
  send_events, finalize_items, resume, step_worker, perform, run_schedule,
}
use mcp_analytics_go.Queue.Discards.{warnings_due, warnings_due-append, step_discard-Accounted}

abbrev pub IsBatch {ℓ} : {I : Type ℓ} → List I → Type 0
IsBatch items = (0 < length items) × (length items ≤ privacy_queue_batch_size)

abbrev pub HoldsBatch {ℓ} : {I : Type ℓ} → Phase I → Type 0
HoldsBatch (holding items) = IsBatch items
HoldsBatch (delivered items) = IsBatch items
HoldsBatch _ = Unit

-- One worker runs exactly while `running` is set, and nothing is pending without a worker.
abbrev pub Staffed {ℓ} : {I : Type ℓ} → Bool → List I → List (Phase I) → Type 0
Staffed true pending (p ∷ []) = HoldsBatch p
Staffed false [] [] = Unit
Staffed _ _ _ = ⊥

pub record IsSafe {ℓ} {I E : Type ℓ} (w : World I E) : Type 0 where
  pub room : length w.queue.pending ≤ privacy_queue_capacity
  pub staffed : Staffed w.queue.running w.queue.pending w.workers
  pub warned_once : w.overflow_warnings + warnings_due w.discards ≡ as_number w.queue.warned_drop

module _ {ℓ} {I : Type ℓ} where
  Staffed-start :
      (running : Bool) (pending pending' : List I) (ws : List (Phase I))
      → Staffed running pending ws
      → Staffed true pending' (ws ++ (if not running then top ∷ [] else []))
  Staffed-start true pending pending' (p ∷ []) h = h
  Staffed-start false [] pending' [] h = tt
  Staffed-start true pending pending' [] h = absurd h
  Staffed-start true pending pending' (p ∷ q ∷ ws) h = absurd h
  Staffed-start false (x ∷ xs) pending' ws h = absurd h
  Staffed-start false [] pending' (p ∷ ws) h = absurd h

  pub Staffed-worker :
      (running : Bool) (pending : List I) (p : Phase I) (ps : List (Phase I))
      → Staffed running pending (p ∷ ps)
      → (running ≡ true) × HoldsBatch p × (ps ≡ [])
  Staffed-worker true pending p [] h = (refl, h, refl)
  Staffed-worker true pending p (q ∷ ps) h = absurd h
  Staffed-worker false [] p ps h = absurd h
  Staffed-worker false (x ∷ xs) p ps h = absurd h

  pub batch_count_bounds :
      (q : PrivacyQueue I)
      → (batch_count q ≤ privacy_queue_batch_size)
        × (batch_count q ≤ length q.pending)
        × (0 < length q.pending → 0 < batch_count q)
  unfolding batch_count
  batch_count_bounds q = (ground arith, ground arith, λ h. ground arith)

  taken-IsBatch :
      (q : PrivacyQueue I) → 0 < length q.pending → IsBatch (take (batch_count q) q.pending)
  taken-IsBatch q h =
      let (small, within, some_item) = batch_count_bounds q in
      let size = length-take (batch_count q) q.pending in
      (omega (arith, size, some_item h), omega (arith, size))

  -- The four ways through the critical section of `enqueue`.
  pub enqueue_cases {κ} :
      (P : Enqueued I → Type κ) (item : I) (await : Bool) (q : PrivacyQueue I)
      → (await ≡ true
          → q.accepting ≡ true
          → privacy_queue_capacity ≤ length q.pending
          → P (must_wait q.signal))
      → (q.accepting ≡ false → P rejected)
      → (q.accepting ≡ true
          → await ≡ false
          → privacy_queue_capacity ≤ length q.pending
          → P (append_pending item (drop_oldest q.pending q)))
      → (q.accepting ≡ true
          → length q.pending < privacy_queue_capacity
          → P (append_pending item (q, none, false)))
      → P (enqueue_locked item await q)
  unfolding enqueue_locked
  enqueue_cases P item await q waits shut full room =
      let crowded = leb privacy_queue_capacity (length q.pending) in
      if_cases P (await && (q.accepting && crowded))
        (λ g. waits (ground arith) (ground arith) (ground arith))
        (λ g.
          if_cases P (not q.accepting) (λ s. shut (ground arith))
            (λ s.
              if_cases (λ r. P (append_pending item r)) (not await && crowded)
                (λ f. full (ground arith) (ground arith) (ground arith))
                (λ f. room (ground arith) (ground arith))))

module _ {ℓ} {I E : Type ℓ} where
  append-IsSafe :
      (item : I) (q : PrivacyQueue I) (dropped : Option I) (warn : Bool) (w : World I E)
      → IsSafe w
      → q.running ≡ w.queue.running
      → length q.pending < privacy_queue_capacity
      → w.overflow_warnings + warnings_due (w.discards ++ discard_of dropped warn)
        ≡ as_number q.warned_drop
      → IsSafe (after_enqueue item (append_pending item (q, dropped, warn)) w)
  unfolding after_enqueue append_pending notify_locked
  append-IsSafe item q dropped warn w v same fits warned = record {
    room = omega (arith, length-append q.pending (item ∷ []));
    staffed = rw same (
        Staffed-start w.queue.running w.queue.pending (q.pending ++ item ∷ []) w.workers v.staffed);
    warned_once = warned;
  }

  overflow-IsSafe :
      (item : I) (pending : List I) (w : World I E)
      → w.queue.pending ≡ pending
      → privacy_queue_capacity ≤ length pending
      → IsSafe w
      → IsSafe (after_enqueue item (append_pending item (drop_oldest pending w.queue)) w)
  unfolding drop_oldest
  overflow-IsSafe item [] w same full v = absurd (omega arith)
  overflow-IsSafe item (oldest ∷ rest) w same full v =
      append-IsSafe item (record w.queue { pending = rest; warned_drop = true }) (some oldest)
        (not w.queue.warned_drop) w v refl (omega (arith, v.room, ap length same))
        (ground (
          arith,
          v.warned_once,
          warnings_due-append w.discards (finishing oldest (not w.queue.warned_drop) ∷ []),
        ))

  reject-IsSafe : (item : I) (w : World I E) → IsSafe w → IsSafe (after_enqueue item rejected w)
  unfolding after_enqueue
  reject-IsSafe item w v = record {
    room = v.room;
    staffed = v.staffed;
    warned_once = omega (arith, v.warned_once, warnings_due-append w.discards (noting false ∷ []));
  }

  wait-IsSafe :
      (item : I) (n : ℕ) (w : World I E) → IsSafe w → IsSafe (after_enqueue item (must_wait n) w)
  unfolding after_enqueue
  wait-IsSafe item n w v = v

  enqueue-IsSafe :
      (item : I) (await : Bool) (w : World I E)
      → IsSafe w
      → IsSafe (after_enqueue item (enqueue_locked item await w.queue) w)
  enqueue-IsSafe item await w v =
      enqueue_cases (λ r. IsSafe (after_enqueue item r w)) item await w.queue
        (λ _ _ _. wait-IsSafe item w.queue.signal w v) (λ _. reject-IsSafe item w v)
        (λ _ _ full. overflow-IsSafe item w.queue.pending w refl full v)
        (λ _ fits.
          append-IsSafe item w.queue none false w v refl fits (rw append-nil v.warned_once))

  take-IsSafe :
      (pending : List I) (w : World I E)
      → w.queue.pending ≡ pending
      → w.queue.running ≡ true
      → length w.queue.pending ≤ privacy_queue_capacity
      → w.overflow_warnings + warnings_due w.discards ≡ as_number w.queue.warned_drop
      → IsSafe (record ((after_take w (next_batch pending w.queue)).0) {
        workers = to_list (after_take w (next_batch pending w.queue)).1;
      })
  unfolding next_batch notify_locked
  take-IsSafe [] w same r n e = record { room = n; staffed = rw same tt; warned_once = e }
  take-IsSafe (x ∷ xs) w same r n e = record {
    room = omega (arith, length-drop (batch_count w.queue) w.queue.pending);
    staffed = simp r (taken-IsBatch w.queue (omega (arith, ap length same)));
    warned_once = e;
  }

  pub send_events_queue :
      (ok : Bool) (r : List E × ℕ) (w : World I E)
      → ((send_events ok r w).queue ≡ w.queue)
        × ((send_events ok r w).overflow_warnings ≡ w.overflow_warnings)
        × ((send_events ok r w).discards ≡ w.discards)
  unfolding send_events
  send_events_queue ok ([], n) w = (refl, refl, refl)
  send_events_queue ok (event ∷ events, n) w = (refl, refl, refl)

  -- A worker that goes on keeps the queue staffed.
  resume-IsSafe :
      (finalize : I → Option (List E)) (p : Phase I) (ok : Bool) (w : World I E)
      → w.queue.running ≡ true
      → length w.queue.pending ≤ privacy_queue_capacity
      → w.overflow_warnings + warnings_due w.discards ≡ as_number w.queue.warned_drop
      → HoldsBatch p
      → IsSafe
          (record ((resume finalize p ok w).0) { workers = to_list (resume finalize p ok w).1 })
  unfolding resume
  resume-IsSafe finalize top ok w r n e h =
      unfold take_batch in take-IsSafe w.queue.pending w refl r n e
  resume-IsSafe finalize (holding items) ok w r n e h =
      let (same, warned, discards) = send_events_queue ok (finalize_items finalize items) w in
      record {
        room = rw same n;
        staffed = rw (same, r) h;
        warned_once = rw (same, warned, discards) e;
      }
  resume-IsSafe finalize (delivered items) ok w r n e h = record {
    room = n;
    staffed = rw r tt;
    warned_once = e;
  }
  resume-IsSafe finalize settled ok w r n e h =
      unfold notify_locked in record { room = n; staffed = rw r tt; warned_once = e }

  step_worker-IsSafe :
      (finalize : I → Option (List E)) (n : ℕ) (ok : Bool) (ws : List (Phase I)) (w : World I E)
      → w.workers ≡ ws
      → IsSafe w
      → IsSafe (record ((step_worker finalize n ok ws w).0) {
        workers = (step_worker finalize n ok ws w).1;
      })
  unfolding step_worker
  step_worker-IsSafe finalize n ok [] w same v = record {
    room = v.room;
    staffed = rw same at v.staffed;
    warned_once = v.warned_once;
  }
  step_worker-IsSafe finalize zero ok (p ∷ ps) w same v =
      let (running, batch, alone) =
        Staffed-worker w.queue.running w.queue.pending p ps (rw same at v.staffed) in
      rw (alone, append-nil) (resume-IsSafe finalize p ok w running v.room v.warned_once batch)
  step_worker-IsSafe finalize (suc n) ok (p ∷ ps) w same v =
      let (running, batch, alone) =
        Staffed-worker w.queue.running w.queue.pending p ps (rw same at v.staffed) in
      rw (alone, step_worker)
        (record { room = v.room; staffed = simp running batch; warned_once = v.warned_once })

  -- Every action keeps the queue safe.
  pub perform-IsSafe :
      (finalize : I → Option (List E)) (a : Action I) (w : World I E)
      → IsSafe w
      → IsSafe (perform finalize a w)
  unfolding perform
  perform-IsSafe finalize (enqueue item await) w v = enqueue-IsSafe item await w v
  perform-IsSafe finalize cancel_wait w v = record {
    room = v.room;
    staffed = v.staffed;
    warned_once = v.warned_once;
  }
  perform-IsSafe finalize (discard n) w v =
      let a = step_discard-Accounted n w.discards w in
      record {
        room = rw a.same_queue v.room;
        staffed = rw (a.same_queue, a.same_workers) v.staffed;
        warned_once = a.warned ∙ rw a.same_queue v.warned_once;
      }
  perform-IsSafe finalize (work n ok) w v = step_worker-IsSafe finalize n ok w.workers w refl v
  perform-IsSafe finalize close w v =
      unfold close_locked notify_locked in
      record { room = v.room; staffed = v.staffed; warned_once = v.warned_once }

  -- From a safe state every schedule leads to a safe state: at most the capacity is pending, one
  -- worker runs exactly while `running` is set, nothing is pending without a worker, a worker
  -- holds between one item and a full batch, and the overflow has been warned of once at most,
  -- by then or by a caller that is about to.
  pub run_schedule-IsSafe :
      (finalize : I → Option (List E)) (schedule : List (Action I)) (w : World I E)
      → IsSafe w
      → IsSafe (run_schedule finalize schedule w)
  unfolding run_schedule
  run_schedule-IsSafe finalize [] w v = v
  run_schedule-IsSafe finalize (a ∷ as') w v =
      run_schedule-IsSafe finalize as' (perform finalize a w) (perform-IsSafe finalize a w v)

  pub new_world-IsSafe : IsSafe (new_world {I = I} {E = E})
  unfolding new_world new_privacy_queue
  new_world-IsSafe = record { room = omega arith; staffed = tt; warned_once = refl }
