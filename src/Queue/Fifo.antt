-- ===== src/Queue/Fifo.antt =====
-- armatureanalytics/queue.go: no item is lost and the order is kept.
use mathlib.Core.List.{Perm, Sublist, flatten, perm_middle, sublist-append_right}
use mathlib.Core.List.Perm
use mathlib.Core.List.Sublist
use mcp_analytics_go.Prelude.{
  ℕ, zero, suc, ◌≡◌, refl, ap, Bool, true, false, not, Option, none, some, List, [], ◌∷◌, ◌++◌,
  append-nil, append_assoc, take-append-drop, if◌then◌else◌,
}
use mcp_analytics_go.Queue.{
  PrivacyQueue, new_privacy_queue, notify_locked, drop_oldest, append_pending, enqueue_locked,
  next_batch, take_batch, close_locked,
}
use mcp_analytics_go.Queue.World.{
  Phase, top, holding, delivered, settled, World, Action, enqueue, cancel_wait, discard, work,
  close, to_list, collect, new_world, after_enqueue, after_take, send_events, finalize_items,
  resume, step_worker, perform, run_schedule,
}
use mcp_analytics_go.Queue.Discards.{
  discarded, discarded-discard_of, discarded-noting, step_discard-Accounted,
}
use mcp_analytics_go.Queue.Safety.{
  IsSafe, Staffed, Staffed-worker, enqueue_cases, send_events_queue, perform-IsSafe,
}

module _ {ℓ} {I : Type ℓ} where
  -- The items that the workers have taken and not finished, and those of them not yet sent.
  abbrev pub held : List (Phase I) → List I
  held [] = []
  held (holding items ∷ ps) = items ++ held ps
  held (delivered items ∷ ps) = items ++ held ps
  held (top ∷ ps) = held ps
  held (settled ∷ ps) = held ps

  abbrev pub unsent : List (Phase I) → List I
  unsent [] = []
  unsent (holding items ∷ ps) = items ++ unsent ps
  unsent (delivered items ∷ ps) = unsent ps
  unsent (top ∷ ps) = unsent ps
  unsent (settled ∷ ps) = unsent ps

  held-start :
      (ws : List (Phase I)) (b : Bool) → held (ws ++ (if b then top ∷ [] else [])) ≡ held ws
  held-start [] true = refl
  held-start [] false = refl
  held-start (holding items ∷ ps) b = ap (◌++◌ items) (held-start ps b)
  held-start (delivered items ∷ ps) b = ap (◌++◌ items) (held-start ps b)
  held-start (top ∷ ps) b = held-start ps b
  held-start (settled ∷ ps) b = held-start ps b

  unsent-start :
      (ws : List (Phase I)) (b : Bool) → unsent (ws ++ (if b then top ∷ [] else [])) ≡ unsent ws
  unsent-start [] true = refl
  unsent-start [] false = refl
  unsent-start (holding items ∷ ps) b = ap (◌++◌ items) (unsent-start ps b)
  unsent-start (delivered items ∷ ps) b = unsent-start ps b
  unsent-start (top ∷ ps) b = unsent-start ps b
  unsent-start (settled ∷ ps) b = unsent-start ps b

abbrev or_nothing {ℓ} : {E : Type ℓ} → Option (List E) → List E
or_nothing none = []
or_nothing (some events) = events

module _ {ℓ} {I E : Type ℓ} (finalize : I → Option (List E)) where
  -- The events of items that are finalized in order; a panicking candidate has none.
  abbrev pub events_of : List I → List E
  events_of items = (finalize_items finalize items).0

  collect_events :
      (r : Option (List E)) (p : List E × ℕ) → (collect finalize r p).0 ≡ or_nothing r ++ p.0
  collect_events none p = refl
  collect_events (some events) p = refl

  events_of-cons :
      (x : I) (xs : List I) → events_of (x ∷ xs) ≡ or_nothing (finalize x) ++ events_of xs
  unfolding finalize_items
  events_of-cons x xs = collect_events (finalize x) (finalize_items finalize xs)

  events_of-append : (xs ys : List I) → events_of (xs ++ ys) ≡ events_of xs ++ events_of ys
  events_of-append [] ys = unfold finalize_items in refl
  events_of-append (x ∷ xs) ys = simp (events_of-cons, events_of-append xs ys, append_assoc)

  -- Every admitted item is finished, held by the worker, pending, or dropped by a caller that is
  -- about to finish it, each exactly once; and what has been sent, followed by what is still to be sent, is in the order of admission.
  pub record Accounts (w : World I E) : Type ℓ where
    pub kept :
        Perm w.admitted
          (discarded w.discards ++ (w.finished ++ (held w.workers ++ w.queue.pending)))
    pub in_order :
        Sublist
          (flatten w.sent ++ events_of (unsent w.workers ++ w.queue.pending))
          (events_of w.admitted)

  flatten-snoc : (xss : List (List E)) (xs : List E) → flatten (xss ++ xs ∷ []) ≡ flatten xss ++ xs
  unfolding flatten
  flatten-snoc [] xs = append-nil xs
  flatten-snoc (ys ∷ xss) xs = rw (flatten-snoc xss xs, append_assoc)

  append-Accounts :
      (item : I) (q : PrivacyQueue I) (d : Option I) (warn : Bool) (w : World I E)
      → Perm w.admitted
          ((discarded w.discards ++ to_list d) ++ (w.finished ++ (held w.workers ++ q.pending)))
      → Sublist (flatten w.sent ++ events_of (unsent w.workers ++ q.pending)) (events_of w.admitted)
      → Accounts (after_enqueue item (append_pending item (q, d, warn)) w)
  unfolding after_enqueue append_pending notify_locked
  append-Accounts item q d warn w kept order = record {
    kept =
        rw (held-start w.workers (not q.running), discarded-discard_of w.discards d warn)
          (simp append_assoc (simp append_assoc at (Perm.append_right (item ∷ []) kept)));
    in_order = rw (unsent-start w.workers (not q.running)) (
        simp (events_of-append, append_assoc)
          (simp (events_of-append, append_assoc) at
            (Sublist.append order (Sublist.refl (events_of (item ∷ []))))));
  }

  skip_events :
      (xs : List I) (o : I) (ys : List I)
      → Sublist (events_of (xs ++ ys)) (events_of (xs ++ o ∷ ys))
  skip_events xs o ys =
      simp (events_of-append, events_of-cons)
        (Sublist.append (Sublist.refl (events_of xs))
          (sublist-append_right (or_nothing (finalize o)) (events_of ys)))

  drop-Accounts :
      (item : I) (pending : List I) (w : World I E)
      → w.queue.pending ≡ pending
      → Accounts w
      → Accounts (after_enqueue item (append_pending item (drop_oldest pending w.queue)) w)
  unfolding drop_oldest
  drop-Accounts item [] w same a =
      append-Accounts item w.queue none false w (rw append-nil a.kept) a.in_order
  drop-Accounts item (o ∷ rest) w same a =
      append-Accounts item (record w.queue { pending = rest; warned_drop = true }) (some o)
        (not w.queue.warned_drop) w
        (rw append_assoc (
          Perm.trans (rw same at a.kept) (
            Perm.append_left (discarded w.discards)
              (simp append_assoc at (perm_middle {a = o} (w.finished ++ held w.workers) rest)))))
        (Sublist.trans
          (Sublist.append (Sublist.refl (flatten w.sent)) (skip_events (unsent w.workers) o rest))
          (rw same at a.in_order))

  enqueue-Accounts :
      (item : I) (await : Bool) (w : World I E)
      → Accounts w
      → Accounts (after_enqueue item (enqueue_locked item await w.queue) w)
  enqueue-Accounts item await w a =
      enqueue_cases (λ r. Accounts (after_enqueue item r w)) item await w.queue
        (λ _ _ _. unfold after_enqueue in a)
        (λ _.
          unfold after_enqueue in
          record { kept = rw (discarded-noting w.discards false) a.kept; in_order = a.in_order })
        (λ _ _ _. drop-Accounts item w.queue.pending w refl a)
        (λ _ _. append-Accounts item w.queue none false w (rw append-nil a.kept) a.in_order)

  sent_lem :
      (ok : Bool) (r : List E × ℕ) (w : World I E)
      → (flatten (send_events ok r w).sent ≡ flatten w.sent ++ r.0)
        × ((send_events ok r w).finished ≡ w.finished)
        × ((send_events ok r w).admitted ≡ w.admitted)
  unfolding send_events
  sent_lem ok ([], n) w = (rw append-nil, refl, refl)
  sent_lem ok (event ∷ events, n) w = (flatten-snoc w.sent (event ∷ events), refl, refl)

  take-Accounts :
      (pending : List I) (w : World I E)
      → Perm w.admitted (discarded w.discards ++ (w.finished ++ w.queue.pending))
      → Sublist (flatten w.sent ++ events_of w.queue.pending) (events_of w.admitted)
      → Accounts (record ((after_take w (next_batch pending w.queue)).0) {
        workers = to_list (after_take w (next_batch pending w.queue)).1;
      })
  unfolding next_batch notify_locked
  take-Accounts [] w kept order = record { kept = kept; in_order = order }
  take-Accounts (x ∷ xs) w kept order = record {
    kept = rw (append-nil, take-append-drop) kept;
    in_order = rw (append-nil, take-append-drop) order;
  }

  resume-Accounts :
      (p : Phase I) (ok : Bool) (w : World I E)
      → Perm w.admitted (discarded w.discards ++ (w.finished ++ (held (p ∷ []) ++ w.queue.pending)))
      → Sublist
          (flatten w.sent ++ events_of (unsent (p ∷ []) ++ w.queue.pending))
          (events_of w.admitted)
      → Accounts
          (record ((resume finalize p ok w).0) { workers = to_list (resume finalize p ok w).1 })
  unfolding resume
  resume-Accounts top ok w kept order =
      unfold take_batch in take-Accounts w.queue.pending w kept order
  resume-Accounts (holding items) ok w kept order =
      let (out, finished, admitted) = sent_lem ok (finalize_items finalize items) w in
      let (queue, warned, discards) = send_events_queue ok (finalize_items finalize items) w in
      record {
        kept = rw (finished, admitted, queue, discards) kept;
        in_order =
            rw (out, admitted, queue)
              (simp (append_assoc) (simp (events_of-append, append-nil) at order));
      }
  resume-Accounts (delivered items) ok w kept order = record {
    kept = simp append_assoc (simp append-nil at kept);
    in_order = order;
  }
  resume-Accounts settled ok w kept order =
      unfold notify_locked in record { kept = kept; in_order = order }

  step_worker-Accounts :
      (n : ℕ) (ok : Bool) (ws : List (Phase I)) (w : World I E)
      → w.workers ≡ ws
      → Staffed w.queue.running w.queue.pending ws
      → Accounts w
      → Accounts (record ((step_worker finalize n ok ws w).0) {
        workers = (step_worker finalize n ok ws w).1;
      })
  unfolding step_worker
  step_worker-Accounts n ok [] w same h a = record {
    kept = rw same at a.kept;
    in_order = rw same at a.in_order;
  }
  step_worker-Accounts zero ok (p ∷ ps) w same h a =
      let (running, batch, alone) = Staffed-worker w.queue.running w.queue.pending p ps h in
      rw (alone, append-nil)
        (resume-Accounts p ok w (rw (same, alone) at a.kept) (rw (same, alone) at a.in_order))
  step_worker-Accounts (suc n) ok (p ∷ ps) w same h a =
      let (running, batch, alone) = Staffed-worker w.queue.running w.queue.pending p ps h in
      rw (alone, step_worker)
        (record { kept = rw (same, alone) at a.kept; in_order = rw (same, alone) at a.in_order })

  perform-Accounts :
      (a : Action I) (w : World I E) → IsSafe w → Accounts w → Accounts (perform finalize a w)
  unfolding perform
  perform-Accounts (enqueue item await) w v a = enqueue-Accounts item await w a
  perform-Accounts cancel_wait w v a = record { kept = a.kept; in_order = a.in_order }
  perform-Accounts (discard n) w v a =
      let b = step_discard-Accounted n w.discards w in
      record {
        kept =
            rw (b.same_queue, b.same_workers, b.same_admitted)
              (Perm.trans a.kept (
                simp append_assoc at
                  (Perm.append_right (held w.workers ++ w.queue.pending) b.settled)));
        in_order = rw (b.same_queue, b.same_workers, b.same_admitted, b.same_sent) a.in_order;
      }
  perform-Accounts (work n ok) w v a = step_worker-Accounts n ok w.workers w refl v.staffed a
  perform-Accounts close w v a =
      unfold close_locked notify_locked in record { kept = a.kept; in_order = a.in_order }

  -- Under every schedule from a safe state in which they hold, the accounts go on to hold: each
  -- admitted item is finished, held by the worker, pending, or dropped by a caller of `enqueue`
  -- that has left the critical section and is about to finish it, each exactly once, and the
  -- events sent so far, then those of the unsent and the pending items, are a subsequence of the
  -- events of the admitted items in the order of admission.
  pub run_schedule-Accounts :
      (schedule : List (Action I)) (w : World I E)
      → IsSafe w
      → Accounts w
      → Accounts (run_schedule finalize schedule w)
  unfolding run_schedule
  run_schedule-Accounts [] w v a = a
  run_schedule-Accounts (act ∷ schedule) w v a =
      run_schedule-Accounts schedule (perform finalize act w) (perform-IsSafe finalize act w v)
        (perform-Accounts act w v a)

  pub new_world-Accounts : Accounts new_world
  unfolding new_world new_privacy_queue flatten finalize_items
  new_world-Accounts = record { kept = Perm.refl []; in_order = Sublist.refl [] }
