-- ===== src/Queue/Wakeups.antt =====
-- armatureanalytics/queue.go: no wake-up is lost. A change of the guarded fields closes the
-- channel on which `flush` and the callers of `enqueue` wait.
use mcp_analytics_go.Prelude.{
  ℕ, zero, suc, ◌<◌, ◌≡◌, ◌≢◌, refl, ap, ◌∙◌, ◌⊎◌, inl, inr, Bool, true, false, not, Option, none,
  some, List, [], ◌∷◌, arith,
}
use mcp_analytics_go.Queue.{
  PrivacyQueue, must_wait, notify_locked, drop_oldest, append_pending, enqueue_locked, next_batch,
  take_batch, flush_locked, close_locked,
}
use mcp_analytics_go.Queue.World.{
  Phase, top, holding, delivered, settled, World, Action, enqueue, cancel_wait, discard, work,
  close, after_enqueue, after_take, finalize_items, resume, step_worker, perform, run_schedule,
}
use mcp_analytics_go.Queue.Discards.{step_discard-Accounted}
use mcp_analytics_go.Queue.Safety.{enqueue_cases, send_events_queue}

-- The fields are as they were, or the channel has been closed since.
abbrev pub Notifies {ℓ} : {I : Type ℓ} → PrivacyQueue I → PrivacyQueue I → Type ℓ
Notifies q q' = (q' ≡ q) ⊎ (q.signal < q'.signal)

Notifies-trans {ℓ} :
    {I : Type ℓ} (q q' q'' : PrivacyQueue I) → Notifies q q' → Notifies q' q'' → Notifies q q''
Notifies-trans q q' q'' (inl p) (inl r) = inl (r ∙ p)
Notifies-trans q q' q'' (inl p) (inr r) = inr (rw p at r)
Notifies-trans q q' q'' (inr p) (inl r) = inr (rw r p)
Notifies-trans q q' q'' (inr p) (inr r) = inr (omega arith)

module _ {ℓ} {I : Type ℓ} where
  flush_channel : (q : PrivacyQueue I) (ch : ℕ) → flush_locked q ≡ some ch → q.signal ≡ ch
  unfolding flush_locked
  flush_channel q ch h = ground arith

  enqueue_channel :
      (item : I) (await : Bool) (q : PrivacyQueue I) (ch : ℕ)
      → enqueue_locked item await q ≡ must_wait ch
      → q.signal ≡ ch
  unfolding append_pending
  enqueue_channel item await q ch h =
      enqueue_cases (λ r. r ≡ must_wait ch → q.signal ≡ ch) item await q (λ _ _ _ e. cc) (λ _ e. cc)
        (λ _ _ _ e. cc) (λ _ _ e. cc) h

module _ {ℓ} {I E : Type ℓ} where
  append-Notifies :
      (item : I) (q : PrivacyQueue I) (d : Option I) (warn : Bool) (w : World I E)
      → q.signal ≡ w.queue.signal
      → Notifies w.queue (after_enqueue item (append_pending item (q, d, warn)) w).queue
  unfolding after_enqueue append_pending notify_locked
  append-Notifies item q d warn w same = inr (omega arith)

  overflow-Notifies :
      (item : I) (pending : List I) (w : World I E)
      → Notifies w.queue
          (after_enqueue item (append_pending item (drop_oldest pending w.queue)) w).queue
  unfolding drop_oldest
  overflow-Notifies item [] w = append-Notifies item w.queue none false w refl
  overflow-Notifies item (oldest ∷ rest) w =
      append-Notifies item (record w.queue { pending = rest; warned_drop = true }) (some oldest)
        (not w.queue.warned_drop) w refl

  enqueue-Notifies :
      (item : I) (await : Bool) (w : World I E)
      → Notifies w.queue (after_enqueue item (enqueue_locked item await w.queue) w).queue
  enqueue-Notifies item await w =
      enqueue_cases (λ r. Notifies w.queue (after_enqueue item r w).queue) item await w.queue
        (λ _ _ _. unfold after_enqueue in inl refl) (λ _. unfold after_enqueue in inl refl)
        (λ _ _ _. overflow-Notifies item w.queue.pending w)
        (λ _ _. append-Notifies item w.queue none false w refl)

  take-Notifies :
      (pending : List I) (w : World I E)
      → Notifies w.queue (after_take w (next_batch pending w.queue)).0.queue
  unfolding next_batch notify_locked
  take-Notifies [] w = inr (omega arith)
  take-Notifies (x ∷ xs) w = inr (omega arith)

  resume-Notifies :
      (finalize : I → Option (List E)) (p : Phase I) (ok : Bool) (w : World I E)
      → Notifies w.queue (resume finalize p ok w).0.queue
  unfolding resume
  resume-Notifies finalize top ok w = unfold take_batch in take-Notifies w.queue.pending w
  resume-Notifies finalize (holding items) ok w =
      inl (send_events_queue ok (finalize_items finalize items) w).0
  resume-Notifies finalize (delivered items) ok w = inl refl
  resume-Notifies finalize settled ok w = unfold notify_locked in inr (omega arith)

  step_worker-Notifies :
      (finalize : I → Option (List E)) (n : ℕ) (ok : Bool) (ws : List (Phase I)) (w : World I E)
      → Notifies w.queue (step_worker finalize n ok ws w).0.queue
  unfolding step_worker
  step_worker-Notifies finalize n ok [] w = inl refl
  step_worker-Notifies finalize zero ok (p ∷ ps) w = resume-Notifies finalize p ok w
  step_worker-Notifies finalize (suc n) ok (p ∷ ps) w = step_worker-Notifies finalize n ok ps w

  perform-Notifies :
      (finalize : I → Option (List E)) (a : Action I) (w : World I E)
      → Notifies w.queue (perform finalize a w).queue
  unfolding perform
  perform-Notifies finalize (enqueue item await) w = enqueue-Notifies item await w
  perform-Notifies finalize cancel_wait w = inl refl
  perform-Notifies finalize (discard n) w = inl ((step_discard-Accounted n w.discards w).same_queue)
  perform-Notifies finalize (work n ok) w = step_worker-Notifies finalize n ok w.workers w
  perform-Notifies finalize close w = unfold close_locked notify_locked in inr (omega arith)

  run_schedule-Notifies :
      (finalize : I → Option (List E)) (schedule : List (Action I)) (w : World I E)
      → Notifies w.queue (run_schedule finalize schedule w).queue
  unfolding run_schedule
  run_schedule-Notifies finalize [] w = inl refl
  run_schedule-Notifies finalize (a ∷ as') w =
      Notifies-trans w.queue (perform finalize a w).queue _ (perform-Notifies finalize a w)
        (run_schedule-Notifies finalize as' (perform finalize a w))

  -- If `flush` had to wait on a channel and, after any schedule, a round of it would return, then
  -- that channel has been closed.
  pub flush_wakeup :
      (finalize : I → Option (List E)) (schedule : List (Action I)) (w : World I E) (ch : ℕ)
      → flush_locked w.queue ≡ some ch
      → flush_locked (run_schedule finalize schedule w).queue ≡ none
      → ch < (run_schedule finalize schedule w).queue.signal
  flush_wakeup finalize schedule w ch blocked free =
      elim (run_schedule-Notifies finalize schedule w) [
        | inl same ↦ absurd (cc (ap flush_locked same))
        | inr later ↦ omega (arith, flush_channel w.queue ch blocked)
      ]

  -- If a caller of `enqueue` had to wait on a channel and, after any schedule, it would no longer
  -- have to wait on it, then that channel has been closed.
  pub enqueue_wakeup :
      (finalize : I → Option (List E)) (schedule : List (Action I)) (w : World I E) (ch : ℕ)
      (item : I)
      → enqueue_locked item true w.queue ≡ must_wait ch
      → enqueue_locked item true (run_schedule finalize schedule w).queue ≢ must_wait ch
      → ch < (run_schedule finalize schedule w).queue.signal
  enqueue_wakeup finalize schedule w ch item blocked free =
      elim (run_schedule-Notifies finalize schedule w) [
        | inl same ↦ absurd (free (ap (enqueue_locked item true) same ∙ blocked))
        | inr later ↦ omega (arith, enqueue_channel item true w.queue ch blocked)
      ]
