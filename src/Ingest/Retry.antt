-- ===== src/Ingest/Retry.antt =====
-- armatureanalytics/ingest.go: when `Send` tries a second time, and what it then returns.
use mcp_analytics_go.Prelude.{
  ℕ, ◌+◌, ◌≡◌, refl, ◌∙◌, sym, ap, inl, inr, Bool, true, false, not, ◌&&◌, Option, none, some, Text,
  ltb, if◌then◌else◌, if_cases, Bool-cases, &&-eq-true, arith,
}
use mcp_analytics_go.Ingest.{
  ContextError, canceled, deadline_exceeded, Decoders, SendError, build_failed, Outcome, failed,
  answered, Attempt, is_success, is_retryable, ingest_body_error, context_error, connection_error,
  Decision, return, continue, after_wait, after_failure, after_answer, after_outcome, try_once,
  conclude, posted, send_loop, send, default_ingest_max_attempts,
}

-- The failures worth a second try: no answer while the context is live, or a status of 429 or
-- from 500 on.
abbrev pub is_transient : Outcome → Option ContextError → Bool
is_transient (failed timeout) none = true
is_transient (failed timeout) (some e) = false
is_transient (answered status body read_ok) ctx_err = not (is_success status) && is_retryable status

abbrev pub waits_out : Option ContextError → Bool
waits_out none = true
waits_out (some e) = false

-- The first attempt is repeated if its request went out, failed in such a way, and the context
-- lasted until the retry.
abbrev pub retries : Attempt → Bool
retries a = a.built && (is_transient a.outcome a.ctx_err && waits_out a.wait)

abbrev pub continues : Decision → Bool
continues (return r) = false
continues continue = true

continues-after_wait :
    (w : Option ContextError) (status attempt : ℕ)
    → continues (after_wait w status attempt) ≡ waits_out w
unfolding after_wait
continues-after_wait none status attempt = refl
continues-after_wait (some e) status attempt = refl

-- The branches of `after_answer`, with its tests as variables.
continues-answer :
    (success retryable early : Bool) (x y : Option SendError) (d : Decision)
    → continues (if success then return x else if retryable && early then d else return y)
      ≡ (not success && (retryable && (early && continues d)))
continues-answer true retryable early x y d = refl
continues-answer false true true x y d = refl
continues-answer false true false x y d = refl
continues-answer false false early x y d = refl

and_assoc : (a b c : Bool) → (a && (b && c)) ≡ ((a && b) && c)
and_assoc a b c = ground arith

and_false : (a b : Bool) → (a && (b && false)) ≡ false
and_false a b = ground arith

continues-built :
    (built : Bool) (d : Decision)
    → continues (if not built then return (some build_failed) else d) ≡ (built && continues d)
continues-built true d = refl
continues-built false d = refl

returns_lem : (d : Decision) → continues d ≡ false → (r : Option SendError) × (d ≡ return r)
returns_lem (return r) h = (r, refl)
returns_lem continue h = absurd (cc)

continues_lem : (d : Decision) → continues d ≡ true → d ≡ continue
continues_lem (return r) h = absurd (cc)
continues_lem continue h = refl

module _ (json : Decoders) (event_count : ℕ) where
  first_answer :
      (status : ℕ) (body : Text) (read_ok : Bool) (w : Option ContextError)
      → continues (after_answer json event_count status body read_ok w 1)
        ≡ (not (is_success status) && (is_retryable status && waits_out w))
  unfolding after_answer
  first_answer status body read_ok w =
      continues-answer (is_success status) (is_retryable status) true _ _ (after_wait w status 1)
      ∙ ap (λ b. not (is_success status) && (is_retryable status && b))
          (continues-after_wait w status 1)

  first_outcome :
      (o : Outcome) (c : Option ContextError) (a : Attempt)
      → a.ctx_err ≡ c
      → continues (after_outcome json event_count o a 1) ≡ (is_transient o c && waits_out a.wait)
  unfolding after_outcome after_failure
  first_outcome (failed timeout) none a p = rw p (continues-after_wait a.wait 0 1)
  first_outcome (failed timeout) (some e) a p = rw p
  first_outcome (answered status body read_ok) c a p =
      first_answer status body read_ok a.wait
      ∙ and_assoc (not (is_success status)) (is_retryable status) (waits_out a.wait)

  second_answer :
      (status : ℕ) (body : Text) (read_ok : Bool) (w : Option ContextError)
      → continues (after_answer json event_count status body read_ok w 2) ≡ false
  unfolding after_answer
  second_answer status body read_ok w =
      continues-answer (is_success status) (is_retryable status) false _ _ (after_wait w status 2)
      ∙ and_false (not (is_success status)) (is_retryable status)

  second_outcome :
      (o : Outcome) (c : Option ContextError) (a : Attempt)
      → a.ctx_err ≡ c
      → continues (after_outcome json event_count o a 2) ≡ false
  unfolding after_outcome after_failure
  second_outcome (failed timeout) none a p = rw p
  second_outcome (failed timeout) (some e) a p = rw p
  second_outcome (answered status body read_ok) c a p = second_answer status body read_ok a.wait

  continues-first : (a : Attempt) → continues (try_once json event_count a 1) ≡ retries a
  unfolding try_once
  continues-first a =
      continues-built a.built (after_outcome json event_count a.outcome a 1)
      ∙ ap (λ b. a.built && b) (first_outcome a.outcome a.ctx_err a refl)

  continues-second : (a : Attempt) → continues (try_once json event_count a 2) ≡ false
  unfolding try_once
  continues-second a =
      continues-built a.built (after_outcome json event_count a.outcome a 2)
      ∙ ap (λ b. a.built && b) (second_outcome a.outcome a.ctx_err a refl)
      ∙ and_false a.built true

  loop_once :
      (attempts : ℕ → Attempt) (r : Option SendError)
      → try_once json event_count (attempts 1) 1 ≡ return r
      → send_loop json event_count attempts 2 1 ≡ (r, posted (attempts 1))
  unfolding send_loop
  loop_once attempts r h = rw h (unfold conclude in refl)

  loop_twice :
      (attempts : ℕ → Attempt) (r : Option SendError)
      → try_once json event_count (attempts 1) 1 ≡ continue
      → try_once json event_count (attempts 2) 2 ≡ return r
      → (attempts 1).built ≡ true
      → send_loop json event_count attempts 2 1 ≡ (r, 1 + posted (attempts 2))
  unfolding send_loop
  loop_twice attempts r first second built = rw (first, second) (unfold conclude in rw built)

  -- `Send` makes a second attempt exactly when the first one went out, failed transiently and its
  -- wait was not cut short; it then returns what the second attempt decides, and otherwise what
  -- the first one does. It never leaves the loop without a decision, and counts one request for
  -- each attempt that was made.
  pub send_retry :
      (attempts : ℕ → Attempt)
      → (last : ℕ) × (r : Option SendError) × (last ≡ (if retries (attempts 1) then 2 else 1))
        × (try_once json event_count (attempts last) last ≡ return r)
        × (send json event_count attempts true
            ≡ (r, (if retries (attempts 1) then 1 + posted (attempts 2) else posted (attempts 1))))
  unfolding send
  send_retry attempts = elim (Bool-cases (retries (attempts 1))) [
    | inl again ↦
        let (r, second) =
          returns_lem (try_once json event_count (attempts 2) 2) (continues-second (attempts 2)) in
        let first =
          continues_lem (try_once json event_count (attempts 1) 1)
            (continues-first (attempts 1) ∙ again) in
        (
          2,
          r,
          rw again,
          second,
          rw again (loop_twice attempts r first second (&&-eq-true (attempts 1).built _ again).0),
        )
    | inr once ↦
        let (r, first) =
          returns_lem (try_once json event_count (attempts 1) 1)
            (continues-first (attempts 1) ∙ once) in
        (1, r, rw once, first, rw once (loop_once attempts r first))
  ]

  -- What a decision says of a delivery.
  abbrev Delivered : Outcome → Type 0
  Delivered o =
      (status : ℕ) × (body : Text) × (read_ok : Bool) × (o ≡ answered status body read_ok)
      × (is_success status ≡ true)
      × (ingest_body_error json body read_ok event_count ≡ none)

  no_wait_delivery :
      (w : Option ContextError) (status i : ℕ) → after_wait w status i ≡ return none → ⊥
  unfolding after_wait
  no_wait_delivery none status i h = cc
  no_wait_delivery (some e) status i h = cc

  no_failure_delivery :
      (c w : Option ContextError) (timeout : Bool) (i : ℕ)
      → after_failure c w timeout i ≡ return none
      → ⊥
  unfolding after_failure context_error connection_error
  no_failure_delivery (some canceled) w timeout i h = cc
  no_failure_delivery (some deadline_exceeded) w timeout i h = cc
  no_failure_delivery none w timeout i h =
      if_cases (λ d. d ≡ return none → ⊥) (ltb i default_ingest_max_attempts)
        (λ _. no_wait_delivery w 0 i) (λ _ e. cc) h

  answered_delivery :
      (status : ℕ) (body : Text) (read_ok : Bool) (w : Option ContextError) (i : ℕ)
      → after_answer json event_count status body read_ok w i ≡ return none
      → (is_success status ≡ true) × (ingest_body_error json body read_ok event_count ≡ none)
  unfolding after_answer
  answered_delivery status body read_ok w i h =
      if_cases
        (λ d.
          d ≡ return none
          → (is_success status ≡ true) × (ingest_body_error json body read_ok event_count ≡ none))
        (is_success status) (λ s e. (s, cc))
        (λ _.
          if_cases
            (λ d.
              d ≡ return none
              → (is_success status ≡ true)
                × (ingest_body_error json body read_ok event_count ≡ none))
            (is_retryable status && ltb i default_ingest_max_attempts)
            (λ _ e. absurd (no_wait_delivery w status i e)) (λ _ e. absurd (cc)))
        h

  outcome_delivery :
      (o : Outcome) (a : Attempt) (i : ℕ)
      → after_outcome json event_count o a i ≡ return none
      → Delivered o
  unfolding after_outcome
  outcome_delivery (failed timeout) a i h =
      absurd (no_failure_delivery a.ctx_err a.wait timeout i h)
  outcome_delivery (answered status body read_ok) a i h =
      let (success, accepted) = answered_delivery status body read_ok a.wait i h in
      (status, body, read_ok, refl, success, accepted)

  try_once_delivery :
      (a : Attempt) (i : ℕ) → try_once json event_count a i ≡ return none → Delivered a.outcome
  unfolding try_once
  try_once_delivery a i h =
      if_cases (λ d. d ≡ return none → Delivered a.outcome) (not a.built) (λ _ e. absurd (cc))
        (λ _ e. outcome_delivery a.outcome a i e) h

  -- `Send` reports a delivery only if its last attempt was answered with a 2xx status and a body to
  -- which `ingestBodyError` has no objection. It has none to a body that could not be read, is empty
  -- or is no JSON, where a refusal could not be seen.
  pub send-delivered :
      (attempts : ℕ → Attempt) (marshals : Bool)
      → (send json event_count attempts marshals).0 ≡ none
      → (i status : ℕ) × (body : Text) × (read_ok : Bool) × (i
          ≡ (if retries (attempts 1) then 2 else 1))
        × ((attempts i).outcome ≡ answered status body read_ok)
        × (is_success status ≡ true)
        × (ingest_body_error json body read_ok event_count ≡ none)
  send-delivered attempts false h = absurd (unfold send in cc)
  send-delivered attempts true h =
      let (last, r, which, decided, result) = send_retry attempts in
      let delivered : r ≡ none = sym (ap (λ (p : Option SendError × ℕ). p.0) result) ∙ h in
      let (status, body, read_ok, answer, success, accepted) =
        try_once_delivery (attempts last) last (decided ∙ ap return delivered) in
      (last, status, body, read_ok, which, answer, success, accepted)
