-- ===== src/Ingest/Codes.antt =====
-- armatureanalytics/ingest.go: the codes of delivery errors are plain identifiers.
use mcp_analytics_go.Prelude.{
  ℕ, zero, suc, ◌+◌, ◌/◌, ◌%◌, ◌≤◌, ◌<◌, ◌≡◌, refl, Bool, true, false, not, ◌&&◌, ◌||◌, Option,
  none, some, [], ◌∷◌, ◌++◌, Text, bytes, is_empty, length, length-append, take, ltb, if_cases,
  arith,
}
use mcp_analytics_go.Ingest.{
  ContextError, canceled, deadline_exceeded, ErrorPayload, Decoders, SendError, delivery, Outcome,
  failed, answered, Attempt, valid_chars, valid_diagnostic_code, decimal_digits, decimal,
  fallback_code, checked_code, payload_code, ingest_response_code, ingest_body_error, is_success,
  is_retryable, IngestResponse, rejection_of, parsed_error, default_ingest_max_attempts,
  context_error, connection_error, Decision, return, continue, after_wait, after_failure,
  after_answer, after_outcome, try_once, conclude, posted, send_loop, send, is_zero,
}

valid_chars-append :
    (xs ys : Text) → valid_chars true (xs ++ ys) ≡ (valid_chars true xs && valid_chars true ys)
unfolding valid_chars
valid_chars-append [] ys = refl
valid_chars-append (x ∷ xs) ys = ground (arith, valid_chars-append xs ys)

decimal_digits-valid : (fuel n : ℕ) → valid_chars true (decimal_digits fuel n) ≡ true
unfolding decimal_digits valid_chars
decimal_digits-valid zero n = refl
decimal_digits-valid (suc fuel) n = ground (
  arith,
  decimal_digits-valid fuel (n / 10),
  valid_chars-append (decimal_digits fuel (n / 10)) ((b'0' + n % 10) ∷ []),
)

length-decimal_digits-one : (fuel n : ℕ) → n < 10 → length (decimal_digits fuel n) ≤ 1
unfolding decimal_digits
length-decimal_digits-one zero n h = omega arith
length-decimal_digits-one (suc fuel) n h = ground arith

length-decimal_digits-two : (fuel n : ℕ) → n < 100 → length (decimal_digits fuel n) ≤ 2
unfolding decimal_digits
length-decimal_digits-two zero n h = omega arith
length-decimal_digits-two (suc fuel) n h = ground (
  arith,
  length-decimal_digits-one fuel (n / 10),
  length-append (decimal_digits fuel (n / 10)) ((b'0' + n % 10) ∷ []),
)

length-decimal_digits : (fuel n : ℕ) → n < 1000 → length (decimal_digits fuel n) ≤ 3
unfolding decimal_digits
length-decimal_digits zero n h = omega arith
length-decimal_digits (suc fuel) n h = ground (
  arith,
  length-decimal_digits-two fuel (n / 10),
  length-append (decimal_digits fuel (n / 10)) ((b'0' + n % 10) ∷ []),
)

prefix_valid :
    (s : Text) → valid_chars true s ≡ true → valid_chars false (bytes "ingest_http_" ++ s) ≡ true
unfolding valid_chars bytes
prefix_valid s h = h

valid_diagnostic_code_intro :
    (code : Text)
    → 0 < length code
    → length code ≤ 100
    → valid_chars false code ≡ true
    → valid_diagnostic_code code ≡ true
unfolding valid_diagnostic_code
valid_diagnostic_code_intro code pos short chars = ground arith

length-prefix : (s : Text) → length (bytes "ingest_http_" ++ s) ≡ 12 + length s
unfolding bytes
length-prefix s = omega arith

fallback_code-valid :
    (status : ℕ) → status < 1000 → valid_diagnostic_code (fallback_code status) ≡ true
unfolding fallback_code decimal
fallback_code-valid status h =
    let digits = decimal_digits (suc status) status in
    let size = length-prefix digits in
    let few = length-decimal_digits (suc status) status h in
    valid_diagnostic_code_intro (bytes "ingest_http_" ++ digits) (omega (arith, size))
      (omega (arith, size, few)) (prefix_valid digits (decimal_digits-valid (suc status) status))

checked_code-valid :
    (code : Text) (status : ℕ)
    → status < 1000
    → valid_diagnostic_code (checked_code code status) ≡ true
unfolding checked_code
checked_code-valid code status h = ground (arith, fallback_code-valid status h)

payload_code-valid :
    (p : Option ErrorPayload) (status : ℕ)
    → status < 1000
    → valid_diagnostic_code (payload_code p status) ≡ true
unfolding payload_code
payload_code-valid none status h = fallback_code-valid status h
payload_code-valid (some p) status h = checked_code-valid _ status h

-- A delivery error has a code of at most 100 bytes, letters and digits and, after the first byte,
-- underscores, colons and dashes.
abbrev pub CodeIsValid : Option SendError → Type 0
CodeIsValid (some (delivery e)) = valid_diagnostic_code e.code ≡ true
CodeIsValid _ = Unit

pub record HasValidCode (r : Option SendError) : Type 0 where
  pub of_delivery : CodeIsValid r

data DecidesValidCode : Decision → Type 0 where
  returns : (r : Option SendError) → HasValidCode r → DecidesValidCode (return r)
  continues : DecidesValidCode continue

-- `net/http` accepts three-digit status codes only.
abbrev pub ThreeDigits : Outcome → Type 0
ThreeDigits (failed timeout) = Unit
ThreeDigits (answered status body read_ok) = status < 1000

fixed_codes :
    (valid_diagnostic_code (bytes "ingest_timeout") ≡ true)
    × (valid_diagnostic_code (bytes "ingest_cancelled") ≡ true)
    × (valid_diagnostic_code (bytes "ingest_connection_failed") ≡ true)
    × (valid_diagnostic_code (bytes "ingest_delivery_failed") ≡ true)
unfolding valid_diagnostic_code valid_chars bytes
fixed_codes = (refl, refl, refl, refl)

context_error-code : (e : ContextError) (attempt : ℕ) → HasValidCode (context_error e attempt)
unfolding context_error
context_error-code canceled attempt = record { of_delivery = fixed_codes.1 }
context_error-code deadline_exceeded attempt = record { of_delivery = fixed_codes.0 }

connection_error-code :
    (timeout : Bool) (attempt : ℕ) → HasValidCode (connection_error timeout attempt)
unfolding connection_error
connection_error-code true attempt = record { of_delivery = fixed_codes.0 }
connection_error-code false attempt = record { of_delivery = fixed_codes.2 }

after_wait-code :
    (wait : Option ContextError) (status attempt : ℕ)
    → DecidesValidCode (after_wait wait status attempt)
unfolding after_wait
after_wait-code none status attempt = continues
after_wait-code (some e) status attempt = returns _ (record { of_delivery = fixed_codes.0 })

after_failure-code :
    (ctx wait : Option ContextError) (timeout : Bool) (attempt : ℕ)
    → DecidesValidCode (after_failure ctx wait timeout attempt)
unfolding after_failure
after_failure-code (some e) wait timeout attempt = returns _ (context_error-code e attempt)
after_failure-code none wait timeout attempt =
    if_cases DecidesValidCode (ltb attempt default_ingest_max_attempts)
      (λ _. after_wait-code wait 0 attempt) (λ _. returns _ (connection_error-code timeout attempt))

parsed_error-code : (o : Option IngestResponse) (n : ℕ) → HasValidCode (parsed_error o n)
unfolding parsed_error rejection_of
parsed_error-code none n = record { of_delivery = tt }
parsed_error-code (some parsed) n =
    if_cases HasValidCode (ltb 0 (length parsed.rejected)) (λ _. record { of_delivery = tt })
      (λ _.
        if_cases HasValidCode (is_zero parsed.accepted && ltb 0 n)
          (λ _. record { of_delivery = tt }) (λ _. record { of_delivery = tt }))

module _ (json : Decoders) (event_count : ℕ) where
  body_error-code :
      (raw : Text) (read_ok : Bool) → HasValidCode (ingest_body_error json raw read_ok event_count)
  unfolding ingest_body_error
  body_error-code raw read_ok =
      if_cases HasValidCode (not read_ok || is_empty raw) (λ _. record { of_delivery = tt })
        (λ _. parsed_error-code (json.ingest_response raw) event_count)

  response_code-valid :
      (body : Text) (status : ℕ)
      → status < 1000
      → valid_diagnostic_code (ingest_response_code json body status) ≡ true
  unfolding ingest_response_code
  response_code-valid body status h = payload_code-valid (json.error_payload body) status h

  after_answer-code :
      (status : ℕ) (body : Text) (read_ok : Bool) (wait : Option ContextError) (attempt : ℕ)
      → status < 1000
      → DecidesValidCode (after_answer json event_count status body read_ok wait attempt)
  unfolding after_answer
  after_answer-code status body read_ok wait attempt h =
      if_cases DecidesValidCode (is_success status) (λ _. returns _ (body_error-code body read_ok))
        (λ _.
          if_cases DecidesValidCode (is_retryable status && ltb attempt default_ingest_max_attempts)
            (λ _. after_wait-code wait status attempt)
            (λ _.
              returns _ (record { of_delivery = response_code-valid (take 4096 body) status h })))

  after_outcome-code :
      (o : Outcome) (a : Attempt) (attempt : ℕ)
      → ThreeDigits o
      → DecidesValidCode (after_outcome json event_count o a attempt)
  unfolding after_outcome
  after_outcome-code (failed timeout) a attempt h =
      after_failure-code a.ctx_err a.wait timeout attempt
  after_outcome-code (answered status body read_ok) a attempt h =
      after_answer-code status body read_ok a.wait attempt h

  try_once-code :
      (a : Attempt) (attempt : ℕ)
      → ThreeDigits a.outcome
      → DecidesValidCode (try_once json event_count a attempt)
  unfolding try_once
  try_once-code a attempt h =
      if_cases DecidesValidCode (not a.built) (λ _. returns _ (record { of_delivery = tt }))
        (λ _. after_outcome-code a.outcome a attempt h)

  conclude-code :
      {d : Decision} (n : ℕ) (later : Option SendError × ℕ)
      → DecidesValidCode d
      → HasValidCode later.0
      → HasValidCode (conclude d n later).0
  unfolding conclude
  conclude-code n later (returns r h) hl = h
  conclude-code n later continues hl = hl

  send_loop-code :
      (attempts : ℕ → Attempt) (left attempt : ℕ)
      → ((i : ℕ) → ThreeDigits (attempts i).outcome)
      → HasValidCode (send_loop json event_count attempts left attempt).0
  unfolding send_loop
  send_loop-code attempts zero attempt h = record { of_delivery = fixed_codes.3 }
  send_loop-code attempts (suc left) attempt h =
      conclude-code (posted (attempts attempt)) _
        (try_once-code (attempts attempt) attempt (h attempt))
        (send_loop-code attempts left (suc attempt) h)

  -- Whatever the server and the network do, with three-digit statuses, an error of `Send` that is a
  -- delivery error has a valid diagnostic code, also where the code is the server's.
  pub send-HasValidCode :
      (attempts : ℕ → Attempt) (marshals : Bool)
      → ((i : ℕ) → ThreeDigits (attempts i).outcome)
      → HasValidCode (send json event_count attempts marshals).0
  unfolding send
  send-HasValidCode attempts true h = send_loop-code attempts default_ingest_max_attempts 1 h
  send-HasValidCode attempts false h = record { of_delivery = tt }
