-- ===== src/Ingest.antt =====
-- armatureanalytics/ingest.go: the delivery of one batch to the ingest endpoint. The HTTP client,
-- the context and `encoding/json` are parameters: a run of `Send` is given what each attempt meets.
pub mod Codes
pub mod Retry
use mcp_analytics_go.Prelude.{
  ℕ, zero, suc, ◌+◌, ◌-◌, ◌/◌, ◌%◌, Bool, true, false, not, ◌&&◌, ◌||◌, Option, none, some, List,
  [], ◌∷◌, ◌++◌, Text, bytes, is_empty, length, take, ltb, leb, ◌==◌, if◌then◌else◌,
}

abbrev pub default_ingest_max_attempts : ℕ
default_ingest_max_attempts = 2

pub data ContextError : Type 0 where
  canceled deadline_exceeded : ContextError

-- A Go `int`, of which the package only asks if it is zero.
pub data Count : Type 0 where
  nonneg : ℕ → Count
  negative : ℕ → Count

pub record IngestRejection : Type 0 where
  pub event_id : Option Text
  pub reason : Text

pub record IngestResponse : Type 0 where
  pub accepted : Option Count
  pub rejected : List IngestRejection

-- The string fields of an error body, empty where they are missing.
pub record ErrorPayload : Type 0 where
  pub error_code : Text
  pub error_code_alias : Text

-- `encoding/json` on the two response shapes; `none` is an error.
pub record Decoders : Type 0 where
  pub ingest_response : Text → Option IngestResponse
  pub error_payload : Text → Option ErrorPayload

pub record DeliveryError : Type 0 where
  pub code : Text
  pub status : ℕ
  pub attempts : ℕ
  pub retryable : Bool

pub data SendError : Type 0 where
  marshal_failed build_failed : SendError
  delivery : DeliveryError → SendError
  -- `IngestRejectionError`
  rejection : List IngestRejection → Count → SendError

-- What `httpClient.Do` gives: an error, which may be a timeout, or a status, the bytes of the
-- body that could be read, and if the reading ended without an error.
pub data Outcome : Type 0 where
  failed : Bool → Outcome
  answered : ℕ → Text → Bool → Outcome

-- What one attempt meets: if the request can be built, what the client does, `ctx.Err()` after
-- that, and what `waitForRetry` returns.
pub record Attempt : Type 0 where
  pub built : Bool
  pub outcome : Outcome
  pub ctx_err : Option ContextError
  pub wait : Option ContextError

abbrev pub is_digit : ℕ → Bool
is_digit c = leb b'0' c && leb c b'9'

abbrev pub is_alphanumeric : ℕ → Bool
is_alphanumeric c = leb b'a' c && leb c b'z' || (leb b'A' c && leb c b'Z' || is_digit c)

-- The loop of `validDiagnosticCode`, where the flag says that the index is positive. A byte of a
-- character outside ASCII passes neither test.
unfoldable pub valid_chars : Bool → Text → Bool
valid_chars later [] = true
valid_chars later (c ∷ code) =
    let rest = valid_chars true code in
    if is_alphanumeric c
    then rest
    else if later && (c == b'_' || (c == b':' || c == b'-'))
    then rest
    else false

unfoldable pub valid_diagnostic_code : Text → Bool
valid_diagnostic_code code =
    if leb (length code) 0 || ltb 100 (length code) then false else valid_chars false code

-- `%d`, on fuel; a number has no more digits than the fuel `decimal` gives.
unfoldable pub decimal_digits : ℕ → ℕ → Text
decimal_digits zero n = []
decimal_digits (suc fuel) n =
    let front = decimal_digits fuel (n / 10) in
    if ltb n 10 then (b'0' + n) ∷ [] else front ++ (b'0' + n % 10) ∷ []

unfoldable pub decimal : ℕ → Text
decimal n = decimal_digits (suc n) n

unfoldable pub fallback_code : ℕ → Text
fallback_code status = bytes "ingest_http_" ++ decimal status

unfoldable pub checked_code : Text → ℕ → Text
checked_code code status = if not (valid_diagnostic_code code) then fallback_code status else code

unfoldable pub payload_code : Option ErrorPayload → ℕ → Text
payload_code none status = fallback_code status
payload_code (some p) status =
    checked_code (if is_empty p.error_code then p.error_code_alias else p.error_code) status

-- `ingestResponseCode`
unfoldable pub ingest_response_code : Decoders → Text → ℕ → Text
ingest_response_code json body status = payload_code (json.error_payload body) status

abbrev pub count_or_zero : Option Count → Count
count_or_zero none = nonneg 0
count_or_zero (some n) = n

abbrev pub is_zero : Option Count → Bool
is_zero (some (nonneg n)) = n == 0
is_zero _ = false

unfoldable pub rejection_of : IngestResponse → ℕ → Option SendError
rejection_of parsed event_count =
    if ltb 0 (length parsed.rejected)
    then some (rejection parsed.rejected (count_or_zero parsed.accepted))
    else if is_zero parsed.accepted && ltb 0 event_count
    then some (rejection [] (nonneg 0))
    else none

unfoldable pub parsed_error : Option IngestResponse → ℕ → Option SendError
parsed_error none event_count = none
parsed_error (some parsed) event_count = rejection_of parsed event_count

-- `ingestBodyError`
unfoldable pub ingest_body_error : Decoders → Text → Bool → ℕ → Option SendError
ingest_body_error json raw read_ok event_count =
    if not read_ok || is_empty raw
    then none
    else parsed_error (json.ingest_response raw) event_count

abbrev pub is_success : ℕ → Bool
is_success status = leb 200 status && ltb status 300

abbrev pub is_retryable : ℕ → Bool
is_retryable status = status == 429 || leb 500 status

-- An error that ends the run at an attempt.
abbrev pub delivery_error : Text → ℕ → ℕ → Bool → Option SendError
delivery_error code status attempt retryable =
    some (
      delivery (record { code = code; status = status; attempts = attempt; retryable = retryable }))

unfoldable pub context_error : ContextError → ℕ → Option SendError
context_error deadline_exceeded attempt = delivery_error (bytes "ingest_timeout") 0 attempt true
context_error canceled attempt = delivery_error (bytes "ingest_cancelled") 0 attempt false

unfoldable pub connection_error : Bool → ℕ → Option SendError
connection_error timeout attempt =
    delivery_error (if timeout then bytes "ingest_timeout" else bytes "ingest_connection_failed") 0
      attempt true

-- What an attempt decides: the run ends with a result, or the loop continues.
pub data Decision : Type 0 where
  return : Option SendError → Decision
  continue : Decision

-- `waitForRetry` and what follows it.
unfoldable pub after_wait : Option ContextError → ℕ → ℕ → Decision
after_wait none status attempt = continue
after_wait (some _) status attempt =
    return (delivery_error (bytes "ingest_timeout") status attempt true)

unfoldable pub after_failure : Option ContextError → Option ContextError → Bool → ℕ → Decision
after_failure (some e) wait timeout attempt = return (context_error e attempt)
after_failure none wait timeout attempt =
    if ltb attempt default_ingest_max_attempts
    then after_wait wait 0 attempt
    else return (connection_error timeout attempt)

unfoldable pub after_answer : Decoders → ℕ → ℕ → Text → Bool → Option ContextError → ℕ → Decision
after_answer json event_count status body read_ok wait attempt =
    if is_success status
    then return (ingest_body_error json body read_ok event_count)
    else if is_retryable status && ltb attempt default_ingest_max_attempts
    then after_wait wait status attempt
    else return (
        delivery_error (ingest_response_code json (take 4096 body) status) status attempt
          (is_retryable status))

unfoldable pub after_outcome : Decoders → ℕ → Outcome → Attempt → ℕ → Decision
after_outcome json event_count (failed timeout) a attempt =
    after_failure a.ctx_err a.wait timeout attempt
after_outcome json event_count (answered status body read_ok) a attempt =
    after_answer json event_count status body read_ok a.wait attempt

-- The body of the loop of `Send`.
unfoldable pub try_once : Decoders → ℕ → Attempt → ℕ → Decision
try_once json event_count a attempt =
    if not a.built
    then return (some build_failed)
    else after_outcome json event_count a.outcome a attempt

-- The end of a round: the result and the requests so far, or those of the rounds that follow.
unfoldable pub conclude : Decision → ℕ → Option SendError × ℕ → Option SendError × ℕ
conclude (return r) posted later = (r, posted)
conclude continue posted (result, posts) = (result, posted + posts)

abbrev pub posted : Attempt → ℕ
posted a = if a.built then 1 else 0

-- The loop, over the attempts that are left and the number of the next one. `none` is a delivery;
-- the number counts the requests that were handed to the HTTP client.
unfoldable pub send_loop : Decoders → ℕ → (ℕ → Attempt) → ℕ → ℕ → Option SendError × ℕ
send_loop json event_count attempts zero attempt =
    (delivery_error (bytes "ingest_delivery_failed") 0 default_ingest_max_attempts false, 0)
send_loop json event_count attempts (suc left) attempt =
    let later = send_loop json event_count attempts left (suc attempt) in
    conclude (try_once json event_count (attempts attempt) attempt) (posted (attempts attempt))
      later

-- `Send`, given if the batch can be marshalled.
unfoldable pub send : Decoders → ℕ → (ℕ → Attempt) → Bool → Option SendError × ℕ
send json event_count attempts marshals =
    if not marshals
    then (some marshal_failed, 0)
    else send_loop json event_count attempts default_ingest_max_attempts 1
