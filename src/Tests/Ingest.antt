-- ===== src/Tests/Ingest.antt =====
-- armatureanalytics/ingest.go: a busy server that takes the batch at the second attempt.
use mcp_analytics_go.Prelude.{
  ℕ, ◌+◌, ◌≡◌, refl, true, Bool, Option, none, [], Text, if◌then◌else◌, ◌==◌, is_empty, arith,
}
use mcp_analytics_go.Ingest.{
  Decoders, Attempt, answered, SendError, return, try_once, send, posted, is_success,
  ingest_body_error, after_outcome, after_answer, after_wait, send_loop, conclude,
}
use mcp_analytics_go.Ingest.Codes.{HasValidCode, send-HasValidCode}
use mcp_analytics_go.Ingest.Retry.{retries, send_retry, send-delivered}

abbrev no_json : Decoders
no_json = record { ingest_response = λ s. none; error_payload = λ s. none }

abbrev busy_once : ℕ → Attempt
busy_once i = record {
  built = true;
  outcome = answered (if i == 1 then 503 else 200) [] true;
  ctx_err = none;
  wait = none;
}

send_retry_example :
    (last : ℕ) × (r : Option SendError) × (last ≡ (if retries (busy_once 1) then 2 else 1))
    × (try_once no_json 3 (busy_once last) last ≡ return r)
    × (send no_json 3 busy_once true
        ≡ (r, (if retries (busy_once 1) then 1 + posted (busy_once 2) else posted (busy_once 1))))
send_retry_example = send_retry no_json 3 busy_once

send-delivered_example :
    (i status : ℕ) × (body : Text) × (read_ok : Bool) × (i
      ≡ (if retries (busy_once 1) then 2 else 1))
    × ((busy_once i).outcome ≡ answered status body read_ok)
    × (is_success status ≡ true)
    × (ingest_body_error no_json body read_ok 3 ≡ none)
unfolding send send_loop conclude try_once after_outcome after_answer after_wait ingest_body_error
    is_empty
send-delivered_example = send-delivered no_json 3 busy_once true refl

send-HasValidCode_example : HasValidCode (send no_json 3 busy_once true).0
send-HasValidCode_example = send-HasValidCode no_json 3 busy_once true (λ i. ground arith)
