-- ===== src/Official/Capability.antt =====
-- armatureanalytics/official/official.go and official/send_feedback.go: a tool call behind the
-- middleware, and the reservation that the feedback handler leaves in its state.
use mcp_analytics_go.Prelude.{
  ℕ, Bool, true, false, Option, none, some, List, [], ◌∷◌, ◌++◌, Text, bytes, if◌then◌else◌,
}
use mcp_analytics_go.Feedback.{ToolResult, error_result, answer, is_capability}

-- What becomes of a reservation.
pub data Effect : Type 0 where
  released : ℕ → Effect
  recorded : ℕ → Effect

-- `capabilityCallState`; a context without one has none.
abbrev pub CallState : Type 0
CallState = Option ℕ

-- `attach`
unfoldable pub attach : ℕ → CallState → CallState × Bool
attach reservation none = (some reservation, true)
attach reservation (some held) = (some held, false)

-- `take`
unfoldable pub take_reservation : CallState → CallState × Option ℕ
take_reservation state = (none, state)

-- `if reservation := capabilityState.take(); reservation != nil { reservation.Release() }`
unfoldable pub release_taken : Option ℕ → List Effect
release_taken none = []
release_taken (some reservation) = released reservation ∷ []

abbrev pub unavailable : ToolResult
unavailable =
    error_result (bytes "capability request unavailable: analytics recorder is not active")

-- A call of the feedback handler: what `ReserveCapabilityRequest` answers it, and its argument.
pub record FeedbackCall : Type 0 where
  pub reserved : Option ℕ
  pub capability : Text

abbrev pub attached : FeedbackCall → ℕ → CallState × Bool → CallState × List Effect × ToolResult
attached call reservation (state, true) = (state, [], answer (is_capability (some call.capability)))
attached call reservation (state, false) = (state, released reservation ∷ [], unavailable)

-- The handler of `addSendFeedbackTool`
unfoldable pub feedback_handler : FeedbackCall → CallState → CallState × List Effect × ToolResult
feedback_handler call state = elim call.reserved [
  | none ↦ (state, [], unavailable)
  | some reservation ↦ attached call reservation (attach reservation state)
]

-- What `next` does: it calls the feedback handler any number of times, and then returns or panics.
unfoldable pub handler_calls : List FeedbackCall → CallState → CallState × List Effect
handler_calls [] state = (state, [])
handler_calls (call ∷ calls) state =
    let (state1, effects1, result) = feedback_handler call state in
    let (state2, effects2) = handler_calls calls state1 in (state2, effects1 ++ effects2)

-- The end of `recordToolCall`: the reservation is completed, or released where the request has no
-- parameters.
unfoldable pub record_taken : Bool → Option ℕ → List Effect
record_taken has_params none = []
record_taken has_params (some reservation) =
    (if has_params then recorded reservation else released reservation) ∷ []

-- The middleware on a tools/call, with its deferred function: where `next` panics only that one
-- runs.
unfoldable pub middleware_call : List FeedbackCall → Bool → Bool → List Effect
middleware_call calls returns has_params =
    let (state, effects) = handler_calls calls none in
    let (after, taken) = take_reservation state in
    let (last, late) = take_reservation after in
    if returns
    then effects ++ (record_taken has_params taken ++ release_taken late)
    else effects ++ release_taken taken
