-- ===== src/Official/Agree.antt =====
-- armatureanalytics/official/official.go: the adapter and the middleware name one session.
use mcp_analytics_go.Prelude.{
  ℕ, ◌<◌, ◌≡◌, refl, true, Bool, Option, some, Text, List, [], is_empty, ◌∙◌,
}
use mcp_analytics_go.Json.{Value, Fields}
use mcp_analytics_go.Session.{build_stateless_session_id}
use mcp_analytics_go.Session.Resolve.{client_info_from_initialize, find_initialize_message}
use mcp_analytics_go.Session.Resolve.Echo.{build-nonempty, trim_space-build}
use mcp_analytics_go.Handler.{Act, Request, is_success, wrap_stateless_http_handler}
use mcp_analytics_go.Handler.Wrap.{wrap-initialize}
use mcp_analytics_go.Handler.Commit.{committed}
use mcp_analytics_go.Official.{AdapterRequest, analytics_session_id}

module _ (lower : Text → Text) (process_scoped_session_id : Text)
    (unmarshal : Text → Option Value) where
  -- If a POST with an initialize message goes through the middleware, the handler commits a success
  -- and no session id of its own, and a request without a conversation id reaches the adapter with
  -- the header that the middleware has handed on, then the adapter's session id is the one the
  -- middleware has built and sends to the client, whatever the other headers and the SDK's
  -- session are. The random bytes have to be below 256.
  pub analytics_session_id-wrap :
      (flusher : Bool) (next : Text → List Act) (req : Request) (raw : ℕ → ℕ) (s : Text)
      (initialize : Fields) (status : ℕ) (inner : AdapterRequest)
      → req.is_post ≡ true
      → req.body ≡ some (s, true)
      → find_initialize_message (unmarshal s) ≡ some initialize
      → committed flusher
          (next (build_stateless_session_id (client_info_from_initialize initialize) req.seed raw))
          []
        ≡ some (status, [])
      → is_success status ≡ true
      → ((i : ℕ) → raw i < 256)
      → inner.conversation_id ≡ []
      → inner.stateless_session
        ≡ (wrap_stateless_http_handler unmarshal flusher true next req raw).handed
      → analytics_session_id lower process_scoped_session_id inner
        ≡ build_stateless_session_id (client_info_from_initialize initialize) req.seed raw
  unfolding analytics_session_id is_empty
  analytics_session_id-wrap flusher next req raw s initialize status inner post body found commits
        success h none_given handed =
      let client = client_info_from_initialize initialize in
      let header =
        handed
        ∙ (wrap-initialize unmarshal flusher next req raw s initialize status post body found
            commits success).0 in
      rw none_given (
        rw header (
          rw (trim_space-build client req.seed raw h)
            (rw (build-nonempty client req.seed raw) refl)))
