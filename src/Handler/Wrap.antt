-- ===== src/Handler/Wrap.antt =====
-- armatureanalytics/stateless_http_handler.go: an initialize request through the middleware.
use mcp_analytics_go.Prelude.{
  ℕ, ◌≡◌, refl, ap, ◌∙◌, Bool, true, Option, none, some, List, [], Text, is_empty,
}
use mcp_analytics_go.Json.{Value, Fields}
use mcp_analytics_go.Session.{ClientName, workflow_run_id, build_stateless_session_id}
use mcp_analytics_go.Session.Resolve.{
  find_initialize_message, client_info_from_initialize, decode_stateless_body, StatelessHttpSession,
  resolve_stateless_http_session, resolve_message,
}
use mcp_analytics_go.Session.Resolve.Echo.{build-nonempty}
use mcp_analytics_go.Handler.{
  sent_header, is_success, Act, initialize_client_info, session_init_client_info, Request,
  resolve_body, resolve_wrapped_stateless_request, serve_session, wrap_stateless_http_handler,
}
use mcp_analytics_go.Handler.Commit.{
  first_call, attached, committed, if_not-true, serve_session-first,
}

serve_session-handed :
    (flusher has_recorder : Bool) (next : Text → List Act) (req : Request)
    (session : StatelessHttpSession) (body : Option Value)
    → (serve_session flusher has_recorder next req session body).handed ≡ session.session_id
unfolding serve_session
serve_session-handed flusher has_recorder next req session body = refl

abbrev built_session : Option ClientName → Text → (ℕ → ℕ) → StatelessHttpSession
built_session client seed raw = record {
  session_id = build_stateless_session_id client seed raw;
  client_info = none;
  is_initialize = true;
}

module _ (unmarshal : Text → Option Value) where
  resolve_wrapped-found :
      (req : Request) (raw : ℕ → ℕ) (s : Text) (initialize : Fields)
      → req.is_post ≡ true
      → req.body ≡ some (s, true)
      → find_initialize_message (unmarshal s) ≡ some initialize
      → resolve_wrapped_stateless_request unmarshal req raw
        ≡ (built_session (client_info_from_initialize initialize) req.seed raw, unmarshal s)
  unfolding resolve_wrapped_stateless_request resolve_body resolve_stateless_http_session
      resolve_message decode_stateless_body
  resolve_wrapped-found req raw s initialize post body found =
      if_not-true _ _ req.is_post post
      ∙ ap (λ b. resolve_body unmarshal b req raw) body
      ∙ ap (λ m. (resolve_message m req.seed req.echo raw, unmarshal s)) found

  wrap-built :
      (flusher : Bool) (next : Text → List Act) (req : Request) (raw : ℕ → ℕ) (s : Text)
      (initialize : Fields)
      → req.is_post ≡ true
      → req.body ≡ some (s, true)
      → find_initialize_message (unmarshal s) ≡ some initialize
      → wrap_stateless_http_handler unmarshal flusher true next req raw
        ≡ serve_session flusher true next req
            (built_session (client_info_from_initialize initialize) req.seed raw)
            (unmarshal s)
  unfolding wrap_stateless_http_handler
  wrap-built flusher next req raw s initialize post body found =
      rw (resolve_wrapped-found req raw s initialize post body found)
        (rw (build-nonempty (client_info_from_initialize initialize) req.seed raw) refl)

  -- If the body of a POST can be read and has an initialize message, and the handler, given the
  -- id that is built for the message's client, commits a status that is a success and no
  -- session id of its own, then the handler is handed this id, the first call that reaches the
  -- client sends it, and the recorder records a session_init for it.
  pub wrap-initialize :
      (flusher : Bool) (next : Text → List Act) (req : Request) (raw : ℕ → ℕ) (s : Text)
      (initialize : Fields) (status : ℕ)
      → req.is_post ≡ true
      → req.body ≡ some (s, true)
      → find_initialize_message (unmarshal s) ≡ some initialize
      → committed flusher
          (next (build_stateless_session_id (client_info_from_initialize initialize) req.seed raw))
          []
        ≡ some (status, [])
      → is_success status ≡ true
      → ((wrap_stateless_http_handler unmarshal flusher true next req raw).handed
          ≡ build_stateless_session_id (client_info_from_initialize initialize) req.seed raw)
        × (first_call (wrap_stateless_http_handler unmarshal flusher true next req raw).calls
            ≡ some (
                sent_header status (
                  build_stateless_session_id
                    (client_info_from_initialize initialize)
                    req.seed
                    raw)))
        × ((wrap_stateless_http_handler unmarshal flusher true next req raw).recorded
            ≡ some (record {
              session_id =
                  build_stateless_session_id (client_info_from_initialize initialize) req.seed raw;
              client_info = initialize_client_info (some initialize);
              workflow_run_id = workflow_run_id req.workflow_run;
            }))
  unfolding is_empty session_init_client_info
  wrap-initialize flusher next req raw s initialize status post body found commits success =
      let session = built_session (client_info_from_initialize initialize) req.seed raw in
      let shown = serve_session-first flusher true next req session (unmarshal s) in
      let handed = serve_session-handed flusher true next req session (unmarshal s) in
      rw (wrap-built flusher next req raw s initialize post body found) (
        handed,
        shown.0 ∙ ap (attached session.session_id) commits ∙ rw success refl,
        shown.1 ∙ rw (handed, commits, success, found) refl,
      )
