-- ===== src/Handler.antt =====
-- armatureanalytics/stateless_http_handler.go: the middleware that gives the session id of a
-- stateless request to the handler, to the client and to the recorder. The wrapped handler is
-- a parameter: what it does with its response writer, from the id that it is handed.
pub mod Commit
pub mod Wrap
use mcp_analytics_go.Prelude.{
  ℕ, Bool, true, false, not, ◌&&◌, ◌||◌, Option, none, some, List, [], ◌∷◌, ◌++◌, Text, bytes,
  is_empty, ltb, leb, if◌then◌else◌,
}
use mcp_analytics_go.Json.{Value, Fields, lookup_field, string_field}
use mcp_analytics_go.Client.{ClientInfo}
use mcp_analytics_go.Session.{ClientName, workflow_run_id}
use mcp_analytics_go.Session.Resolve.{
  StatelessHttpSession, Body, raw_bytes, as_object, object_field, text_or_empty,
  find_initialize_message, client_info_from_initialize, decode_stateless_body,
  resolve_stateless_http_session,
}

-- A call of the underlying `http.ResponseWriter`; that of `WriteHeader` with the Mcp-Session-Id
-- header that it sends.
pub data Call : Type 0 where
  sent_header : ℕ → Text → Call
  sent_body : Text → Call
  flushed : Call

-- `sessionHeaderResponseWriter`, the Mcp-Session-Id entry of its header map, empty where there is
-- none, and the calls of the underlying writer so far.
pub record Writer : Type 0 where
  pub session_id : Text
  pub wrote_header : Bool
  pub status : ℕ
  pub header : Text
  pub calls : List Call

abbrev pub new_writer : Text → Writer
new_writer id = record {
  session_id = id;
  wrote_header = false;
  status = 0;
  header = [];
  calls = [];
}

abbrev pub is_success : ℕ → Bool
is_success status = leb 200 status && ltb status 300

unfoldable pub commit_header : ℕ → Writer → Writer
commit_header status w =
    if not w.wrote_header
    then record w {
      wrote_header = true;
      status = status;
      header = if is_success status && is_empty w.header then w.session_id else w.header;
    }
    else w

abbrev pub log_call : Call → Writer → Writer
log_call call w = record w { calls = w.calls ++ call ∷ [] }

-- `WriteHeader`
unfoldable pub write_header : ℕ → Writer → Writer
write_header status w =
    let w' = commit_header status w in log_call (sent_header status w'.header) w'

-- The implicit status 200 of `Write` and `Flush`.
unfoldable pub ensure_header : Writer → Writer
ensure_header w = if not w.wrote_header then write_header 200 w else w

unfoldable pub write : Text → Writer → Writer
write p w = log_call (sent_body p) (ensure_header w)

-- `Flush`; the flag says if the underlying writer is a flusher.
unfoldable pub flush : Bool → Writer → Writer
flush flusher w = if not flusher then w else log_call flushed (ensure_header w)

unfoldable pub succeeded : Writer → Bool
succeeded w = not w.wrote_header || is_success w.status

-- What a handler does with its response writer.
pub data Act : Type 0 where
  -- it sets Mcp-Session-Id itself
  set_header : Text → Act
  act_header : ℕ → Act
  act_write : Text → Act
  act_flush : Act

unfoldable pub act : Bool → Act → Writer → Writer
act flusher (set_header id) w = record w { header = id }
act flusher (act_header status) w = write_header status w
act flusher (act_write p) w = write p w
act flusher act_flush w = flush flusher w

unfoldable pub serve : Bool → List Act → Writer → Writer
serve flusher [] w = w
serve flusher (a ∷ acts) w = serve flusher acts (act flusher a w)

-- The late attachment for a handler that has written nothing.
unfoldable pub attach_late : Writer → Writer
attach_late w =
    if not w.wrote_header && is_empty w.header then record w { header = w.session_id } else w

abbrev pub is_missing : Option Fields → Bool
is_missing none = true
is_missing (some m) = false

unfoldable pub full_client_info : Option ClientName → Text → Option Fields → Option ClientInfo
full_client_info none protocol_version capabilities =
    if is_empty protocol_version && is_missing capabilities
    then none
    else some (record {
      name = [];
      version = [];
      protocol_version = protocol_version;
      capabilities = capabilities;
    })
full_client_info (some info) protocol_version capabilities = some (record {
  name = info.name;
  version = info.version;
  protocol_version = protocol_version;
  capabilities = capabilities;
})

abbrev pub text_field_of : Text → Option Fields → Text
text_field_of key none = []
text_field_of key (some m) = text_or_empty (string_field key m)

unfoldable pub initialize_client_info : Option Fields → Option ClientInfo
initialize_client_info none = none
initialize_client_info (some initialize) =
    let params = object_field (bytes "params") (some initialize) in
    full_client_info (client_info_from_initialize initialize)
      (text_field_of (bytes "protocolVersion") params) (object_field (bytes "capabilities") params)

-- `sessionInitClientInfo`
unfoldable pub session_init_client_info : Option Value → Option ClientInfo
session_init_client_info body = initialize_client_info (find_initialize_message body)

-- What the middleware reads of a request: the body with a flag that says if it could be read to
-- its end, and its headers.
pub record Request : Type 0 where
  pub is_post : Bool
  pub body : Option (Text × Bool)
  pub seed : Text
  pub echo : Text
  pub workflow_run : Text

-- What the middleware passes to `RecordSessionInit`, less the actor and the time.
pub record SessionInit : Type 0 where
  pub session_id : Text
  pub client_info : Option ClientInfo
  pub workflow_run_id : Text

-- What has come of a request: the X-Armature-Stateless-Session-Id header that the handler has
-- seen, the Mcp-Session-Id entry at the end, the calls of the client's response writer, and the
-- session_init.
pub record Served : Type 0 where
  pub handed : Text
  pub header : Text
  pub calls : List Call
  pub recorded : Option SessionInit

-- A handler that has the response writer itself.
unfoldable pub serve_plain : Bool → List Act → Text → List Call → Served
serve_plain flusher [] header calls = record {
  handed = [];
  header = header;
  calls = calls;
  recorded = none;
}
serve_plain flusher (set_header id ∷ acts) header calls = serve_plain flusher acts id calls
serve_plain flusher (act_header status ∷ acts) header calls =
    serve_plain flusher acts header (calls ++ sent_header status header ∷ [])
serve_plain flusher (act_write p ∷ acts) header calls =
    serve_plain flusher acts header (calls ++ sent_body p ∷ [])
serve_plain flusher (act_flush ∷ acts) header calls =
    serve_plain flusher acts header (if flusher then calls ++ flushed ∷ [] else calls)

abbrev pub no_session : StatelessHttpSession
no_session = record { session_id = []; client_info = none; is_initialize = false }

-- The part of the middleware for a request with a session.
unfoldable pub serve_session :
    Bool → Bool → (Text → List Act) → Request → StatelessHttpSession → Option Value → Served
serve_session flusher has_recorder next req session body =
    let w = attach_late (serve flusher (next session.session_id) (new_writer session.session_id)) in
    record {
      handed = session.session_id;
      header = w.header;
      calls = w.calls;
      recorded =
          if has_recorder && (session.is_initialize && succeeded w)
          then some (record {
            session_id = session.session_id;
            client_info = session_init_client_info body;
            workflow_run_id = workflow_run_id req.workflow_run;
          })
          else none;
    }

module _ (unmarshal : Text → Option Value) where
  unfoldable pub resolve_body :
      Option (Text × Bool) → Request → (ℕ → ℕ) → StatelessHttpSession × Option Value
  resolve_body none req raw = (no_session, none)
  resolve_body (some (s, read_ok)) req raw = if not read_ok then (no_session, none) else (
    resolve_stateless_http_session unmarshal (raw_bytes s) req.seed req.echo raw,
    decode_stateless_body unmarshal (raw_bytes s),
  )

  -- `resolveWrappedStatelessRequest`
  unfoldable pub resolve_wrapped_stateless_request :
      Request → (ℕ → ℕ) → StatelessHttpSession × Option Value
  resolve_wrapped_stateless_request req raw =
      if not req.is_post then (no_session, none) else resolve_body req.body req raw

  -- The handler that `WrapStatelessHTTPHandler` returns, from the flags for a flusher and for a
  -- recorder that is not nil. A header that the client sends is not passed on.
  unfoldable pub wrap_stateless_http_handler :
      Bool → Bool → (Text → List Act) → Request → (ℕ → ℕ) → Served
  wrap_stateless_http_handler flusher has_recorder next req raw =
      let (session, body) = resolve_wrapped_stateless_request req raw in
      if is_empty session.session_id
      then serve_plain flusher (next []) [] []
      else serve_session flusher has_recorder next req session body
