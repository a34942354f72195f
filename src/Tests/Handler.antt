-- ===== src/Tests/Handler.antt =====
-- armatureanalytics/stateless_http_handler.go: an initialize request that is answered.
use mcp_analytics_go.Prelude.{
  ℕ, ◌≡◌, refl, true, ◌&&◌, Option, none, some, List, [], ◌∷◌, Text, bytes, text_eq, if◌then◌else◌,
}
use mcp_analytics_go.Json.{Value, Fields, string, object, field, no_fields, lookup_field}
use mcp_analytics_go.Session.{workflow_run_id, build_stateless_session_id}
use mcp_analytics_go.Session.Resolve.{
  StatelessHttpSession, client_info_from_initialize, find_initialize_message, find_in_items,
}
use mcp_analytics_go.Handler.{
  Act, act_header, act_write, act_flush, Request, sent_header, serve_session,
  wrap_stateless_http_handler, initialize_client_info, session_init_client_info,
}
use mcp_analytics_go.Handler.Commit.{
  first_call, attached, committed, commits_success, serve_session-first,
}
use mcp_analytics_go.Handler.Wrap.{wrap-initialize}

abbrev opening : Fields
opening = field (bytes "method") (string (bytes "initialize")) no_fields

abbrev opening_text : Text → Option Value
opening_text s = some (object opening)

abbrev opening_request : Request
opening_request = record {
  is_post = true;
  body = some ([], true);
  seed = [];
  echo = [];
  workflow_run = [];
}

abbrev streaming : Text → List Act
streaming id = act_flush ∷ act_write (bytes "x") ∷ act_header 500 ∷ []

abbrev known : StatelessHttpSession
known = record { session_id = bytes "s"; client_info = none; is_initialize = true }

abbrev all_zero : ℕ → ℕ
all_zero i = 0

serve_session-first_example :
    (first_call (serve_session true true streaming opening_request known none).calls
      ≡ attached (bytes "s") (committed true (streaming (bytes "s")) []))
    × ((serve_session true true streaming opening_request known none).recorded ≡ (
        if true && (true && commits_success (committed true (streaming (bytes "s")) []))
        then some (record {
          session_id = (serve_session true true streaming opening_request known none).handed;
          client_info = session_init_client_info none;
          workflow_run_id = workflow_run_id [];
        })
        else none))
serve_session-first_example = serve_session-first true true streaming opening_request known none

wrap-initialize_example :
    ((wrap_stateless_http_handler opening_text true true streaming opening_request all_zero).handed
      ≡ build_stateless_session_id (client_info_from_initialize opening) [] all_zero)
    × (first_call
          (wrap_stateless_http_handler opening_text true true streaming opening_request
            all_zero).calls
        ≡ some (
            sent_header 200
              (build_stateless_session_id (client_info_from_initialize opening) [] all_zero)))
    × ((wrap_stateless_http_handler opening_text true true streaming opening_request
          all_zero).recorded
        ≡ some (record {
          session_id = build_stateless_session_id (client_info_from_initialize opening) [] all_zero;
          client_info = initialize_client_info (some opening);
          workflow_run_id = workflow_run_id [];
        }))
unfolding find_initialize_message find_in_items lookup_field text_eq bytes
wrap-initialize_example =
    wrap-initialize opening_text true streaming opening_request all_zero [] opening 200 refl refl
      refl refl refl
