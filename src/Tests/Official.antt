-- ===== src/Tests/Official.antt =====
-- armatureanalytics/official/official.go: an initialize request behind the middleware.
use mcp_analytics_go.Prelude.{
  ℕ, ◌≡◌, refl, true, Option, none, some, List, [], ◌∷◌, Text, bytes, text_eq, arith,
}
use mcp_analytics_go.Json.{Value, Fields, string, object, field, no_fields, lookup_field}
use mcp_analytics_go.Session.{build_stateless_session_id}
use mcp_analytics_go.Session.Resolve.{
  client_info_from_initialize, find_initialize_message, find_in_items,
}
use mcp_analytics_go.Handler.{Act, act_header, Request, wrap_stateless_http_handler}
use mcp_analytics_go.Official.{AdapterRequest, analytics_session_id}
use mcp_analytics_go.Official.Agree.{analytics_session_id-wrap}

abbrev hello : Fields
hello = field (bytes "method") (string (bytes "initialize")) no_fields

abbrev hello_text : Text → Option Value
hello_text s = some (object hello)

abbrev hello_request : Request
hello_request = record {
  is_post = true;
  body = some ([], true);
  seed = bytes "seed";
  echo = [];
  workflow_run = [];
}

abbrev answers : Text → List Act
answers id = act_header 202 ∷ []

abbrev sevens_only : ℕ → ℕ
sevens_only i = 7

abbrev unchanged_case : Text → Text
unchanged_case s = s

abbrev behind : AdapterRequest
behind = record {
  conversation_id = [];
  has_headers = true;
  stateless_session =
      (wrap_stateless_http_handler hello_text true true answers hello_request sevens_only).handed;
  session_seed = bytes "seed";
  mcp_session_id = [];
  session = none;
}

analytics_session_id-wrap_example :
    analytics_session_id unchanged_case (bytes "process") behind
    ≡ build_stateless_session_id (client_info_from_initialize hello) (bytes "seed") sevens_only
unfolding find_initialize_message find_in_items lookup_field text_eq bytes
analytics_session_id-wrap_example =
    analytics_session_id-wrap unchanged_case (bytes "process") hello_text true answers hello_request
      sevens_only [] hello 202 behind refl refl refl refl refl (λ i. omega arith) refl refl
