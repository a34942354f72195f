-- ===== src/Tests/Session.antt =====
-- armatureanalytics/stateless_http.go: a named client.
use mcp_analytics_go.Prelude.{
  ℕ, ◌≡◌, refl, false, Option, none, [], Text, bytes, text_eq, is_empty, arith,
}
use mcp_analytics_go.Json.{Value, Fields, string, object, field, no_fields, null, lookup_field}
use mcp_analytics_go.Session.{
  ClientName, slug_session_part, or_fallback, trim_dashes, trim_left_dashes, slug_loop, slug_step,
  trim_space, trim_front, build_stateless_session_id,
}
use mcp_analytics_go.Session.RoundTrip.{expected_client}
use mcp_analytics_go.Session.Resolve.{
  decoded, find_initialize_message, find_in_items, client_info_from_initialize,
  decode_stateless_body, resolve_stateless_http_session,
}
use mcp_analytics_go.Session.Resolve.Echo.{resolve-echo}

abbrev browser : ClientName
browser = record { name = bytes "My Client!"; version = bytes "1.0" }

abbrev zeros : ℕ → ℕ
zeros i = 0

abbrev no_json : Text → Option Value
no_json s = none

abbrev start : Fields
start = field (bytes "method") (string (bytes "initialize")) (
    field (bytes "params")
      (object (
        field (bytes "clientInfo")
          (object (field (bytes "name") (string (bytes "My Client!")) no_fields)) no_fields))
      no_fields)

browser_name : slug_session_part (bytes " My  Client! ") [] ≡ bytes "My-Client"
unfolding slug_session_part or_fallback is_empty trim_dashes trim_left_dashes slug_loop slug_step
    trim_space trim_front bytes
browser_name = refl

resolve-echo_example :
    resolve_stateless_http_session no_json
      (decoded null)
      []
      (resolve_stateless_http_session no_json (decoded (object start)) [] [] zeros).session_id
      zeros
    ≡ record {
      session_id = build_stateless_session_id (client_info_from_initialize start) [] zeros;
      client_info = expected_client (client_info_from_initialize start);
      is_initialize = false;
    }
unfolding find_initialize_message find_in_items decode_stateless_body lookup_field text_eq bytes
resolve-echo_example =
    resolve-echo no_json (decoded (object start)) [] [] zeros start (decoded null) [] zeros refl
      refl (λ i. omega arith)
