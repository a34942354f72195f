-- ===== src/Session/Resolve.antt =====
-- armatureanalytics/stateless_http.go: the session that a stateless request belongs to.
pub mod Echo
use mcp_analytics_go.Prelude.{
  ℕ, Bool, true, false, Option, none, some, [], Text, bytes, is_empty, text_eq, if◌then◌else◌,
}
use mcp_analytics_go.Json.{
  Value, Items, Fields, array, object, no_items, item, lookup_field, string_field,
}
use mcp_analytics_go.Session.{
  ClientName, build_stateless_session_id, parse_stateless_session_client_info, trim_space,
}

-- `StatelessHTTPSession`
pub record StatelessHttpSession : Type 0 where
  pub session_id : Text
  pub client_info : Option ClientName
  pub is_initialize : Bool

-- The body of `StatelessHTTPInput`: decoded JSON, or the bytes.
pub data Body : Type 0 where
  decoded : Value → Body
  raw_bytes : Text → Body

-- `message.(map[string]any)`
abbrev pub as_object : Option Value → Option Fields
as_object (some (object m)) = some m
as_object _ = none

abbrev pub is_initialize_method : Option Text → Bool
is_initialize_method none = false
is_initialize_method (some method) = text_eq method (bytes "initialize")

abbrev pub object_field : Text → Option Fields → Option Fields
object_field key none = none
object_field key (some m) = as_object (lookup_field key m)

abbrev pub text_or_empty : Option Text → Text
text_or_empty none = []
text_or_empty (some s) = s

abbrev pub initialize_or : Option Fields → Option Fields → Option Fields
initialize_or none rest = rest
initialize_or (some m) rest =
    if is_initialize_method (string_field (bytes "method") m) then some m else rest

-- The loop of `findInitializeMessage`.
unfoldable pub find_in_items : Items → Option Fields
find_in_items no_items = none
find_in_items (item message messages) =
    initialize_or (as_object (some message)) (find_in_items messages)

-- `findInitializeMessage`
unfoldable pub find_initialize_message : Option Value → Option Fields
find_initialize_message none = none
find_initialize_message (some (array messages)) = find_in_items messages
find_initialize_message (some body) = find_in_items (item body no_items)

abbrev pub named : Option Fields → Option ClientName
named none = none
named (some info) = some (record {
  name = text_or_empty (string_field (bytes "name") info);
  version = text_or_empty (string_field (bytes "version") info);
})

-- `clientInfoFromInitialize`
unfoldable pub client_info_from_initialize : Fields → Option ClientName
client_info_from_initialize message =
    named (object_field (bytes "clientInfo") (object_field (bytes "params") (some message)))

-- The rest of `ResolveStatelessHTTPSession`, from the message that was found, the two headers
-- and the random bytes.
unfoldable pub resolve_message : Option Fields → Text → Text → (ℕ → ℕ) → StatelessHttpSession
resolve_message (some initialize) seed echo raw = record {
  session_id = build_stateless_session_id (client_info_from_initialize initialize) seed raw;
  client_info = none;
  is_initialize = true;
}
resolve_message none seed echo raw =
    let session_id = trim_space echo in
    if is_empty session_id
    then record { session_id = []; client_info = none; is_initialize = false }
    else record {
      session_id = session_id;
      client_info = parse_stateless_session_client_info session_id;
      is_initialize = false;
    }

-- `json.Unmarshal` into `any` is a parameter: `none` is an error.
module _ (unmarshal : Text → Option Value) where
  -- `decodeStatelessBody`; bytes that are no JSON are no message.
  unfoldable pub decode_stateless_body : Body → Option Value
  decode_stateless_body (decoded value) = some value
  decode_stateless_body (raw_bytes s) = unmarshal s

  -- `ResolveStatelessHTTPSession`
  unfoldable pub resolve_stateless_http_session :
      Body → Text → Text → (ℕ → ℕ) → StatelessHttpSession
  resolve_stateless_http_session body seed echo raw =
      resolve_message (find_initialize_message (decode_stateless_body body)) seed echo raw
