-- ===== src/Official/Modern.antt =====
-- armatureanalytics/official/modern_protocol.go: what a request of the stateless protocol says of its
-- conversation and its client. `url.PathUnescape` and the decoding of an implementation are
-- parameters.
use mcp_analytics_go.Prelude.{
  ℕ, Bool, false, not, ◌&&◌, Option, none, some, List, [], ◌∷◌, ◌++◌, Text, bytes, is_empty,
  text_eq, ◌==◌, if◌then◌else◌,
}
use mcp_analytics_go.Json.{Value, Fields, lookup_field, string_field}
use mcp_analytics_go.Client.{ClientInfo}
use mcp_analytics_go.Session.{ClientName, trim_space}
use mcp_analytics_go.Sanitize.{text_before}
use mcp_analytics_go.Event.Prepare.{or_text}
use mcp_analytics_go.Event.Build.{has_fields}

unfoldable pub modern_protocol_version : Text
modern_protocol_version = bytes "2026-07-28"

unfoldable pub baggage_conversation_key : Text
baggage_conversation_key = bytes "gen_ai.conversation.id"

-- `strings.Split(s, ",")`
abbrev pub onto_first : Text → List Text → List Text
onto_first c [] = c ∷ []
onto_first c (member ∷ members) = (c ++ member) ∷ members

unfoldable pub split_commas : Text → List Text
split_commas [] = [] ∷ []
split_commas (c ∷ s) =
    let rest = split_commas s in if c == b',' then [] ∷ rest else onto_first (c ∷ []) rest

-- What stands before the first such byte, and after it, `strings.Cut`.
abbrev pub with_first : ℕ → Option (Text × Text) → Option (Text × Text)
with_first c none = none
with_first c (some (front, back)) = some (c ∷ front, back)

unfoldable pub cut_at : ℕ → Text → Option (Text × Text)
cut_at sep [] = none
cut_at sep (c ∷ s) = let rest = cut_at sep s in if c == sep then some ([], s) else with_first c rest

-- `if i := strings.IndexByte(member, ';'); i >= 0 { member = member[:i] }`
abbrev pub before_or_all : Option (Text × Text) → Text → Text
before_or_all none s = s
before_or_all (some (front, back)) s = front

module _ (path_unescape : Text → Option Text) where
  abbrev pub unescaped : Text → Text
  unescaped value = or_text (path_unescape value) value

  -- The value of a member with this name.
  unfoldable pub member_value : Text → Option (Text × Text) → Option Text
  member_value key none = none
  member_value key (some (name, value)) =
      if text_eq (trim_space name) key then some (unescaped (trim_space value)) else none

  abbrev pub first_or : Option Text → Text → Text
  first_or none rest = rest
  first_or (some value) rest = value

  unfoldable pub find_member : Text → List Text → Text
  find_member key [] = []
  find_member key (member ∷ members) =
      first_or (member_value key (cut_at b'=' (before_or_all (cut_at b';' member) member)))
        (find_member key members)

  -- `baggageMember`
  unfoldable pub baggage_member : Text → Text → Text
  baggage_member baggage key = find_member key (split_commas baggage)

  abbrev pub conversation_in : Option Text → Text
  conversation_in none = []
  conversation_in (some baggage) =
      if is_empty baggage then [] else baggage_member baggage baggage_conversation_key

  -- `conversationIDFromMeta`
  unfoldable pub conversation_id_from_meta : Fields → Text
  conversation_id_from_meta meta = conversation_in (string_field (bytes "baggage") meta)

-- `isModernRequest`, with the key of the protocol version.
abbrev pub is_modern : Option Text → Bool
is_modern none = false
is_modern (some version) = not (text_before version modern_protocol_version)

unfoldable pub is_modern_request : Text → Fields → Bool
is_modern_request version_key meta = is_modern (string_field version_key meta)

abbrev pub has_capabilities : Option Fields → Bool
has_capabilities none = false
has_capabilities (some capabilities) = has_fields capabilities

abbrev pub info_of : Text → Option ClientName → Option Fields → ClientInfo
info_of version none capabilities = record {
  name = [];
  version = [];
  protocol_version = version;
  capabilities = capabilities;
}
info_of version (some impl) capabilities = record {
  name = impl.name;
  version = impl.version;
  protocol_version = version;
  capabilities = capabilities;
}

-- `clientInfoFromParts`
unfoldable pub client_info_from_parts : Text → Option ClientName → Option Fields → Option ClientInfo
client_info_from_parts version impl capabilities =
    let info = info_of version impl capabilities in
    if is_empty info.name
      && is_empty info.version
      && is_empty info.protocol_version
      && not (has_capabilities info.capabilities)
    then none
    else some info

-- `requestMeta` gives the `_meta` of a request; a nil map has no fields. The keys of the slots and
-- the decoding of their values are those of the SDK.
module _ (version_key info_key capabilities_key : Text)
    (decode_implementation : Option Value → Option ClientName)
    (decode_to_map : Option Value → Option Fields) where
  -- `perRequestClientInfo`, for a request that is no tool call.
  unfoldable pub per_request_client_info : Fields → Option ClientInfo
  per_request_client_info meta =
      if not (has_fields meta)
      then none
      else client_info_from_parts (or_text (string_field version_key meta) [])
          (decode_implementation (lookup_field info_key meta))
          (decode_to_map (lookup_field capabilities_key meta))
