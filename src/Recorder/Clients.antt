-- ===== src/Recorder/Clients.antt =====
-- armatureanalytics/recorder.go: the client that a tool call is attributed to.
use mcp_analytics_go.Prelude.{
  ℕ, ◌<◌, ◌≡◌, refl, ap, ◌∙◌, Bool, true, false, Option, none, some, [], Text, bytes, is_empty,
  text_eq,
}
use mcp_analytics_go.Json.{Fields, string, lookup_field}
use mcp_analytics_go.Client.{ClientInfo}
use mcp_analytics_go.Session.{
  ClientName, slug_session_part, anonymous_stateless_client, build_stateless_session_id,
  parse_stateless_session_client_info,
}
use mcp_analytics_go.Session.RoundTrip.{expected_client, parse-build}
use mcp_analytics_go.Session.Shape.{slug_session_part-nonempty}
use mcp_analytics_go.Event.{Env}
use mcp_analytics_go.Event.Prepare.{ToolCallInput, Candidate}
use mcp_analytics_go.Event.Build.{merge_client_info, tool_call_metadata, assemble_tool_call_event}
use mcp_analytics_go.Event.Limits.{lookup-put_same, lookup-put_text, lookup-put_capabilities}
use mcp_analytics_go.Recorder.{Config, fill_client_info_from_session_id, named_by, settled}

-- The client of a session id.
parse-named :
    (c : ClientName) (seed : Text) (raw : ℕ → ℕ)
    → ((i : ℕ) → raw i < 256)
    → text_eq (slug_session_part c.name anonymous_stateless_client) anonymous_stateless_client
      ≡ false
    → parse_stateless_session_client_info (build_stateless_session_id (some c) seed raw)
      ≡ some (record {
        name = slug_session_part c.name anonymous_stateless_client;
        version = slug_session_part c.version [];
      })
parse-named c seed raw h known =
    parse-build (some c) seed raw h ∙ unfold expected_client in rw known refl

-- A client that a request does not name.
abbrev pub is_nameless : Option ClientInfo → Bool
is_nameless none = true
is_nameless (some info) = is_empty info.name

-- The client that is found for it has the parsed name.
abbrev NamedBy : Text → Option ClientInfo → Type 0
NamedBy name info = (found : ClientInfo) × (info ≡ some found) × (found.name ≡ name)

fill-NamedBy :
    (info : Option ClientInfo) (session_id : Text) (parsed : ClientName)
    → is_nameless info ≡ true
    → parse_stateless_session_client_info session_id ≡ some parsed
    → NamedBy parsed.name (fill_client_info_from_session_id info session_id)
unfolding fill_client_info_from_session_id
fill-NamedBy none session_id parsed h found = (
  record {
    name = parsed.name;
    version = parsed.version;
    protocol_version = [];
    capabilities = none;
  },
  rw found refl,
  refl,
)
fill-NamedBy (some info) session_id parsed h found =
    (named_by info (some parsed), rw (h, found) refl, refl)

module _ {T D : Type 0} (env : Env T D) where
  lookup-merge_named :
      (info : ClientInfo) (m : Fields)
      → is_empty info.name ≡ false
      → lookup_field (bytes "client_name") (merge_client_info env (some info) m)
        ≡ some (string info.name)
  unfolding merge_client_info bytes text_eq
  lookup-merge_named info m named =
      let key = bytes "client_name" in
      lookup-put_capabilities env key info.capabilities _ refl
      ∙ lookup-put_text (bytes "protocol_version") key info.protocol_version _ refl
      ∙ lookup-put_text (bytes "client_version") key info.version _ refl
      ∙ rw named (lookup-put_same key (string info.name) m refl)

module _ {Ctx T D : Type 0} (env : Env T D) (cfg : Config Ctx D) (owned : Text → Bool) where
  -- The event of a tool call that names no client itself, and whose session id the package built
  -- for one, carries the slug of that client's name, unless the slug is "unknown", whatever the
  -- candidate and the random bytes of the event are. The random bytes of the session id have to
  -- be below 256.
  pub client_name-build :
      (input : ToolCallInput T) (ctx : Ctx) (candidate : Candidate D) (raw raw' : ℕ → ℕ)
      (c : ClientName) (seed : Text)
      → ((i : ℕ) → raw i < 256)
      → text_eq (slug_session_part c.name anonymous_stateless_client) anonymous_stateless_client
        ≡ false
      → is_nameless input.client_info ≡ true
      → input.session_id ≡ build_stateless_session_id (some c) seed raw
      → lookup_field
          (bytes "client_name")
          (assemble_tool_call_event env (settled cfg owned input ctx) candidate raw').metadata
        ≡ some (string (slug_session_part c.name anonymous_stateless_client))
  unfolding assemble_tool_call_event tool_call_metadata settled
  client_name-build input ctx candidate raw raw' c seed h known nameless id =
      let parsed = ap parse_stateless_session_client_info id ∙ parse-named c seed raw h known in
      let (info, found, named) =
        fill-NamedBy input.client_info input.session_id _ nameless parsed in
      let nonempty : is_empty info.name ≡ false = rw named (
        slug_session_part-nonempty c.name anonymous_stateless_client
          (unfold anonymous_stateless_client bytes is_empty in refl)) in
      rw found (lookup-merge_named env info _ nonempty ∙ ap (λ s. some (string s)) named)
