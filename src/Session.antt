-- ===== src/Session.antt =====
-- armatureanalytics/stateless_http.go and request.go: the session ids that carry the client's
-- identity. A Go regular expression of these files is the matcher of its pattern.
mod Space
pub mod Shape
pub mod RoundTrip
mod Uuid
pub mod Resolve
unfoldable pub use Space.{trim_front, trim_space}
pub use Space.{IsPlain, trim_space-plain}
use mcp_analytics_go.Prelude.{
  ℕ, zero, suc, ◌+◌, ◌-◌, ◌/◌, ◌%◌, Bool, true, false, not, ◌&&◌, ◌||◌, Option, none, some, List,
  [], ◌∷◌, ◌++◌, map, Text, bytes, is_empty, text_eq, length, ltb, leb, ◌==◌, if◌then◌else◌, ◌>>=◌,
}
use Prim.Native.Nat.{bit_and, bit_or}
use mathlib.Core.List.{reverse}

abbrev pub is_digit : ℕ → Bool
is_digit c = leb b'0' c && leb c b'9'

-- `[A-Za-z0-9.-]`
abbrev pub is_slug_char : ℕ → Bool
is_slug_char c =
    leb b'A' c && leb c b'Z'
    || (leb b'a' c && leb c b'z' || (is_digit c || (c == b'.' || c == b'-')))

abbrev pub is_lower_hex : ℕ → Bool
is_lower_hex c = is_digit c || leb b'a' c && leb c b'f'

abbrev pub is_hex : ℕ → Bool
is_hex c = is_lower_hex c || leb b'A' c && leb c b'F'

abbrev pub is_dash : ℕ → Bool
is_dash c = c == b'-'

-- A pattern with one test for each byte, `^...$`.
unfoldable pub matches : List (ℕ → Bool) → Text → Bool
matches [] [] = true
matches (p ∷ ps) (c ∷ s) = p c && matches ps s
matches _ _ = false

abbrev pub uuid_pattern : (ℕ → Bool) → (ℕ → Bool) → (ℕ → Bool) → List (ℕ → Bool)
uuid_pattern hex version variant =
    hex ∷ hex ∷ hex ∷ hex ∷ hex ∷ hex ∷ hex ∷ hex ∷ is_dash ∷ hex ∷ hex ∷ hex ∷ hex ∷ is_dash
    ∷ version ∷ hex ∷ hex ∷ hex ∷ is_dash ∷ variant ∷ hex ∷ hex ∷ hex ∷ is_dash ∷ hex ∷ hex ∷ hex
    ∷ hex ∷ hex ∷ hex ∷ hex ∷ hex ∷ hex ∷ hex ∷ hex ∷ hex ∷ []

abbrev pub is_version : ℕ → Bool
is_version c = leb b'1' c && leb c b'8'

abbrev pub is_variant : ℕ → Bool
is_variant c = c == b'8' || (c == b'9' || (c == b'a' || (c == b'b' || (c == b'A' || c == b'B'))))

-- `statelessSessionSeedRE`, and `workflowRunIDRE` of request.go, which is the same pattern.
unfoldable pub is_session_seed : Text → Bool
is_session_seed = matches (uuid_pattern is_hex is_version is_variant)

-- The UUID at the end of `statelessSessionIDRE`.
unfoldable pub is_session_uuid : Text → Bool
is_session_uuid = matches (uuid_pattern is_lower_hex is_lower_hex is_lower_hex)

-- `WorkflowRunIDFromHeaders`, on the value of its header.
unfoldable pub workflow_run_id : Text → Text
workflow_run_id header =
    let value = trim_space header in if not (is_session_seed value) then [] else value

pub record ClientName : Type 0 where
  pub name : Text
  pub version : Text

-- `strings.ToLower`; a letter outside ASCII has no lower case that the seed pattern accepts.
unfoldable pub to_lower : Text → Text
to_lower = map (λ c. if leb b'A' c && leb c b'Z' then c + 32 else c)

-- `strings.Trim(s, "-")`
unfoldable pub trim_left_dashes : Text → Text
trim_left_dashes [] = []
trim_left_dashes (c ∷ s) = let rest = trim_left_dashes s in if is_dash c then rest else c ∷ s

unfoldable pub trim_dashes : Text → Text
trim_dashes s = reverse (trim_left_dashes (reverse (trim_left_dashes s)))

-- One character in the loop of `slugSessionPart`: the output and `lastDash`.
unfoldable pub slug_step : ℕ → Text → Bool → Text × Bool
slug_step c out last_dash =
    if is_slug_char c
    then (out ++ c ∷ [], is_dash c)
    else if ltb 0 (length out) && not last_dash
    then (out ++ b'-' ∷ [], true)
    else (out, last_dash)

-- The loop. It goes byte by byte: of a character outside ASCII the first byte acts as the
-- character does, and the others change nothing.
unfoldable pub slug_loop : Text → Text → Bool → Text
slug_loop [] out last_dash = out
slug_loop (c ∷ value) out last_dash =
    let (out', last_dash') = slug_step c out last_dash in
    let rest = slug_loop value out' last_dash' in if leb 48 (length out') then out' else rest

unfoldable pub or_fallback : Text → Text → Text
or_fallback result fallback = if is_empty result then fallback else result

unfoldable pub slug_session_part : Text → Text → Text
slug_session_part value fallback =
    or_fallback (trim_dashes (slug_loop (trim_space value) [] false)) fallback

abbrev pub hex_digit : ℕ → ℕ
hex_digit n = if ltb n 10 then b'0' + n else 87 + n

-- `hex.Encode` of a number of bytes from an index on.
unfoldable pub hex_encode : (ℕ → ℕ) → ℕ → ℕ → Text
hex_encode raw from zero = []
hex_encode raw from (suc n) =
    hex_digit (raw from / 16) ∷ hex_digit (raw from % 16) ∷ hex_encode raw (suc from) n

unfoldable pub stamp_uuid : (ℕ → ℕ) → ℕ → ℕ
stamp_uuid raw i =
    if i == 6
    then bit_or (bit_and (raw 6) 0x0f) 0x40
    else if i == 8
    then bit_or (bit_and (raw 8) 0x3f) 0x80
    else raw i

-- `randomUUID`, from the random bytes.
unfoldable pub random_uuid : (ℕ → ℕ) → Text
random_uuid raw =
    let stamped = stamp_uuid raw in
    hex_encode stamped 0 4
    ++ b'-' ∷ hex_encode stamped 4 2
    ++ b'-' ∷ hex_encode stamped 6 2
    ++ b'-' ∷ hex_encode stamped 8 2
    ++ b'-' ∷ hex_encode stamped 10 6

unfoldable pub anonymous_stateless_client : Text
anonymous_stateless_client = bytes "unknown"

unfoldable pub session_name : Option ClientName → Text
session_name none = anonymous_stateless_client
session_name (some c) = slug_session_part c.name anonymous_stateless_client

unfoldable pub session_version : Option ClientName → Text
session_version none = []
session_version (some c) = slug_session_part c.version []

unfoldable pub session_uuid : Text → (ℕ → ℕ) → Text
session_uuid session_seed raw =
    let seed = to_lower (trim_space session_seed) in
    if not (is_session_seed seed) then random_uuid raw else seed

unfoldable pub session_id_of : Text → Text → Text → Text
session_id_of name version uuid =
    bytes "mcp_" ++ (name ++ (bytes "_v_" ++ (version ++ (bytes "_" ++ uuid))))

-- `buildStatelessSessionID`
unfoldable pub build_stateless_session_id : Option ClientName → Text → (ℕ → ℕ) → Text
build_stateless_session_id client_info session_seed raw =
    session_id_of (session_name client_info) (session_version client_info)
      (session_uuid session_seed raw)

unfoldable pub strip_prefix : Text → Text → Option Text
strip_prefix [] s = some s
strip_prefix (p ∷ ps) [] = none
strip_prefix (p ∷ ps) (c ∷ s) = let rest = strip_prefix ps s in if p == c then rest else none

-- The longest run of slug characters, and what follows it.
unfoldable pub span_slug : Text → Text × Text
span_slug [] = ([], [])
span_slug (c ∷ s) =
    let (run, rest) = span_slug s in if is_slug_char c then (c ∷ run, rest) else ([], c ∷ s)

-- `statelessSessionIDRE`. No group can hold the underscore that ends it, so that each is the
-- longest run.
unfoldable pub match_session_id : Text → Option ClientName
match_session_id session_id = do
  named ← strip_prefix (bytes "mcp_") session_id
  let (name, after_name) = span_slug named
  versioned ← strip_prefix (bytes "_v_") after_name
  let (version, after_version) = span_slug versioned
  uuid ← strip_prefix (bytes "_") after_version
  if not (is_empty name) && is_session_uuid uuid
      then some (record { name = name; version = version })
      else none

unfoldable pub named_client : Option ClientName → Option ClientName
named_client none = none
named_client (some c) = if text_eq c.name anonymous_stateless_client then none else some c

-- `ParseStatelessSessionClientInfo`
unfoldable pub parse_stateless_session_client_info : Text → Option ClientName
parse_stateless_session_client_info session_id = named_client (match_session_id session_id)
