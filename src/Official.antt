-- ===== src/Official.antt =====
-- armatureanalytics/official/official.go: the session id that the adapter for the official SDK gives
-- to the events of a request. `strings.ToLower` and the id of the process are parameters.
pub mod Agree
pub mod Modern
pub mod Baggage
pub mod Capability
pub mod Finished
pub mod Sessions
pub mod Remembered
pub mod Arguments
use mcp_analytics_go.Prelude.{
  Bool, true, false, not, ◌&&◌, Option, none, some, Text, [], ◌∷◌, is_empty, if◌then◌else◌,
}
use mcp_analytics_go.Hints.{has_suffix}
use mcp_analytics_go.Session.{trim_space}

-- What `analyticsSessionID` reads: the conversation id of the baggage, the three headers, if there
-- are headers at all, and the SDK's session with its own id and the analytics id that the
-- recorder remembers for it.
pub record AdapterRequest : Type 0 where
  pub conversation_id : Text
  pub has_headers : Bool
  pub stateless_session : Text
  pub session_seed : Text
  pub mcp_session_id : Text
  pub session : Option (Text × Text)

module _ (lower : Text → Text) (process_scoped_session_id : Text) where
  -- The last two steps.
  unfoldable pub echoed_or_process : AdapterRequest → Text
  echoed_or_process req =
      let id = trim_space req.mcp_session_id in
      if not (is_empty id)
      then id
      else if not req.has_headers
      then process_scoped_session_id
      else []

  unfoldable pub from_session : Option (Text × Text) → AdapterRequest → Text
  from_session none req = echoed_or_process req
  from_session (some (id, remembered)) req =
      if not (is_empty id)
      then id
      else if not (is_empty remembered)
      then remembered
      else echoed_or_process req

  unfoldable pub from_seed : Text → AdapterRequest → Text
  from_seed seed req =
      let echoed = trim_space req.mcp_session_id in
      if not (is_empty seed)
      then (if not (is_empty echoed) && has_suffix (lower echoed) (b'_' ∷ lower seed)
          then echoed
          else seed)
      else from_session req.session req

  -- `analyticsSessionID`
  unfoldable pub analytics_session_id : AdapterRequest → Text
  analytics_session_id req =
      let id = trim_space req.stateless_session in
      if not (is_empty req.conversation_id)
      then req.conversation_id
      else if not (is_empty id)
      then id
      else from_seed (trim_space req.session_seed) req
