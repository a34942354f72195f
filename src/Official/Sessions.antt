-- ===== src/Official/Sessions.antt =====
-- armatureanalytics/official/official.go: the sessions that the adapter remembers, and when it records a
-- session_init. A server session and a request are known by their identity.
use mcp_analytics_go.Prelude.{
  Bool, true, false, not, Option, none, some, List, [], ◌∷◌, Text, is_empty, if◌then◌else◌, Eq,
}
use mcp_analytics_go.Client.{ClientInfo}
use mcp_analytics_go.Session.{trim_space}

-- `sessionInfo`
pub record SessionInfo (S : Type 0) : Type 0 where
  pub client_info : Option ClientInfo
  pub analytics_session_id : Text
  pub emitted : Bool
  pub session : S

-- `Recorder.sessions`, a map with each key once.
abbrev pub Sessions : Type 0 → Type 0 → Type 0
Sessions K S = List (K × SessionInfo S)

-- The keys that `sessionKey` gives: an id, a session without one, or the request itself.
pub data Key (S R : Type 0) : Type 0 where
  id_key : Text → Key S R
  session_key : S → Key S R
  request_key : R → Key S R

-- What `sessionKey` reads of a request: its session with the session's id, and the header.
unfoldable pub session_key_of : {S R : Type 0} → Option (Text × S) → Text → R → Key S R
session_key_of none header req =
    let id = trim_space header in if not (is_empty id) then id_key id else request_key req
session_key_of (some (id, session)) header req =
    if not (is_empty id) then id_key id else session_key session

abbrev pub client_info_in : {S : Type 0} → Option (SessionInfo S) → Option ClientInfo
client_info_in none = none
client_info_in (some info) = info.client_info

abbrev pub already_emitted : {S : Type 0} → Option (SessionInfo S) → Bool
already_emitted none = false
already_emitted (some info) = info.emitted

abbrev pub fresh_info : {S : Type 0} → S → Text → Option ClientInfo → SessionInfo S
fresh_info session analytics_session_id info = record {
  client_info = info;
  analytics_session_id = analytics_session_id;
  emitted = true;
  session = session;
}

module _ {K S : Type 0} ⦃e : Eq K⦄ where
  unfoldable pub find_session : K → Sessions K S → Option (SessionInfo S)
  find_session key [] = none
  find_session key ((k, info) ∷ m) = if e.beq k key then some info else find_session key m

  unfoldable pub delete_session : K → Sessions K S → Sessions K S
  delete_session key [] = []
  delete_session key ((k, info) ∷ m) =
      let rest = delete_session key m in if e.beq k key then rest else (k, info) ∷ rest

  -- `clientInfo`
  unfoldable pub client_info_of : K → Sessions K S → Option ClientInfo
  client_info_of key m = client_info_in (find_session key m)

  -- `rememberSession`; a goroutine waits for the session that is remembered.
  unfoldable pub remember_session :
      K → Option S → Text → Option ClientInfo → Sessions K S → Sessions K S × Bool
  remember_session key none analytics_session_id info m = (m, true)
  remember_session key (some session) analytics_session_id info m =
      if already_emitted (find_session key m)
      then (m, false)
      else ((key, fresh_info session analytics_session_id info) ∷ delete_session key m, true)

  -- Whether a session_init is recorded, and with which session id, by `recordModernSessionInit`,
  unfoldable pub record_modern_session_init :
      (Text → K) → Text → Option S → Option ClientInfo → Sessions K S → Sessions K S × Bool
  record_modern_session_init key_of analytics_session_id session info m =
      if is_empty analytics_session_id
      then (m, false)
      else remember_session (key_of analytics_session_id) session analytics_session_id info m

module _ {K S : Type 0} ⦃e : Eq K⦄ ⦃f : Eq S⦄ where
  abbrev pub forget_if : Option (SessionInfo S) → K → S → Sessions K S → Sessions K S
  forget_if none key session m = m
  forget_if (some current) key session m =
      if f.beq current.session session then delete_session key m else m

  -- `forgetSessionWhenClosed`, once the session has ended.
  unfoldable pub forget_session_when_closed : K → S → Sessions K S → Sessions K S
  forget_session_when_closed key session m = forget_if (find_session key m) key session m
