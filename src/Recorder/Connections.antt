-- ===== src/Recorder/Connections.antt =====
-- armatureanalytics/recorder.go: the hooks around a session, with the client that is remembered for it.
-- A key is a session's id, or the session where it has none; `is_shared` is `isEmptySessionKey`.
pub mod Dedup
use mcp_analytics_go.Prelude.{
  ℕ, Bool, true, false, not, Option, none, some, List, [], ◌∷◌, if◌then◌else◌, Eq, ◌>>=◌,
}
use mcp_analytics_go.Client.{ClientInfo}
use mcp_analytics_go.KeySet.{BoundedKeySet, add, delete, new_bounded_key_set}

-- `sessionInfo` and `emittedSession` of the recorder.
pub record Connections (K : Type 0) : Type 0 where
  pub session_info : List (K × ClientInfo)
  pub emitted_session : BoundedKeySet K

unfoldable pub new_connections : {K : Type 0} → Connections K
new_connections = record { session_info = []; emitted_session = new_bounded_key_set 10000 }

module _ {K : Type 0} ⦃e : Eq K⦄ where
  unfoldable pub find_info : K → List (K × ClientInfo) → Option ClientInfo
  find_info key [] = none
  find_info key ((k, info) ∷ m) = if e.beq k key then some info else find_info key m

  unfoldable pub delete_info : K → List (K × ClientInfo) → List (K × ClientInfo)
  delete_info key [] = []
  delete_info key ((k, info) ∷ m) =
      let rest = delete_info key m in if e.beq k key then rest else (k, info) ∷ rest

module _ {K : Type 0} ⦃e : Eq K⦄ (is_shared : K → Bool) where
  -- `if !isEmptySessionKey(sessionKey) { r.sessionInfo.Store(sessionKey, info) }`
  unfoldable pub store_info : K → ClientInfo → List (K × ClientInfo) → List (K × ClientInfo)
  store_info key info m = if is_shared key then m else (key, info) ∷ delete_info key m

  -- `onAfterInitialize` of an active recorder: whether it calls `RecordSessionInit`.
  -- `none` is a panic.
  unfoldable pub on_after_initialize :
      K → ClientInfo → Connections K → Option (Connections K × Bool)
  on_after_initialize key info c = do
    (emitted, fresh) ← add key c.emitted_session
    some (
      record { session_info = store_info key info c.session_info; emitted_session = emitted },
      fresh,
    )

  -- `clientInfoFor`
  unfoldable pub client_info_for : K → Connections K → Option ClientInfo
  client_info_for key c = if is_shared key then none else find_info key c.session_info

module _ {K : Type 0} ⦃e : Eq K⦄ where
  -- `onUnregisterSession`
  unfoldable pub on_unregister_session : K → Connections K → Connections K
  on_unregister_session key c = record {
    session_info = delete_info key c.session_info;
    emitted_session = delete key c.emitted_session;
  }
