-- ===== src/Tests/Adapter.antt =====
-- armatureanalytics/official/official.go and recorder.go: a feedback call that panics, and two connections.
use mcp_analytics_go.Prelude.{
  ℕ, ◌≡◌, refl, Bool, not, ◌==◌, if◌then◌else◌, arith, true, false, none, some, List, [], ◌∷◌,
  bytes, nat_is_eq,
}
use mcp_analytics_go.Client.{ClientInfo}
use mcp_analytics_go.KeySet.{new_bounded_key_set}
use mcp_analytics_go.KeySet.Window.{new_bounded_key_set-IsValid}
use mcp_analytics_go.Recorder.Connections.{
  Connections, find_info, on_after_initialize, client_info_for, on_unregister_session,
}
use mcp_analytics_go.Recorder.Connections.Dedup.{on_after_initialize-on_unregister_session}
use mcp_analytics_go.Lifecycle.Balance.{}
use mcp_analytics_go.Lifecycle.Totals.{total}
use mcp_analytics_go.Official.Capability.{FeedbackCall, middleware_call}
use mcp_analytics_go.Official.Finished.{effect_for, made_for, middleware_call-finishes}
use mcp_analytics_go.Official.Sessions.{Sessions, find_session, fresh_info, remember_session}
use mcp_analytics_go.Official.Remembered.{
  SessionTurn, remember, ended, session_turns, remember_session-session_turns,
}

abbrev two_calls : List FeedbackCall
two_calls =
    record { reserved = some 3; capability = bytes "Export a report." }
    ∷ record { reserved = some 4; capability = [] }
    ∷ []

middleware_call-finishes_example :
    total (effect_for 3) (middleware_call two_calls false true) ≡ total (made_for 3) two_calls
middleware_call-finishes_example = middleware_call-finishes 3 two_calls false true

abbrev no_sessions : Sessions ℕ ℕ
no_sessions = []

-- Another connection comes and goes, and an older one of this key ends.
abbrev other_turns : List (SessionTurn ℕ ℕ)
other_turns = remember 2 (some 20) (bytes "b") none ∷ ended 2 20 ∷ ended 1 9 ∷ []

remember_session-session_turns_example :
    (find_session 1
        (session_turns other_turns (remember_session 1 (some 10) (bytes "a") none no_sessions).0)
      ≡ some (fresh_info 10 (bytes "a") none))
    × (remember_session 1
          (some 11)
          (bytes "c")
          none
          (session_turns other_turns (remember_session 1 (some 10) (bytes "a") none no_sessions).0)
        ≡ (
          session_turns other_turns (remember_session 1 (some 10) (bytes "a") none no_sessions).0,
          false,
        ))
unfolding remember_session find_session
remember_session-session_turns_example =
    remember_session-session_turns 1 10 11 (bytes "a") (bytes "c") none none no_sessions other_turns
      refl refl

abbrev editor_info : ClientInfo
editor_info = record {
  name = bytes "editor";
  version = [];
  protocol_version = [];
  capabilities = none;
}

-- A recorder that has seen one session.
abbrev one_connection : Connections ℕ
one_connection = record {
  session_info = (1, editor_info) ∷ [];
  emitted_session = new_bounded_key_set 2;
}

abbrev none_shared : ℕ → Bool
none_shared key = false

on_after_initialize-on_unregister_session_example :
    (d d' : Connections ℕ) × (on_after_initialize none_shared 1 editor_info one_connection
      ≡ some (d, not (one_connection.emitted_session.keys 1)))
    × (on_after_initialize none_shared 1 editor_info (on_unregister_session 1 one_connection)
        ≡ some (d', true))
    × (client_info_for none_shared 1 d' ≡ some editor_info)
    × ((j : ℕ)
        → client_info_for none_shared j d' ≡ (
            if none_shared j
            then none
            else if 1 == j
            then some editor_info
            else find_info j one_connection.session_info))
on_after_initialize-on_unregister_session_example =
    on_after_initialize-on_unregister_session none_shared 1 editor_info one_connection
      (new_bounded_key_set-IsValid 2 (omega arith)) refl
