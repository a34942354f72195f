-- ===== src/Client.antt =====
-- armatureanalytics/event.go: the identity of a client, which all recording parts pass on.
use mcp_analytics_go.Prelude.{Option, Text}
use mcp_analytics_go.Json.{Fields}

-- `ClientInfo`
pub record ClientInfo : Type 0 where
  pub name : Text
  pub version : Text
  pub protocol_version : Text
  pub capabilities : Option Fields
