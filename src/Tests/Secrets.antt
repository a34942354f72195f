-- ===== src/Tests/Secrets.antt =====
-- armatureanalytics/secrets.go: a password in a list of maps.
use mcp_analytics_go.Prelude.{
  ◌≡◌, refl, false, some, List, [], ◌∷◌, Text, bytes, if◌then◌else◌, text_eq,
}
use mcp_analytics_go.Json.{
  Value, string, array, object, item, no_items, field, no_fields, lookup_field,
}
use mcp_analytics_go.Secrets.{redact_secrets, redact_secrets_in_string, sensitive_placeholder}
use mcp_analytics_go.Secrets.Paths.{
  Step, key, index, value_at, last_is_sensitive, value_at-redact_secrets,
}

abbrev unchanged : Text → Text
unchanged s = s

abbrev starred : Text → Text
starred s = bytes "*"

abbrev logins : Value
logins = array (item (object (field (bytes "pass-word") (string (bytes "x")) no_fields)) no_items)

abbrev first_login : List Step
first_login = index 0 ∷ key (bytes "pass-word") ∷ []

value_at-redact_secrets_example :
    value_at first_login (some (redact_secrets unchanged (starred ∷ []) logins))
    ≡ some (
        string (
          if last_is_sensitive unchanged (starred ∷ []) false first_login
          then sensitive_placeholder
          else redact_secrets_in_string (starred ∷ []) (bytes "x")))
unfolding value_at lookup_field text_eq bytes
value_at-redact_secrets_example =
    value_at-redact_secrets unchanged (starred ∷ []) first_login logins (bytes "x") refl
