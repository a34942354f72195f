-- ===== src/Secrets.antt =====
-- armatureanalytics/secrets.go: the redaction of secrets in decoded JSON. The regular expressions
-- of the rules and `strings.ToLower` are parameters.
pub mod Paths
use mcp_analytics_go.Prelude.{
  ℕ, Bool, true, false, ◌&&◌, ◌||◌, List, [], ◌∷◌, Text, bytes, text_eq, ◌==◌, if◌then◌else◌,
}
use mcp_analytics_go.Json.{
  Value, Items, Fields, null, boolean, number, json_number, string, array, object, no_items, item,
  no_fields, field,
}

unfoldable pub sensitive_field_names : List Text
sensitive_field_names =
    bytes "password"
    ∷ bytes "passwd"
    ∷ bytes "pwd"
    ∷ bytes "secret"
    ∷ bytes "apikey"
    ∷ bytes "accesskey"
    ∷ bytes "secretkey"
    ∷ bytes "secretaccesskey"
    ∷ bytes "token"
    ∷ bytes "accesstoken"
    ∷ bytes "refreshtoken"
    ∷ bytes "idtoken"
    ∷ bytes "sessiontoken"
    ∷ bytes "authorization"
    ∷ bytes "auth"
    ∷ bytes "clientsecret"
    ∷ bytes "privatekey"
    ∷ bytes "credential"
    ∷ bytes "credentials"
    ∷ bytes "connectionstring"
    ∷ bytes "databaseurl"
    ∷ bytes "dsn"
    ∷ []

unfoldable pub is_one_of : Text → List Text → Bool
is_one_of name [] = false
is_one_of name (n ∷ names) = text_eq name n || is_one_of name names

-- `strings.NewReplacer("_", "", "-", "").Replace`
unfoldable pub drop_separators : Text → Text
drop_separators [] = []
drop_separators (c ∷ s) =
    let rest = drop_separators s in if c == b'_' || c == b'-' then rest else c ∷ rest

-- `isReflectedString`, which holds of a `json.Number` too
abbrev pub is_string : Value → Bool
is_string (string s) = true
is_string (json_number n) = true
is_string _ = false

unfoldable pub sensitive_placeholder : Text
sensitive_placeholder = bytes "[redacted:sensitive-field]"

module _ (lower : Text → Text) where
  unfoldable pub normalize_sensitive_field_name : Text → Text
  normalize_sensitive_field_name key = drop_separators (lower key)

  unfoldable pub is_sensitive : Text → Bool
  is_sensitive key = is_one_of (normalize_sensitive_field_name key) sensitive_field_names

-- `RedactSecretsInString`, from the replacement that each rule makes, in the rules' order.
unfoldable pub redact_secrets_in_string : List (Text → Text) → Text → Text
redact_secrets_in_string [] value = value
redact_secrets_in_string (rule ∷ rules) value = redact_secrets_in_string rules (rule value)

module _ (lower : Text → Text) (rules : List (Text → Text)) where
  unfoldable mutual
    -- `redactSecrets` on the values that `encoding/json` decodes.
    pub redact_secrets : Value → Value
    redact_secrets null = null
    redact_secrets (boolean b) = boolean b
    redact_secrets (number n) = number n
    redact_secrets (json_number n) = json_number n
    redact_secrets (string s) = string (redact_secrets_in_string rules s)
    redact_secrets (array items) = array (redact_items items)
    redact_secrets (object fields) = object (redact_fields fields)

    pub redact_items : Items → Items
    redact_items no_items = no_items
    redact_items (item v items) = item (redact_secrets v) (redact_items items)

    pub redact_fields : Fields → Fields
    redact_fields no_fields = no_fields
    redact_fields (field name entry fields) =
        let redacted = redact_secrets entry in
        field name
          (if is_sensitive lower name && is_string entry
            then string sensitive_placeholder
            else redacted)
          (redact_fields fields)
