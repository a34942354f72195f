-- ===== src/Secrets/Paths.antt =====
-- armatureanalytics/secrets.go: what redaction leaves at each place of a value.
use mcp_analytics_go.Prelude.{
  ℕ, zero, suc, ◌≡◌, refl, ap, ◌∙◌, sym, inl, inr, Bool, true, false, ◌&&◌, Option, none, some,
  List, [], ◌∷◌, Text, text_eq, text_eq_iff, if◌then◌else◌, Bool-cases,
}
use mcp_analytics_go.Json.{
  Value, Items, Fields, null, boolean, number, json_number, string, array, object, no_items, item,
  no_fields, field, lookup_field,
}
use mcp_analytics_go.Secrets.{
  is_sensitive, is_string, sensitive_placeholder, redact_secrets_in_string, redact_secrets,
  redact_items, redact_fields,
}

pub data Step : Type 0 where
  key : Text → Step
  index : ℕ → Step

abbrev pub item_at : ℕ → Items → Option Value
item_at n no_items = none
item_at zero (item v items) = some v
item_at (suc n) (item v items) = item_at n items

abbrev pub step_into : Step → Value → Option Value
step_into (key k) (object fields) = lookup_field k fields
step_into (index n) (array items) = item_at n items
step_into _ _ = none

abbrev pub stepped : Step → Option Value → Option Value
stepped step none = none
stepped step (some v) = step_into step v

-- The value at the end of a path.
unfoldable pub value_at : List Step → Option Value → Option Value
value_at [] v = v
value_at (step ∷ path) v = value_at path (stepped step v)

value_at-none : (path : List Step) → value_at path none ≡ none
unfolding value_at
value_at-none [] = refl
value_at-none (step ∷ path) = value_at-none path

module _ (lower : Text → Text) (rules : List (Text → Text)) where
  -- The last step of a path, after an earlier one.
  abbrev pub last_is_sensitive : Bool → List Step → Bool
  last_is_sensitive earlier [] = earlier
  last_is_sensitive earlier (key k ∷ path) = last_is_sensitive (is_sensitive lower k) path
  last_is_sensitive earlier (index n ∷ path) = last_is_sensitive false path

  -- What becomes of a value, by whether its key is sensitive.
  abbrev under : Bool → Value → Value
  under sensitive v =
      if sensitive && is_string v
      then string sensitive_placeholder
      else redact_secrets lower rules v

  abbrev under_option : Bool → Option Value → Option Value
  under_option sensitive none = none
  under_option sensitive (some v) = some (under sensitive v)

  lookup_field-redact_fields :
      (k : Text) (m : Fields)
      → lookup_field k (redact_fields lower rules m)
        ≡ under_option (is_sensitive lower k) (lookup_field k m)
  unfolding lookup_field redact_secrets
  lookup_field-redact_fields k no_fields = refl
  lookup_field-redact_fields k (field j v m) = elim (Bool-cases (text_eq j k)) [
    | inl same ↦ rw (same, (text_eq_iff j k).0 same) refl
    | inr other ↦ rw other (lookup_field-redact_fields k m)
  ]

  item_at-redact_items :
      (n : ℕ) (items : Items)
      → item_at n (redact_items lower rules items) ≡ under_option false (item_at n items)
  unfolding redact_secrets
  item_at-redact_items n no_items = refl
  item_at-redact_items zero (item v items) = refl
  item_at-redact_items (suc n) (item v items) = item_at-redact_items n items

  abbrev step_is_sensitive : Step → Bool
  step_is_sensitive (key k) = is_sensitive lower k
  step_is_sensitive (index n) = false

  step_into-redact_secrets :
      (step : Step) (v : Value)
      → step_into step (redact_secrets lower rules v)
        ≡ under_option (step_is_sensitive step) (step_into step v)
  unfolding redact_secrets
  step_into-redact_secrets (key k) (object m) = lookup_field-redact_fields k m
  step_into-redact_secrets (index n) (array items) = item_at-redact_items n items
  step_into-redact_secrets (key k) null = refl
  step_into-redact_secrets (key k) (boolean b) = refl
  step_into-redact_secrets (key k) (number s) = refl
  step_into-redact_secrets (key k) (json_number s) = refl
  step_into-redact_secrets (key k) (string s) = refl
  step_into-redact_secrets (key k) (array items) = refl
  step_into-redact_secrets (index n) null = refl
  step_into-redact_secrets (index n) (boolean b) = refl
  step_into-redact_secrets (index n) (number s) = refl
  step_into-redact_secrets (index n) (json_number s) = refl
  step_into-redact_secrets (index n) (string s) = refl
  step_into-redact_secrets (index n) (object m) = refl

  step_into-under :
      (earlier : Bool) (step : Step) (v : Value)
      → step_into step (under earlier v) ≡ under_option (step_is_sensitive step) (step_into step v)
  step_into-under false step v = step_into-redact_secrets step v
  step_into-under true (key k) (string s) = refl
  step_into-under true (index n) (string s) = refl
  step_into-under true (key k) (json_number s) = refl
  step_into-under true (index n) (json_number s) = refl
  step_into-under true step null = step_into-redact_secrets step null
  step_into-under true step (boolean b) = step_into-redact_secrets step (boolean b)
  step_into-under true step (number n) = step_into-redact_secrets step (number n)
  step_into-under true step (array items) = step_into-redact_secrets step (array items)
  step_into-under true step (object m) = step_into-redact_secrets step (object m)

  last_is_sensitive-step :
      (earlier : Bool) (step : Step) (path : List Step)
      → last_is_sensitive earlier (step ∷ path) ≡ last_is_sensitive (step_is_sensitive step) path
  last_is_sensitive-step earlier (key k) path = refl
  last_is_sensitive-step earlier (index n) path = refl

  under_option-string :
      (earlier : Bool) (s : Text)
      → under_option earlier (some (string s))
        ≡ some
            (string (if earlier then sensitive_placeholder else redact_secrets_in_string rules s))
  unfolding redact_secrets
  under_option-string true s = refl
  under_option-string false s = refl

  value_at-under :
      (path : List Step) (earlier : Bool) (v : Option Value) (s : Text)
      → value_at path v ≡ some (string s)
      → value_at path (under_option earlier v)
        ≡ some (
            string (
              if last_is_sensitive earlier path
              then sensitive_placeholder
              else redact_secrets_in_string rules s))
  unfolding value_at
  value_at-under [] earlier v s h = ap (under_option earlier) h ∙ under_option-string earlier s
  value_at-under (step ∷ path) earlier none s h = let e = sym (value_at-none path) ∙ h in cc
  value_at-under (step ∷ path) earlier (some v) s h =
      rw (step_into-under earlier step v, last_is_sensitive-step earlier step path)
        (value_at-under path (step_is_sensitive step) (step_into step v) s h)

  -- Where a value has a string, at any depth of maps and lists, the redacted value has a string at
  -- the same place: the placeholder if the place is the entry of a sensitive key, and else the
  -- string with the rules applied in their order.
  pub value_at-redact_secrets :
      (path : List Step) (v : Value) (s : Text)
      → value_at path (some v) ≡ some (string s)
      → value_at path (some (redact_secrets lower rules v))
        ≡ some (
            string (
              if last_is_sensitive false path
              then sensitive_placeholder
              else redact_secrets_in_string rules s))
  value_at-redact_secrets path v s h = value_at-under path false (some v) s h
