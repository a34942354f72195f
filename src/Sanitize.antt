-- ===== src/Sanitize.antt =====
-- armatureanalytics/sanitize.go: the removal of binary payloads from decoded JSON, and the budget for
-- what is copied. The two regular expressions are parameters.
pub mod Budget
pub mod Small
use mcp_analytics_go.Prelude.{
  ℕ, ◌+◌, ◌-◌, Bool, true, false, not, ◌&&◌, ◌||◌, Option, none, some, Text, [], ◌∷◌, bytes,
  text_eq, length, ltb, leb, ◌==◌, is_empty, if◌then◌else◌,
}
use mcp_analytics_go.Json.{
  Value, Items, Fields, null, boolean, number, json_number, string, array, object, no_items, item,
  no_fields, field, lookup_field,
}
use mcp_analytics_go.Truncate.{truncate_utf8}

abbrev pub sanitization_budget : ℕ
sanitization_budget = 65536

unfoldable pub binary_removed_placeholder : Text
binary_removed_placeholder = bytes "[binary removed]"

unfoldable pub base64_removed_placeholder : Text
base64_removed_placeholder = bytes "[base64 removed]"

-- `strings.HasPrefix` and `strings.Contains`
unfoldable pub has_prefix : Text → Text → Bool
has_prefix s [] = true
has_prefix [] (p ∷ ps) = false
has_prefix (c ∷ s) (p ∷ ps) = c == p && has_prefix s ps

unfoldable pub contains_text : Text → Text → Bool
contains_text [] part = is_empty part
contains_text (c ∷ s) part = has_prefix (c ∷ s) part || contains_text s part

-- The order of strings, byte by byte.
unfoldable pub text_before : Text → Text → Bool
text_before s [] = false
text_before [] (d ∷ t) = true
text_before (c ∷ s) (d ∷ t) = ltb c d || c == d && text_before s t

unfoldable pub insert_field : Text → Value → Fields → Fields
insert_field k v no_fields = field k v no_fields
insert_field k v (field j w m) =
    let later = insert_field k v m in
    if text_before j k then field j w later else field k v (field j w m)

-- `sort.Slice` of the keys, at every map of a value.
unfoldable mutual
  pub sort_keys : Value → Value
  sort_keys null = null
  sort_keys (boolean b) = boolean b
  sort_keys (number n) = number n
  sort_keys (json_number n) = json_number n
  sort_keys (string s) = string s
  sort_keys (array items) = array (sort_items items)
  sort_keys (object fields) = object (sort_fields fields)

  pub sort_items : Items → Items
  sort_items no_items = no_items
  sort_items (item v items) = item (sort_keys v) (sort_items items)

  pub sort_fields : Fields → Fields
  sort_fields no_fields = no_fields
  sort_fields (field k v m) = insert_field k (sort_keys v) (sort_fields m)

-- `reflectedString`, which reads a `json.Number` as its literal; none is a missing entry.
abbrev pub reflected_string : Option Value → Text
reflected_string (some (string s)) = s
reflected_string (some (json_number n)) = n
reflected_string _ = []

-- `isBinaryField`
unfoldable pub is_binary_field : Text → Text → Value → Bool
is_binary_field key object_type v =
    not (is_empty (reflected_string (some v)))
    && (text_eq key (bytes "blob")
        || text_eq key (bytes "data")
          && (text_eq object_type (bytes "image") || text_eq object_type (bytes "audio")))

unfoldable pub first_cut : Text → ℕ → Text
first_cut value remaining =
    if ltb remaining (length value) then (truncate_utf8 value remaining).0 else value

-- The end of `sanitizeString`: the string, and what remains.
unfoldable pub retain : Text → ℕ → Text × ℕ
retain value remaining =
    if leb (length value) remaining
    then (value, remaining - length value)
    else ((truncate_utf8 value remaining).0, 0)

abbrev pub string_entry : Text × ℕ → Value × ℕ
string_entry r = (string r.0, r.1)

-- `base64PayloadPattern.MatchString` and `embeddedBase64Pattern.ReplaceAllString` with the
-- placeholder.
module _ (matches_payload : Text → Bool) (replace_embedded : Text → Text) where
  unfoldable pub is_base64_payload : Text → Bool
  is_base64_payload value =
      leb 64 (length value)
        && (has_prefix value (bytes "data:") && contains_text value (bytes ";base64,"))
      || leb 512 (length value) && matches_payload value

  unfoldable pub replace_payloads : Text → Text
  replace_payloads value =
      if is_base64_payload value
      then base64_removed_placeholder
      else if leb 512 (length value)
      then replace_embedded value
      else value

  unfoldable pub sanitize_string : Text → ℕ → Text × ℕ
  sanitize_string value remaining = retain (replace_payloads (first_cut value remaining)) remaining

  -- `sanitize`, `sanitizeList` and `sanitizeMap`, from what remains of the budget to what is then
  -- left. A charge that does not fit ends the loop and the budget.
  unfoldable mutual
    pub sanitize : Value → ℕ → Value × ℕ
    sanitize null remaining = (null, remaining)
    sanitize (boolean b) remaining = (boolean b, remaining)
    sanitize (number n) remaining = (number n, remaining)
    sanitize (json_number n) remaining = (json_number n, remaining)
    sanitize (string s) remaining = string_entry (sanitize_string s remaining)
    sanitize (array items) remaining = let r = sanitize_list items remaining in (array r.0, r.1)
    sanitize (object fields) remaining =
        let r =
          sanitize_map (reflected_string (lookup_field (bytes "type") fields)) fields remaining in
        (object r.0, r.1)

    pub sanitize_list : Items → ℕ → Items × ℕ
    sanitize_list no_items remaining = (no_items, remaining)
    sanitize_list (item v items) remaining =
        let entry = sanitize v (remaining - 2) in
        let rest = sanitize_list items entry.1 in
        if ltb remaining 2
        then (no_items, 0)
        else if entry.1 == 0
        then (item entry.0 no_items, 0)
        else (item entry.0 rest.0, rest.1)

    pub sanitize_map : Text → Fields → ℕ → Fields × ℕ
    sanitize_map object_type no_fields remaining = (no_fields, remaining)
    sanitize_map object_type (field key v fields) remaining =
        let kept = sanitize v (remaining - (length key + 2)) in
        let entry =
          if is_binary_field key object_type v
          then string_entry
              (sanitize_string binary_removed_placeholder (remaining - (length key + 2)))
          else kept in
        let rest = sanitize_map object_type fields entry.1 in
        if ltb remaining (length key + 2)
        then (no_fields, 0)
        else if entry.1 == 0
        then (field key entry.0 no_fields, 0)
        else (field key entry.0 rest.0, rest.1)

  -- `SanitizeValue`
  unfoldable pub sanitize_value : Value → Value
  sanitize_value value = (sanitize (sort_keys value) sanitization_budget).0
