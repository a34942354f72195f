-- ===== src/Tests/Sanitize.antt =====
-- armatureanalytics/sanitize.go: a blob in a list.
use mcp_analytics_go.Prelude.{
  [], ◌≤◌, ◌≡◌, refl, is_empty, text_eq, arith, false, Bool, Text, bytes,
}
use mcp_analytics_go.Json.{
  Value, string, array, object, item, no_items, field, no_fields, lookup_field,
}
use mcp_analytics_go.Sanitize.{
  sanitize_value, sanitization_budget, sort_keys, insert_field, text_before, is_binary_field,
}
use mcp_analytics_go.Sanitize.Budget.{size, sanitize_value_le}
use mcp_analytics_go.Sanitize.Small.{IsPlain, sanitize_value_small}

abbrev no_match : Text → Bool
no_match s = false

abbrev as_before : Text → Text
as_before s = s

abbrev attachment : Value
attachment = array (item (object (field (bytes "blob") (string (bytes "QUJD")) no_fields)) no_items)

sanitize_value_le_example :
    size (sanitize_value no_match as_before attachment) ≤ sanitization_budget
sanitize_value_le_example = sanitize_value_le no_match as_before attachment

abbrev answer : Value
answer = object (field (bytes "b") (string (bytes "x")) (field (bytes "a") (string []) no_fields))

sanitize_value_small_example : sanitize_value no_match as_before answer ≡ sort_keys answer
unfolding sort_keys insert_field text_before is_binary_field text_eq bytes lookup_field is_empty
    IsPlain size
sanitize_value_small_example =
    sanitize_value_small no_match as_before answer ((refl, omega arith, (refl, omega arith, tt)))
      (omega arith)
