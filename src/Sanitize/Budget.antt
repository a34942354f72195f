-- ===== src/Sanitize/Budget.antt =====
-- armatureanalytics/sanitize.go: what is copied stays within the budget.
use mcp_analytics_go.Prelude.{
  ℕ, zero, suc, ◌+◌, ◌-◌, ◌≤◌, Bool, Text, length, length-take, ltb, leb, ◌==◌, leb→le,
  if◌then◌else◌, if_cases, arith,
}
use mcp_analytics_go.Json.{
  Value, Items, Fields, null, boolean, number, json_number, string, array, object, no_items, item,
  no_fields, field,
}
use mcp_analytics_go.Truncate.{walk_back, truncate_utf8}
use mcp_analytics_go.Sanitize.{
  sanitization_budget, retain, is_binary_field, binary_removed_placeholder, sanitize_string,
  string_entry, sanitize, sanitize_list, sanitize_map, sanitize_value, sort_keys,
}

-- The bytes of all strings, two for each element, and two and its bytes for each key. The code
-- charges nothing for numbers.
unfoldable mutual
  pub size : Value → ℕ
  size null = 0
  size (boolean b) = 0
  size (number n) = 0
  size (json_number n) = 0
  size (string s) = length s
  size (array items) = items_size items
  size (object fields) = fields_size fields

  pub items_size : Items → ℕ
  items_size no_items = 0
  items_size (item v items) = 2 + size v + items_size items

  pub fields_size : Fields → ℕ
  fields_size no_fields = 0
  fields_size (field key v fields) = length key + 2 + size v + fields_size fields

walk_back_le : (s : Text) (i : ℕ) → walk_back s i ≤ i
unfolding walk_back
walk_back_le s zero = omega arith
walk_back_le s (suc i) = ground (arith, walk_back_le s i)

pub length-truncate_utf8 : (s : Text) (n : ℕ) → length (truncate_utf8 s n).0 ≤ n
unfolding truncate_utf8
length-truncate_utf8 s n =
    if_cases (λ (r : Text × Bool). length r.0 ≤ n) (leb (length s) n) (λ h. leb→le _ _ h)
      (λ _. omega (arith, length-take (walk_back s n) s, walk_back_le s n))

retain_le : (s : Text) (n : ℕ) → length (retain s n).0 + (retain s n).1 ≤ n
unfolding retain
retain_le s n =
    if_cases (λ (r : Text × ℕ). length r.0 + r.1 ≤ n) (leb (length s) n)
      (λ h. omega (arith, leb→le _ _ h)) (λ _. omega (arith, length-truncate_utf8 s n))

module _ (matches_payload : Text → Bool) (replace_embedded : Text → Text) where
  sanitize_string_le :
      (s : Text) (n : ℕ)
      → length (sanitize_string matches_payload replace_embedded s n).0
          + (sanitize_string matches_payload replace_embedded s n).1
        ≤ n
  unfolding sanitize_string
  sanitize_string_le s n = retain_le _ n

  mutual
    unfolding sanitize size

    sanitize_le :
        (v : Value) (n : ℕ)
        → size (sanitize matches_payload replace_embedded v n).0
            + (sanitize matches_payload replace_embedded v n).1
          ≤ n
    sanitize_le null n = omega arith
    sanitize_le (boolean b) n = omega arith
    sanitize_le (number s) n = omega arith
    sanitize_le (json_number s) n = omega arith
    sanitize_le (string s) n = sanitize_string_le s n
    sanitize_le (array items) n = sanitize_list_le items n
    sanitize_le (object fields) n = sanitize_map_le _ fields n

    sanitize_list_le :
        (items : Items) (n : ℕ)
        → items_size (sanitize_list matches_payload replace_embedded items n).0
            + (sanitize_list matches_payload replace_embedded items n).1
          ≤ n
    sanitize_list_le no_items n = omega arith
    sanitize_list_le (item v items) n =
        let entry = sanitize matches_payload replace_embedded v (n - 2) in
        let entry_le = sanitize_le v (n - 2) in
        let rest_le = sanitize_list_le items entry.1 in
        if_cases (λ (r : Items × ℕ). items_size r.0 + r.1 ≤ n) (ltb n 2) (λ _. omega arith)
          (λ room.
            if_cases (λ (r : Items × ℕ). items_size r.0 + r.1 ≤ n) (entry.1 == 0)
              (λ _. ground (arith, room, entry_le)) (λ _. ground (arith, room, entry_le, rest_le)))

    sanitize_map_le :
        (object_type : Text) (fields : Fields) (n : ℕ)
        → fields_size (sanitize_map matches_payload replace_embedded object_type fields n).0
            + (sanitize_map matches_payload replace_embedded object_type fields n).1
          ≤ n
    sanitize_map_le object_type no_fields n = omega arith
    sanitize_map_le object_type (field key v fields) n =
        let m = n - (length key + 2) in
        let entry : Value × ℕ =
          if is_binary_field key object_type v
          then string_entry
              (sanitize_string matches_payload replace_embedded binary_removed_placeholder m)
          else sanitize matches_payload replace_embedded v m in
        let entry_le : size entry.0 + entry.1 ≤ m =
          if_cases (λ (r : Value × ℕ). size r.0 + r.1 ≤ m) (is_binary_field key object_type v)
            (λ _. sanitize_string_le binary_removed_placeholder m) (λ _. sanitize_le v m) in
        let rest_le = sanitize_map_le object_type fields entry.1 in
        if_cases (λ (r : Fields × ℕ). fields_size r.0 + r.1 ≤ n) (ltb n (length key + 2))
          (λ _. omega arith)
          (λ room.
            if_cases (λ (r : Fields × ℕ). fields_size r.0 + r.1 ≤ n) (entry.1 == 0)
              (λ _. ground (arith, room, entry_le)) (λ _. ground (arith, room, entry_le, rest_le)))

  -- Whatever the two patterns match and put in, all that is copied of a value but its numbers, the
  -- literals of `json.Number` included, that is its strings and its keys with two bytes for each
  -- element and each key, fits into the budget.
  pub sanitize_value_le :
      (v : Value) → size (sanitize_value matches_payload replace_embedded v) ≤ sanitization_budget
  unfolding sanitize_value
  sanitize_value_le v = omega (arith, sanitize_le (sort_keys v) sanitization_budget)
