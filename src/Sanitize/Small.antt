-- ===== src/Sanitize/Small.antt =====
-- armatureanalytics/sanitize.go: small values without payloads are left as they are.
use mcp_analytics_go.Prelude.{
  ℕ, ◌+◌, ◌-◌, ◌≤◌, ◌<◌, ◌≡◌, refl, ap, Bool, false, Text, bytes, length, ltb, leb, ◌==◌, le→leb,
  arith,
}
use mcp_analytics_go.Json.{
  Value, Items, Fields, null, boolean, number, json_number, string, array, object, no_items, item,
  no_fields, field, lookup_field,
}
use mcp_analytics_go.Sanitize.{
  sanitization_budget, is_base64_payload, replace_payloads, first_cut, retain, is_binary_field,
  reflected_string, sanitize_string, string_entry, sanitize, sanitize_list, sanitize_map,
  sanitize_value, sort_keys,
}
use mcp_analytics_go.Sanitize.Budget.{size, items_size, fields_size}

-- No string has more than 63 bytes, and no entry is a binary field.
unfoldable mutual
  pub IsPlain : Value → Type 0
  IsPlain null = Unit
  IsPlain (boolean b) = Unit
  IsPlain (number n) = Unit
  IsPlain (json_number n) = Unit
  IsPlain (string s) = length s < 64
  IsPlain (array items) = AllPlain items
  IsPlain (object fields) =
      FieldsPlain (reflected_string (lookup_field (bytes "type") fields)) fields

  pub AllPlain : Items → Type 0
  AllPlain no_items = Unit
  AllPlain (item v items) = IsPlain v × AllPlain items

  pub FieldsPlain : Text → Fields → Type 0
  FieldsPlain object_type no_fields = Unit
  FieldsPlain object_type (field key v fields) =
      (is_binary_field key object_type v ≡ false) × IsPlain v × FieldsPlain object_type fields

module _ (matches_payload : Text → Bool) (replace_embedded : Text → Text) where
  sanitize_string-short :
      (s : Text) (n : ℕ)
      → length s < 64
      → length s ≤ n
      → sanitize_string matches_payload replace_embedded s n ≡ (s, n - length s)
  unfolding sanitize_string first_cut replace_payloads is_base64_payload retain
  sanitize_string-short s n short fits =
      let cut : ltb n (length s) ≡ false = ground (arith, fits) in
      let no_64 : leb 64 (length s) ≡ false = ground (arith, short) in
      let no_512 : leb 512 (length s) ≡ false = ground (arith, short) in
      rw cut (rw (no_64, no_512) (rw (le→leb _ _ fits) refl))

  mutual
    unfolding sanitize size IsPlain

    sanitize_small :
        (v : Value) (n : ℕ)
        → IsPlain v
        → size v < n
        → sanitize matches_payload replace_embedded v n ≡ (v, n - size v)
    sanitize_small null n p l = let e : n ≡ n - 0 = omega arith in ap (λ k. (null, k)) e
    sanitize_small (boolean b) n p l = let e : n ≡ n - 0 = omega arith in ap (λ k. (boolean b, k)) e
    sanitize_small (number s) n p l = let e : n ≡ n - 0 = omega arith in ap (λ k. (number s, k)) e
    sanitize_small (json_number s) n p l =
        let e : n ≡ n - 0 = omega arith in ap (λ k. (json_number s, k)) e
    sanitize_small (string s) n p l =
        ap string_entry (sanitize_string-short s n p (omega (arith, l)))
    sanitize_small (array items) n p l =
        ap (λ (r : Items × ℕ). (array r.0, r.1)) (sanitize_list_small items n p l)
    sanitize_small (object fields) n p l =
        ap (λ (r : Fields × ℕ). (object r.0, r.1)) (sanitize_map_small _ fields n p l)

    sanitize_list_small :
        (items : Items) (n : ℕ)
        → AllPlain items
        → items_size items < n
        → sanitize_list matches_payload replace_embedded items n ≡ (items, n - items_size items)
    sanitize_list_small no_items n p l =
        let e : n ≡ n - 0 = omega arith in ap (λ k. (no_items, k)) e
    sanitize_list_small (item v items) n p l =
        let first = sanitize_small v (n - 2) p.0 (omega (arith, l)) in
        let rest = sanitize_list_small items (n - 2 - size v) p.1 (omega (arith, l)) in
        let room : ltb n 2 ≡ false = ground (arith, l) in
        let left : ((n - 2 - size v) == 0) ≡ false = ground (arith, l) in
        let total : n - 2 - size v - items_size items ≡ n - (2 + size v + items_size items) =
          omega arith in
        rw room (rw first (rw left (rw rest (ap (λ k. (item v items, k)) total))))

    sanitize_map_small :
        (object_type : Text) (fields : Fields) (n : ℕ)
        → FieldsPlain object_type fields
        → fields_size fields < n
        → sanitize_map matches_payload replace_embedded object_type fields n
          ≡ (fields, n - fields_size fields)
    sanitize_map_small object_type no_fields n p l =
        let e : n ≡ n - 0 = omega arith in ap (λ k. (no_fields, k)) e
    sanitize_map_small object_type (field key v fields) n p l =
        let m = n - (length key + 2) in
        let first = sanitize_small v m p.1 (omega (arith, l)) in
        let rest = sanitize_map_small object_type fields (m - size v) p.2 (omega (arith, l)) in
        let room : ltb n (length key + 2) ≡ false = ground (arith, l) in
        let left : ((m - size v) == 0) ≡ false = ground (arith, l) in
        let total : m - size v - fields_size fields
            ≡ n - (length key + 2 + size v + fields_size fields) =
          omega arith in
        rw (room, p.0) (rw first (rw left (rw rest (ap (λ k. (field key v fields, k)) total))))

  -- A value with no string of 64 bytes or more and no binary field, whose size is below the
  -- budget, is returned as it is, with its keys in order.
  pub sanitize_value_small :
      (v : Value)
      → IsPlain (sort_keys v)
      → size (sort_keys v) < sanitization_budget
      → sanitize_value matches_payload replace_embedded v ≡ sort_keys v
  unfolding sanitize_value
  sanitize_value_small v p l =
      ap (λ (r : Value × ℕ). r.0) (sanitize_small (sort_keys v) sanitization_budget p l)
