-- ===== src/Json.antt =====
-- The Go values that `encoding/json` decodes into `any`, and Go maps with string keys. The package
-- never depends on the order of a map, so a map is a list of its entries.
use mcp_analytics_go.Prelude.{
  ◌≡◌, Bool, Option, none, some, Text, text_eq, text_eq_iff, if◌then◌else◌, arith,
}

mutual
  pub data Value : Type 0 where
    null : Value
    boolean : Bool → Value
    -- a `float64`, by its literal
    number : Text → Value
    -- a `json.Number`, which a decoder with `UseNumber` makes, by its literal: a string by its kind
    json_number : Text → Value
    string : Text → Value
    array : Items → Value
    object : Fields → Value

  pub data Fields : Type 0 where
    no_fields : Fields
    field : Text → Value → Fields → Fields

  pub data Items : Type 0 where
    no_items : Items
    item : Value → Items → Items

-- `m[key]`
unfoldable pub lookup_field : Text → Fields → Option Value
lookup_field key no_fields = none
lookup_field key (field k v m) = if text_eq k key then some v else lookup_field key m

-- `delete(m, key)`, and the copy loops that skip a key.
unfoldable pub remove_field : Text → Fields → Fields
remove_field key no_fields = no_fields
remove_field key (field k v m) =
    let rest = remove_field key m in if text_eq k key then rest else field k v rest

-- `m[key] = value`
unfoldable pub put_field : Text → Value → Fields → Fields
put_field key value m = field key value (remove_field key m)

-- `m[key].(string)`
abbrev pub as_string : Option Value → Option Text
as_string (some (string s)) = some s
as_string _ = none

abbrev pub string_field : Text → Fields → Option Text
string_field key m = as_string (lookup_field key m)

pub lookup_field-remove_field :
    (key k : Text) (m : Fields)
    → lookup_field k (remove_field key m) ≡ (if text_eq key k then none else lookup_field k m)
unfolding lookup_field remove_field
lookup_field-remove_field key k no_fields = ground arith
lookup_field-remove_field key k (field j v m) = ground (
  arith,
  lookup_field-remove_field key k m,
  text_eq_iff key k,
  text_eq_iff j key,
  text_eq_iff j k,
)

pub lookup_field-put_field :
    (key k : Text) (v : Value) (m : Fields)
    → lookup_field k (put_field key v m) ≡ (if text_eq key k then some v else lookup_field k m)
unfolding lookup_field put_field
lookup_field-put_field key k v m = ground (arith, lookup_field-remove_field key k m)
