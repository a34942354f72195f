-- ===== src/Official/Arguments.antt =====
-- armatureanalytics/official/official.go: the arguments that the adapter for the official SDK decodes
-- for its events and passes on to the tool. encoding/json is a parameter: `decode` gives none for an
-- error and a nil map for null, and a decoder for any value stands beside it.
use mcp_analytics_go.Prelude.{
  ◌≡◌, refl, Bool, true, false, Option, none, some, List, [], ◌∷◌, Text, is_empty, text_eq,
  if◌then◌else◌, arith,
}
use mcp_analytics_go.Json.{Value, Fields, null, object}
use mcp_analytics_go.Telemetry.{Telemetry, no_telemetry, telemetry_key, extract_telemetry_from_args}
use mcp_analytics_go.Telemetry.Extract.{Cleaned, extract_strips}

-- What a preview is made of: nothing, bytes that could not be decoded, or a decoded value.
pub data Preview : Type 0 where
  absent : Preview
  raw_bytes : Text → Preview
  decoded : Value → Preview

pub record Parsed : Type 0 where
  pub telemetry : Telemetry
  pub raw : Text
  pub preview : Preview

-- An `any` that holds a map; a nil map encodes as null.
abbrev preview_of : Option Fields → Preview
preview_of none = decoded null
preview_of (some m) = decoded (object m)

module _ (decode_any : Text → Option Value) where
  abbrev decoded_or : Text → Option Value → Preview
  decoded_or raw none = raw_bytes raw
  decoded_or raw (some v) = decoded v

  unfoldable decode_raw_arguments : Text → Preview
  decode_raw_arguments raw = if is_empty raw then absent else decoded_or raw (decode_any raw)

module _ (decode : Text → Option (Option Fields)) (marshal : Option Fields → Option Text)
    (unmarshal : Text → Option Fields) where
  abbrev remarshalled : Text → Telemetry × Option Fields → Option Text → Parsed
  remarshalled raw (telemetry, cleaned) none = record {
    telemetry = telemetry;
    raw = raw;
    preview = preview_of cleaned;
  }
  remarshalled raw (telemetry, cleaned) (some cleaned_raw) = record {
    telemetry = telemetry;
    raw = cleaned_raw;
    preview = preview_of cleaned;
  }

  abbrev undecoded : Text → Parsed
  undecoded raw = record { telemetry = no_telemetry; raw = raw; preview = raw_bytes raw }

  unfoldable parse_decoded : Text → Option (Option Fields) → Parsed
  parse_decoded raw none = undecoded raw
  parse_decoded raw (some none) = undecoded raw
  parse_decoded raw (some (some args)) =
      let extracted = extract_telemetry_from_args unmarshal (some args) in
      remarshalled raw extracted (marshal extracted.1)

  unfoldable parse_arguments : Text → Parsed
  parse_arguments raw =
      if is_empty raw
      then record { telemetry = no_telemetry; raw = raw; preview = absent }
      else parse_decoded raw (decode raw)

  -- The arguments that a decodable map leaves for the tool, when they can be encoded again and an
  -- encoding decodes to what it encodes: they decode to all the arguments but the telemetry.
  parse_arguments_strips :
      (raw cleaned_raw : Text) (args : Fields)
      → ((m : Option Fields) (r : Text) → marshal m ≡ some r → decode r ≡ some m)
      → is_empty raw ≡ false
      → decode raw ≡ some (some args)
      → marshal (extract_telemetry_from_args unmarshal (some args)).1 ≡ some cleaned_raw
      → (o : Option Fields) × (decode (parse_arguments raw).raw ≡ some o) × Cleaned unmarshal args o
  unfolding parse_arguments parse_decoded
  parse_arguments_strips raw cleaned_raw args round_trip some_bytes decodes encodes =
      rw (some_bytes, decodes, encodes)
        (
          (extract_telemetry_from_args unmarshal (some args)).1,
          round_trip (extract_telemetry_from_args unmarshal (some args)).1 cleaned_raw encodes,
          extract_strips unmarshal args,
        )

module _ {A : Type 0} where
  unfoldable has_entry : Text → List (Text × A) → Bool
  has_entry key [] = false
  has_entry key ((k, x) ∷ m) = if text_eq k key then true else has_entry key m

  unfoldable copy_without : Text → List (Text × A) → List (Text × A)
  copy_without key [] = []
  copy_without key ((k, x) ∷ m) =
      let rest = copy_without key m in if text_eq k key then rest else (k, x) ∷ rest

  has_entry-copy_without :
      (key : Text) (m : List (Text × A)) → has_entry key (copy_without key m) ≡ false
  unfolding has_entry copy_without
  has_entry-copy_without key [] = refl
  has_entry-copy_without key ((k, x) ∷ m) = ground (arith, has_entry-copy_without key m)

-- What reflection sees of the input of a typed tool: the zero `reflect.Value`, an interface, a nil
-- pointer, a pointer, a map with keys that are strings, and any other value, which is a map with
-- other keys as well.
pub data Reflected (A : Type 0) : Type 0 where
  invalid : Reflected A
  interface_of : Reflected A → Reflected A
  nil_pointer : Reflected A
  pointer_to : Reflected A → Reflected A
  string_map : List (Text × A) → Reflected A
  other_kind : A → Reflected A

module _ {A : Type 0} where
  abbrev rebuilt :
      (Reflected A → Reflected A) → Reflected A → Reflected A × Bool → Reflected A × Bool
  rebuilt wrap value (cleaned, changed) = if changed then (wrap cleaned, true) else (value, false)

  unfoldable strip_telemetry_value : Reflected A → Reflected A × Bool
  strip_telemetry_value (interface_of v) =
      rebuilt interface_of (interface_of v) (strip_telemetry_value v)
  strip_telemetry_value (pointer_to v) = rebuilt pointer_to (pointer_to v) (strip_telemetry_value v)
  strip_telemetry_value (string_map m) =
      if has_entry telemetry_key m
      then (string_map (copy_without telemetry_key m), true)
      else (string_map m, false)
  strip_telemetry_value invalid = (invalid, false)
  strip_telemetry_value nil_pointer = (nil_pointer, false)
  strip_telemetry_value (other_kind x) = (other_kind x, false)

  abbrev IsStripped : Reflected A → Reflected A × Bool → Type 0
  IsStripped v (cleaned, changed) =
      ((strip_telemetry_value cleaned).1 ≡ false) × (changed ≡ false → cleaned ≡ v)

  rebuilt-interface_of :
      (v : Reflected A) (r : Reflected A × Bool)
      → strip_telemetry_value v ≡ r
      → IsStripped v r
      → IsStripped (interface_of v) (rebuilt interface_of (interface_of v) r)
  unfolding strip_telemetry_value
  rebuilt-interface_of v (cleaned, true) e (settled, same) =
      (ground (arith, settled), λ h. ground (arith, h))
  rebuilt-interface_of v (cleaned, false) e (settled, same) = (rw e refl, λ h. refl)

  rebuilt-pointer_to :
      (v : Reflected A) (r : Reflected A × Bool)
      → strip_telemetry_value v ≡ r
      → IsStripped v r
      → IsStripped (pointer_to v) (rebuilt pointer_to (pointer_to v) r)
  unfolding strip_telemetry_value
  rebuilt-pointer_to v (cleaned, true) e (settled, same) =
      (ground (arith, settled), λ h. ground (arith, h))
  rebuilt-pointer_to v (cleaned, false) e (settled, same) = (rw e refl, λ h. refl)

  string_map-IsStripped :
      (m : List (Text × A)) (here : Bool)
      → has_entry telemetry_key m ≡ here
      → IsStripped (string_map m) (strip_telemetry_value (string_map m))
  unfolding strip_telemetry_value
  string_map-IsStripped m true e =
      rw e (ground (arith, has_entry-copy_without telemetry_key m), λ h. ground (arith, h))
  string_map-IsStripped m false e = rw e (rw e refl, λ h. refl)

  -- Behind interfaces and pointers, the stripped input has no telemetry left to strip, and an input
  -- that is not reported as changed is the input itself.
  strip_telemetry_value-IsStripped : (v : Reflected A) → IsStripped v (strip_telemetry_value v)
  unfolding strip_telemetry_value
  strip_telemetry_value-IsStripped invalid = (refl, λ h. refl)
  strip_telemetry_value-IsStripped nil_pointer = (refl, λ h. refl)
  strip_telemetry_value-IsStripped (other_kind x) = (refl, λ h. refl)
  strip_telemetry_value-IsStripped (interface_of v) =
      rebuilt-interface_of v (strip_telemetry_value v) refl (strip_telemetry_value-IsStripped v)
  strip_telemetry_value-IsStripped (pointer_to v) =
      rebuilt-pointer_to v (strip_telemetry_value v) refl (strip_telemetry_value-IsStripped v)
  strip_telemetry_value-IsStripped (string_map m) =
      string_map-IsStripped m (has_entry telemetry_key m) refl
