-- ===== src/Schema/Decorated.antt =====
-- armatureanalytics/tools.go: what the decoration does to a structured schema and to the registry.
use mcp_analytics_go.Prelude.{
  ◌≡◌, refl, inl, inr, Bool, true, false, not, ◌&&◌, Option, none, some, Text, bytes, is_empty,
  text_eq, Bool-cases, if◌then◌else◌, arith,
}
use mcp_analytics_go.Json.{Fields, lookup_field, lookup_field-put_field}
use mcp_analytics_go.Schema.{
  Tool, Registry, mark_telemetry_owned_tool, unmark_telemetry_owned_tool, telemetry_schema_object,
  has_telemetry, decorate_structured, decorate_by, decorate_tool_schema,
}

-- What the decoration leaves, for a tool that declares a telemetry input or does not.
pub record IsDecorated (declared : Bool) (tool : Tool) (owned : Registry) (tool' : Tool) (ok : Bool)
    (owned' : Registry) : Type 0 where
  pub decorated : ok ≡ not declared
  pub same_name : tool'.name ≡ tool.name
  pub properties :
      (k : Text)
      → lookup_field k tool'.properties ≡ (
          if not declared && text_eq (bytes "telemetry") k
          then some telemetry_schema_object
          else lookup_field k tool.properties)
  pub registry : (n : Text) → owned' n ≡ (if text_eq tool.name n then declared else owned n)

-- A tool whose structured schema is taken.
abbrev pub is_structured : Option Text → Text → Bool
is_structured none schema_type = true
is_structured (some raw) schema_type = not (is_empty schema_type)

module _ (unmarshal : Text → Option (Option Fields)) (marshal : Fields → Option Text) where
  structured-IsDecorated :
      (tool : Tool) (owned : Registry)
      → (tool' : Tool) × (ok : Bool) × (owned' : Registry) × (decorate_structured unmarshal marshal
            tool owned
          ≡ some (tool', ok, owned'))
        × IsDecorated (has_telemetry tool.properties) tool owned tool' ok owned'
  unfolding decorate_structured mark_telemetry_owned_tool unmark_telemetry_owned_tool
  structured-IsDecorated tool owned = elim (Bool-cases (has_telemetry tool.properties)) [
    | inl declared ↦ rw declared (
      tool,
      false,
      mark_telemetry_owned_tool tool.name owned,
      refl,
      record { decorated = refl; same_name = refl; properties = λ k. refl; registry = λ n. refl },
    )
    | inr absent ↦ rw absent (
      _,
      true,
      unmark_telemetry_owned_tool tool.name owned,
      refl,
      record {
        decorated = refl;
        same_name = refl;
        properties = λ k.
            lookup_field-put_field (bytes "telemetry") k telemetry_schema_object tool.properties;
        registry = λ n. refl;
      },
    )
  ]

  by-IsDecorated :
      (raw : Option Text) (tool : Tool) (owned : Registry)
      → is_structured raw tool.schema_type ≡ true
      → (tool' : Tool) × (ok : Bool) × (owned' : Registry) × (decorate_by unmarshal marshal raw tool
            owned
          ≡ some (tool', ok, owned'))
        × IsDecorated (has_telemetry tool.properties) tool owned tool' ok owned'
  by-IsDecorated none tool owned h = structured-IsDecorated tool owned
  by-IsDecorated (some raw) tool owned h =
      let (tool', ok, owned', done, decorated) = structured-IsDecorated tool owned in
      let typed : is_empty tool.schema_type ≡ false = ground (arith, h) in
      (tool', ok, owned', rw typed done, decorated)

  -- A tool without a raw schema, or with a typed one beside it, is decorated exactly where it
  -- declares no telemetry input: it then has the telemetry object and all its other properties as
  -- they were, and its name is no longer owned. Otherwise its properties are as they were and its
  -- name is owned. The ownership of every other name stays.
  pub decorate_tool_schema-IsDecorated :
      (tool : Tool) (owned : Registry)
      → is_structured tool.raw_input_schema tool.schema_type ≡ true
      → (tool' : Tool) × (ok : Bool) × (owned' : Registry) × (decorate_tool_schema unmarshal marshal
            tool owned
          ≡ some (tool', ok, owned'))
        × IsDecorated (has_telemetry tool.properties) tool owned tool' ok owned'
  unfolding decorate_tool_schema
  decorate_tool_schema-IsDecorated tool owned h = by-IsDecorated tool.raw_input_schema tool owned h
