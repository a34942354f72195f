-- ===== src/Schema.antt =====
-- armatureanalytics/tools.go: the registry of tools that own their telemetry field, and the decoration
-- of input schemas.
pub mod Decorated
use mcp_analytics_go.Prelude.{
  Bool, true, false, not, ◌&&◌, Option, none, some, Text, bytes, is_empty, text_eq, if◌then◌else◌,
}
use mcp_analytics_go.Json.{Value, Fields, string, object, field, no_fields, lookup_field, put_field}

-- `ownedTelemetryTools`, with the names that it has.
abbrev pub Registry : Type 0
Registry = Text → Bool

-- `MarkTelemetryOwnedTool`, less its log line.
unfoldable pub mark_telemetry_owned_tool : Text → Registry → Registry
mark_telemetry_owned_tool name owned n = if text_eq name n then true else owned n

-- `UnmarkTelemetryOwnedTool`
unfoldable pub unmark_telemetry_owned_tool : Text → Registry → Registry
unmark_telemetry_owned_tool name owned n = if text_eq name n then false else owned n

unfoldable pub telemetry_property_description : Text
telemetry_property_description =
    bytes
      "Task context for usage analytics, based on the visible user request and the action performed by this tool. Pass it on every call."

unfoldable pub user_intent_description : Text
user_intent_description =
    bytes
      "Generalized one-sentence summary of the task stated in the user's latest message. Describe actions and generic roles only. Replace all tool argument values with generic terms, including names, contacts, IDs, credentials, document titles, team names and filters. For example, 'List employees in the selected team.' Include only on the first tool call after each new user message; omit on later calls in the same turn. Use English."

unfoldable pub call_purpose_description : Text
call_purpose_description =
    bytes
      "Short public description of the action this tool performs toward the user's stated goal. Base it only on the visible request, the tool's function and its inputs. Use English. Omit names, contact details, identifiers, credentials and argument values. Generalize document titles, team names and filter values (for example, 'the selected team')."

abbrev pub string_schema : Text → Value
string_schema description = object (
    field (bytes "type") (string (bytes "string"))
      (field (bytes "description") (string description) no_fields))

-- `telemetrySchemaObject`
unfoldable pub telemetry_schema_object : Value
telemetry_schema_object = object (
    field (bytes "type") (string (bytes "object")) (
      field (bytes "description") (string telemetry_property_description) (
        field (bytes "properties")
          (object (
            field (bytes "user_intent") (string_schema user_intent_description)
              (field (bytes "call_purpose") (string_schema call_purpose_description) no_fields)))
          no_fields)))

-- `mcp.Tool`, with the parts that the decoration reads.
pub record Tool : Type 0 where
  pub name : Text
  pub schema_type : Text
  pub properties : Fields
  pub raw_input_schema : Option Text

abbrev pub is_declared : Option Value → Bool
is_declared none = false
is_declared (some v) = true

-- Whether the properties declare a telemetry input.
unfoldable pub has_telemetry : Fields → Bool
has_telemetry properties = is_declared (lookup_field (bytes "telemetry") properties)

-- What `injectTelemetryIntoRawSchema` returns, or its panic.
pub data Injected : Type 0 where
  extended : Text → Injected
  unextendable : Injected
  owned_field : Injected
  panics : Injected

abbrev pub properties_of : Option Value → Fields
properties_of (some (object properties)) = properties
properties_of _ = no_fields

abbrev pub put_type : Option Value → Fields → Fields
put_type none schema = put_field (bytes "type") (string (bytes "object")) schema
put_type (some v) schema = schema

-- The schema with the telemetry input.
unfoldable pub extend_schema : Fields → Fields
extend_schema schema =
    let properties = properties_of (lookup_field (bytes "properties") schema) in
    let with_properties =
      put_field (bytes "properties")
        (object (put_field (bytes "telemetry") telemetry_schema_object properties)) schema in
    put_type (lookup_field (bytes "type") with_properties) with_properties

abbrev pub marshalled : Option Text → Injected
marshalled none = unextendable
marshalled (some out) = extended out

-- `json.Unmarshal` into a map, with the nil map of `null`, and `json.Marshal` are parameters.
module _ (unmarshal : Text → Option (Option Fields)) (marshal : Fields → Option Text) where
  -- The map may be nil, in which a write panics.
  unfoldable pub inject_into : Option (Option Fields) → Injected
  inject_into none = unextendable
  inject_into (some none) = panics
  inject_into (some (some schema)) =
      if has_telemetry (properties_of (lookup_field (bytes "properties") schema))
      then owned_field
      else marshalled (marshal (extend_schema schema))

  -- `injectTelemetryIntoRawSchema`
  unfoldable pub inject_telemetry_into_raw_schema : Text → Injected
  inject_telemetry_into_raw_schema raw = inject_into (unmarshal raw)

  unfoldable pub decorate_raw : Injected → Tool → Registry → Option (Tool × Bool × Registry)
  decorate_raw (extended raw) tool owned = some (
    record tool { raw_input_schema = some raw },
    true,
    unmark_telemetry_owned_tool tool.name owned,
  )
  decorate_raw unextendable tool owned = some (tool, false, owned)
  decorate_raw owned_field tool owned =
      some (tool, false, mark_telemetry_owned_tool tool.name owned)
  decorate_raw panics tool owned = none

  unfoldable pub decorate_structured : Tool → Registry → Option (Tool × Bool × Registry)
  decorate_structured tool owned = some (
      if has_telemetry tool.properties
      then (tool, false, mark_telemetry_owned_tool tool.name owned)
      else (
        record tool {
          properties = put_field (bytes "telemetry") telemetry_schema_object tool.properties;
          schema_type = if is_empty tool.schema_type then bytes "object" else tool.schema_type;
        },
        true,
        unmark_telemetry_owned_tool tool.name owned,
      ))

  abbrev pub decorate_by : Option Text → Tool → Registry → Option (Tool × Bool × Registry)
  decorate_by none tool owned = decorate_structured tool owned
  decorate_by (some raw) tool owned =
      if is_empty tool.schema_type
      then decorate_raw (inject_telemetry_into_raw_schema raw) tool owned
      else decorate_structured tool owned

  -- `decorateToolSchema`: the tool, whether it was decorated, and the registry; `none` is a panic.
  unfoldable pub decorate_tool_schema : Tool → Registry → Option (Tool × Bool × Registry)
  decorate_tool_schema tool owned = decorate_by tool.raw_input_schema tool owned
