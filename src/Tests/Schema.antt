-- ===== src/Tests/Schema.antt =====
-- armatureanalytics/tools.go: a tool with one property.
use mcp_analytics_go.Prelude.{◌≡◌, refl, Bool, false, Option, none, some, Text, bytes}
use mcp_analytics_go.Json.{Fields, string, field, no_fields}
use mcp_analytics_go.Schema.{Tool, Registry, has_telemetry, decorate_tool_schema}
use mcp_analytics_go.Schema.Decorated.{IsDecorated, decorate_tool_schema-IsDecorated}

abbrev search_tool : Tool
search_tool = record {
  name = bytes "search";
  schema_type = bytes "object";
  properties = field (bytes "q") (string (bytes "query")) no_fields;
  raw_input_schema = none;
}

abbrev no_names : Registry
no_names name = false

abbrev read_nothing : Text → Option (Option Fields)
read_nothing s = none

abbrev write_nothing : Fields → Option Text
write_nothing m = none

decorate_tool_schema-IsDecorated_example :
    (tool' : Tool) × (ok : Bool) × (owned' : Registry) × (decorate_tool_schema read_nothing
        write_nothing search_tool no_names
      ≡ some (tool', ok, owned'))
    × IsDecorated (has_telemetry search_tool.properties) search_tool no_names tool' ok owned'
decorate_tool_schema-IsDecorated_example =
    decorate_tool_schema-IsDecorated read_nothing write_nothing search_tool no_names refl
