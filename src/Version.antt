-- ===== src/Version.antt =====
-- armatureanalytics/version.go: the version of the SDK that the build info of the binary records.
use mcp_analytics_go.Prelude.{
  Bool, true, false, ◌||◌, Option, none, some, List, [], ◌∷◌, ◌++◌, ◌≡◌, refl, Text, bytes,
  is_empty, text_eq, if◌then◌else◌, arith,
}
use mcp_analytics_go.Sanitize.{has_prefix}

unfoldable sdk_module_path : Text
sdk_module_path = bytes "github.com/armature-tech/mcp-analytics-go"

abbrev unknown_version : Text
unknown_version = bytes "unknown"

abbrev devel_version : Text
devel_version = bytes "(devel)"

-- What the code reads of `debug.Module`: its path, its version, and the version of its replacement.
pub record Module : Type 0 where
  pub path : Text
  pub version : Text
  pub replacement : Option Text

-- `debug.BuildInfo`, of which the code reads the main module and the dependencies
pub record BuildInfo : Type 0 where
  pub main : Module
  pub deps : List Module

unfoldable is_sdk : Module → Bool
is_sdk m = text_eq m.path sdk_module_path

abbrev or_devel : Text → Text
or_devel version = if is_empty version then devel_version else version

abbrev effective_version : Module → Text
effective_version m = elim m.replacement [ none ↦ m.version | some v ↦ v ]

-- The loop over the dependencies; none when it runs through.
unfoldable find_dep_version : List Module → Option Text
find_dep_version [] = none
find_dep_version (m ∷ deps) =
    let rest = find_dep_version deps in
    if is_sdk m then some (or_devel (effective_version m)) else rest

unfoldable main_version : Module → Text
main_version m =
    if is_sdk m || has_prefix m.path (sdk_module_path ++ bytes "/")
    then or_devel m.version
    else unknown_version

-- none for a build info that is nil or could not be read
unfoldable detect_sdk_version : Option BuildInfo → Text
detect_sdk_version none = unknown_version
detect_sdk_version (some info) = elim (find_dep_version info.deps) [
  | none ↦ main_version info.main
  | some v ↦ v
]

-- `BatchSDK`
pub record BatchSdk : Type 0 where
  pub language : Text
  pub version : Text

unfoldable batch_sdk_identity : Option BuildInfo → BatchSdk
batch_sdk_identity info = record { language = bytes "go"; version = detect_sdk_version info }

unfoldable sdk_user_agent : Option BuildInfo → Text
sdk_user_agent info = bytes "armature-mcp-analytics-go/" ++ detect_sdk_version info

-- Some dependency is the SDK.
unfoldable has_sdk : List Module → Bool
has_sdk [] = false
has_sdk (m ∷ deps) = is_sdk m || has_sdk deps

unknown_version-is_empty : is_empty unknown_version ≡ false
unfolding is_empty bytes
unknown_version-is_empty = refl

or_devel-is_empty : (v : Text) → is_empty (or_devel v) ≡ false
unfolding is_empty bytes
or_devel-is_empty [] = refl
or_devel-is_empty (c ∷ v) = refl

find_dep_version-first :
    (m : Module) (before after : List Module)
    → has_sdk before ≡ false
    → is_sdk m ≡ true
    → find_dep_version (before ++ m ∷ after) ≡ some (or_devel (effective_version m))
unfolding find_dep_version has_sdk
find_dep_version-first m [] after h e = rw e refl
find_dep_version-first m (d ∷ before) after h e =
    ground (arith, find_dep_version-first m before after)

-- The first dependency that is the SDK decides, whatever stands behind it and in the main module:
-- the version of its replacement when it has one, else its own, and "(devel)" for an empty one.
detect_sdk_version-first :
    (main m : Module) (before after : List Module)
    → has_sdk before ≡ false
    → is_sdk m ≡ true
    → detect_sdk_version (some (record { main = main; deps = before ++ m ∷ after }))
      ≡ or_devel (effective_version m)
unfolding detect_sdk_version
detect_sdk_version-first main m before after h e =
    rw (find_dep_version-first m before after h e, detect_sdk_version) refl

main_version-is_empty : (m : Module) → is_empty (main_version m) ≡ false
unfolding main_version
main_version-is_empty m = ground (arith, or_devel-is_empty m.version, unknown_version-is_empty)

find_dep_version-is_empty :
    (deps : List Module) (v : Text) → find_dep_version deps ≡ some v → is_empty v ≡ false
unfolding find_dep_version
find_dep_version-is_empty [] v h = ground arith
find_dep_version-is_empty (m ∷ deps) v h =
    ground (arith, or_devel-is_empty (effective_version m), find_dep_version-is_empty deps v)

-- The version is never empty.
detect_sdk_version-is_empty : (info : Option BuildInfo) → is_empty (detect_sdk_version info) ≡ false
unfolding detect_sdk_version
detect_sdk_version-is_empty none = unknown_version-is_empty
detect_sdk_version-is_empty (some info) =
    grind (arith, main_version-is_empty info.main, find_dep_version-is_empty info.deps)
