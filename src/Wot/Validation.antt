-- ===== src/Wot/Validation.antt =====
-- wot/validation.go: validation of Thing Descriptions by the JSON Schemas loaded at the start.
use thing_directory.Common.{Bool, String, List, [], ◌∷◌, ◌++◌, length, eqb, ltb, if◌then◌else◌, not}
use thing_directory.Wot.{ValidationIssue}
use thing_directory.Errors.{Result, ok, panicked, io, ◌>>=◌}
use thing_directory.Json.{ThingDescription}
use thing_directory.Libraries.{Libraries}

module _ (lib : Libraries) where
  read_all : List String → Result (List lib.Schema)
  read_all [] = ok []
  read_all (path ∷ paths) = do
    schema ← io (lib.read_schema path)
    schemas ← read_all paths
    ok (schema ∷ schemas)

  -- The new value of `loadedJSONSchemas`, from the one before.
  unfoldable pub load_json_schemas : List lib.Schema → List String → Result (List lib.Schema)
  unfolding read_all
  load_json_schemas loaded paths =
      if eqb (length loaded) 0
      then read_all paths
      else panicked "Unexpected re-loading of JSON Schemas."

  unfoldable pub loaded_json_schemas : List lib.Schema → Bool
  loaded_json_schemas loaded = ltb 0 (length loaded)

  unfoldable pub validate_against_schema :
      ThingDescription → lib.Schema → Result (List ValidationIssue)
  validate_against_schema td schema = do
    result ← io (lib.schema_validate schema td)
    ok (if not result.0 then result.1 else [])

  unfoldable pub validate_against_schemas :
      ThingDescription → List lib.Schema → Result (List ValidationIssue)
  unfolding validate_against_schema
  validate_against_schemas td [] = ok []
  validate_against_schemas td (schema ∷ schemas) = do
    issues ← validate_against_schema td schema
    more ← validate_against_schemas td schemas
    ok (issues ++ more)
