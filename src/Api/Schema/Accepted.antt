-- ===== src/Api/Schema/Accepted.antt =====
-- What the schema accepts, `encoding/json` decodes.
use climatik_project.Api.Schema.{Schema, text_type, any_object, property}

-- What the API server guarantees of the metadata that the program reads.
abbrev pub metadata_schema : Schema
metadata_schema = property "name" text_type (property "namespace" text_type any_object)
