-- ===== src/Operator/Create.antt =====
-- python/climatik_operator/operator.py: `create_power_capping_config`, with the JSON schema of
-- python/climatik_operator/crd.py.
pub mod Rejected
use climatik_project.Prelude.{String, Option, none, some, List, [], ◌∷◌, if◌then◌else◌}
use climatik_project.Prelude.Int.{ℤ, pos}
use Prim.Native.String.{◌++◌}
use climatik_project.Go.Result.{Failure}
use climatik_project.Go.Json.{
  Json, null, bool, num, str, arr, obj, Items, nil, cons, Fields, end, field,
}
use climatik_project.Operator.Python.{
  Exception, permanent_error, type_error, Outcome, returned, raised, ◌>>=◌, get_or, item, receiver,
  dictionary, elements,
}
use climatik_project.Operator.Number.{Number}
use climatik_project.Operator.Cluster.{
  ObjectKey, Cluster, object_key, with_max_replicas, patch_one, patch_each,
}

abbrev of_type : String → Fields → Json
of_type name rest = obj (field "type" (str name) rest)

abbrev text_schema : Json
text_schema = of_type "string" end

abbrev ref_schema : Json
ref_schema = of_type "object" (
    field "properties"
      (obj (
        field "apiVersion" text_schema (
          field "kind" text_schema (
            field "metadata"
              (of_type "object" (
                field "properties" (obj (field "name" text_schema end))
                  (field "required" (arr (cons (str "name") nil)) end)))
              end))))
      (field "required"
        (arr (cons (str "apiVersion") (cons (str "kind") (cons (str "metadata") nil)))) end))

-- `POWER_CAPPING_CONFIG_SCHEMA`
abbrev pub power_capping_config_schema : Fields
power_capping_config_schema = field "type" (str "object") (
    field "properties"
      (obj (
        field "powerCapLimit" (of_type "integer" (field "minimum" (num (pos 0)) end))
          (field "scaledObjectRefs" (of_type "array" (field "items" ref_schema end)) end)))
      (field "required" (arr (cons (str "powerCapLimit") (cons (str "scaledObjectRefs") nil))) end))

-- `jsonschema.validate`, by the object and the schema: the message of its error.
abbrev pub Validate : Type 0
Validate = Json → Json → Failure

module _ (n : Number) where
  -- `calculate_max_replicas`: whole hundreds of the limit; a Boolean counts as 0 or 1.
  unfoldable pub calculate_max_replicas : Json → Outcome ℤ
  calculate_max_replicas (num limit) = do quotient ← n.ratio limit (pos 100); n.to_int quotient
  calculate_max_replicas (bool b) = do
    quotient ← n.ratio (if b then pos 1 else pos 0) (pos 100)
    n.to_int quotient
  calculate_max_replicas _ = raised type_error

module _ (n : Number) (cluster : Cluster) where
  -- One round of the loop, up to the patch.
  unfoldable pub limit_object : String → Json → cluster.S → Json → Outcome (ObjectKey × Json)
  unfolding calculate_max_replicas
  limit_object namespace power_cap_limit s scale_object_ref = do
    ref ← dictionary scale_object_ref
    let api_version = get_or null "apiVersion" ref
    let kind = get_or null "kind" ref
    metadata ← dictionary (get_or (obj end) "metadata" ref)
    let name = get_or null "name" metadata
    key ← object_key n cluster namespace api_version kind name
    scale_object ← cluster.get_object s key
    max_replicas ← calculate_max_replicas n power_cap_limit
    body ← with_max_replicas max_replicas scale_object
    returned (key, body)

  abbrev over_refs :
      (cluster.S → Json → Outcome (ObjectKey × Json))
      → Outcome (List Json)
      → cluster.S
      → Option Exception × cluster.S
  over_refs prepare (raised e) s = (some e, s)
  over_refs prepare (returned refs) s = patch_each n cluster prepare refs s

  abbrev after_validation : String → Fields → Failure → cluster.S → Option Exception × cluster.S
  after_validation namespace spec (some message) s =
      (some (permanent_error ("Invalid PowerCappingConfig spec: " ++ message)), s)
  after_validation namespace spec none s =
      over_refs (limit_object namespace (get_or null "powerCapLimit" spec))
        (elements (get_or (arr nil) "scaledObjectRefs" spec)) s

  unfoldable pub create_power_capping_config :
      Validate → String → Fields → cluster.S → Option Exception × cluster.S
  unfolding limit_object
  create_power_capping_config validate namespace spec s =
      after_validation namespace spec (validate (obj spec) (obj power_capping_config_schema)) s
