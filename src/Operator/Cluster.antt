-- ===== src/Operator/Cluster.antt =====
-- python/climatik_operator/operator.py: the calls of Kubernetes and of Prometheus, and what is read
-- from their answers.
use Prim.Native.String.{◌++◌}
use climatik_project.Prelude.{String, Option, none, some, List, [], ◌∷◌}
use climatik_project.Prelude.Int.{ℤ}
use climatik_project.Go.Text.{concat}
use climatik_project.Go.FilePath.{split_slash}
use climatik_project.Go.Json.{Json, num, obj, set_field}
use climatik_project.Operator.Python.{
  Exception, Outcome, returned, raised, index_error, ◌>>=◌, item, text, receiver, fields, elements,
}
use climatik_project.Operator.Number.{Number, float}

-- What the calls of `CustomObjectsApi` name an object by.
pub record ObjectKey : Type 0 where
  pub group : String
  pub version : String
  pub namespace : String
  pub plural : String
  pub name : String

-- The libraries that the operator calls. The names of objects and deployments are texts, as the
-- schemas of Kubernetes and KEDA have it. Reading leaves the cluster as it is.
pub record Cluster : Type 1 where
  pub S : Type 0
  -- `str.lower`
  pub lower : String → String
  pub get_object : S → ObjectKey → Outcome Json
  pub patch_object : S → ObjectKey → Json → Outcome S
  -- `spec.replicas` of a deployment, by its namespace and name
  pub read_replicas : S → String → String → Outcome Json
  -- the list that the Prometheus client returns
  pub custom_query : S → String → Outcome (List Json)

abbrev second_part : List String → Outcome String
second_part (a ∷ b ∷ rest) = returned b
second_part _ = raised index_error

abbrev first_part : List String → Outcome String
first_part (a ∷ rest) = returned a
first_part [] = raised index_error

-- `get_current_replica_from_scale_object` reads the same path.
unfoldable pub deployment_name : Json → Outcome String
deployment_name scaled_object = do
  spec ← item "spec" scaled_object
  target ← item "scaleTargetRef" spec
  name ← item "name" target
  text name

-- `scaled_object['spec']['maxReplicaCount'] = n`
unfoldable pub with_max_replicas : ℤ → Json → Outcome Json
with_max_replicas n scaled_object = do
  object ← fields scaled_object
  spec ← item "spec" scaled_object
  inner ← fields spec
  returned (obj (set_field "spec" (obj (set_field "maxReplicaCount" (num n) inner)) object))

unfoldable pub power_query : String → String → String
power_query deployment namespace = concat (
    "sum(rate(kepler_container_joules_total{container_namespace=\"" ∷ namespace
    ∷ "\", container_name=\"" ∷ deployment ∷ "\"}[5m]))" ∷ [])

-- `values[1]`
unfoldable pub second : List Json → Outcome Json
second (a ∷ b ∷ rest) = returned b
second _ = raised index_error

module _ (n : Number) (cluster : Cluster) where
  -- The object that a reference names: `group` and `version` are the parts of `apiVersion` before
  -- and after its first slash.
  unfoldable pub object_key : String → Json → Json → Json → Outcome ObjectKey
  object_key namespace api_version kind name = do
    version ← receiver api_version
    group ← first_part (split_slash version)
    number ← second_part (split_slash version)
    kind_name ← receiver kind
    object_name ← text name
    returned (record {
      group = group;
      version = number;
      namespace = namespace;
      plural = cluster.lower kind_name ++ "s";
      name = object_name;
    })

  -- The first value of the answer; 0 without one.
  unfoldable pub power_of : List Json → Outcome n.F
  power_of [] = returned n.zero
  power_of (first ∷ rest) = do
    value ← item "value" first
    values ← elements value
    reading ← second values
    float n reading

  unfoldable pub get_power_consumption : cluster.S → String → String → Outcome n.F
  get_power_consumption s deployment namespace = do
    result ← cluster.custom_query s (power_query deployment namespace)
    power_of result

  abbrev pub patch_one :
      (cluster.S → Json → Outcome (ObjectKey × Json)) → cluster.S → Json → Outcome cluster.S
  patch_one prepare s scale_object_ref = do
    prepared ← prepare s scale_object_ref
    cluster.patch_object s prepared.0 prepared.1

  -- A loop that reads, prepares and patches one object for each reference; an exception ends it,
  -- with the patches that were made.
  unfoldable pub patch_each :
      (cluster.S → Json → Outcome (ObjectKey × Json))
      → List Json
      → cluster.S
      → Option Exception × cluster.S
  patch_each prepare [] s = (none, s)
  patch_each prepare (scale_object_ref ∷ refs) s = elim (patch_one prepare s scale_object_ref) [
    | raised e ↦ (some e, s)
    | returned s' ↦ patch_each prepare refs s'
  ]
