-- ===== src/Operator/Create/Rejected.antt =====
-- The specs that the definitions of the custom resource let through, at the operator's schema.
use Prim.Native.String.{◌++◌}
use climatik_project.Prelude.{
  Option, String, none, some, List, [], ◌∷◌, ◌≡◌, ◌≢◌, subst, refl, ◌⊎◌, inl, inr, All,
  Option-cases,
}
use climatik_project.Go.Json.{Json, str, arr, obj, Items, nil, cons, Fields}
use climatik_project.Operator.Python.{permanent_error, find}
use climatik_project.Operator.Number.{Number}
use climatik_project.Operator.Cluster.{Cluster}
use climatik_project.Operator.Create.{
  Validate, power_capping_config_schema, create_power_capping_config,
}

-- The texts of an array.
abbrev texts : Items → List String
texts nil = []
texts (cons (str k) vs) = k ∷ texts vs
texts (cons v vs) = texts vs

abbrev listed : Option Json → List String
listed (some (arr vs)) = texts vs
listed _ = []

-- What a schema lists under `required`.
unfoldable pub required_keys : Fields → List String
required_keys schema = listed (find "required" schema)

-- A dictionary that is valid by a schema has every key that the schema requires.
abbrev pub ChecksRequired : Validate → Type 0
ChecksRequired validate =
    (fs schema : Fields)
    → validate (obj fs) (obj schema) ≡ none
    → All (λ k. find k fs ≢ none) (required_keys schema)

-- The definitions of the custom resource in the repository:
-- config/crd/bases/climatik-project.io_powercappingconfigs.yaml,
-- deploy/climatik-operator/manifests/crd.yaml, and
-- deploy/climatik-operator/helm-chart/power-capping-operator/templates/crd.yaml.
pub data Crd : Type 0 where
  base_crd manifest_crd helm_crd : Crd

-- The properties that the schemas of `spec` name.
abbrev base_properties : List String
base_properties =
    "efficiencyLevel" ∷ "powerCappingSpec" ∷ "temperatureThresholdSpec" ∷ "workloadType" ∷ []

abbrev manifest_properties : List String
manifest_properties =
    "workloadType" ∷ "efficiencyLevel" ∷ "scaledObjectRefs" ∷ "powerCappingSpec"
    ∷ "temperatureThresholdSpec" ∷ []

abbrev helm_properties : List String
helm_properties = "powerCapLimit" ∷ "scaleObjectRefs" ∷ []

unfoldable pub spec_properties : Crd → List String
spec_properties base_crd = base_properties
spec_properties manifest_crd = manifest_properties
spec_properties helm_crd = helm_properties

-- The pruning of the API server, by the properties that a schema names.
abbrev pub Prune : Type 0
Prune = List String → Fields → Fields

-- Pruning leaves no key that the schema does not name.
abbrev pub DropsUnknown : Prune → Type 0
DropsUnknown prune =
    (names : List String) (fs : Fields) (k : String)
    → All (λ name. name ≢ k) names
    → find k (prune names fs) ≡ none

-- A key that the operator's schema requires and that a definition does not name.
not_named :
    All (λ name. name ≢ "powerCapLimit") (spec_properties base_crd)
    × All (λ name. name ≢ "powerCapLimit") (spec_properties manifest_crd)
    × All (λ name. name ≢ "scaledObjectRefs") (spec_properties helm_crd)
unfolding spec_properties
not_named = (
  ((λ e. cc), ((λ e. cc), ((λ e. cc), ((λ e. cc), tt)))),
  ((λ e. cc), ((λ e. cc), ((λ e. cc), ((λ e. cc), ((λ e. cc), tt))))),
  ((λ e. cc), ((λ e. cc), tt)),
)

required_by_schema :
    required_keys power_capping_config_schema ≡ "powerCapLimit" ∷ "scaledObjectRefs" ∷ []
unfolding required_keys find
required_by_schema = refl

module _ (prune : Prune) (drops : DropsUnknown prune) where
  -- A key that the operator's schema requires and the custom resource cannot have.
  find-prune :
      (crd : Crd) (fs : Fields)
      → (find "powerCapLimit" (prune (spec_properties crd) fs) ≡ none)
        ⊎ (find "scaledObjectRefs" (prune (spec_properties crd) fs) ≡ none)
  unfolding spec_properties
  find-prune base_crd fs = inl (drops (spec_properties base_crd) fs "powerCapLimit" not_named.0)
  find-prune manifest_crd fs =
      inl (drops (spec_properties manifest_crd) fs "powerCapLimit" not_named.1)
  find-prune helm_crd fs = inr (drops (spec_properties helm_crd) fs "scaledObjectRefs" not_named.2)

  -- The operator rejects every spec that the API server stores by one of the three definitions of
  -- the custom resource, for good and before it changes an object: with a pruning that leaves no
  -- key which the definition does not name, and a validation by which a valid dictionary has every
  -- key that its schema requires.
  pub create_power_capping_config-rejects :
      (validate : Validate) (checks : ChecksRequired validate) (n : Number) (cluster : Cluster)
      (namespace : String) (crd : Crd) (fs : Fields) (s : cluster.S)
      → (message : String) × (create_power_capping_config n cluster validate namespace
            (prune (spec_properties crd) fs)
            s
          ≡ (some (permanent_error ("Invalid PowerCappingConfig spec: " ++ message)), s))
  unfolding create_power_capping_config
  create_power_capping_config-rejects validate checks n cluster namespace crd fs s =
      let spec = prune (spec_properties crd) fs in
      elim (Option-cases (validate (obj spec) (obj power_capping_config_schema))) [
        | inr (message, invalid) ↦ (message, rw invalid)
        | inl valid ↦
            let (limit, refs) : (find "powerCapLimit" spec ≢ none)
                × ((find "scaledObjectRefs" spec ≢ none) × Unit) =
              subst (All (λ k. find k spec ≢ none)) required_by_schema
                (checks spec power_capping_config_schema valid) in
            elim (find-prune crd fs) [
              | inl no_limit ↦ absurd (limit no_limit)
              | inr no_refs ↦ absurd (refs.0 no_refs)
            ]
      ]
