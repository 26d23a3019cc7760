-- ===== src/Api/Examples.antt =====
-- The theorems on deep copies at a list of one item, and those on JSON and its schema at a
-- configuration with numbers at both ends of 64 bits.
use climatik_project.Prelude.{some, ◌-◌, ◌^◌, ℕ, none, [], ◌∷◌, ◌≡◌, refl, arith}
use climatik_project.Prelude.Int.{pos, negsuc}
use climatik_project.Go.Result.{ret, ok}
use climatik_project.Go.Store.{Store, IsStore, allocate}
use climatik_project.Go.Text.{join, print_int, print_nat}
use climatik_project.Api.{error, PowerCappingConfig}
use climatik_project.Api.Encode.{config_fields}
use climatik_project.Api.Decode.{DecodeMeta, decode_config}
use climatik_project.Api.Decode.RoundTrip.{SpecFits, AcceptsNames, decode_config-config_fields}
use climatik_project.Api.Schema.Known.{Stands, config_fields-Stands}
use climatik_project.Go.Json.{null, num, str, obj, Fields, end, field, field_of}
use climatik_project.Api.DeepCopy.{zero_spec, zero_status}
use climatik_project.Api.DeepCopy.Objects.{ConfigObject, ConfigList, Memory, list_copy_object}
use climatik_project.Api.DeepCopy.Labels.{labels, labels-MetadataLaws}
use climatik_project.Api.DeepCopy.Lists.{IsListCopy}
use climatik_project.Api.DeepCopy.ListObjects.{list_copy_object_copies}

abbrev empty_store : {A : Type 0} → Store A
empty_store = record { next = 0; cell = λ p. none }

empty_store-IsStore : {A : Type 0} → IsStore (empty_store {A = A})
empty_store-IsStore = record { free = λ p h. refl }

allocated-IsStore : {A : Type 0} (a : A) → IsStore (allocate a empty_store)
allocated-IsStore a = record { free = λ p h. ground arith }

abbrev example_config : ConfigObject labels
example_config = record {
  type_meta = record { kind = "PowerCappingConfig"; api_version = "climatik-project.io/v1alpha1" };
  object_meta = 0;
  spec = zero_spec;
  status = zero_status;
}

abbrev example_list : ConfigList labels
example_list = record {
  type_meta = record {
    kind = "PowerCappingConfigList";
    api_version = "climatik-project.io/v1alpha1";
  };
  list_meta = 0;
  items = some 0;
}

-- One map of labels, which the list and its item share.
abbrev example_memory : Memory labels
example_memory = record {
  configs = allocate example_config empty_store;
  lists = allocate example_list empty_store;
  arrays = allocate (example_config ∷ []) empty_store;
  meta = allocate (("app", "web") ∷ []) empty_store;
}

list_copy_object_copies_example :
    (list_copy_object labels none example_memory ≡ ret (none, example_memory))
    × ((q : ℕ) × (m' : Memory labels) × (list_copy_object labels (some 0) example_memory
          ≡ ret (some q, m'))
        × IsListCopy labels-MetadataLaws example_memory m' q example_list (example_config ∷ []))
unfolding labels-MetadataLaws
list_copy_object_copies_example =
    list_copy_object_copies {lib = labels} labels-MetadataLaws example_memory 0 example_list
      (example_config ∷ []) (allocated-IsStore example_list)
      (allocated-IsStore (example_config ∷ [])) refl refl (omega arith)

abbrev extreme_config : PowerCappingConfig
extreme_config = record {
  name = "high";
  namespace = "default";
  spec = record zero_spec {
    efficiency_level = "low";
    power_capping_spec = record zero_spec.power_capping_spec {
      kind = "AbsolutePowerCapInWatts";
      absolute = record { power_cap_in_watts = negsuc (2 ^ 63 - 1) };
      relative = record { power_cap_percentage = pos 0; sample_window = pos (2 ^ 63 - 1) };
    };
  };
  status = zero_status;
}

extreme-SpecFits : SpecFits extreme_config.spec
extreme-SpecFits = record {
  watts = refl;
  percentage = refl;
  window = refl;
  celsius = refl;
  threshold = refl;
  temperature_window = refl;
}

-- A decoding of the embedded types that wants the labels to be an object.
abbrev check_meta : DecodeMeta
check_meta fs = elim (field_of "metadata" fs) [
  | obj ms ↦ elim (field_of "labels" ms) [
    | null ↦ none
    | obj ls ↦ none
    | _ ↦ some "cannot unmarshal into Go struct field ObjectMeta.metadata.labels"
  ]
  | null ↦ none
  | _ ↦ some "cannot unmarshal into Go struct field .metadata"
]

check_meta-AcceptsNames : AcceptsNames check_meta
unfolding field_of
check_meta-AcceptsNames version kind name namespace others = ground arith

decode_config-config_fields_example :
    decode_config check_meta (config_fields extreme_config) ≡ ok extreme_config
decode_config-config_fields_example =
    decode_config-config_fields check_meta check_meta-AcceptsNames extreme_config extreme-SpecFits
      refl refl

config_fields-Stands_example : Stands check_meta (config_fields extreme_config) extreme_config
config_fields-Stands_example =
    config_fields-Stands check_meta check_meta-AcceptsNames extreme_config extreme-SpecFits refl
      refl

-- An object with an unknown key and without a status.
abbrev sparse_fields : Fields
sparse_fields = field "metadata" (obj (field "name" (str "low") end)) (
    field "spec" (obj (field "owner" (num (pos 7)) (field "workloadType" (str "training") end)))
      end)

error_test :
    error extreme_config
    ≡ "Error in PowerCappingConfig: { low {AbsolutePowerCapInWatts {-9223372036854775808} {0 9223372036854775807}} { {0} {0 0}}} {0 0}"
unfolding error print_int print_nat join
error_test = refl
