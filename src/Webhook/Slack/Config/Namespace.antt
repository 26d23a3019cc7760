-- ===== src/Webhook/Slack/Config/Namespace.antt =====
-- The object is read from one namespace and written to another, which an API server refuses.
use climatik_project.Prelude.{
  String, none, some, ◌≡◌, refl, ap, ◌∙◌, ◌≢◌, inl, inr, arith, subst, eq_iff, Bool-cases, ◌==◌,
}
use climatik_project.Go.Result.{Error, Result, ok, err, Call, ret, panic, ◌>>=◌, Failure}
use climatik_project.Go.Json.{
  Json, null, str, obj, Fields, field_of, set_field, field_of-set_field_ne,
}
use climatik_project.Webhook.Slack.Config.{
  KubeApi, config_namespace, update_namespace, config_name, as_object, set_efficiency_level,
  set_power_cap_percentage, wrap_update, submit, submit_spec, change, on_read,
  update_power_capping_config,
}

abbrev inner_namespace : Json → Json
inner_namespace (obj metadata) = field_of "namespace" metadata
inner_namespace _ = null

-- `metadata.namespace` of an object.
abbrev pub namespace_of : Fields → Json
namespace_of pcc = inner_namespace (field_of "metadata" pcc)

-- What an API server does: an object that is read carries the namespace of the request, and an
-- update is refused if the object's namespace is not that of the request.
pub record ServerLaws (api : KubeApi) : Type 0 where
  pub get_namespace :
      (s : api.S) (namespace name : String) (pcc : Fields)
      → api.get s namespace name ≡ ok pcc
      → namespace_of pcc ≡ str namespace
  pub update_mismatch :
      (s : api.S) (namespace own : String) (pcc : Fields)
      → namespace_of pcc ≡ str own
      → own ≢ namespace
      → (e : Error) × ((api.update s namespace pcc).0 ≡ some e)

namespace-set_field :
    (v : Json) (pcc : Fields) → namespace_of (set_field "spec" v pcc) ≡ namespace_of pcc
namespace-set_field v pcc =
    ap inner_namespace
      (field_of-set_field_ne "spec" "metadata" v pcc (ground (arith, eq_iff "spec" "metadata")))

wrap_update-ne :
    {S : Type 0} (x : Failure × S) (e : Error) → x.0 ≡ some e → (wrap_update x).0 ≢ none
wrap_update-ne (none, s) e h = cc
wrap_update-ne (some e', s) e h = λ k. cc

module _ (api : KubeApi) (laws : ServerLaws api) where
  submit-fails :
      (s : api.S) (pcc : Fields)
      → namespace_of pcc ≡ str config_namespace
      → (submit api s pcc).0 ≢ none
  unfolding submit
  submit-fails s pcc own =
      let (e, refused) =
        laws.update_mismatch s update_namespace config_namespace pcc own
          (ground (arith, eq_iff config_namespace update_namespace)) in
      wrap_update-ne (api.update s update_namespace pcc) e refused

  submit_spec-fails :
      (s : api.S) (pcc : Fields) (changed : Call Fields) (r : Failure × api.S)
      → namespace_of pcc ≡ str config_namespace
      → submit_spec api s pcc changed ≡ ret r
      → r.0 ≢ none
  unfolding submit_spec
  submit_spec-fails s pcc (panic m) r own e = cc
  submit_spec-fails s pcc (ret spec) r own e =
      let same : submit api s (set_field "spec" (obj spec) pcc) ≡ r = cc in
      subst (λ x. x.0 ≢ none) same
        (submit-fails s (set_field "spec" (obj spec) pcc)
          (namespace-set_field (obj spec) pcc ∙ own))

  change-fails :
      (s : api.S) (param value : String) (pcc spec : Fields) (r : Failure × api.S)
      → namespace_of pcc ≡ str config_namespace
      → change api s param value pcc spec ≡ ret r
      → r.0 ≢ none
  unfolding change
  change-fails s param value pcc spec r own e = elim (Bool-cases (param == "efficiency_level")) [
    | inl level ↦
        submit_spec-fails s pcc (set_efficiency_level value spec) r own (rw (level, change) at e)
    | inr other ↦ elim (Bool-cases (param == "power_cap_percentage")) [
      | inl percentage ↦
          submit_spec-fails s pcc (set_power_cap_percentage value spec) r own
            (rw (other, percentage, change) at e)
      | inr unknown ↦ let done = rw (other, unknown, change) at e in λ nil. cc
    ]
  ]

  read_spec-fails :
      (s : api.S) (param value : String) (pcc : Fields) (spec : Call Fields) (r : Failure × api.S)
      → namespace_of pcc ≡ str config_namespace
      → (spec >>= change api s param value pcc) ≡ ret r
      → r.0 ≢ none
  read_spec-fails s param value pcc (panic m) r own e = cc
  read_spec-fails s param value pcc (ret spec) r own e = change-fails s param value pcc spec r own e

  on_read-fails :
      (s : api.S) (param value : String) (x : Result Fields) (r : Failure × api.S)
      → ((pcc : Fields) → x ≡ ok pcc → namespace_of pcc ≡ str config_namespace)
      → on_read api s param value x ≡ ret r
      → r.0 ≢ none
  on_read-fails s param value (err e) r own h = λ nil. cc
  on_read-fails s param value (ok pcc) r own h =
      read_spec-fails s param value pcc (as_object (field_of "spec" pcc)) r (own pcc refl) h

  -- Against an API server, the update of the configuration never succeeds, whatever the parameter
  -- and the value: if it returns at all, it returns an error, since the object is read from the
  -- namespace "operator-powercapping-system" and written to "default".
  pub update_power_capping_config-fails :
      (s : api.S) (param value : String) (r : Failure × api.S)
      → update_power_capping_config api s param value ≡ ret r
      → r.0 ≢ none
  unfolding update_power_capping_config
  update_power_capping_config-fails s param value r e =
      on_read-fails s param value (api.get s config_namespace config_name) r
        (laws.get_namespace s config_namespace config_name) e
