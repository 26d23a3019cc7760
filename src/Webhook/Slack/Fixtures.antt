-- ===== src/Webhook/Slack/Fixtures.antt =====
-- Two small API servers: one that checks namespaces, and one that accepts everything.
use climatik_project.Prelude.{
  String, none, some, List, [], ◌∷◌, ◌≡◌, ◌≢◌, refl, ==-eq-false, ◌==◌, if◌then◌else◌, subst,
}
use climatik_project.Go.Result.{Error, Result, ok, ret, Failure}
use climatik_project.Go.Json.{Json, str, obj, Fields, end, field, field_of, set_field}
use climatik_project.Api.Encode.{config_fields, spec_fields}
use climatik_project.Controller.Pods.{mock_power_capping_config}
use climatik_project.Webhook.Slack.Config.{
  KubeApi, update_power_capping_config, config_namespace, set_efficiency_level, submit, submit_spec,
  change, as_object,
}
use climatik_project.Webhook.Slack.Config.Namespace.{namespace_of, ServerLaws}
use climatik_project.Webhook.Slack.Config.Encoded.{with_level}

-- A server with one object in every namespace, which counts the updates that it accepts.
abbrev object_in : String → Fields
object_in namespace =
    field "metadata" (obj (field "namespace" (str namespace) end))
      (field "spec" (obj (spec_fields mock_power_capping_config.spec)) end)

abbrev check_namespace : String → Json → Failure
check_namespace namespace (str own) =
    if own == namespace
    then none
    else some
        "the namespace of the provided object does not match the namespace sent on the request"
check_namespace namespace _ = some "the object has no namespace"

abbrev pub server : KubeApi
server = record {
  S = List Fields;
  get = λ s namespace name. ok (object_in namespace);
  update = λ s namespace pcc. (check_namespace namespace (namespace_of pcc), pcc ∷ s);
}

server_get_namespace :
    (namespace : String) (pcc : Fields)
    → Path (Result Fields) (ok (object_in namespace)) (ok pcc)
    → namespace_of pcc ≡ str namespace
unfolding field_of
server_get_namespace namespace pcc e =
    let same : object_in namespace ≡ pcc = cc in
    subst (λ x. namespace_of x ≡ str namespace) same refl

server_update_mismatch :
    (s : List Fields) (namespace own : String) (pcc : Fields)
    → namespace_of pcc ≡ str own
    → own ≢ namespace
    → (e : Error) × (check_namespace namespace (namespace_of pcc) ≡ some e)
server_update_mismatch s namespace own pcc is_own other = (
  "the namespace of the provided object does not match the namespace sent on the request",
  rw (is_own, ==-eq-false own namespace other),
)

pub server-ServerLaws : ServerLaws server
server-ServerLaws = record {
  get_namespace = λ s namespace name pcc e. server_get_namespace namespace pcc e;
  update_mismatch = server_update_mismatch;
}

-- The object that the server is handed for the level "Low".
abbrev low_object : Fields
low_object =
    field "metadata" (obj (field "namespace" (str config_namespace) end))
      (field "spec" (obj (spec_fields (with_level "Low" mock_power_capping_config).spec)) end)

abbrev pub low_reply : Failure × List Fields
low_reply = (
  some
      "failed to update PowerCappingConfig: the namespace of the provided object does not match the namespace sent on the request",
  low_object ∷ [],
)

pub low_refused : update_power_capping_config server [] "efficiency_level" "Low" ≡ ret low_reply
unfolding update_power_capping_config change submit_spec submit set_efficiency_level as_object
    spec_fields field_of set_field
low_refused = refl

-- A server that accepts everything, whose only object is the built-in configuration.
abbrev pub lax_server : KubeApi
lax_server = record {
  S = List Fields;
  get = λ s namespace name. ok (config_fields mock_power_capping_config);
  update = λ s namespace pcc. (none, pcc ∷ s);
}
