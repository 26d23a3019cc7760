-- ===== src/Webhook/Slack/Config.antt =====
-- `UpdatePowerCappingConfig`: the custom resource is read, changed in memory and written back.
pub mod Namespace
pub mod Encoded
mod Examples
use Prim.Native.String.{◌++◌}
use climatik_project.Prelude.{String, Option, none, some, ◌==◌, if◌then◌else◌, ◌≡◌, ◌≢◌}
use climatik_project.Go.Result.{Error, Result, ok, err, Call, ret, panic, ◌>>=◌, Failure}
use climatik_project.Go.Json.{Json, null, bool, num, str, arr, obj, Fields, field_of, set_field}
use climatik_project.Go.Text.{atoi_value}

-- The dynamic client for the resource powercappingconfigs of climatik-project.io/v1alpha1, with
-- the namespace and the name, or the object, of each call.
pub record KubeApi : Type 1 where
  pub S : Type 0
  pub get : S → String → String → Result Fields
  pub update : S → String → Fields → Failure × S

abbrev pub config_namespace : String
config_namespace = "operator-powercapping-system"

abbrev pub config_name : String
config_name = "high-efficiency-for-stress-powercappingconfig"

abbrev pub update_namespace : String
update_namespace = "default"

-- `v.(map[string]interface{})`
unfoldable pub as_object : Json → Call Fields
as_object (obj fs) = ret fs
as_object _ = panic "interface conversion: interface {} is not map[string]interface {}"

-- `spec["efficiencyLevel"] = value`
unfoldable pub set_efficiency_level : String → Fields → Call Fields
set_efficiency_level value spec = ret (set_field "efficiencyLevel" (str value) spec)

-- The percentage is set two maps further down; the error of `Atoi` is ignored.
unfoldable pub set_power_cap_percentage : String → Fields → Call Fields
unfolding as_object
set_power_cap_percentage value spec = do
  caps ← as_object (field_of "powerCappingSpec" spec)
  relative ← as_object (field_of "relativePowerCapInPercentageSpec" caps)
  let relative' = set_field "powerCapPercentage" (num (atoi_value value)) relative
  let caps' = set_field "relativePowerCapInPercentageSpec" (obj relative') caps
  ret (set_field "powerCappingSpec" (obj caps') spec)

abbrev pub wrap_update : {S : Type 0} → Failure × S → Failure × S
wrap_update (none, s) = (none, s)
wrap_update (some e, s) = (some ("failed to update PowerCappingConfig: " ++ e), s)

module _ (api : KubeApi) where
  unfoldable pub submit : api.S → Fields → Failure × api.S
  submit s pcc = wrap_update (api.update s update_namespace pcc)

  -- The changed spec goes back into the object, which is written if the change did not panic.
  unfoldable pub submit_spec : api.S → Fields → Call Fields → Call (Failure × api.S)
  submit_spec s pcc changed = do spec ← changed; ret (submit s (set_field "spec" (obj spec) pcc))

  -- The `switch` on the parameter, for the object that was read and its spec.
  unfoldable pub change : api.S → String → String → Fields → Fields → Call (Failure × api.S)
  change s param value pcc spec =
      if param == "efficiency_level"
      then submit_spec s pcc (set_efficiency_level value spec)
      else if param == "power_cap_percentage"
      then submit_spec s pcc (set_power_cap_percentage value spec)
      else ret (some ("unknown parameter: " ++ param), s)

  abbrev pub on_read : api.S → String → String → Result Fields → Call (Failure × api.S)
  on_read s param value (err e) = ret (some ("failed to get PowerCappingConfig: " ++ e), s)
  on_read s param value (ok pcc) = do
    spec ← as_object (field_of "spec" pcc)
    change s param value pcc spec

  unfoldable pub update_power_capping_config : api.S → String → String → Call (Failure × api.S)
  update_power_capping_config s param value =
      on_read s param value (api.get s config_namespace config_name)
