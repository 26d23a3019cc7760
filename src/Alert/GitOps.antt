-- ===== src/Alert/GitOps.antt =====
-- internal/alert/adapters/git_ops.go
pub mod Files
use Prim.Native.String.{◌++◌}
use climatik_project.Prelude.{ℕ, String, Option, none, List, [], ◌∷◌, map}
use climatik_project.Prelude.Int.{ℤ}
use climatik_project.Go.Result.{Result, ok, Failure}
use climatik_project.Go.Text.{concat, join, print_int}
use climatik_project.Go.Map.{Map, insert}
use climatik_project.Go.FilePath.{join_path}
use climatik_project.Go.Client.{Time}
use climatik_project.Alert.World.{World, set_store, allocate, AlertArgs}

-- `alerts` is the number of the manager's map in the world.
pub record GitOpsAlertManager : Type 0 where
  pub repo_dir : String
  pub alerts : ℕ

-- `NewGitOpsAlertManager`; the URL of the repository is not used.
unfoldable pub new_git_ops_alert_manager :
    String → String → World → Result GitOpsAlertManager × World
new_git_ops_alert_manager repo_url repo_dir w =
    (ok (record { repo_dir = repo_dir; alerts = w.next }), allocate w)

abbrev pub device_line : String × String → String
device_line (device, value) = concat (device ∷ ": " ∷ value ∷ [])

unfoldable pub format_alert_message : Time → String → ℤ → Map String → String
format_alert_message now pod_name power_cap_value devices = concat (
    "\n\t\tapiVersion: climatik.io/v1\n\t\tkind: PowerAlert\n\t\tmetadata:\n\t\tname: "
    ∷ pod_name
    ∷ "-alert\n\t\tcreationTimestamp: "
    ∷ now.rfc3339
    ∷ "\n\t\tspec:\n\t\tpodName: "
    ∷ pod_name
    ∷ "\n\t\tpowerCapValue: "
    ∷ print_int power_cap_value
    ∷ "\n\t\tdevices: "
    ∷ join "\n    " (map device_line devices)
    ∷ "\n\t"
    ∷ [])

-- The key of a pod's alert.
unfoldable pub alert_file : String → String → String
alert_file repo_dir pod_name = join_path (repo_dir ∷ "alerts" ∷ (pod_name ++ "-alert.yaml") ∷ [])

unfoldable pub create_alert : Time → GitOpsAlertManager → AlertArgs → World → Failure × World
create_alert now g a w = (
  none,
  set_store g.alerts
      (insert (alert_file g.repo_dir a.pod_name)
        (format_alert_message now a.pod_name a.power_cap_value a.devices) (w.stores g.alerts))
      w,
)

-- `GetAlerts`
abbrev pub get_alerts : GitOpsAlertManager → World → Map String
get_alerts g w = w.stores g.alerts
