-- ===== src/Alert/GitOps/Files.antt =====
-- Where the GitOps manager keeps the alert of a pod, and what one alert does to the others.
use Prim.Native.String
use Prim.Native.String.{len}
use text.Mathlib.TextLemmas.{
  append_assoc, append_cancel_left, append_cancel_right, cons-append, nil-append,
}
use text.Mathlib.TextPositions.{len-append}
use climatik_project.Prelude.{
  ◌<◌, String, List, [], ◌∷◌, none, some, ◌≡◌, refl, sym, ap, ◌∙◌, ◌≢◌, arith, nat_eq_refl, eq_iff,
  ◌==◌, Bool-cases, inl, inr, subst,
}
use climatik_project.Go.Map.{lookup, lookup-insert_self, lookup-insert_ne}
use climatik_project.Go.Client.{Time}
use climatik_project.Go.Text.{join}
use climatik_project.Go.FilePath.{join_path, clean, split_slash, resolve_all, resolve}
use climatik_project.Go.FilePath.Child.{NoSlash, IsPlain, under, kept, clean-under, kept-under_head}
use climatik_project.Alert.World.{World, AlertArgs}
use climatik_project.Alert.GitOps.{
  GitOpsAlertManager, alert_file, create_alert, format_alert_message, get_alerts,
}

abbrev pub file_name : String → String
file_name pod_name = String.◌++◌ pod_name "-alert.yaml"

file_name-ne : (pod s : String) → len s < 11 → file_name pod ≢ s
file_name-ne pod s short e = absurd (omega (arith, len-append pod "-alert.yaml", ap len e))

file_name-IsPlain : (pod : String) → IsPlain (file_name pod)
file_name-IsPlain pod = (
  file_name-ne pod "" (omega arith),
  file_name-ne pod "." (omega arith),
  file_name-ne pod ".." (omega arith),
)

NoSlash-append : (s t : String) → NoSlash s → NoSlash t → NoSlash (String.◌++◌ s t)
NoSlash-append String.[] t h k = rw nil-append k
NoSlash-append (String.◌∷◌ c s) t h k = rw cons-append (h.0, NoSlash-append s t h.1 k)

alerts-IsPlain : IsPlain "alerts"
alerts-IsPlain = (
  ground (arith, eq_iff "alerts" ""),
  ground (arith, eq_iff "alerts" "."),
  ground (arith, eq_iff "alerts" ".."),
)

join_path_of_ne :
    (e : String) (es : List String) → e ≢ "" → join_path (e ∷ es) ≡ clean (join "/" (e ∷ es))
unfolding join_path
join_path_of_ne e es h = ground (arith, eq_iff e "")

under-ne : (s t : String) → under s t ≢ ""
under-ne s t e =
    absurd (omega (arith, len-append s (String.◌++◌ "/" t), len-append "/" t, ap len e))

-- The directory of the alerts.
abbrev pub alert_dir : String → String
alert_dir repo_dir = join_path (repo_dir ∷ "alerts" ∷ [])

alerts-NoSlash : NoSlash "alerts"
alerts-NoSlash = omega arith

-- In a directory with a name.
file_under_named :
    (dir f : String)
    → dir ≢ ""
    → NoSlash f
    → IsPlain f
    → join_path (dir ∷ "alerts" ∷ f ∷ []) ≡ under (alert_dir dir) f
file_under_named dir f ne free plain =
    let nested : join "/" (dir ∷ "alerts" ∷ f ∷ []) ≡ under (under dir "alerts") f =
      unfold join in simp append_assoc in
    let outer : alert_dir dir ≡ clean (under dir "alerts") =
      unfold join in join_path_of_ne dir ("alerts" ∷ []) ne in
    join_path_of_ne dir ("alerts" ∷ f ∷ []) ne
    ∙ ap clean nested
    ∙ clean-under (under dir "alerts") f "alerts" (kept dir) (under-ne dir "alerts")
        (kept-under_head dir "alerts" ne alerts-NoSlash alerts-IsPlain) free plain
    ∙ sym (ap (λ d. under d f) outer)

alerts_kept : kept "alerts" ≡ "alerts" ∷ []
unfolding split_slash resolve_all resolve
alerts_kept = refl

alert_dir_here : alert_dir "" ≡ clean "alerts"
unfolding join_path join
alert_dir_here = refl

-- In the current directory, that is with an empty `repoDir`.
file_under_here :
    (f : String)
    → NoSlash f
    → IsPlain f
    → join_path ("" ∷ "alerts" ∷ f ∷ []) ≡ under (alert_dir "") f
file_under_here f free plain =
    let first : join_path ("" ∷ "alerts" ∷ f ∷ []) ≡ clean (under "alerts" f) =
      unfold join_path join in refl in
    first
    ∙ clean-under "alerts" f "alerts" [] (alerts-IsPlain.0) alerts_kept free plain
    ∙ sym (ap (λ d. under d f) alert_dir_here)

file_under :
    (dir f : String)
    → NoSlash f
    → IsPlain f
    → join_path (dir ∷ "alerts" ∷ f ∷ []) ≡ under (alert_dir dir) f
file_under dir f free plain = elim (Bool-cases (dir == "")) [
  | inl empty ↦
      subst (λ d. join_path (d ∷ "alerts" ∷ f ∷ []) ≡ under (alert_dir d) f)
        (sym ((eq_iff dir "").0 empty)) (file_under_here f free plain)
  | inr named ↦ file_under_named dir f (ground (arith, eq_iff dir "")) free plain
]

-- For a pod whose name has no slash, the key is the file "<pod>-alert.yaml" directly under the
-- cleaned path of the directory "alerts" in the repository, whatever the repository's path is.
pub alert_file-eq-under :
    (repo_dir pod : String)
    → NoSlash pod
    → alert_file repo_dir pod
      ≡ String.◌++◌ (alert_dir repo_dir) (String.◌++◌ "/" (String.◌++◌ pod "-alert.yaml"))
unfolding alert_file
alert_file-eq-under repo_dir pod free =
    file_under repo_dir (file_name pod) (NoSlash-append pod "-alert.yaml" free (omega arith))
      (file_name-IsPlain pod)

alert_file_injective :
    (repo_dir p q : String)
    → NoSlash p
    → NoSlash q
    → alert_file repo_dir p ≡ alert_file repo_dir q
    → p ≡ q
alert_file_injective repo_dir p q hp hq e = append_cancel_right p q "-alert.yaml" (
    append_cancel_left "/" _ _ (
      append_cancel_left (alert_dir repo_dir) _ _
        (sym (alert_file-eq-under repo_dir p hp) ∙ e ∙ alert_file-eq-under repo_dir q hq)))

-- `CreateAlert` of the GitOps manager cannot fail; afterwards the file of the pod holds the new
-- message, and the file of every other pod holds what it held. Names of pods have no slash.
pub create_alert_stores :
    (now : Time) (g : GitOpsAlertManager) (a : AlertArgs) (w : World) (other : String)
    → NoSlash a.pod_name
    → NoSlash other
    → a.pod_name ≢ other
    → ((create_alert now g a w).0 ≡ none)
      × (lookup (alert_file g.repo_dir a.pod_name) (get_alerts g (create_alert now g a w).1)
          ≡ some (format_alert_message now a.pod_name a.power_cap_value a.devices))
      × (lookup (alert_file g.repo_dir other) (get_alerts g (create_alert now g a w).1)
          ≡ lookup (alert_file g.repo_dir other) (get_alerts g w))
unfolding create_alert
create_alert_stores now g a w other free free' ne =
    let message = format_alert_message now a.pod_name a.power_cap_value a.devices in
    let store = w.stores g.alerts in
    rw (nat_eq_refl g.alerts) (
      refl,
      lookup-insert_self (alert_file g.repo_dir a.pod_name) message store,
      lookup-insert_ne (alert_file g.repo_dir a.pod_name) (alert_file g.repo_dir other) message
          store (λ e. ne (alert_file_injective g.repo_dir a.pod_name other free free' e)),
    )
