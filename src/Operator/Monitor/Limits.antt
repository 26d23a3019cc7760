-- ===== src/Operator/Monitor/Limits.antt =====
-- The limits that a run of `monitor_power_usage` sets.
use climatik_project.Prelude.{
  String, Option, none, some, true, false, List, [], ◌∷◌, ◌≡◌, ◌⊎◌, refl, sym, ap, inl, inr, arith,
  All, subst, length, Bool-cases,
}
use climatik_project.Prelude.Int.{ℤ, pos}
use climatik_project.Go.Json.{Json, null, num, arr, nil, Fields}
use climatik_project.Go.Map.{Map, get, get-nil, lookup}
use climatik_project.Go.Map.Order.{IsDistinct}
use climatik_project.Operator.Python.{
  Exception, Outcome, returned, raised, elements, get_or, Outcome-cases,
}
use climatik_project.Operator.Number.{Number, number}
use climatik_project.Operator.Cluster.{ObjectKey, Cluster, deployment_name, patch_each}
use climatik_project.Operator.Strategy.{PowerCappingStrategy, allowed_replicas}
use climatik_project.Operator.Strategy.Share.{calculate_max_replicas-share}
use climatik_project.Operator.Monitor.Objects.{max_replica_count}
use climatik_project.Operator.Monitor.Rounds.{Scales}
use climatik_project.Operator.Monitor.Readings.{IsRead, read_all-IsRead}
use climatik_project.Operator.Monitor.Scaled.{
  PatchLaws, RefIsScaled, patch_each-keeps-Scales, patch_each-RefIsScaled,
}
use climatik_project.Operator.Monitor.{
  Usage, Status, no_usage, ref_key, read_all, add_values, updated_replicas, scale_object, report,
  after_patches, monitor_power_usage,
}

pub All-both {ℓ} :
    {A : Type ℓ} {P Q R : A → Type 0} (xs : List A)
    → ((x : A) → P x → Q x → R x)
    → All P xs
    → All Q xs
    → All R xs
All-both [] f p q = tt
All-both (x ∷ xs) f (p, ps) (q, qs) = (f x p q, All-both xs f ps qs)

module _ (n : Number) (cluster : Cluster) (strategy : PowerCappingStrategy)
    (namespace : String) where
  pub report-cluster :
      (usage : Usage n.F) (updated : Map ℤ) (s : cluster.S) (count : Outcome n.F)
      → (report n cluster usage updated s count).cluster ≡ s
  unfolding report
  report-cluster usage updated s (raised e) = refl
  report-cluster usage updated s (returned count) = ground arith

  after_patches-none :
      (usage : Usage n.F) (updated : Map ℤ) (refs : List Json) (p : Option Exception × cluster.S)
      (status : Status n.F)
      → (after_patches n cluster usage updated refs p).outcome ≡ returned status
      → p ≡ (none, (after_patches n cluster usage updated refs p).cluster)
  after_patches-none usage updated refs (some e, s) status h = absurd (cc)
  after_patches-none usage updated refs (none, s) status h =
      ap (λ (t : cluster.S). (none, t))
        (sym (report-cluster usage updated s (number n (num (pos (length refs))))))

  -- A run that gives a status has made its patches.
  pub monitor-patches :
      (spec : Fields) (s : cluster.S) (refs : List Json) (usage : Usage n.F) (status : Status n.F)
      → elements (get_or (arr nil) "scaledObjectRefs" spec) ≡ returned refs
      → read_all n cluster namespace s refs (no_usage n cluster) ≡ returned usage
      → (monitor_power_usage n cluster strategy namespace spec s).outcome ≡ returned status
      → (updated : Map ℤ) × (updated_replicas n cluster strategy
            (get_or null "powerCapLimit" spec)
            usage
          ≡ returned updated)
        × (patch_each n cluster (scale_object n cluster namespace updated) refs s
            ≡ (none, (monitor_power_usage n cluster strategy namespace spec s).cluster))
  unfolding monitor_power_usage
  monitor-patches spec s refs usage status some_refs read e =
      let cap = get_or null "powerCapLimit" spec in
      elim (Outcome-cases (updated_replicas n cluster strategy cap usage)) [
        | inr (x, bad) ↦ let h = rw (some_refs, read, bad) at e in absurd (cc)
        | inl (updated, fine) ↦ (
          updated,
          fine,
          rw (some_refs, read, fine)
              (after_patches-none usage updated refs
                (patch_each n cluster (scale_object n cluster namespace updated) refs s) status
                (rw (some_refs, read, fine) at e)),
        )
      ]

  -- The whole limit divided by the deployment's power, if the deployments consume any; otherwise 1.
  abbrev pub IsChosen : Json → Usage n.F → n.F → ℤ → Type 0
  IsChosen cap usage power count =
      ((n.gt (add_values n cluster n.zero usage.power_consumptions) n.zero ≡ true)
        × (allowed_replicas n cap power ≡ returned count))
      ⊎ ((n.gt (add_values n cluster n.zero usage.power_consumptions) n.zero ≡ false)
          × (count ≡ pos 1))

  -- The object that a reference names has the limit that its deployment should have.
  pub record IsLimited (cap : Json) (usage : Usage n.F) (s : cluster.S) (ref : Json) : Type 0 where
    pub key : ObjectKey
    pub object : Json
    pub deployment : String
    pub power : n.F
    pub count : ℤ
    pub named : ref_key n cluster namespace ref ≡ returned key
    pub there : cluster.get_object s key ≡ returned object
    pub scales : deployment_name object ≡ returned deployment
    pub listed : lookup deployment usage.power_consumptions ≡ some power
    pub chosen : IsChosen cap usage power count
    pub limited : max_replica_count object ≡ returned (num count)

  pub updated_replicas-IsChosen :
      (cap : Json) (usage : Usage n.F) (updated : Map ℤ) (d : String) (p : n.F)
      → updated_replicas n cluster strategy cap usage ≡ returned updated
      → IsDistinct usage.power_consumptions
      → lookup d usage.power_consumptions ≡ some p
      → IsChosen cap usage p (get (pos 1) d updated)
  unfolding updated_replicas get
  updated_replicas-IsChosen cap usage updated d p e distinct listed =
      let total = add_values n cluster n.zero usage.power_consumptions in
      elim (Bool-cases (n.gt total n.zero)) [
        | inl busy ↦
            let (q, allowed, there) =
              calculate_max_replicas-share n cap strategy usage.current_replicas
                usage.power_consumptions updated d p distinct (rw busy at e) listed in
            inl (busy, rw (there, get) allowed)
        | inr idle ↦
            let same : [] ≡ updated = let h = rw idle at e in cc in
            inr (idle, subst (λ (m : Map ℤ). get (pos 1) d m ≡ pos 1) same (get-nil (pos 1) d))
      ]

  pub limited :
      (cap : Json) (usage : Usage n.F) (updated : Map ℤ) (s s' : cluster.S) (ref : Json)
      → updated_replicas n cluster strategy cap usage ≡ returned updated
      → IsDistinct usage.power_consumptions
      → ((key : ObjectKey) (d : String) → Scales cluster s key d → Scales cluster s' key d)
      → IsRead n cluster namespace s usage.power_consumptions ref
      → RefIsScaled n cluster namespace updated s' ref
      → IsLimited cap usage s' ref
  limited cap usage updated s s' ref e distinct keeps r (key, named, h) =
      let (o, there, scales) = keeps r.key r.deployment r.scales in
      let same_key : r.key ≡ key = cc in
      let same_object : o ≡ h.object = cc in
      let same_name : r.deployment ≡ h.deployment = cc in
      let listed : lookup h.deployment usage.power_consumptions ≡ some r.power =
        subst (λ d. lookup d usage.power_consumptions ≡ some r.power) same_name r.listed in
      record {
        key = key;
        object = h.object;
        deployment = h.deployment;
        power = r.power;
        count = get (pos 1) h.deployment updated;
        named = named;
        there = h.there;
        scales = h.scales;
        listed = listed;
        chosen = updated_replicas-IsChosen cap usage updated h.deployment r.power e distinct listed;
        limited = h.limited;
      }

  -- Against a cluster in which a patch sets the object that it names and no other: after a run that
  -- gives a status, every object that the configuration refers to has as its maximum the whole
  -- limit divided by the power of its deployment, if the deployments consume any power, and 1 if
  -- they consume none.
  pub monitor_power_usage-IsLimited :
      (laws : PatchLaws cluster) (spec : Fields) (s : cluster.S) (refs : List Json)
      (usage : Usage n.F) (status : Status n.F)
      → elements (get_or (arr nil) "scaledObjectRefs" spec) ≡ returned refs
      → read_all n cluster namespace s refs (no_usage n cluster) ≡ returned usage
      → (monitor_power_usage n cluster strategy namespace spec s).outcome ≡ returned status
      → All
          (IsLimited
            (get_or null "powerCapLimit" spec)
            usage
            (monitor_power_usage n cluster strategy namespace spec s).cluster)
          refs
  monitor_power_usage-IsLimited laws spec s refs usage status some_refs read e =
      let cap = get_or null "powerCapLimit" spec in
      let s' = (monitor_power_usage n cluster strategy namespace spec s).cluster in
      let (updated, fine, patches) = monitor-patches spec s refs usage status some_refs read e in
      let (distinct, all_read) =
        read_all-IsRead n cluster namespace s refs (no_usage n cluster) usage read tt in
      All-both {P = IsRead n cluster namespace s usage.power_consumptions}
        {Q = RefIsScaled n cluster namespace updated s'} refs
        (λ ref r h.
          limited cap usage updated s s' ref fine distinct
            (λ key d.
              patch_each-keeps-Scales n cluster namespace updated laws refs s s' key d patches)
            r h)
        all_read (patch_each-RefIsScaled n cluster namespace updated laws refs s s' patches)
