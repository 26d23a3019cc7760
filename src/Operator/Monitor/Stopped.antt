-- ===== src/Operator/Monitor/Stopped.antt =====
-- What a run of `monitor_power_usage` leaves in the cluster, wherever it stops.
use climatik_project.Prelude.{
  String, Option, none, some, List, [], ◌∷◌, ◌++◌, ◌≡◌, ◌≢◌, refl, sym, ap, ◌∙◌, inl, inr, All,
  subst, length,
}
use climatik_project.Prelude.Int.{ℤ, pos}
use climatik_project.Go.Json.{Json, null, num, arr, nil, Fields}
use climatik_project.Go.Map.{Map}
use climatik_project.Operator.Python.{Exception, Outcome, returned, elements, get_or, Outcome-cases}
use climatik_project.Operator.Number.{Number, number}
use climatik_project.Operator.Cluster.{ObjectKey, Cluster, patch_one, patch_each}
use climatik_project.Operator.Strategy.{PowerCappingStrategy}
use climatik_project.Operator.Monitor.Rounds.{patch_each-step}
use climatik_project.Operator.Monitor.Readings.{IsRead, read_all-IsRead}
use climatik_project.Operator.Monitor.Scaled.{
  PatchLaws, RefIsScaled, patch_each-keeps-Scales, patch_each-RefIsScaled,
}
use climatik_project.Operator.Monitor.Limits.{All-both, report-cluster, IsLimited, limited}
use climatik_project.Operator.Monitor.{
  Usage, no_usage, ref_key, read_all, updated_replicas, scale_object, after_patches,
  monitor_power_usage,
}

All-prefix {ℓ} : {A : Type ℓ} (P : A → Type 0) (xs ys : List A) → All P (xs ++ ys) → All P xs
All-prefix P [] ys h = tt
All-prefix P (x ∷ xs) ys (p, h) = (p, All-prefix P xs ys h)

module _ (n : Number) (cluster : Cluster) where
  -- The loop gets through the references before the one at which it stops.
  patch_each-prefix :
      (prepare : cluster.S → Json → Outcome (ObjectKey × Json)) (refs : List Json) (s : cluster.S)
      → (before : List Json) × (after : List Json) × (refs ≡ before ++ after)
        × (patch_each n cluster prepare before s ≡ (none, (patch_each n cluster prepare refs s).1))
  unfolding patch_each
  patch_each-prefix prepare [] s = ([], [], refl, refl)
  patch_each-prefix prepare (ref ∷ refs) s =
      elim (Outcome-cases (patch_one n cluster prepare s ref)) [
        | inr (e, bad) ↦ ([], ref ∷ refs, refl, rw (bad, patch_each) refl)
        | inl (mid, fine) ↦
            let (before, after, split, ran) = patch_each-prefix prepare refs mid in
            (ref ∷ before, after, ap (λ rs. ref ∷ rs) split, rw (fine, patch_each) ran)
      ]

module _ (n : Number) (cluster : Cluster) (strategy : PowerCappingStrategy)
    (namespace : String) where
  -- The reference names another object.
  abbrev pub NamesOther : ObjectKey → Json → Type 0
  NamesOther key ref = ref_key n cluster namespace ref ≢ returned key

  patch_each-others :
      (laws : PatchLaws cluster) (updated : Map ℤ) (refs : List Json) (s s' : cluster.S)
      (key : ObjectKey)
      → patch_each n cluster (scale_object n cluster namespace updated) refs s ≡ (none, s')
      → All (NamesOther key) refs
      → cluster.get_object s' key ≡ cluster.get_object s key
  patch_each-others laws updated [] s s' key e h =
      let same : s ≡ s' = (unfold patch_each in cc) in ap (λ t. cluster.get_object t key) (sym same)
  patch_each-others laws updated (ref ∷ refs) s s' key e (h, hs) =
      let (mid, p, later) = patch_each-step n cluster namespace updated s s' ref refs e in
      elim (laws.others_kept s mid p.key p.body p.done key) [
        | inl same ↦ absurd (h (p.from.named ∙ ap returned (sym same)))
        | inr kept ↦ patch_each-others laws updated refs mid s' key later hs ∙ kept
      ]

  after_patches-cluster :
      (usage : Usage n.F) (updated : Map ℤ) (refs : List Json) (p : Option Exception × cluster.S)
      → (after_patches n cluster usage updated refs p).cluster ≡ p.1
  after_patches-cluster usage updated refs (some e, s) = refl
  after_patches-cluster usage updated refs (none, s) =
      report-cluster n cluster strategy namespace usage updated s
        (number n (num (pos (length refs))))

  -- The references before some point are done, and nothing else has happened to the objects.
  pub record IsPrefixDone (cap : Json) (usage : Usage n.F) (refs : List Json) (s s' : cluster.S)
      : Type 0 where
    pub before : List Json
    pub after : List Json
    pub split : refs ≡ before ++ after
    pub limited_before : All (IsLimited n cluster strategy namespace cap usage s') before
    pub others :
        (key : ObjectKey)
        → All (NamesOther key) before
        → cluster.get_object s' key ≡ cluster.get_object s key

  patches-IsPrefixDone :
      (laws : PatchLaws cluster) (cap : Json) (s s' : cluster.S) (refs : List Json)
      (usage : Usage n.F) (updated : Map ℤ)
      → read_all n cluster namespace s refs (no_usage n cluster) ≡ returned usage
      → updated_replicas n cluster strategy cap usage ≡ returned updated
      → (patch_each n cluster (scale_object n cluster namespace updated) refs s).1 ≡ s'
      → IsPrefixDone cap usage refs s s'
  patches-IsPrefixDone laws cap s s' refs usage updated read fine last =
      let (before, after, split, ran) =
        patch_each-prefix n cluster (scale_object n cluster namespace updated) refs s in
      let done : patch_each n cluster (scale_object n cluster namespace updated) before s
          ≡ (none, s') =
        ran ∙ ap (λ (t : cluster.S). (none, t)) last in
      let (distinct, all_read) =
        read_all-IsRead n cluster namespace s refs (no_usage n cluster) usage read tt in
      let WasRead : Json → Type 0 = IsRead n cluster namespace s usage.power_consumptions in
      let Scaled : Json → Type 0 = RefIsScaled n cluster namespace updated s' in
      record {
        before = before;
        after = after;
        split = split;
        limited_before =
            All-both {P = WasRead} {Q = Scaled} before
              (λ ref r h.
                limited n cluster strategy namespace cap usage updated s s' ref fine distinct
                  (λ key d.
                    patch_each-keeps-Scales n cluster namespace updated laws before s s' key d done)
                  r h)
              (All-prefix WasRead before after (subst (All WasRead) split all_read))
              (patch_each-RefIsScaled n cluster namespace updated laws before s s' done);
        others = λ key h. patch_each-others laws updated before s s' key done h;
      }

  -- Against a cluster in which a patch sets the object that it names and no other: a run that has
  -- read the usage has, however it ends, given the objects of the references up to some point their
  -- limits, and left every object that none of these references names as it was.
  pub monitor_power_usage-IsPrefixDone :
      (laws : PatchLaws cluster) (spec : Fields) (s : cluster.S) (refs : List Json)
      (usage : Usage n.F)
      → elements (get_or (arr nil) "scaledObjectRefs" spec) ≡ returned refs
      → read_all n cluster namespace s refs (no_usage n cluster) ≡ returned usage
      → IsPrefixDone
          (get_or null "powerCapLimit" spec)
          usage
          refs
          s
          (monitor_power_usage n cluster strategy namespace spec s).cluster
  unfolding monitor_power_usage
  monitor_power_usage-IsPrefixDone laws spec s refs usage some_refs read =
      let cap = get_or null "powerCapLimit" spec in
      elim (Outcome-cases (updated_replicas n cluster strategy cap usage)) [
        | inr (e, bad) ↦
            rw (some_refs, read, bad)
              (record {
                before = [];
                after = refs;
                split = refl;
                limited_before = tt;
                others = λ key h. refl;
              })
        | inl (updated, fine) ↦ patches-IsPrefixDone laws cap s _ refs usage updated read fine (
            rw (some_refs, read, fine)
              (sym (
                after_patches-cluster usage updated refs
                  (patch_each n cluster (scale_object n cluster namespace updated) refs s))))
      ]
