-- ===== src/Operator/Fixtures.antt =====
-- A cluster with two scaled objects, for the operator's examples.
use climatik_project.Prelude.{
  String, Bool, true, false, Option, none, some, List, [], ◌∷◌, ◌≡◌, ◌⊎◌, refl, subst, Option-cases,
  Bool-cases, inl, inr, arith, eq_iff, eq_refl, All, ◌≢◌, ◌||◌, ◌&&◌, ◌==◌, if◌then◌else◌,
}
use climatik_project.Prelude.Int.{pos}
use climatik_project.Go.Json.{Json, num, str, arr, obj, nil, cons, Fields, end, field}
use climatik_project.Operator.Python.{find, Outcome, returned, raised, api_exception}
use climatik_project.Operator.Cluster.{ObjectKey, Cluster, power_query}
use climatik_project.Operator.Create.Rejected.{DropsUnknown}
use climatik_project.Operator.Monitor.Returns.{PatchesExisting}
use climatik_project.Operator.Monitor.Scaled.{PatchLaws}

unfoldable pub same_key : ObjectKey → ObjectKey → Bool
same_key a b =
    a.group == b.group
    && a.version == b.version
    && a.namespace == b.namespace
    && a.plural == b.plural
    && a.name == b.name

-- The scaled objects by their keys.
abbrev pub Store : Type 0
Store = ObjectKey → Option Json

unfoldable pub store_get : Store → ObjectKey → Outcome Json
store_get s key = elim (s key) [ none ↦ raised (api_exception "not found") | some o ↦ returned o ]

abbrev with_object : ObjectKey → Json → Store → Store
with_object key o s k = if same_key k key then some o else s k

unfoldable pub store_patch : Store → ObjectKey → Json → Outcome Store
store_patch s key body = elim (s key) [
  | none ↦ raised (api_exception "not found")
  | some o ↦ returned (with_object key body s)
]

-- A sample of the given value.
abbrev sample : String → List Json
sample value = obj (field "value" (arr (cons (num (pos 0)) (cons (str value) nil))) end) ∷ []

-- The answer on the power of the deployment "b", and on every other query.
abbrev powers : String → String → String → List Json
powers a b query = if query == power_query "b" "default" then sample b else sample a

-- Every deployment has two replicas; "b" consumes the second power, and every other the first.
abbrev pub cluster_with : String → String → Cluster
cluster_with a b = record {
  S = Store;
  lower = λ kind. if kind == "ScaledObject" then "scaledobject" else kind;
  get_object = store_get;
  patch_object = store_patch;
  read_replicas = λ s namespace name. returned (num (pos 2));
  custom_query = λ s query. returned (powers a b query);
}

abbrev scaled_object : String → Json
scaled_object deployment =
    obj (
      field "spec" (obj (field "scaleTargetRef" (obj (field "name" (str deployment) end)) end)) end)

abbrev pub key_of : String → ObjectKey
key_of name = record {
  group = "keda.sh";
  version = "v1alpha1";
  namespace = "default";
  plural = "scaledobjects";
  name = name;
}

abbrev pub two_objects : Store
two_objects =
    with_object (key_of "scaled-a") (scaled_object "a")
      (with_object (key_of "scaled-b") (scaled_object "b") (λ k. none))

abbrev ref_to : String → Json
ref_to name = obj (
    field "apiVersion" (str "keda.sh/v1alpha1") (
      field "kind" (str "ScaledObject") (field "metadata" (obj (field "name" (str name) end)) end)))

abbrev pub refs_to_both : List Json
refs_to_both = ref_to "scaled-a" ∷ ref_to "scaled-b" ∷ []

-- A limit of 100 for both.
abbrev pub both_limited : Fields
both_limited =
    field "powerCapLimit" (num (pos 100))
      (field "scaledObjectRefs" (arr (cons (ref_to "scaled-a") (cons (ref_to "scaled-b") nil))) end)

same_key-eq : (a b : ObjectKey) → same_key a b ≡ true → a ≡ b
unfolding same_key
same_key-eq a b h =
    let g : a.group ≡ b.group = ground (arith, eq_iff a.group b.group) in
    let v : a.version ≡ b.version = ground (arith, eq_iff a.version b.version) in
    let n : a.namespace ≡ b.namespace = ground (arith, eq_iff a.namespace b.namespace) in
    let p : a.plural ≡ b.plural = ground (arith, eq_iff a.plural b.plural) in
    let m : a.name ≡ b.name = ground (arith, eq_iff a.name b.name) in
    λ i. record { group = g i; version = v i; namespace = n i; plural = p i; name = m i }

same_key_refl : (a : ObjectKey) → same_key a a ≡ true
unfolding same_key
same_key_refl a =
    simp (eq_refl a.group, eq_refl a.version, eq_refl a.namespace, eq_refl a.plural, eq_refl a.name)

patched_store :
    (s s' : Store) (key : ObjectKey) (body : Json)
    → store_patch s key body ≡ returned s'
    → with_object key body s ≡ s'
unfolding store_patch
patched_store s s' key body done = elim (Option-cases (s key)) [
  | inl missing ↦ let h = rw (missing, store_patch) at done in absurd (cc)
  | inr (o, there) ↦ let h = rw (there, store_patch) at done in cc
]

store_patch-get :
    (s s' : Store) (key : ObjectKey) (body : Json)
    → store_patch s key body ≡ returned s'
    → store_get s' key ≡ returned body
unfolding store_get
store_patch-get s s' key body done =
    subst (λ t. store_get t key ≡ returned body) (patched_store s s' key body done)
      (rw (same_key_refl key, store_get) refl)

store_patch-others :
    (s s' : Store) (key : ObjectKey) (body : Json) (k : ObjectKey)
    → store_patch s key body ≡ returned s'
    → (k ≡ key) ⊎ (store_get s' k ≡ store_get s k)
unfolding store_get
store_patch-others s s' key body k done = elim (Bool-cases (same_key k key)) [
  | inl same ↦ inl (same_key-eq k key same)
  | inr other ↦ inr (
      subst (λ t. store_get t k ≡ store_get s k) (patched_store s s' key body done)
        (rw (other, store_get) refl))
]

pub store_patch-PatchLaws : (a b : String) → PatchLaws (cluster_with a b)
store_patch-PatchLaws a b = record {
  patched = λ s s' key body done. (body, store_patch-get s s' key body done, refl, refl);
  others_kept = λ s s' key body done k. store_patch-others s s' key body k done;
}

abbrev among : String → List String → Bool
among k [] = false
among k (name ∷ names) = name == k || among k names

-- The fields with one of the names.
unfoldable pub keep : List String → Fields → Fields
keep names end = end
keep names (field k v fs) =
    let rest = keep names fs in if among k names then field k v rest else rest

among-eq-false :
    (k : String) (names : List String) → All (λ name. name ≢ k) names → among k names ≡ false
among-eq-false k [] h = refl
among-eq-false k (name ∷ names) (other, others) =
    ground (arith, eq_iff name k, among-eq-false k names others)

pub keep-DropsUnknown : DropsUnknown keep
unfolding keep find
keep-DropsUnknown names end k h = refl
keep-DropsUnknown names (field j v fs) k h =
    ground (arith, eq_iff j k, among-eq-false k names h, keep-DropsUnknown names fs k h)

pub store_patch-PatchesExisting : (a b : String) → PatchesExisting (cluster_with a b)
unfolding store_get store_patch
store_patch-PatchesExisting a b s key o body there = elim (Option-cases (s key)) [
  | inl missing ↦ let h = rw (missing, store_get) at there in absurd (cc)
  | inr (old, here) ↦ (with_object key body s, rw (here, store_patch) refl)
]

-- A patch that the object "scaled-b" refuses.
unfoldable pub patch_but_b : Store → ObjectKey → Json → Outcome Store
patch_but_b s key body =
    if key.name == "scaled-b" then raised (api_exception "conflict") else store_patch s key body

patch_but_b-done :
    (s s' : Store) (key : ObjectKey) (body : Json)
    → patch_but_b s key body ≡ returned s'
    → store_patch s key body ≡ returned s'
unfolding patch_but_b
patch_but_b-done s s' key body e = elim (Bool-cases (key.name == "scaled-b")) [
  | inl refused ↦ let h = rw (refused, patch_but_b) at e in absurd (cc)
  | inr other ↦ rw (other, patch_but_b) at e
]

abbrev pub refusing_cluster : Cluster
refusing_cluster = record {
  S = Store;
  lower = (cluster_with "60" "80").lower;
  get_object = store_get;
  patch_object = patch_but_b;
  read_replicas = (cluster_with "60" "80").read_replicas;
  custom_query = (cluster_with "60" "80").custom_query;
}

pub patch_but_b-PatchLaws : PatchLaws refusing_cluster
patch_but_b-PatchLaws = record {
  patched = λ s s' key body e.
      (body, store_patch-get s s' key body (patch_but_b-done s s' key body e), refl, refl);
  others_kept =
      λ s s' key body e k. store_patch-others s s' key body k (patch_but_b-done s s' key body e);
}
