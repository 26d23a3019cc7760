-- ===== src/Api/DeepCopy/Objects.antt =====
-- api/v1alpha1/zz_generated.deepcopy.go, for `PowerCappingConfig` and `PowerCappingConfigList`,
-- whose metadata and items are reached through pointers.
use climatik_project.Prelude.{ℕ, String, Option, none, some, List, [], ◌∷◌, map}
use climatik_project.Go.Result.{Call, ret, ◌>>=◌}
use climatik_project.Go.Store.{Store, load, write, allocate}
use climatik_project.Api.{PowerCappingConfigSpec, PowerCappingConfigStatus}
use climatik_project.Api.DeepCopy.{zero_spec, zero_status}

-- The metadata of the apimachinery library, with the memory that it points to. A value is copied
-- by its own `DeepCopyInto`, which gives the value that it writes.
pub record Metadata : Type 1 where
  pub S : Type 0
  pub ObjectMeta : Type 0
  pub ListMeta : Type 0
  pub zero_object : ObjectMeta
  pub zero_list : ListMeta
  pub copy_object : ObjectMeta → S → ObjectMeta × S
  pub copy_list : ListMeta → S → ListMeta × S

pub record TypeMeta : Type 0 where
  pub kind : String
  pub api_version : String

module _ (lib : Metadata) where
  -- The whole struct, where the other modules keep the name and the namespace.
  pub record ConfigObject : Type 0 where
    pub type_meta : TypeMeta
    pub object_meta : lib.ObjectMeta
    pub spec : PowerCappingConfigSpec
    pub status : PowerCappingConfigStatus

  -- A slice is nil, or the address of its elements.
  pub record ConfigList : Type 0 where
    pub type_meta : TypeMeta
    pub list_meta : lib.ListMeta
    pub items : Option ℕ

  pub record Memory : Type 0 where
    pub configs : Store ConfigObject
    pub lists : Store ConfigList
    pub arrays : Store (List ConfigObject)
    pub meta : lib.S

  -- What `DeepCopyInto` leaves in `*out` for the value of `*in`: after `*out = *in` each statement
  -- writes one field of `*out` from the same field of `*in`.
  unfoldable pub copied_config : ConfigObject → lib.S → ConfigObject × lib.S
  copied_config value s =
      let (object_meta, s') = lib.copy_object value.object_meta s in
      (
        record value {
          type_meta = value.type_meta;
          object_meta = object_meta;
          spec = value.spec;
          status = value.status;
        },
        s',
      )

  unfoldable pub config_copy_into : ℕ → ℕ → Memory → Call Memory
  config_copy_into from to m = do
    value ← load m.configs from
    let (out, s) = copied_config value m.meta
    ret (record m { configs = write to out m.configs; meta = s })

  abbrev pub zero_config : ConfigObject
  zero_config = record {
    type_meta = record { kind = ""; api_version = "" };
    object_meta = lib.zero_object;
    spec = zero_spec;
    status = zero_status;
  }

  abbrev new_config : Memory → Memory
  new_config m = record m { configs = allocate zero_config m.configs }

  unfoldable pub config_copy : Option ℕ → Memory → Call (Option ℕ × Memory)
  unfolding config_copy_into
  config_copy none m = ret (none, m)
  config_copy (some p) m = do
    filled ← config_copy_into p m.configs.next (new_config m)
    ret (some m.configs.next, filled)

  -- `if c := in.DeepCopy(); c != nil`: the object in the interface, or a nil interface.
  abbrev object_or_nil : Option ℕ × Memory → Option ℕ × Memory
  object_or_nil (some c, m) = (some c, m)
  object_or_nil (none, m) = (none, m)

  unfoldable pub config_copy_object : Option ℕ → Memory → Call (Option ℕ × Memory)
  config_copy_object p m = do copied ← config_copy p m; ret (object_or_nil copied)

  -- The loop over the items: each element of the new array is filled from the old one.
  unfoldable pub copied_items : List ConfigObject → lib.S → List ConfigObject × lib.S
  copied_items [] s = ([], s)
  copied_items (item ∷ items) s =
      let (item', s') = copied_config item s in
      let (items', s'') = copied_items items s' in (item' ∷ items', s'')

  abbrev set_items : ℕ → ConfigList → ConfigList
  set_items address out = record out { items = some address }

  -- The loop reads the items of `*in` again, after `out.Items` was set.
  unfoldable pub fill_items : ℕ → ℕ → Memory → Call Memory
  fill_items address fresh m = do
    items ← load m.arrays address
    let (copies, s) = copied_items items m.meta
    ret (record m { arrays = write fresh copies m.arrays; meta = s })

  abbrev loop_items : ℕ → Option ℕ → Memory → Call Memory
  loop_items fresh none m = ret m
  loop_items fresh (some address) m = fill_items address fresh m

  -- `if in.Items != nil { ... }`, for the items of `*in`.
  unfoldable pub copy_items : ℕ → ℕ → Option ℕ → Memory → Call Memory
  unfolding fill_items
  copy_items from to none m = ret m
  copy_items from to (some address) m = do
    items ← load m.arrays address
    out ← load m.lists to
    let fresh = m.arrays.next
    let lists = write to (set_items fresh out) m.lists
    value ← load lists from
    loop_items fresh value.items
        (record m { lists = lists; arrays = allocate (map (λ item. zero_config) items) m.arrays })

  -- `*out = *in`, and `ListMeta.DeepCopyInto`, which writes `out.ListMeta`.
  abbrev copied_list : ConfigList → lib.S → ConfigList × lib.S
  copied_list value s =
      let (list_meta, s') = lib.copy_list value.list_meta s in
      (record value { type_meta = value.type_meta; list_meta = list_meta }, s')

  unfoldable pub list_copy_into : ℕ → ℕ → Memory → Call Memory
  unfolding copy_items
  list_copy_into from to m = do
    value ← load m.lists from
    let (out, s) = copied_list value m.meta
    let m' = record m { lists = write to out m.lists; meta = s }
    value' ← load m'.lists from
    copy_items from to value'.items m'

  abbrev pub zero_config_list : ConfigList
  zero_config_list = record {
    type_meta = record { kind = ""; api_version = "" };
    list_meta = lib.zero_list;
    items = none;
  }

  abbrev new_list : Memory → Memory
  new_list m = record m { lists = allocate zero_config_list m.lists }

  unfoldable pub list_copy : Option ℕ → Memory → Call (Option ℕ × Memory)
  unfolding list_copy_into
  list_copy none m = ret (none, m)
  list_copy (some p) m = do
    filled ← list_copy_into p m.lists.next (new_list m)
    ret (some m.lists.next, filled)

  unfoldable pub list_copy_object : Option ℕ → Memory → Call (Option ℕ × Memory)
  list_copy_object p m = do copied ← list_copy p m; ret (object_or_nil copied)
