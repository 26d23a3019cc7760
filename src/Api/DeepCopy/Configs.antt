-- ===== src/Api/DeepCopy/Configs.antt =====
-- The deep copy of a configuration, also as the object that the Kubernetes client caches.
use climatik_project.Prelude.{ℕ, none, some, List, ◌≡◌, refl, arith, nat_eq_refl}
use climatik_project.Go.Result.{ret}
use climatik_project.Go.Store.{Store, IsStore, Keeps, write, allocate, load-allocate}
use climatik_project.Api.DeepCopy.Objects.{
  Metadata, ConfigObject, ConfigList, Memory, zero_config, copied_config, config_copy,
  config_copy_object,
}
use climatik_project.Api.DeepCopy.Contents.{MetadataLaws, IsCopy}

module _ {lib : Metadata} (laws : MetadataLaws lib) where
  pub record IsConfigCopy (m m' : Memory lib) (q : ℕ) (c : ConfigObject lib) : Type 0 where
    pub copy : ConfigObject lib
    pub was_free : m.configs.cell q ≡ none
    pub stored : m'.configs.cell q ≡ some copy
    pub is_copy :
        IsCopy lib laws (laws.frontier m.meta) (laws.frontier m'.meta) m.meta m'.meta c copy
    pub keeps_configs : Keeps m.configs m'.configs
    pub keeps_lists : Path (Store (ConfigList lib)) m'.lists m.lists
    pub keeps_arrays : Path (Store (List (ConfigObject lib))) m'.arrays m.arrays
    pub extends : laws.Extends m.meta m'.meta

  abbrev config_after : Memory lib → ConfigObject lib → Memory lib
  config_after m c = record m {
    configs =
        write m.configs.next (copied_config lib c m.meta).0 (allocate (zero_config lib) m.configs);
    meta = (copied_config lib c m.meta).1;
  }

  config_copy-step :
      (m : Memory lib) (p : ℕ) (c : ConfigObject lib)
      → IsStore m.configs
      → m.configs.cell p ≡ some c
      → config_copy lib (some p) m ≡ ret (some m.configs.next, config_after m c)
  unfolding config_copy
  config_copy-step m p c valid used = rw (load-allocate m.configs p c (zero_config lib) valid used)

  -- Where nothing is stored at the free addresses: `DeepCopyObject` of a configuration in memory
  -- always returns an object at an address that was free, equal in kind, version, spec and status,
  -- with metadata of the same content that reaches only memory that the call has allocated; all
  -- that was there is as it was. For a nil pointer it returns nil and changes nothing.
  config_copy_object_copies :
      (m : Memory lib) (p : ℕ) (c : ConfigObject lib)
      → IsStore m.configs
      → m.configs.cell p ≡ some c
      → (config_copy_object lib none m ≡ ret (none, m))
        × ((q : ℕ) × (m' : Memory lib) × (config_copy_object lib (some p) m ≡ ret (some q, m'))
            × IsConfigCopy m m' q c)
  unfolding config_copy_object
  config_copy_object_copies m p c valid used = (
    unfold config_copy in refl,
    (
      m.configs.next,
      config_after m c,
      rw (config_copy-step m p c valid used),
      unfold copied_config in
          record {
            copy = (copied_config lib c m.meta).0;
            was_free = valid.free m.configs.next (omega arith);
            stored = rw (nat_eq_refl m.configs.next);
            is_copy = record {
              type_meta = refl;
              spec = refl;
              status = refl;
              content = laws.copy_content c.object_meta m.meta;
              fresh = laws.copy_inside c.object_meta m.meta;
            };
            keeps_configs = λ q h. ground (arith, valid.free q);
            keeps_lists = refl;
            keeps_arrays = refl;
            extends = laws.copy_extends c.object_meta m.meta;
          },
    ),
  )
