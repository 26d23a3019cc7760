-- ===== src/Api/DeepCopy/ListObjects.antt =====
-- The deep copy of a list as the object that the Kubernetes client caches.
use climatik_project.Prelude.{ℕ, none, some, List, ◌≡◌, refl}
use climatik_project.Go.Result.{ret}
use climatik_project.Go.Store.{IsStore}
use climatik_project.Api.DeepCopy.Objects.{
  Metadata, ConfigObject, ConfigList, Memory, list_copy, list_copy_object,
}
use climatik_project.Api.DeepCopy.Contents.{MetadataLaws, AreAllocated}
use climatik_project.Api.DeepCopy.Lists.{Shows, IsListCopy, list_copy_copies}

module _ {lib : Metadata} (laws : MetadataLaws lib) where
  -- Where nothing is stored at the free addresses: `DeepCopyObject` of a list whose items are in
  -- memory, with metadata that is allocated, always returns a new list at an address that was free,
  -- with the same kind and version, metadata of the same content, and a new array of as many items,
  -- each equal to its original, with metadata of the same content. All metadata of the copy reaches
  -- only memory that the call has allocated, every list, array and configuration that was there is
  -- as it was, and a nil slice is copied to a nil slice. For a nil pointer it returns nil and
  -- changes nothing.
  pub list_copy_object_copies :
      (m : Memory lib) (p : ℕ) (l : ConfigList lib) (xs : List (ConfigObject lib))
      → IsStore m.lists
      → IsStore m.arrays
      → m.lists.cell p ≡ some l
      → Shows laws m.arrays l.items xs
      → AreAllocated lib laws m.meta xs
      → (list_copy_object lib none m ≡ ret (none, m))
        × ((q : ℕ) × (m' : Memory lib) × (list_copy_object lib (some p) m ≡ ret (some q, m'))
            × IsListCopy laws m m' q l xs)
  unfolding list_copy_object
  list_copy_object_copies m p l xs valid arrays_valid used shown allocated =
      let (q, m', copied, is_copy) =
        list_copy_copies laws m p l xs valid arrays_valid used shown allocated in
      (unfold list_copy in refl, (q, m', rw copied refl, is_copy))
