-- ===== src/Api/DeepCopy/Lists.antt =====
-- The deep copy of a list shares nothing with the list.
use climatik_project.Prelude.{
  ℕ, Option, none, some, List, [], map, ◌≡◌, refl, ap, ◌∙◌, sym, subst, inl, inr, Option-cases,
  arith, nat_eq_refl,
}
use climatik_project.Go.Result.{ret, ◌>>=◌}
use climatik_project.Go.Store.{
  Store, IsStore, Keeps, load, write, allocate, load_lem, load-allocate, used-ne-next,
}
use climatik_project.Api.DeepCopy.Objects.{
  Metadata, TypeMeta, ConfigObject, ConfigList, Memory, zero_config, zero_config_list, copied_items,
  copy_items, list_copy_into, list_copy,
}
use climatik_project.Api.DeepCopy.Contents.{
  MetadataLaws, AreCopies, AreAllocated, AreAllocated-kept, AreCopies-earlier, copied_items-Extends,
  copied_items-AreCopies,
}

module _ {lib : Metadata} (laws : MetadataLaws lib) where
  -- The items that a slice shows.
  abbrev pub Shows : Store (List (ConfigObject lib)) → Option ℕ → List (ConfigObject lib) → Type 0
  Shows arrays none xs = xs ≡ []
  Shows arrays (some a) xs = arrays.cell a ≡ some xs

  -- A nil slice is copied to a nil slice, and any other to an array that is new.
  abbrev pub IsFreshSlice : Store (List (ConfigObject lib)) → Option ℕ → Option ℕ → Type 0
  IsFreshSlice arrays none none = Unit
  IsFreshSlice arrays (some a) (some b) = arrays.cell b ≡ none
  IsFreshSlice arrays _ _ = ⊥

  pub record IsListCopy (m m' : Memory lib) (q : ℕ) (l : ConfigList lib)
      (xs : List (ConfigObject lib)) : Type 0 where
    pub copy : ConfigList lib
    pub copies : List (ConfigObject lib)
    pub was_free : m.lists.cell q ≡ none
    pub stored : m'.lists.cell q ≡ some copy
    pub type_meta : Path TypeMeta copy.type_meta l.type_meta
    pub content : laws.list_content copy.list_meta m'.meta ≡ laws.list_content l.list_meta m.meta
    pub meta_fresh : laws.ListInside copy.list_meta (laws.frontier m.meta) (laws.frontier m'.meta)
    pub slice_fresh : IsFreshSlice m.arrays l.items copy.items
    pub shown : Shows m'.arrays copy.items copies
    pub items :
        AreCopies lib laws (laws.frontier m.meta) (laws.frontier m'.meta) m.meta m'.meta xs copies
    pub keeps_lists : Keeps m.lists m'.lists
    pub keeps_arrays : Keeps m.arrays m'.arrays
    pub keeps_configs : Path (Store (ConfigObject lib)) m'.configs m.configs
    pub extends : laws.Extends m.meta m'.meta

  module _ (m : Memory lib) (p : ℕ) (l : ConfigList lib) (valid : IsStore m.lists)
      (used : m.lists.cell p ≡ some l) where
    abbrev meta1 : lib.ListMeta × lib.S
    meta1 = lib.copy_list l.list_meta m.meta

    abbrev out1 : ConfigList lib
    out1 = record l { list_meta = meta1.0 }

    abbrev lists1 : Store (ConfigList lib)
    lists1 = write m.lists.next out1 (allocate (zero_config_list lib) m.lists)

    abbrev lists2 : ConfigList lib → Store (ConfigList lib)
    lists2 out = write m.lists.next out lists1

    load_first : load (allocate (zero_config_list lib) m.lists) p ≡ ret l
    load_first = load-allocate m.lists p l (zero_config_list lib) valid used

    load_second : load lists1 p ≡ ret l
    load_second = load_lem lists1 p l (rw (used-ne-next m.lists p l valid used) used)

    load_out : load lists1 m.lists.next ≡ ret out1
    load_out = load_lem lists1 m.lists.next out1 (rw (nat_eq_refl m.lists.next))

    load_third : (out : ConfigList lib) → load (lists2 out) p ≡ ret l
    load_third out = load_lem (lists2 out) p l (rw (used-ne-next m.lists p l valid used) used)

    abbrev nil_copy : Memory lib
    nil_copy = record m { lists = lists1; meta = meta1.1 }

    list_copy-step : list_copy lib (some p) m ≡ (
        copy_items lib p m.lists.next l.items nil_copy >>= λ filled.
        ret (some m.lists.next, filled))
    unfolding list_copy_into
    list_copy-step = unfold list_copy in rw (load_first, load_second)

    list_copy-nil : l.items ≡ none → list_copy lib (some p) m ≡ ret (some m.lists.next, nil_copy)
    unfolding list_copy
    list_copy-nil e = rw (load_first, load_second, e)

    module _ (a : ℕ) (xs : List (ConfigObject lib)) (arrays_valid : IsStore m.arrays)
        (shown : m.arrays.cell a ≡ some xs) where
      abbrev zeros : List (ConfigObject lib)
      zeros = map (λ (item : ConfigObject lib). zero_config lib) xs

      abbrev full_copy : Memory lib
      full_copy = record m {
        lists = lists2 (record out1 { items = some m.arrays.next });
        arrays = write m.arrays.next (copied_items lib xs meta1.1).0 (allocate zeros m.arrays);
        meta = (copied_items lib xs meta1.1).1;
      }

      copy_items-some :
          l.items ≡ some a → copy_items lib p m.lists.next (some a) nil_copy ≡ ret full_copy
      unfolding copy_items
      copy_items-some e = rw (
        load_lem m.arrays a xs shown,
        load_out,
        load_third (record out1 { items = some m.arrays.next }),
        e,
        load-allocate m.arrays a xs zeros arrays_valid shown,
      )

      list_copy-some :
          l.items ≡ some a → list_copy lib (some p) m ≡ ret (some m.lists.next, full_copy)
      unfolding list_copy_into
      list_copy-some e =
          list_copy-step
          ∙ ap
              (λ items. copy_items lib p m.lists.next items nil_copy >>= λ filled.
                ret (some m.lists.next, filled))
              e
          ∙ rw (copy_items-some e)

      full-IsListCopy :
          l.items ≡ some a
          → AreAllocated lib laws m.meta xs
          → IsListCopy m full_copy m.lists.next l xs
      full-IsListCopy e allocated =
          let first = laws.list_copy_extends l.list_meta m.meta in
          let rest = copied_items-Extends lib laws xs meta1.1 in
          record {
            copy = record out1 { items = some m.arrays.next };
            copies = (copied_items lib xs meta1.1).0;
            was_free = valid.free m.lists.next (omega arith);
            stored = rw (nat_eq_refl m.lists.next);
            type_meta = refl;
            content =
                laws.list_content_kept meta1.0 _ meta1.1 full_copy.meta rest
                  (laws.list_copy_inside l.list_meta m.meta)
                ∙ laws.list_copy_content l.list_meta m.meta;
            meta_fresh =
                laws.list_inside_wider meta1.0 _ _ _ (laws.extends_le _ _ rest)
                  (laws.list_copy_inside l.list_meta m.meta);
            slice_fresh = rw e (arrays_valid.free m.arrays.next (omega arith));
            shown = rw (nat_eq_refl m.arrays.next);
            items =
                AreCopies-earlier lib laws _ _ _ m.meta meta1.1 full_copy.meta xs _
                  (laws.extends_le _ _ first) first allocated
                  (copied_items-AreCopies lib laws xs meta1.1
                    (AreAllocated-kept lib laws xs m.meta meta1.1 first allocated));
            keeps_lists = λ q h. ground (arith, valid.free q);
            keeps_arrays = λ q h. ground (arith, arrays_valid.free q);
            keeps_configs = refl;
            extends = laws.extends_trans _ _ _ first rest;
          }

    nil-IsListCopy : l.items ≡ none → IsListCopy m nil_copy m.lists.next l []
    nil-IsListCopy e = record {
      copy = out1;
      copies = [];
      was_free = valid.free m.lists.next (omega arith);
      stored = rw (nat_eq_refl m.lists.next);
      type_meta = refl;
      content = laws.list_copy_content l.list_meta m.meta;
      meta_fresh = laws.list_copy_inside l.list_meta m.meta;
      slice_fresh = rw e tt;
      shown = rw e refl;
      items = tt;
      keeps_lists = λ q h. ground (arith, valid.free q);
      keeps_arrays = λ q h. refl;
      keeps_configs = refl;
      extends = laws.list_copy_extends l.list_meta m.meta;
    }

  -- `DeepCopy` of a list.
  pub list_copy_copies :
      (m : Memory lib) (p : ℕ) (l : ConfigList lib) (xs : List (ConfigObject lib))
      → IsStore m.lists
      → IsStore m.arrays
      → m.lists.cell p ≡ some l
      → Shows m.arrays l.items xs
      → AreAllocated lib laws m.meta xs
      → (q : ℕ) × (m' : Memory lib) × (list_copy lib (some p) m ≡ ret (some q, m'))
        × IsListCopy m m' q l xs
  list_copy_copies m p l xs valid arrays_valid used shown allocated = elim (Option-cases l.items) [
    | inl e ↦
        let empty : xs ≡ [] = subst (λ items. Shows m.arrays items xs) e shown in
        (
          m.lists.next,
          nil_copy m p l valid used,
          list_copy-nil m p l valid used e,
          subst (λ ys. IsListCopy m (nil_copy m p l valid used) m.lists.next l ys) (sym empty)
              (nil-IsListCopy m p l valid used e),
        )
    | inr (a, e) ↦
        let at_a : m.arrays.cell a ≡ some xs = subst (λ items. Shows m.arrays items xs) e shown in
        (
          m.lists.next,
          full_copy m p l valid used a xs arrays_valid at_a,
          list_copy-some m p l valid used a xs arrays_valid at_a e,
          full-IsListCopy m p l valid used a xs arrays_valid at_a e allocated,
        )
  ]
