-- ===== src/Api/DeepCopy/Contents.antt =====
-- What the metadata library promises of its copies, and what that makes of the copied items.
use climatik_project.Prelude.{ℕ, ◌≤◌, ◌≡◌, refl, ◌∙◌, List, [], ◌∷◌, All, arith}
use climatik_project.Api.DeepCopy.Objects.{
  Metadata, TypeMeta, ConfigObject, copied_config, copied_items,
}

-- The documented behaviour of `DeepCopyInto`: a copy has the content of the original and reaches
-- only memory that the copy itself has allocated; what was there before keeps its content.
pub record MetadataLaws (lib : Metadata) : Type 1 where
  pub Content : Type 0
  pub content : lib.ObjectMeta → lib.S → Content
  pub list_content : lib.ListMeta → lib.S → Content
  -- the address from which on memory is free
  pub frontier : lib.S → ℕ
  -- all that a value reaches was allocated from the first address on and before the second
  pub Inside : lib.ObjectMeta → ℕ → ℕ → Type 0
  pub ListInside : lib.ListMeta → ℕ → ℕ → Type 0
  -- the second memory is the first with more allocated
  pub Extends : lib.S → lib.S → Type 0
  pub extends_refl : (s : lib.S) → Extends s s
  pub extends_trans : (s t u : lib.S) → Extends s t → Extends t u → Extends s u
  pub extends_le : (s t : lib.S) → Extends s t → frontier s ≤ frontier t
  pub inside_wider :
      (m : lib.ObjectMeta) (lo lo' hi hi' : ℕ)
      → lo' ≤ lo
      → hi ≤ hi'
      → Inside m lo hi
      → Inside m lo' hi'
  pub list_inside_wider :
      (m : lib.ListMeta) (lo hi hi' : ℕ) → hi ≤ hi' → ListInside m lo hi → ListInside m lo hi'
  pub content_kept :
      (m : lib.ObjectMeta) (lo : ℕ) (s t : lib.S)
      → Extends s t
      → Inside m lo (frontier s)
      → content m t ≡ content m s
  pub list_content_kept :
      (m : lib.ListMeta) (lo : ℕ) (s t : lib.S)
      → Extends s t
      → ListInside m lo (frontier s)
      → list_content m t ≡ list_content m s
  pub copy_extends : (m : lib.ObjectMeta) (s : lib.S) → Extends s (lib.copy_object m s).1
  pub copy_inside :
      (m : lib.ObjectMeta) (s : lib.S)
      → Inside (lib.copy_object m s).0 (frontier s) (frontier (lib.copy_object m s).1)
  pub copy_content :
      (m : lib.ObjectMeta) (s : lib.S)
      → content (lib.copy_object m s).0 (lib.copy_object m s).1 ≡ content m s
  pub list_copy_extends : (m : lib.ListMeta) (s : lib.S) → Extends s (lib.copy_list m s).1
  pub list_copy_inside :
      (m : lib.ListMeta) (s : lib.S)
      → ListInside (lib.copy_list m s).0 (frontier s) (frontier (lib.copy_list m s).1)
  pub list_copy_content :
      (m : lib.ListMeta) (s : lib.S)
      → list_content (lib.copy_list m s).0 (lib.copy_list m s).1 ≡ list_content m s

module _ (lib : Metadata) (laws : MetadataLaws lib) where
  -- The second object is a copy of the first: equal in every field, with metadata of the same
  -- content that lies between the two addresses.
  pub record IsCopy (lo hi : ℕ) (s t : lib.S) (x y : ConfigObject lib) : Type 0 where
    pub type_meta : Path TypeMeta y.type_meta x.type_meta
    pub spec : y.spec ≡ x.spec
    pub status : y.status ≡ x.status
    pub content : laws.content y.object_meta t ≡ laws.content x.object_meta s
    pub fresh : laws.Inside y.object_meta lo hi

  -- Item by item.
  abbrev pub AreCopies :
      ℕ → ℕ → lib.S → lib.S → List (ConfigObject lib) → List (ConfigObject lib) → Type 0
  AreCopies lo hi s t [] [] = Unit
  AreCopies lo hi s t (x ∷ xs) (y ∷ ys) = IsCopy lo hi s t x y × AreCopies lo hi s t xs ys
  AreCopies lo hi s t _ _ = ⊥

  -- All that the objects reach is allocated.
  abbrev pub AreAllocated : lib.S → List (ConfigObject lib) → Type 0
  AreAllocated s = All (λ (x : ConfigObject lib). laws.Inside x.object_meta 0 (laws.frontier s))

  pub copied_items-Extends :
      (xs : List (ConfigObject lib)) (s : lib.S) → laws.Extends s (copied_items lib xs s).1
  unfolding copied_items copied_config
  copied_items-Extends [] s = laws.extends_refl s
  copied_items-Extends (x ∷ xs) s =
      laws.extends_trans _ _ _ (laws.copy_extends x.object_meta s)
        (copied_items-Extends xs (copied_config lib x s).1)

  pub AreAllocated-kept :
      (xs : List (ConfigObject lib)) (s t : lib.S)
      → laws.Extends s t
      → AreAllocated s xs
      → AreAllocated t xs
  AreAllocated-kept [] s t e h = tt
  AreAllocated-kept (x ∷ xs) s t e (h, hs) = (
    laws.inside_wider x.object_meta 0 0 _ _ (omega arith) (laws.extends_le s t e) h,
    AreAllocated-kept xs s t e hs,
  )

  -- Copies that were made from a later memory are copies from an earlier one.
  pub AreCopies-earlier :
      (lo lo' hi : ℕ) (r s t : lib.S) (xs ys : List (ConfigObject lib))
      → lo ≤ lo'
      → laws.Extends r s
      → AreAllocated r xs
      → AreCopies lo' hi s t xs ys
      → AreCopies lo hi r t xs ys
  AreCopies-earlier lo lo' hi r s t [] [] le e h c = tt
  AreCopies-earlier lo lo' hi r s t (x ∷ xs) (y ∷ ys) le e (h, hs) (c, cs) = (
    record {
      type_meta = c.type_meta;
      spec = c.spec;
      status = c.status;
      content = c.content ∙ laws.content_kept x.object_meta 0 r s e h;
      fresh = laws.inside_wider y.object_meta lo' lo hi hi le (omega arith) c.fresh;
    },
    AreCopies-earlier lo lo' hi r s t xs ys le e hs cs,
  )
  AreCopies-earlier lo lo' hi r s t [] (y ∷ ys) le e h c = absurd c
  AreCopies-earlier lo lo' hi r s t (x ∷ xs) [] le e h c = absurd c

  pub copied_items-AreCopies :
      (xs : List (ConfigObject lib)) (s : lib.S)
      → AreAllocated s xs
      → AreCopies
          (laws.frontier s)
          (laws.frontier (copied_items lib xs s).1)
          s
          (copied_items lib xs s).1
          xs
          (copied_items lib xs s).0
  unfolding copied_items copied_config
  copied_items-AreCopies [] s h = tt
  copied_items-AreCopies (x ∷ xs) s (h, hs) =
      let s' = (copied_config lib x s).1 in
      let t = (copied_items lib xs s').1 in
      let first = laws.copy_extends x.object_meta s in
      let rest = copied_items-Extends xs s' in
      (
        record {
          type_meta = refl;
          spec = refl;
          status = refl;
          content =
              laws.content_kept (copied_config lib x s).0.object_meta _ s' t rest
                (laws.copy_inside x.object_meta s)
              ∙ laws.copy_content x.object_meta s;
          fresh =
              laws.inside_wider (copied_config lib x s).0.object_meta _ _ _ _ (omega arith)
                (laws.extends_le s' t rest) (laws.copy_inside x.object_meta s);
        },
        AreCopies-earlier _ _ _ s s' t xs _ (laws.extends_le s s' first) first hs
            (copied_items-AreCopies xs s' (AreAllocated-kept xs s s' first hs)),
      )
