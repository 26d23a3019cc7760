-- ===== src/Api/DeepCopy/Labels.antt =====
-- A metadata library that satisfies the laws: the metadata is the address of a map of labels.
use climatik_project.Prelude.{
  ℕ, ◌+◌, ◌≤◌, ◌<◌, String, Option, ◌≡◌, refl, ◌∙◌, nat_eq, nat_eq_refl, if◌then◌else◌, arith,
}
use climatik_project.Go.Map.{Map}
use climatik_project.Go.Store.{Store}
use climatik_project.Api.DeepCopy.Objects.{Metadata}
use climatik_project.Api.DeepCopy.Contents.{MetadataLaws}

abbrev Labels : Type 0
Labels = Store (Map String)

abbrev copy_labels : ℕ → Labels → ℕ × Labels
copy_labels p s = (
  s.next,
  record { next = s.next + 1; cell = λ q. if nat_eq s.next q then s.cell p else s.cell q },
)

abbrev pub labels : Metadata
labels = record {
  S = Labels;
  ObjectMeta = ℕ;
  ListMeta = ℕ;
  zero_object = 0;
  zero_list = 0;
  copy_object = copy_labels;
  copy_list = copy_labels;
}

abbrev Grows : Labels → Labels → Type 0
Grows s t = (s.next ≤ t.next) × ((p : ℕ) → p < s.next → t.cell p ≡ s.cell p)

pub Grows-trans : (s t u : Labels) → Grows s t → Grows t u → Grows s u
Grows-trans s t u h k = (omega arith, λ p lt. k.1 p (omega arith) ∙ h.1 p lt)

pub copy_labels-Grows : (m : ℕ) (s : Labels) → Grows s (copy_labels m s).1
copy_labels-Grows m s = (omega arith, λ p lt. ground arith)

pub copy_labels-content :
    (m : ℕ) (s : Labels) → (copy_labels m s).1.cell (copy_labels m s).0 ≡ s.cell m
copy_labels-content m s = rw (nat_eq_refl s.next)

abbrev Between : ℕ → ℕ → ℕ → Type 0
Between m lo hi = (lo ≤ m) × (m < hi)

pub copied-Between :
    (m : ℕ) (s : Labels) → Between (copy_labels m s).0 s.next (copy_labels m s).1.next
copied-Between m s = omega arith

pub Between-wider :
    (m lo lo' hi hi' : ℕ) → lo' ≤ lo → hi ≤ hi' → Between m lo hi → Between m lo' hi'
Between-wider m lo lo' hi hi' h k b = omega arith

unfoldable pub labels-MetadataLaws : MetadataLaws labels
labels-MetadataLaws = record {
  Content = Option (Map String);
  content = λ m s. s.cell m;
  list_content = λ m s. s.cell m;
  frontier = λ s. s.next;
  Inside = Between;
  ListInside = Between;
  Extends = Grows;
  extends_refl = λ s. (omega arith, λ p lt. refl);
  extends_trans = Grows-trans;
  extends_le = λ s t h. h.0;
  inside_wider = Between-wider;
  list_inside_wider = λ m lo hi hi' k b. Between-wider m lo lo hi hi' (omega arith) k b;
  content_kept = λ m lo s t h b. h.1 m b.1;
  list_content_kept = λ m lo s t h b. h.1 m b.1;
  copy_extends = copy_labels-Grows;
  copy_inside = copied-Between;
  copy_content = copy_labels-content;
  list_copy_extends = copy_labels-Grows;
  list_copy_inside = copied-Between;
  list_copy_content = copy_labels-content;
}
