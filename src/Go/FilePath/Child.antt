-- ===== src/Go/FilePath/Child.antt =====
-- The path of a file in a directory: cleaning adds the file's name to the cleaned directory.
use Prim.Native.String.{len}
use Prim.Native.String
use mathlib.Core.List.{reverse, reverse-cons}
use text.Mathlib.TextLemmas.{nil-append, cons-append, append_assoc}
use mathlib.Core.Path.{ap₂}
use climatik_project.Prelude.{
  String, Char, code, Bool, true, false, List, [], ◌∷◌, ◌++◌, ◌≡◌, refl, sym, ap, subst, ◌∙◌, ◌≢◌,
  arith, eq_iff,
}
use climatik_project.Go.Text.{join}
use climatik_project.Go.FilePath.{
  extend, split_slash, resolve, resolve_all, is_rooted, render, clean,
}

abbrev pub NoSlash : String → Type 0
NoSlash String.[] = Unit
NoSlash (String.◌∷◌ c s) = (code c ≢ b'/') × NoSlash s

-- A name that `Clean` keeps as an element.
abbrev pub IsPlain : String → Type 0
IsPlain part = (part ≢ "") × (part ≢ ".") × (part ≢ "..")

abbrev pub under : String → String → String
under s t = String.◌++◌ s (String.◌++◌ "/" t)

split_slash-NoSlash : (s : String) → NoSlash s → split_slash s ≡ s ∷ []
unfolding split_slash
split_slash-NoSlash String.[] h = refl
split_slash-NoSlash (String.◌∷◌ c s) h = rw (split_slash-NoSlash s h.1) (ground arith)

extend-append : (c : Char) (ps qs : List String) → ps ≢ [] → extend c (ps ++ qs) ≡ extend c ps ++ qs
extend-append c [] qs h = absurd (h refl)
extend-append c (p ∷ ps) qs h = refl

extend-ne-nil : (c : Char) (ps : List String) → extend c ps ≢ []
extend-ne-nil c [] = λ e. cc
extend-ne-nil c (p ∷ ps) = λ e. cc

split_slash-ne-nil : (s : String) → split_slash s ≢ []
unfolding split_slash
split_slash-ne-nil String.[] = λ e. cc
split_slash-ne-nil (String.◌∷◌ c s) = ground (arith, extend-ne-nil c (split_slash s))

slash-append : (t : String) → split_slash (String.◌++◌ "/" t) ≡ "" ∷ split_slash t
unfolding split_slash
slash-append t = rw (cons-append, nil-append)

split_slash-under : (s t : String) → split_slash (under s t) ≡ split_slash s ++ split_slash t
unfolding split_slash
split_slash-under String.[] t = rw nil-append (slash-append t)
split_slash-under (String.◌∷◌ c s) t =
    rw (cons-append, split_slash)
      (rw (split_slash-under s t)
        (ground (arith, extend-append c (split_slash s) (split_slash t), split_slash-ne-nil s)))

resolve_all-append :
    (rooted : Bool) (stack ps qs : List String)
    → resolve_all rooted stack (ps ++ qs) ≡ resolve_all rooted (resolve_all rooted stack ps) qs
unfolding resolve_all
resolve_all-append rooted stack [] qs = refl
resolve_all-append rooted stack (p ∷ ps) qs =
    resolve_all-append rooted (resolve rooted stack p) ps qs

resolve_of_IsPlain :
    (rooted : Bool) (stack : List String) (part : String)
    → IsPlain part
    → resolve rooted stack part ≡ part ∷ stack
unfolding resolve
resolve_of_IsPlain rooted stack part h =
    ground (arith, eq_iff part "", eq_iff part ".", eq_iff part "..")

join-concat :
    (sep : String) (xs : List String) (f : String)
    → xs ≢ []
    → join sep (xs ++ f ∷ []) ≡ String.◌++◌ (join sep xs) (String.◌++◌ sep f)
unfolding join
join-concat sep [] f h = absurd (h refl)
join-concat sep (x ∷ []) f h = refl
join-concat sep (x ∷ y ∷ ys) f h = rw (join-concat sep (y ∷ ys) f (λ e. cc)) (simp append_assoc)

concat-ne-nil : (xs : List String) (t : String) → xs ++ t ∷ [] ≢ []
concat-ne-nil [] t = λ e. cc
concat-ne-nil (x ∷ xs) t = λ e. cc

join-reverse-cons :
    (f t : String) (stack : List String)
    → join "/" (reverse (f ∷ t ∷ stack)) ≡ under (join "/" (reverse (t ∷ stack))) f
join-reverse-cons f t stack =
    ap (join "/") (reverse-cons f (t ∷ stack))
    ∙ join-concat "/" (reverse (t ∷ stack)) f
        (subst (λ xs. xs ≢ []) (sym (reverse-cons t stack)) (concat-ne-nil (reverse stack) t))

render-cons :
    (rooted : Bool) (f t : String) (stack : List String)
    → render rooted (f ∷ t ∷ stack) ≡ under (render rooted (t ∷ stack)) f
unfolding render
render-cons true f t stack =
    ap (String.◌++◌ "/") (join-reverse-cons f t stack) ∙ sym (append_assoc "/" _ _)
render-cons false f t stack = join-reverse-cons f t stack

-- What `Clean` keeps of a relative or absolute path, the last element first.
abbrev pub kept : String → List String
kept s = resolve_all (is_rooted s) [] (split_slash s)

kept-under :
    (s f : String)
    → is_rooted (under s f) ≡ is_rooted s
    → NoSlash f
    → IsPlain f
    → kept (under s f) ≡ f ∷ kept s
kept-under s f same free plain =
    rw
      (
        same,
        split_slash-under s f,
        split_slash-NoSlash f free,
        resolve_all-append (is_rooted s) [] (split_slash s) (f ∷ []),
      )
      (unfold resolve_all in resolve_of_IsPlain (is_rooted s) (kept s) f plain)

is_rooted-append : (s t : String) → s ≢ "" → is_rooted (String.◌++◌ s t) ≡ is_rooted s
is_rooted-append String.[] t h = absurd (h refl)
is_rooted-append (String.◌∷◌ c s) t h = rw cons-append

pub clean_lem : (path : String) → clean path ≡ render (is_rooted path) (kept path)
unfolding clean
clean_lem path = refl

-- A file `f` in the directory `s`, of which `Clean` keeps at least one element.
pub clean-under :
    (s f top : String) (stack : List String)
    → s ≢ ""
    → kept s ≡ top ∷ stack
    → NoSlash f
    → IsPlain f
    → clean (under s f) ≡ under (clean s) f
clean-under s f top stack ne k free plain =
    let same = is_rooted-append s (String.◌++◌ "/" f) ne in
    clean_lem (under s f)
    ∙ ap₂ render same (kept-under s f same free plain ∙ ap (◌∷◌ f) k)
    ∙ render-cons (is_rooted s) f top stack
    ∙ sym (ap (λ d. under d f) (clean_lem s ∙ ap (render (is_rooted s)) k))

pub kept-under_head :
    (s f : String) → s ≢ "" → NoSlash f → IsPlain f → kept (under s f) ≡ f ∷ kept s
kept-under_head s f ne free plain =
    kept-under s f (is_rooted-append s (String.◌++◌ "/" f) ne) free plain
