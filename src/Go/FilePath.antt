-- ===== src/Go/FilePath.antt =====
-- `filepath.Join` and `filepath.Clean` on Unix: the path is split at its slashes, empty elements
-- and "." are dropped, and ".." takes the element before it away where there is one.
pub mod Child
use Prim.Native.String.{◌++◌}
use mathlib.Core.List.{reverse}
use climatik_project.Prelude.{
  String, Char, code, Bool, true, false, List, [], ◌∷◌, ◌||◌, ◌≡◌, refl, nat_eq, ◌==◌,
  if◌then◌else◌,
}
use climatik_project.Go.Text.{join}

-- One more character in front of the first element.
abbrev extend : Char → List String → List String
extend c [] = String.◌∷◌ c "" ∷ []
extend c (p ∷ ps) = String.◌∷◌ c p ∷ ps

-- The elements between the slashes.
unfoldable pub split_slash : String → List String
split_slash String.[] = "" ∷ []
split_slash (String.◌∷◌ c s) =
    let rest = split_slash s in if nat_eq (code c) b'/' then "" ∷ rest else extend c rest

-- ".." with the elements so far, the last one first.
unfoldable pub parent : Bool → List String → List String
parent true [] = []
parent false [] = ".." ∷ []
parent rooted (top ∷ stack) = if top == ".." then ".." ∷ top ∷ stack else stack

unfoldable pub resolve : Bool → List String → String → List String
unfolding parent
resolve rooted stack part =
    if part == "" || part == "."
    then stack
    else if part == ".."
    then parent rooted stack
    else part ∷ stack

unfoldable pub resolve_all : Bool → List String → List String → List String
resolve_all rooted stack [] = stack
resolve_all rooted stack (part ∷ parts) = resolve_all rooted (resolve rooted stack part) parts

abbrev pub is_rooted : String → Bool
is_rooted String.[] = false
is_rooted (String.◌∷◌ c s) = nat_eq (code c) b'/'

unfoldable pub render : Bool → List String → String
render true stack = "/" ++ join "/" (reverse stack)
render false [] = "."
render false (top ∷ stack) = join "/" (reverse (top ∷ stack))

-- `filepath.Clean`
unfoldable pub clean : String → String
unfolding resolve_all render split_slash resolve
clean path = render (is_rooted path) (resolve_all (is_rooted path) [] (split_slash path))

-- `filepath.Join`: empty elements in front are ignored.
unfoldable pub join_path : List String → String
join_path [] = ""
join_path (e ∷ es) = let rest = join_path es in if e == "" then rest else clean (join "/" (e ∷ es))

clean_tests :
    (clean "/a/../../etc//./x" ≡ "/etc/x") × (clean "a/.." ≡ ".") × (clean "../../a" ≡ "../../a")
unfolding clean join parent
clean_tests = (refl, refl, refl)

join_path_tests :
    (join_path ("" ∷ "a" ∷ "b" ∷ []) ≡ "a/b") × (join_path ("/r/" ∷ "a" ∷ "b" ∷ []) ≡ "/r/a/b")
unfolding join_path clean join
join_path_tests = (refl, refl)
