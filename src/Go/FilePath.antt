-- ===== src/Go/FilePath.antt =====
-- `filepath.IsAbs`, `filepath.Clean` and `filepath.Join` on Unix. `Clean` is stated on the parts
-- between the slashes, from which it builds its result.
pub mod Clean
use Prim.Native.String
use mathlib.Core.List.{reverse}
use go_acp_server.Base.{
  ℕ, Char, code, String, Bool, true, false, ◌||◌, List, [], ◌∷◌, nat_eq, if◌then◌else◌, ◌==◌, ◌≡◌,
  refl,
}
use go_acp_server.Go.Text.{◌^^◌, join}

-- strings.HasPrefix(path, "/")
unfoldable pub is_abs : String → Bool
is_abs String.[] = false
is_abs (String.◌∷◌ c s) = nat_eq (code c) b'/'

-- Puts a character in front of the first part.
unfoldable pub cons_part : Char → List String → List String
cons_part c [] = String.◌∷◌ c "" ∷ []
cons_part c (p ∷ ps) = String.◌∷◌ c p ∷ ps

-- The parts of a path between its slashes.
unfoldable pub split_slash : String → List String
unfolding cons_part
split_slash String.[] = "" ∷ []
split_slash (String.◌∷◌ c s) =
    if nat_eq (code c) b'/' then "" ∷ split_slash s else cons_part c (split_slash s)

-- `..` takes the last part off; at the root it is dropped, and it stays at the start of a relative
-- path. The last part is the head.
unfoldable pub go_up : Bool → List String → List String
go_up rooted [] = if rooted then [] else ".." ∷ []
go_up rooted (top ∷ rest) = if top == ".." then ".." ∷ top ∷ rest else rest

unfoldable pub clean_part : Bool → List String → String → List String
unfolding go_up
clean_part rooted stack part =
    if part == "" || part == "."
    then stack
    else if part == ".."
    then go_up rooted stack
    else part ∷ stack

unfoldable pub clean_parts : Bool → List String → List String → List String
unfolding clean_part
clean_parts rooted stack [] = reverse stack
clean_parts rooted stack (p ∷ ps) = clean_parts rooted (clean_part rooted stack p) ps

unfoldable pub clean_text : Bool → List String → String
unfolding join
clean_text true parts = "/" ^^ join "/" parts
clean_text false [] = "."
clean_text false (p ∷ ps) = join "/" (p ∷ ps)

-- filepath.Clean
unfoldable pub clean : String → String
unfolding is_abs split_slash clean_parts clean_text
clean path = clean_text (is_abs path) (clean_parts (is_abs path) [] (split_slash path))

-- filepath.Join of two elements
unfoldable pub join_path : String → String → String
unfolding clean
join_path a b =
    if a == ""
    then (if b == "" then "" else clean b)
    else if b == ""
    then clean a
    else clean (a ^^ "/" ^^ b)

cleans : clean "/a/./b//../../../c" ≡ "/c"
unfolding clean
cleans = refl

cleans_relative : clean "a/../../b" ≡ "../b"
unfolding clean
cleans_relative = refl

cleans_empty : clean "" ≡ "."
unfolding clean
cleans_empty = refl
