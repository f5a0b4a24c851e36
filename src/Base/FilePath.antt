-- ===== src/Base/FilePath.antt =====
-- `path.Clean` and `path.Join` of Go's standard library, on slash-separated paths.
pub mod Join
pub mod Request
use Prim.Native.Char.{code}
use Prim.Native.String
use Prim.Native.String.{[], ◌∷◌}
use mathlib.Core.List.{List, [], ◌∷◌, reverse}
use heyfil.Base.{
  if◌then◌else◌, ◌==◌, nat_eq, string_eq, String, ◌≡◌, refl, Bool, true, false, not, ◌&&◌, ◌||◌,
  ◌++◌, ℕ_discrete,
}

-- The parts between slashes.
pub split_from : String → String → List String
split_from cur [] = cur ∷ []
split_from cur (c ∷ s) =
    let closed = split_from "" s in
    let longer = split_from (String.◌++◌ cur (c ∷ [])) s in
    if code c == b'/' then cur ∷ closed else longer

unfoldable pub split_slash : String → List String
unfolding split_from
split_slash s = split_from "" s

-- A part pushed on the cleaned parts, the last one first: ".." takes back a part that is not "..",
-- and is dropped at the root.
unfoldable pub push_part : Bool → List String → String → List String
push_part rooted stack part =
    if part == "" || part == "."
    then stack
    else if part == ".."
    then back rooted stack
    else part ∷ stack
  where
    back : Bool → List String → List String
    back true [] = []
    back false [] = ".." ∷ []
    back r (top ∷ rest) = if top == ".." then ".." ∷ top ∷ rest else rest

unfoldable pub join_slash : List String → String
join_slash [] = ""
join_slash (a ∷ []) = a
join_slash (a ∷ b ∷ rest) = String.◌++◌ a (String.◌++◌ "/" (join_slash (b ∷ rest)))

pub clean_parts : Bool → List String → List String → List String
clean_parts rooted stack [] = reverse stack
clean_parts rooted stack (part ∷ parts) = clean_parts rooted (push_part rooted stack part) parts

pub is_rooted : String → Bool
is_rooted [] = false
is_rooted (c ∷ s) = code c == b'/'

unfoldable pub clean : String → String
unfolding split_slash push_part join_slash clean_parts is_rooted
clean p =
    let out = join_slash (clean_parts (is_rooted p) [] (split_slash p)) in
    if is_rooted p then String.◌++◌ "/" out else if out == "" then "." else out

-- `path.Join(dir, name)`
unfoldable pub join : String → String → String
unfolding clean
join dir name =
    if dir == ""
    then (if name == "" then "" else clean name)
    else if name == ""
    then clean dir
    else clean (String.◌++◌ dir (String.◌++◌ "/" name))

-- The last character is a slash; `last` is for the empty text.
pub ends_slash : Bool → String → Bool
ends_slash last [] = last
ends_slash last (c ∷ s) = ends_slash (code c == b'/') s

-- The path that `http.ServeMux` makes of the path of a request: rooted, cleaned, and with its slash
-- at the end kept.
unfoldable pub clean_request : String → String
unfolding clean ends_slash is_rooted
clean_request path =
    let cleaned = clean (if is_rooted path then path else String.◌++◌ "/" path) in
    if ends_slash false path && not (cleaned == "/") then String.◌++◌ cleaned "/" else cleaned

clean_request_tests :
    (clean_request "/sp" ≡ "/sp")
    × (clean_request "/sp/" ≡ "/sp/")
    × (clean_request "/sp/f01000" ≡ "/sp/f01000")
    × (clean_request "/sp/.." ≡ "/")
    × (clean_request "/sp//f01000/./recentPiece" ≡ "/sp/f01000/recentPiece")
    × (clean_request "" ≡ "/")
unfolding clean_request string_eq ℕ_discrete
clean_request_tests = (refl, refl, refl, refl, refl, refl)

clean_tests :
    (clean "/var//lib/./x/../heyfil/" ≡ "/var/lib/heyfil")
    × (clean "a/../.." ≡ "..")
    × (clean "" ≡ ".")
    × (join "/data" "f01.json" ≡ "/data/f01.json")
unfolding join string_eq ℕ_discrete
clean_tests = (refl, refl, refl, refl)
