-- ===== src/Lease/Path.antt =====
-- internal/lease/canonical.go, over the model of Go's path.Clean: the segments between the slashes
-- are kept on a stack, latest first, on which ".." takes back the segment before it.
pub mod Clean
use go_sdk.Prelude.{
  ℕ, ◌+◌, Bool, true, false, not, ◌&&◌, ◌||◌, List, [], ◌∷◌, ◌++◌, map, Option, none, some, Text,
  codes, text_beq, leb, if◌then◌else◌,
}
use mathlib.Core.List.{reverse}
use go_sdk.Strings.{split, has_prefix}
use go_sdk.Lease.{Url, Urls}

abbrev pub slash : ℕ
slash = b'/'

unfoldable pub push_segment : Bool → List Text → Text → List Text
push_segment rooted [] seg =
    if text_beq seg [] || text_beq seg (codes ".")
    then []
    else if text_beq seg (codes "..")
    then if rooted then [] else codes ".." ∷ []
    else seg ∷ []
push_segment rooted (top ∷ stack) seg =
    if text_beq seg [] || text_beq seg (codes ".")
    then top ∷ stack
    else if text_beq seg (codes "..")
    then if text_beq top (codes "..") then codes ".." ∷ top ∷ stack else stack
    else seg ∷ top ∷ stack

unfoldable pub push_all : Bool → List Text → List Text → List Text
push_all rooted stack [] = stack
push_all rooted stack (seg ∷ segs) = push_all rooted (push_segment rooted stack seg) segs

unfoldable pub join : List Text → Text
join [] = []
join (w ∷ []) = w
join (w ∷ v ∷ ws) = w ++ slash ∷ join (v ∷ ws)

print_clean : Bool → List Text → Text
print_clean true segs = slash ∷ join segs
print_clean false [] = codes "."
print_clean false (w ∷ ws) = join (w ∷ ws)

-- path.Clean.
unfoldable pub clean : Text → Text
unfolding print_clean
clean p =
    let rooted = has_prefix p (codes "/") in
    print_clean rooted (reverse (push_all rooted [] (split slash p)))

unfoldable pub canonicalize_path : Text → Text
canonicalize_path p =
    if text_beq p []
    then []
    else if has_prefix p (codes "/") && not (has_prefix (clean p) (codes "/"))
    then slash ∷ clean p
    else clean p

-- strings.ToLower on ASCII letters, the only letters of a scheme or of an encoded host.
unfoldable pub to_lower : Text → Text
to_lower = map λ c. if leb b'A' c && leb c b'Z' then c + 32 else c

unfoldable pub canonicalize_url : Urls → Text → Option Text
canonicalize_url urls raw = elim (urls.parse_url raw) [
  | none ↦ none
  | some u ↦ some (
      urls.print_url (record u {
        scheme = to_lower u.scheme;
        host = to_lower u.host;
        path = if text_beq u.path [] then [] else clean u.path;
      }))
]
