-- ===== src/Glob.antt =====
-- internal/glob/glob.go: the lease pattern matcher and the inclusion test between patterns.
-- A pattern and a target are byte strings, cut at '/' into segments.
pub mod Segment
pub mod Match
pub mod Cover
mod Samples
use go_sdk.Prelude.{
  ℕ, ◌+◌, Bool, true, false, not, ◌&&◌, ◌||◌, List, [], ◌∷◌, Option, none, some, Text, codes,
  text_beq, if◌then◌else◌, length, drop,
}
use go_sdk.Strings.{split, has_byte, has_prefix, has_suffix, index}

abbrev pub star : ℕ
star = b'*'

abbrev pub slash : ℕ
slash = b'/'

unfoldable pub split_sep : Text → List Text
split_sep [] = []
split_sep (c ∷ s) = split slash (c ∷ s)

-- The loop over the middle parts and the test of the last one. `parts[1:len(parts)-1]` is never
-- out of range, since a text with a '*' splits into two parts at least.
match_parts : List Text → Text → Bool
match_parts [] s = false
match_parts (last ∷ []) s = has_suffix s last
match_parts (part ∷ next ∷ parts) s = elim (index s part) [
  | none ↦ false
  | some i ↦ match_parts (next ∷ parts) (drop (i + length part) s)
]

match_from_first : List Text → Text → Bool
match_from_first [] s = false
match_from_first (first ∷ parts) s =
    if has_prefix s first then match_parts parts (drop (length first) s) else false

unfoldable pub literal_segment_match : Text → Text → Bool
unfolding match_from_first match_parts
literal_segment_match pat s =
    if text_beq pat s
    then true
    else if not (has_byte star pat)
    then false
    else match_from_first (split star pat) s

-- The cases of the two `switch head` statements.
pub data Head : Type 0 where
  double_star single_star literal : Head

unfoldable pub head_kind : Text → Head
head_kind h =
    if text_beq h (codes "**")
    then double_star
    else if text_beq h (codes "*")
    then single_star
    else literal

-- `for i := 0; i <= len(s); i++ { if f(s[i:]) { return true } }; return false`
unfoldable pub any_suffix : (List Text → Bool) → List Text → Bool
any_suffix f [] = f []
any_suffix f (x ∷ s) = f (x ∷ s) || any_suffix f s

-- The switch of `matchSegments`, with the recursive call at the rest of the pattern.
match_head : Head → Text → List Text → (List Text → Bool) → List Text → Bool
match_head double_star head [] recur s = true
match_head double_star head (_ ∷ _) recur s = any_suffix recur s
match_head single_star head rest recur [] = false
match_head single_star head rest recur (_ ∷ s) = recur s
match_head literal head rest recur [] = false
match_head literal head rest recur (x ∷ s) = literal_segment_match head x && recur s

unfoldable pub match_segments : List Text → List Text → Bool
unfolding match_head
match_segments [] [] = true
match_segments [] (_ ∷ _) = false
match_segments (head ∷ rest) s = match_head (head_kind head) head rest (match_segments rest) s

unfoldable pub match : Text → Text → Bool
match pattern_text s = match_segments (split_sep pattern_text) (split_sep s)

unfoldable pub segment_covers : Text → Text → Bool
segment_covers parent child =
    if text_beq parent child
    then true
    else if has_byte star child
    then false
    else literal_segment_match parent child

is_literal : Head → Bool
is_literal literal = true
is_literal _ = false

is_double_star : Head → Bool
is_double_star double_star = true
is_double_star _ = false

-- The switch of `covers`.
cover_head : Head → Text → (List Text → Bool) → List Text → Bool
unfolding is_literal is_double_star
cover_head double_star head recur c = any_suffix recur c
cover_head single_star head recur [] = false
cover_head single_star head recur (ch ∷ c) =
    if is_double_star (head_kind ch) then false else recur c
cover_head literal head recur [] = false
cover_head literal head recur (ch ∷ c) =
    if not (is_literal (head_kind ch))
    then false
    else if not (segment_covers head ch)
    then false
    else recur c

unfoldable pub covers_segments : List Text → List Text → Bool
unfolding cover_head
covers_segments [] [] = true
covers_segments [] (_ ∷ _) = false
covers_segments (head ∷ rest) c = cover_head (head_kind head) head (covers_segments rest) c

unfoldable pub covers : Text → Text → Bool
covers parent child = covers_segments (split_sep parent) (split_sep child)
