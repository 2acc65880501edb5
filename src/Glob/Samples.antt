-- ===== src/Glob/Samples.antt =====
-- Runs of the matcher on the inputs of internal/glob/glob_test.go.
use go_sdk.Prelude.{◌≡◌, ◌↔◌, refl, true, false, codes, text_beq}
use go_sdk.Glob.Cover.{covers_sound}
use go_sdk.Glob.Match.{Segments, match_iff}
use go_sdk.Glob.Segment.{Wild, literal_segment_match_iff}
use go_sdk.Strings.{split, has_byte, has_prefix, has_suffix, index}
use go_sdk.Glob.{
  split_sep, literal_segment_match, head_kind, any_suffix, match_segments, match, segment_covers,
  covers_segments, covers, star,
}

run_star : match (codes "fs/*/x") (codes "fs/a/x") ≡ true
unfolding match split_sep split match_segments head_kind literal_segment_match text_beq has_byte
run_star = refl

run_double : match (codes "a/**/b") (codes "a/x/y/b") ≡ true
unfolding match split_sep split match_segments head_kind literal_segment_match text_beq has_byte
    any_suffix
run_double = refl

run_literal : match (codes "f*o*r") (codes "foo-bar") ≡ true
unfolding match split_sep split match_segments head_kind literal_segment_match text_beq has_byte
    has_prefix has_suffix index
run_literal = refl

run_covers : covers (codes "fs/*") (codes "fs/**") ≡ false
unfolding covers split_sep split covers_segments head_kind segment_covers literal_segment_match
    text_beq has_byte
run_covers = refl

covered : covers (codes "fs/**") (codes "fs/*/x") ≡ true
unfolding covers split_sep split covers_segments head_kind any_suffix segment_covers
    literal_segment_match text_beq has_byte has_prefix has_suffix index
covered = refl

covers_sound_example : match (codes "fs/**") (codes "fs/a/x") ≡ true
covers_sound_example =
    covers_sound (codes "fs/**") (codes "fs/*/x") (codes "fs/a/x") covered run_star

match_iff_example :
    (match (codes "a/**/b") (codes "a/x/y/b") ≡ true)
    ↔ Segments (split_sep (codes "a/**/b")) (split_sep (codes "a/x/y/b"))
match_iff_example = match_iff (codes "a/**/b") (codes "a/x/y/b")

literal_segment_match_iff_example :
    (literal_segment_match (codes "f*o*r") (codes "foo-bar") ≡ true)
    ↔ Wild (codes "f*o*r") (codes "foo-bar")
literal_segment_match_iff_example = literal_segment_match_iff (codes "f*o*r") (codes "foo-bar")

no_star : has_byte star (codes "fs/a/x") ≡ false
unfolding has_byte
no_star = refl
