-- ===== src/Glob/Cover.antt =====
-- `Covers`: inclusion between the targets of two patterns.
use go_sdk.Prelude.{
  ℕ, ◌≡◌, refl, ap, ◌≢◌, inl, inr, Bool, true, false, not, List, [], ◌∷◌, ◌++◌, arith, Text, codes,
  text_beq, text_beq_iff, Bool-cases, all,
}
use go_sdk.Glob.{
  star, Head, double_star, single_star, literal, head_kind, any_suffix, match_head, match_segments,
  match, literal_segment_match, slash, split_sep, segment_covers, cover_head, covers_segments,
  covers,
}
use go_sdk.Strings.{cons_head, has_byte, split}
use go_sdk.Glob.Segment.{Wild, Wild-literal, literal_segment_match_iff}
use go_sdk.Glob.Match.{
  Segments, end, one, close, widen, IsKind, head_kind-IsKind, any_suffix_sound, Wild-star,
  widen_all, match_segments_iff,
}

segment_covers_sound : (h ch y : Text) → segment_covers h ch ≡ true → Wild ch y → Wild h y
unfolding segment_covers
segment_covers_sound h ch y m d = elim (Bool-cases (text_beq h ch)) [
  | inl same ↦ rw ((text_beq_iff h ch).0 same) d
  | inr other ↦
      let plain : has_byte star ch ≡ false = ground arith in
      rw (Wild-literal plain d) at ((literal_segment_match_iff h ch).0 (ground arith))
]

-- A target of a pattern that ends in `z` ends in a target of `z`.
Segments-append :
    {c s : List Text} (x z : List Text)
    → c ≡ x ++ z
    → Segments c s
    → (u v : List Text) × (s ≡ u ++ v) × Segments z v
Segments-append {s} [] z q d = ([], s, refl, rw q at d)
Segments-append (h ∷ x) z q end = cc
Segments-append (h ∷ x) z q (one {x = y} ne w d) =
    let (u, v, e, k) = Segments-append x z (cc) d in (y ∷ u, v, ap (◌∷◌ y) e, k)
Segments-append (h ∷ x) z q (close e d) = Segments-append x z (cc) d
Segments-append (h ∷ x) z q (widen {x = y} e d) =
    let (u, v, f, k) = Segments-append (h ∷ x) z q d in (y ∷ u, v, ap (◌∷◌ y) f, k)

head_kind-double_star : (h : Text) → h ≡ codes "**" → head_kind h ≡ double_star
unfolding head_kind text_beq
head_kind-double_star h e = rw e

-- A target of a pattern whose first segment is not "**" has a first segment.
Segments-one :
    (ch : Text) (c : List Text) {s : List Text}
    → head_kind ch ≢ double_star
    → Segments (ch ∷ c) s
    → (y : Text) × (t : List Text) × (s ≡ y ∷ t) × Wild ch y × Segments c t
Segments-one ch c ne (one {x = y} {s = t} _ w d) = (y, t, refl, w, d)
Segments-one ch c ne (close e d) = absurd (ne (head_kind-double_star ch e))
Segments-one ch c ne (widen e d) = absurd (ne (head_kind-double_star ch e))

cover_head_sound :
    (k : Head) (h : Text) (p c s : List Text)
    → IsKind h k
    → ((c s : List Text) → covers_segments p c ≡ true → Segments c s → Segments p s)
    → cover_head k h (covers_segments p) c ≡ true
    → Segments c s
    → Segments (h ∷ p) s
unfolding cover_head
cover_head_sound double_star h p c s e ih m d =
    let (x, z, f, k) = any_suffix_sound _ c m in
    let (u, v, g, t) = Segments-append x z f d in rw g (widen_all u e (ih z v k t))
cover_head_sound single_star h p [] s e ih m d = cc
cover_head_sound single_star h p (ch ∷ c) s e ih m d =
    let (y, t, f, w, k) = Segments-one ch c (λ q. ground arith) d in
    rw f (one (λ q. ground arith) (rw e (Wild-star y)) (ih c t (ground arith) k))
cover_head_sound literal h p [] s e ih m d = cc
cover_head_sound literal h p (ch ∷ c) s e ih m d =
    let (y, t, f, w, k) = Segments-one ch c (λ q. ground arith) d in
    rw f (one e.0 (segment_covers_sound h ch y (ground arith) w) (ih c t (ground arith) k))

covers_segments_sound :
    (p c s : List Text) → covers_segments p c ≡ true → Segments c s → Segments p s
unfolding covers_segments
covers_segments_sound [] [] s m d = d
covers_segments_sound [] (x ∷ c) s m d = cc
covers_segments_sound (h ∷ p) c s m d =
    cover_head_sound (head_kind h) h p c s (head_kind-IsKind h) (covers_segments_sound p) m d

-- If a parent pattern covers a child pattern, every target that the child matches is matched by
-- the parent.
pub covers_sound :
    (parent child s : Text)
    → covers parent child ≡ true
    → match child s ≡ true
    → match parent s ≡ true
unfolding covers match
covers_sound parent child s m h =
    (match_segments_iff _ _).1 (covers_segments_sound _ _ _ m ((match_segments_iff _ _).0 h))

cover_head_self :
    (k : Head) (h : Text) (p : List Text)
    → head_kind h ≡ k
    → covers_segments p p ≡ true
    → cover_head k h (covers_segments p) (h ∷ p) ≡ true
unfolding cover_head any_suffix segment_covers
cover_head_self double_star h [] e m = ground arith
cover_head_self double_star h (q ∷ p) e m = ground arith
cover_head_self single_star h p e m = ground arith
cover_head_self literal h p e m = ground (arith, text_beq_iff h h)

covers_segments_self : (p : List Text) → covers_segments p p ≡ true
unfolding covers_segments
covers_segments_self [] = refl
covers_segments_self (h ∷ p) = cover_head_self (head_kind h) h p refl (covers_segments_self p)

-- Every pattern covers itself, so a child may always ask for a pattern of its parent unchanged.
pub covers_self : (pattern_text : Text) → covers pattern_text pattern_text ≡ true
unfolding covers
covers_self pattern_text = covers_segments_self _

is_plain : Text → Bool
is_plain x = not (has_byte star x)

is_plain-head_kind : (x : Text) → is_plain x ≡ true → head_kind x ≡ literal
unfolding is_plain head_kind has_byte text_beq
is_plain-head_kind [] h = refl
is_plain-head_kind (c ∷ []) h = ground arith
is_plain-head_kind (c ∷ d ∷ x) h = ground arith

all-any_suffix :
    (f g : List Text → Bool) (c : List Text)
    → ((z : List Text) → all is_plain z ≡ true → f z ≡ g z)
    → all is_plain c ≡ true
    → any_suffix f c ≡ any_suffix g c
unfolding any_suffix
all-any_suffix f g [] same h = same [] refl
all-any_suffix f g (x ∷ c) same h = ground (arith, same (x ∷ c) h, all-any_suffix f g c same)

any_suffix-end : (c : List Text) → any_suffix (covers_segments []) c ≡ true
unfolding any_suffix covers_segments
any_suffix-end [] = refl
any_suffix-end (x ∷ c) = any_suffix-end c

segment_covers_plain :
    (h ch : Text) → is_plain ch ≡ true → segment_covers h ch ≡ literal_segment_match h ch
unfolding segment_covers is_plain literal_segment_match
segment_covers_plain h ch e = ground arith

cover_head_plain :
    (k : Head) (h : Text) (p c : List Text)
    → ((z : List Text) → all is_plain z ≡ true → covers_segments p z ≡ match_segments p z)
    → all is_plain c ≡ true
    → cover_head k h (covers_segments p) c ≡ match_head k h p (match_segments p) c
unfolding cover_head match_head
cover_head_plain double_star h [] c same e = any_suffix-end c
cover_head_plain double_star h (q ∷ p) c same e = all-any_suffix _ _ c same e
cover_head_plain single_star h p [] same e = refl
cover_head_plain single_star h p (ch ∷ c) same e = ground (arith, is_plain-head_kind ch, same c)
cover_head_plain literal h p [] same e = refl
cover_head_plain literal h p (ch ∷ c) same e =
    ground (arith, is_plain-head_kind ch, same c, segment_covers_plain h ch)

covers_segments_plain :
    (p c : List Text) → all is_plain c ≡ true → covers_segments p c ≡ match_segments p c
unfolding covers_segments match_segments
covers_segments_plain [] [] e = refl
covers_segments_plain [] (x ∷ c) e = refl
covers_segments_plain (h ∷ p) c e = cover_head_plain (head_kind h) h p c (covers_segments_plain p) e

all-cons_head :
    (c : ℕ) (ws : List Text)
    → c ≢ star
    → all is_plain ws ≡ true
    → all is_plain (cons_head c ws) ≡ true
unfolding is_plain has_byte
all-cons_head c [] h e = ground arith
all-cons_head c (w ∷ ws) h e = ground arith

all-split : (s : Text) → has_byte star s ≡ false → all is_plain (split slash s) ≡ true
unfolding split is_plain has_byte
all-split [] h = refl
all-split (c ∷ s) h = ground (arith, all-split s, all-cons_head c (split slash s))

all-split_sep : (s : Text) → has_byte star s ≡ false → all is_plain (split_sep s) ≡ true
unfolding split_sep
all-split_sep [] h = refl
all-split_sep (c ∷ s) h = all-split (c ∷ s) h

-- On a child with no '*', inclusion is the same test as matching the child as a target.
pub covers-match :
    (parent child : Text) → has_byte star child ≡ false → covers parent child ≡ match parent child
unfolding covers match
covers-match parent child h = covers_segments_plain _ _ (all-split_sep child h)
