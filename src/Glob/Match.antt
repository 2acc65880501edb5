-- ===== src/Glob/Match.antt =====
-- `matchSegments` and `Match` decide the relation between patterns and targets: "**" stands for any
-- segments, and every other segment of the pattern for one segment of the target.
use go_sdk.Prelude.{
  ◌≡◌, refl, ap, ◌≢◌, ◌↔◌, inl, inr, Bool, true, List, [], ◌∷◌, ◌++◌, append-nil, and_iff, arith,
  Text, codes, text_beq, text_beq_iff, ne_of_beq, text_eq, Bool-cases,
}
use go_sdk.Glob.{
  Head, double_star, single_star, literal, head_kind, any_suffix, match_head, match_segments, match,
  split_sep,
}
use go_sdk.Glob.Segment.{Wild, leave, absorb, done, literal_segment_match_iff}

pub data Segments : List Text → List Text → Type 0 where
  end : Segments [] []
  one :
      {h x : Text} {p s : List Text}
      → h ≢ codes "**"
      → Wild h x
      → Segments p s
      → Segments (h ∷ p) (x ∷ s)
  close : {h : Text} {p s : List Text} → h ≡ codes "**" → Segments p s → Segments (h ∷ p) s
  widen :
      {h x : Text} {p s : List Text}
      → h ≡ codes "**"
      → Segments (h ∷ p) s
      → Segments (h ∷ p) (x ∷ s)

-- What the kind of a pattern's segment says of its text.
abbrev pub IsKind : Text → Head → Type 0
IsKind h double_star = h ≡ codes "**"
IsKind h single_star = h ≡ codes "*"
IsKind h literal = (h ≢ codes "**") × (h ≢ codes "*")

pub head_kind-IsKind : (h : Text) → IsKind h (head_kind h)
unfolding head_kind
head_kind-IsKind h = elim (Bool-cases (text_beq h (codes "**"))) [
  | inl e ↦ rw e ((text_beq_iff h _).0 e)
  | inr e ↦ elim (Bool-cases (text_beq h (codes "*"))) [
    | inl f ↦ rw (e, f) ((text_beq_iff h _).0 f)
    | inr f ↦ rw (e, f) (ne_of_beq h _ e, ne_of_beq h _ f)
  ]
]

pub any_suffix_sound :
    (f : List Text → Bool) (s : List Text)
    → any_suffix f s ≡ true
    → (x z : List Text) × (s ≡ x ++ z) × (f z ≡ true)
unfolding any_suffix
any_suffix_sound f [] h = ([], [], refl, h)
any_suffix_sound f (y ∷ s) h = elim (Bool-cases (f (y ∷ s))) [
  | inl e ↦ ([], y ∷ s, refl, e)
  | inr e ↦ let (x, z, g, k) = any_suffix_sound f s (ground arith) in (y ∷ x, z, ap (◌∷◌ y) g, k)
]

pub any_suffix_complete :
    (f : List Text → Bool) (x z : List Text) → f z ≡ true → any_suffix f (x ++ z) ≡ true
unfolding any_suffix
any_suffix_complete f [] [] h = h
any_suffix_complete f [] (y ∷ z) h = rw h
any_suffix_complete f (y ∷ x) z h = ground (arith, any_suffix_complete f x z h)

pub Wild-star : (x : Text) → Wild (codes "*") x
Wild-star [] = leave refl done
Wild-star (c ∷ x) = absorb refl (Wild-star x)

pub widen_all :
    {h : Text} {p : List Text} (x : List Text) {z : List Text}
    → h ≡ codes "**"
    → Segments p z
    → Segments (h ∷ p) (x ++ z)
widen_all [] e d = close e d
widen_all (y ∷ x) e d = widen e (widen_all x e d)

pub not_both : (h : Text) → h ≡ codes "*" → h ≢ codes "**"
not_both h e f = ground arith

match_head_sound :
    (k : Head) (h : Text) (p s : List Text)
    → IsKind h k
    → ((t : List Text) → match_segments p t ≡ true → Segments p t)
    → match_head k h p (match_segments p) s ≡ true
    → Segments (h ∷ p) s
unfolding match_head
match_head_sound double_star h [] s e ih m =
    rw (← append-nil s) (widen_all s e (ih [] (unfold match_segments in refl)))
match_head_sound double_star h (q ∷ p) s e ih m =
    let (x, z, f, k) = any_suffix_sound _ s m in rw f (widen_all x e (ih z k))
match_head_sound single_star h p [] e ih m = cc
match_head_sound single_star h p (x ∷ s) e ih m = one (not_both h e) (rw e (Wild-star x)) (ih s m)
match_head_sound literal h p [] e ih m = cc
match_head_sound literal h p (x ∷ s) e ih m =
    let both = (and_iff _ _).0 m in one e.0 ((literal_segment_match_iff h x).0 both.0) (ih s both.1)

match_segments_sound : (p s : List Text) → match_segments p s ≡ true → Segments p s
unfolding match_segments
match_segments_sound [] [] m = end
match_segments_sound [] (x ∷ s) m = cc
match_segments_sound (h ∷ p) s m =
    match_head_sound (head_kind h) h p s (head_kind-IsKind h) (match_segments_sound p) m

match_head_one :
    (k : Head) (h x : Text) (p s : List Text)
    → IsKind h k
    → h ≢ codes "**"
    → Wild h x
    → match_segments p s ≡ true
    → match_head k h p (match_segments p) (x ∷ s) ≡ true
unfolding match_head
match_head_one double_star h x p s e ne w m = absurd (ne e)
match_head_one single_star h x p s e ne w m = m
match_head_one literal h x p s e ne w m = (and_iff _ _).1 ((literal_segment_match_iff h x).1 w, m)

match_head_close :
    (k : Head) (h : Text) (p s : List Text)
    → IsKind h k
    → h ≡ codes "**"
    → match_segments p s ≡ true
    → match_head k h p (match_segments p) s ≡ true
unfolding match_head
match_head_close double_star h [] s e d m = refl
match_head_close double_star h (q ∷ p) s e d m = any_suffix_complete _ [] s m
match_head_close single_star h p s e d m = absurd (not_both h e d)
match_head_close literal h p s e d m = absurd (e.0 d)

match_head_widen :
    (k : Head) (h x : Text) (p s : List Text)
    → IsKind h k
    → h ≡ codes "**"
    → match_head k h p (match_segments p) s ≡ true
    → match_head k h p (match_segments p) (x ∷ s) ≡ true
unfolding match_head any_suffix
match_head_widen double_star h x [] s e d m = refl
match_head_widen double_star h x (q ∷ p) s e d m = ground arith
match_head_widen single_star h x p s e d m = absurd (not_both h e d)
match_head_widen literal h x p s e d m = absurd (e.0 d)

match_segments_complete : {p s : List Text} → Segments p s → match_segments p s ≡ true
unfolding match_segments
match_segments_complete end = refl
match_segments_complete (one {h} {x} {p} {s} ne w d) =
    match_head_one (head_kind h) h x p s (head_kind-IsKind h) ne w (match_segments_complete d)
match_segments_complete (close {h} {p} {s} e d) =
    match_head_close (head_kind h) h p s (head_kind-IsKind h) e (match_segments_complete d)
match_segments_complete (widen {h} {x} {p} {s} e d) =
    match_head_widen (head_kind h) h x p s (head_kind-IsKind h) e (match_segments_complete d)

pub match_segments_iff : (p s : List Text) → (match_segments p s ≡ true) ↔ Segments p s
match_segments_iff p s = (match_segments_sound p s, match_segments_complete)

-- `Match` answers true exactly when the segments of the target can be laid out along the segments
-- of the pattern: one for each segment other than "**", by the '*' wildcards inside it, and any
-- number of them for "**".
pub match_iff :
    (pattern_text s : Text)
    → (match pattern_text s ≡ true) ↔ Segments (split_sep pattern_text) (split_sep s)
unfolding match
match_iff pattern_text s = match_segments_iff _ _
