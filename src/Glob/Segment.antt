-- ===== src/Glob/Segment.antt =====
-- `literalSegmentMatch` decides the wildcard relation on one segment: the leftmost search for each
-- middle part loses no match.
use native.Mathlib.Decide.{ℕ_discrete}
use go_sdk.Prelude.{
  ℕ, ◌+◌, ◌≡◌, refl, sym, ap, ◌∙◌, ◌≢◌, ◌↔◌, inl, inr, true, false, List, [], ◌∷◌, ◌++◌, arith,
  Text, nat_beq, text_beq, text_beq_iff, length, drop, drop-append, length-append, Bool-cases,
  Option-cases, append_assoc,
}
use go_sdk.Strings.{cons_head, split, has_byte, has_prefix, index}
use go_sdk.Strings.Search.{
  drop-length, has_prefix_sound, has_prefix_complete, has_suffix_sound, has_suffix_complete,
  index_sound, index_complete,
}
use go_sdk.Glob.{star, match_parts, match_from_first, literal_segment_match}

-- A '*' stands for any run of bytes, every other byte for itself.
pub data Wild : Text → Text → Type 0 where
  done : Wild [] []
  byte : {c : ℕ} {p s : Text} → c ≢ star → Wild p s → Wild (c ∷ p) (c ∷ s)
  leave : {c : ℕ} {p s : Text} → c ≡ star → Wild p s → Wild (c ∷ p) s
  absorb : {c d : ℕ} {p s : Text} → c ≡ star → Wild (c ∷ p) s → Wild (c ∷ p) (d ∷ s)

-- The parts of a split pattern, in order, with gaps between them and none at the two ends.
abbrev Lead : List Text → Text → Type 0
Lead [] s = ⊥
Lead (w ∷ []) s = s ≡ w
Lead (w ∷ v ∷ ws) s = (x z : Text) × (s ≡ w ++ (x ++ z)) × Lead (v ∷ ws) z

match_parts_sound :
    (ws : List Text) (s : Text) → match_parts ws s ≡ true → (x z : Text) × (s ≡ x ++ z) × Lead ws z
unfolding match_parts
match_parts_sound [] s h = cc
match_parts_sound (w ∷ []) s h = (_, w, has_suffix_sound s w h, refl)
match_parts_sound (w ∷ v ∷ ws) s h = elim (Option-cases (index s w)) [
  | inl missing ↦ absurd (ground arith)
  | inr (i, found) ↦
      let rest : match_parts (v ∷ ws) (drop (i + length w) s) ≡ true = ground arith in
      let (x, e) = index_sound s w i found in
      let (y, z, f, k) = match_parts_sound (v ∷ ws) (drop (i + length w) s) rest in
      (x, w ++ (y ++ z), e ∙ ap (λ t. x ++ (w ++ t)) f, (y, z, refl, k))
]

match_parts_complete : (ws : List Text) (x z : Text) → Lead ws z → match_parts ws (x ++ z) ≡ true
unfolding match_parts
match_parts_complete [] x z h = absurd h
match_parts_complete (w ∷ []) x z h = rw h (has_suffix_complete x w)
match_parts_complete (w ∷ v ∷ ws) x z (y, t, e, h) =
    let (i, found, bound) = index_complete x w (y ++ t) in
    let whole : drop (i + length w) (x ++ (w ++ (y ++ t)))
        ≡ (drop (i + length w) (x ++ w) ++ y) ++ t =
      ap (drop (i + length w)) (sym (append_assoc x w (y ++ t)))
      ∙ drop-append (i + length w) (x ++ w) (y ++ t) (omega (arith, length-append x w))
      ∙ sym (append_assoc (drop (i + length w) (x ++ w)) y t) in
    rw e (rw (found, match_parts) (rw whole (match_parts_complete (v ∷ ws) _ t h)))

split-star : (c : ℕ) (p : Text) → c ≡ star → split star (c ∷ p) ≡ [] ∷ split star p
unfolding split
split-star c p h = ground arith

split-byte : (c : ℕ) (p : Text) → c ≢ star → split star (c ∷ p) ≡ cons_head c (split star p)
unfolding split
split-byte c p h = ground arith

split-cons : (p : Text) → (w : Text) × (ws : List Text) × (split star p ≡ w ∷ ws)
unfolding split
split-cons [] = ([], [], refl)
split-cons (c ∷ p) =
    let (w, ws, e) = split-cons p in
    elim (Bool-cases (nat_beq c star)) [
      | inl h ↦ ([], split star p, ground arith)
      | inr h ↦ (c ∷ w, ws, ground arith)
    ]

Lead-cons :
    (c : ℕ) (w : Text) (ws : List Text) (s : Text)
    → Lead ((c ∷ w) ∷ ws) s ↔ ((t : Text) × (s ≡ c ∷ t) × Lead (w ∷ ws) t)
Lead-cons c w [] s = (λ e. (w, e, refl), λ (t, e, f). e ∙ ap (◌∷◌ c) f)
Lead-cons c w (v ∷ ws) s = (
  λ (x, z, e, h). (w ++ (x ++ z), e, (x, z, refl, h)),
  λ (t, e, (x, z, f, h)). (x, z, e ∙ ap (◌∷◌ c) f, h),
)

absorb_all : {c : ℕ} {p : Text} (x z : Text) → c ≡ star → Wild p z → Wild (c ∷ p) (x ++ z)
absorb_all [] z e d = leave e d
absorb_all (y ∷ x) z e d = absorb e (absorb_all x z e d)

-- What the first byte of a pattern asks of the text.
Lead-split-star :
    (c : ℕ) (p s : Text)
    → c ≡ star
    → Lead (split star (c ∷ p)) s ↔ ((x z : Text) × (s ≡ x ++ z) × Lead (split star p) z)
Lead-split-star c p s e = let (w, ws, f) = split-cons p in rw (split-star c p e, f) (λ h. h, λ h. h)

Lead-split_byte :
    (c : ℕ) (p s : Text)
    → c ≢ star
    → Lead (split star (c ∷ p)) s ↔ ((t : Text) × (s ≡ c ∷ t) × Lead (split star p) t)
Lead-split_byte c p s ne =
    let (w, ws, f) = split-cons p in rw (split-byte c p ne, f) (Lead-cons c w ws s)

Lead→Wild : (p s : Text) → Lead (split star p) s → Wild p s
unfolding split
Lead→Wild [] s h = rw h done
Lead→Wild (c ∷ p) s h = elim (ℕ_discrete c star) [
  | yes e ↦
      let (x, z, f, k) = (Lead-split-star c p s e).0 h in rw f (absorb_all x z e (Lead→Wild p z k))
  | no ne ↦ let (t, f, k) = (Lead-split_byte c p s ne).0 h in rw f (byte ne (Lead→Wild p t k))
]

Wild→Lead : {p s : Text} → Wild p s → Lead (split star p) s
unfolding split
Wild→Lead done = refl
Wild→Lead (byte {c} {p} {s} ne d) = (Lead-split_byte c p (c ∷ s) ne).1 (s, refl, Wild→Lead d)
Wild→Lead (leave {c} {p} {s} e d) = (Lead-split-star c p s e).1 ([], s, refl, Wild→Lead d)
Wild→Lead (absorb {c} {d = y} {p} {s} e d) =
    let (x, z, f, k) = (Lead-split-star c p s e).0 (Wild→Lead d) in
    (Lead-split-star c p (y ∷ s) e).1 (y ∷ x, z, ap (◌∷◌ y) f, k)

Wild-self : (p : Text) → Wild p p
Wild-self [] = done
Wild-self (c ∷ p) = elim (ℕ_discrete c star) [
  | yes e ↦ absorb e (leave e (Wild-self p))
  | no ne ↦ byte ne (Wild-self p)
]

-- A pattern with no '*' matches itself alone.
pub Wild-literal : {p s : Text} → has_byte star p ≡ false → Wild p s → p ≡ s
unfolding has_byte
Wild-literal h done = refl
Wild-literal h (byte {c} ne d) = ap (◌∷◌ c) (Wild-literal (ground arith) d)
Wild-literal h (leave e d) = absurd (ground arith)
Wild-literal h (absorb e d) = absurd (ground arith)

match_from_first_sound :
    (w v : Text) (ws : List Text) (s : Text)
    → match_from_first (w ∷ v ∷ ws) s ≡ true
    → Lead (w ∷ v ∷ ws) s
unfolding match_from_first
match_from_first_sound w v ws s h = elim (Bool-cases (has_prefix s w)) [
  | inl first ↦
      let (x, z, f, k) = match_parts_sound (v ∷ ws) (drop (length w) s) (ground arith) in
      (x, z, has_prefix_sound s w first ∙ ap (λ t. w ++ t) f, k)
  | inr other ↦ absurd (ground arith)
]

match_from_first_complete :
    (w v : Text) (ws : List Text) (s : Text)
    → Lead (w ∷ v ∷ ws) s
    → match_from_first (w ∷ v ∷ ws) s ≡ true
unfolding match_from_first
match_from_first_complete w v ws s (x, z, e, k) = rw e (
    rw (has_prefix_complete w (x ++ z))
      (rw (drop-length w (x ++ z)) (match_parts_complete (v ∷ ws) x z k)))

split_two :
    (p : Text)
    → has_byte star p ≡ true
    → (w v : Text) × (ws : List Text) × (split star p ≡ w ∷ v ∷ ws)
unfolding has_byte
split_two [] h = absurd (ground arith)
split_two (c ∷ p) h = elim (ℕ_discrete c star) [
  | yes e ↦ let (v, ws, f) = split-cons p in ([], v, ws, split-star c p e ∙ ap (◌∷◌ []) f)
  | no ne ↦
      let (w, v, ws, f) = split_two p (ground arith) in
      (c ∷ w, v, ws, split-byte c p ne ∙ ap (cons_head c) f)
]

starred_iff :
    (p s : Text) → has_byte star p ≡ true → (match_from_first (split star p) s ≡ true) ↔ Wild p s
starred_iff p s h =
    let (w, v, ws, f) = split_two p h in
    (
      λ m. Lead→Wild p s (rw f (match_from_first_sound w v ws s (rw f at m))),
      λ d. rw f (match_from_first_complete w v ws s (rw f at (Wild→Lead d))),
    )

-- A segment of a pattern matches a segment of a target exactly when the target is the pattern with
-- each '*' replaced by some run of bytes.
pub literal_segment_match_iff : (pat s : Text) → (literal_segment_match pat s ≡ true) ↔ Wild pat s
unfolding literal_segment_match
literal_segment_match_iff pat s = elim (Bool-cases (text_beq pat s)) [
  | inl same ↦ rw same (λ _. rw ((text_beq_iff pat s).0 same) (Wild-self s), λ _. refl)
  | inr other ↦ elim (Bool-cases (has_byte star pat)) [
    | inl starred ↦ rw (other, starred) (starred_iff pat s starred)
    | inr plain ↦
        rw (other, plain)
          (
            λ h. absurd (ground arith),
            λ d. absurd (ground (arith, Wild-literal plain d, text_beq_iff pat s)),
          )
  ]
]
