-- ===== src/Strings/Search.antt =====
-- What the searches of package strings find.
use go_sdk.Prelude.{
  ℕ, suc, ◌+◌, ◌-◌, ◌≤◌, ◌≡◌, refl, sym, ap, ◌∙◌, inl, inr, true, false, List, [], ◌∷◌, ◌++◌, none,
  some, arith, Text, text_beq_iff, nat_beq, ◌<◌, length, drop, take, length-append, Bool-cases,
  Option-cases, take-append-drop,
}
use go_sdk.Strings.{has_byte, has_prefix, has_suffix, index}

suc_add : (k n : ℕ) → suc k + n ≡ suc (k + n)
suc_add k n = omega arith

pub drop-length {ℓ} : {A : Type ℓ} (xs ys : List A) → drop (length xs) (xs ++ ys) ≡ ys
drop-length [] ys = refl
drop-length (x ∷ xs) ys = drop-length xs ys

pub take-length {ℓ} : {A : Type ℓ} (xs ys : List A) → take (length xs) (xs ++ ys) ≡ xs
take-length [] ys = refl
take-length (x ∷ xs) ys = ap (◌∷◌ x) (take-length xs ys)

pub drop-after {ℓ} :
    {A : Type ℓ} (xs : List A) (y : A) (ys : List A) → drop (length xs + 1) (xs ++ y ∷ ys) ≡ ys
drop-after [] y ys = refl
drop-after (x ∷ xs) y ys = rw suc_add (drop-after xs y ys)

pub has_prefix_sound : (s p : Text) → has_prefix s p ≡ true → s ≡ p ++ drop (length p) s
unfolding has_prefix
has_prefix_sound s [] h = refl
has_prefix_sound [] (c ∷ p) h = cc
has_prefix_sound (x ∷ s) (c ∷ p) h = ground (arith, has_prefix_sound s p)

pub has_prefix_complete : (p y : Text) → has_prefix (p ++ y) p ≡ true
unfolding has_prefix
has_prefix_complete [] y = refl
has_prefix_complete (c ∷ p) y = ground (arith, has_prefix_complete p y)

pub has_suffix_sound : (s p : Text) → has_suffix s p ≡ true → s ≡ take (length s - length p) s ++ p
unfolding has_suffix
has_suffix_sound s p h =
    let e : drop (length s - length p) s ≡ p = (text_beq_iff _ p).0 (ground arith) in
    sym (take-append-drop (length s - length p) s) ∙ ap (λ t. take (length s - length p) s ++ t) e

pub has_suffix_complete : (x p : Text) → has_suffix (x ++ p) p ≡ true
unfolding has_suffix
has_suffix_complete x p =
    let n : length (x ++ p) - length p ≡ length x = omega (arith, length-append x p) in
    let e : drop (length (x ++ p) - length p) (x ++ p) ≡ p =
      ap (λ k. drop k (x ++ p)) n ∙ drop-length x p in
    ground
      (arith, length-append x p, e, text_beq_iff (drop (length (x ++ p) - length p) (x ++ p)) p)

index_of_prefix : (s p : Text) → has_prefix s p ≡ true → index s p ≡ some 0
unfolding index
index_of_prefix [] p h = rw h
index_of_prefix (x ∷ s) p h = rw h

index_at_prefix :
    (s p : Text) (i : ℕ)
    → has_prefix s p ≡ true
    → index s p ≡ some i
    → (x : Text) × (s ≡ x ++ (p ++ drop (i + length p) s))
index_at_prefix s p i e h =
    let z : 0 ≡ i = cc (index_of_prefix s p e, h) in
    let m : length p ≡ i + length p = omega arith in
    ([], has_prefix_sound s p e ∙ ap (λ n. p ++ drop n s) m)

-- A found index splits the text around an occurrence.
pub index_sound :
    (s p : Text) (i : ℕ) → index s p ≡ some i → (x : Text) × (s ≡ x ++ (p ++ drop (i + length p) s))
unfolding index
index_sound [] p i h = index_at_prefix [] p i (ground arith) h
index_sound (c ∷ s) p i h = elim (Bool-cases (has_prefix (c ∷ s) p)) [
  | inl e ↦ index_at_prefix (c ∷ s) p i e h
  | inr e ↦ elim (Option-cases (index s p)) [
    | inl n ↦ absurd (ground arith)
    | inr (k, f) ↦
        let (x, split_s) = index_sound s p k f in
        let j : i ≡ suc k = ground arith in (c ∷ x, rw j (rw suc_add (ap (◌∷◌ c) split_s)))
  ]
]

-- The index found is the leftmost one.
pub index_complete : (x p y : Text) → (i : ℕ) × (index (x ++ (p ++ y)) p ≡ some i) × (i ≤ length x)
unfolding index
index_complete [] p y = (0, index_of_prefix (p ++ y) p (has_prefix_complete p y), omega arith)
index_complete (c ∷ x) p y = elim (Bool-cases (has_prefix (c ∷ (x ++ (p ++ y))) p)) [
  | inl e ↦ (0, rw e, omega arith)
  | inr e ↦ let (i, found, bound) = index_complete x p y in (suc i, rw (e, found), omega arith)
]

-- A search for one byte stops at its first occurrence.
pub index_byte_sound :
    (c : ℕ) (s : Text) (i : ℕ) → index s (c ∷ []) ≡ some i → s ≡ take i s ++ c ∷ drop (i + 1) s
unfolding index has_prefix
index_byte_sound c [] i h = cc
index_byte_sound c (x ∷ s) i h = elim (Bool-cases (nat_beq x c)) [
  | inl e ↦ ground arith
  | inr e ↦ elim (Option-cases (index s (c ∷ []))) [
    | inl n ↦ absurd (ground arith)
    | inr (k, f) ↦
        let j : i ≡ suc k = ground arith in
        rw j (rw suc_add (ap (◌∷◌ x) (index_byte_sound c s k f)))
  ]
]

pub index_byte_complete :
    (c : ℕ) (w t : Text) → has_byte c w ≡ false → index (w ++ c ∷ t) (c ∷ []) ≡ some (length w)
unfolding index has_prefix has_byte
index_byte_complete c [] t h = ground arith
index_byte_complete c (x ∷ w) t h = ground (arith, index_byte_complete c w t)

pub index_lt_length : (c : ℕ) (s : Text) (i : ℕ) → index s (c ∷ []) ≡ some i → i < length s
unfolding index has_prefix
index_lt_length c [] i h = cc
index_lt_length c (x ∷ s) i h = elim (Option-cases (index s (c ∷ []))) [
  | inl n ↦ ground arith
  | inr (k, f) ↦ ground (arith, index_lt_length c s k f)
]

pub index_byte_none : (c : ℕ) (w : Text) → has_byte c w ≡ false → index w (c ∷ []) ≡ none
unfolding index has_prefix has_byte
index_byte_none c [] h = refl
index_byte_none c (x ∷ w) h = ground (arith, index_byte_none c w)
