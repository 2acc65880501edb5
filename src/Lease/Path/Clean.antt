-- ===== src/Lease/Path/Clean.antt =====
-- internal/lease/canonical.go: the form of canonical paths, and the stack of segments behind it.
use mathlib.Core.List.{reverse, reverse-cons}
use go_sdk.Prelude.{
  ℕ, ◌≡◌, refl, ap, ◌∙◌, ◌≢◌, ◌⊎◌, inl, inr, Bool, true, false, ◌||◌, beq_of_ne, All-reverse, List,
  [], ◌∷◌, ◌++◌, arith, Text, codes, text_beq, text_beq_iff, text_eq, ne_of_beq, nat_beq,
  Bool-cases, All,
}
use go_sdk.Strings.{split, cons_head, has_byte, has_prefix}
use go_sdk.Lease.Path.{slash, push_segment, push_all, join, print_clean, clean, canonicalize_path}

-- A segment that stands for itself.
pub record IsName (w : Text) : Type 0 where
  pub some_byte : w ≢ []
  pub not_dot : w ≢ codes "."
  pub not_up : w ≢ codes ".."
  pub no_slash : has_byte slash w ≡ false

abbrev IsUp : Text → Type 0
IsUp w = w ≡ codes ".."

-- The stack, latest first: names, above a run of ".." if the path is relative.
abbrev IsStack : Bool → List Text → Type 0
IsStack rooted [] = Unit {0}
IsStack rooted (top ∷ stack) =
    (IsName top ⊎ ((rooted ≡ false) × All IsUp (top ∷ stack))) × IsStack rooted stack

abbrev is_skip : Text → Bool
is_skip w = text_beq w [] || text_beq w (codes ".")

-- The three kinds of segments that `push_segment` tells apart.
segment_cases :
    (w : Text)
    → has_byte slash w ≡ false
    → (is_skip w ≡ true)
      ⊎ ((is_skip w ≡ false) × (text_beq w (codes "..") ≡ true))
      ⊎ ((is_skip w ≡ false) × (text_beq w (codes "..") ≡ false) × IsName w)
segment_cases w plain = elim (Bool-cases (is_skip w)) [
  | inl e ↦ inl e
  | inr e ↦ elim (Bool-cases (text_beq w (codes ".."))) [
    | inl f ↦ inr (inl (e, f))
    | inr f ↦ inr (
        inr (
          e,
          f,
          record {
            some_byte = ne_of_beq w _ (ground arith);
            not_dot = ne_of_beq w _ (ground arith);
            not_up = ne_of_beq w _ f;
            no_slash = plain;
          },
        ))
  ]
]

up_ne_name : (w : Text) → IsName w → IsUp w → ⊥
up_ne_name w n u = n.not_up u

push_up-IsStack :
    (rooted : Bool) (top : Text) (stack : List Text)
    → text_beq top (codes "..") ≡ true
    → IsStack rooted (top ∷ stack)
    → IsStack rooted (codes ".." ∷ top ∷ stack)
push_up-IsStack rooted top stack e (inl n, h) = absurd (n.not_up ((text_beq_iff top _).0 e))
push_up-IsStack rooted top stack e (inr (r, ups), h) = (inr (r, (refl, ups)), (inr (r, ups), h))

push_segment-IsStack :
    (rooted : Bool) (stack : List Text) (seg : Text)
    → has_byte slash seg ≡ false
    → IsStack rooted stack
    → IsStack rooted (push_segment rooted stack seg)
unfolding push_segment
push_segment-IsStack true [] seg plain h = elim (segment_cases seg plain) [
  | inl e ↦ rw e tt
  | inr (inl (e, f)) ↦ rw (e, f) tt
  | inr (inr (e, f, n)) ↦ rw (e, f) (inl n, tt)
]
push_segment-IsStack false [] seg plain h = elim (segment_cases seg plain) [
  | inl e ↦ rw e tt
  | inr (inl (e, f)) ↦ rw (e, f) (inr (refl, (refl, tt)), tt)
  | inr (inr (e, f, n)) ↦ rw (e, f) (inl n, tt)
]
push_segment-IsStack rooted (top ∷ stack) seg plain h = elim (segment_cases seg plain) [
  | inl e ↦ rw e h
  | inr (inl (e, f)) ↦ elim (Bool-cases (text_beq top (codes ".."))) [
    | inl g ↦ rw (e, f, g) (push_up-IsStack rooted top stack g h)
    | inr g ↦ rw (e, f, g) h.1
  ]
  | inr (inr (e, f, n)) ↦ rw (e, f) (inl n, h)
]

cons_head-plain :
    (c : ℕ) (ws : List Text)
    → nat_beq c slash ≡ false
    → All (λ w. has_byte slash w ≡ false) ws
    → All (λ w. has_byte slash w ≡ false) (cons_head c ws)
unfolding has_byte
cons_head-plain c [] e h = (ground arith, tt)
cons_head-plain c (w ∷ ws) e h = (ground arith, h.1)

split-plain : (s : Text) → All (λ w. has_byte slash w ≡ false) (split slash s)
unfolding split has_byte
split-plain [] = (refl, tt)
split-plain (c ∷ s) = elim (Bool-cases (nat_beq c slash)) [
  | inl e ↦ rw e (refl, split-plain s)
  | inr e ↦ rw e (cons_head-plain c (split slash s) e (split-plain s))
]

split-word : (w : Text) → has_byte slash w ≡ false → split slash w ≡ w ∷ []
unfolding split has_byte
split-word [] h = refl
split-word (c ∷ w) h = ground (arith, split-word w)

split-word_slash :
    (w t : Text) → has_byte slash w ≡ false → split slash (w ++ slash ∷ t) ≡ w ∷ split slash t
unfolding split has_byte
split-word_slash [] t h = refl
split-word_slash (c ∷ w) t h = ground (arith, split-word_slash w t)

split-join :
    (w : Text) (ws : List Text)
    → All (λ v. has_byte slash v ≡ false) (w ∷ ws)
    → split slash (join (w ∷ ws)) ≡ w ∷ ws
unfolding join
split-join w [] h = split-word w h.0
split-join w (v ∷ ws) h = split-word_slash w _ h.0 ∙ ap (◌∷◌ w) (split-join v ws h.1)

push_all-append :
    (rooted : Bool) (stack xs ys : List Text)
    → push_all rooted stack (xs ++ ys) ≡ push_all rooted (push_all rooted stack xs) ys
unfolding push_all
push_all-append rooted stack [] ys = refl
push_all-append rooted stack (x ∷ xs) ys =
    push_all-append rooted (push_segment rooted stack x) xs ys

is_skip-IsName : (w : Text) → IsName w → is_skip w ≡ false
is_skip-IsName w n =
    ground (arith, text_beq_iff w [], text_beq_iff w (codes "."), n.some_byte, n.not_dot)

push_top_name :
    (rooted : Bool) (top : Text) (stack : List Text)
    → IsName top
    → push_segment rooted stack top ≡ top ∷ stack
unfolding push_segment
push_top_name rooted top [] n = rw (is_skip-IsName top n, beq_of_ne top (codes "..") n.not_up) refl
push_top_name rooted top (next ∷ stack) n =
    rw (is_skip-IsName top n, beq_of_ne top (codes "..") n.not_up) refl

push_top_up :
    (stack : List Text)
    → All IsUp stack
    → push_segment false stack (codes "..") ≡ codes ".." ∷ stack
unfolding push_segment text_beq
push_top_up [] h = refl
push_top_up (next ∷ stack) h = rw (h.0) refl

push_top :
    (rooted : Bool) (top : Text) (stack : List Text)
    → IsStack rooted (top ∷ stack)
    → push_segment rooted stack top ≡ top ∷ stack
push_top rooted top stack (inl n, h) = push_top_name rooted top stack n
push_top rooted top stack (inr (r, (u, ups)), h) = rw (r, u) (push_top_up stack ups)

-- Replaying a stack from its oldest segment gives the stack again.
push_all-reverse :
    (rooted : Bool) (stack : List Text)
    → IsStack rooted stack
    → push_all rooted [] (reverse stack) ≡ stack
unfolding push_all
push_all-reverse rooted [] h = refl
push_all-reverse rooted (top ∷ stack) h =
    rw (reverse-cons top stack, push_all-append rooted [] (reverse stack) (top ∷ []))
      (rw (push_all-reverse rooted stack h.1) (push_top rooted top stack h))

push_all-IsStack :
    (rooted : Bool) (stack segs : List Text)
    → All (λ w. has_byte slash w ≡ false) segs
    → IsStack rooted stack
    → IsStack rooted (push_all rooted stack segs)
unfolding push_all
push_all-IsStack rooted stack [] plain h = h
push_all-IsStack rooted stack (seg ∷ segs) plain h =
    push_all-IsStack rooted (push_segment rooted stack seg) segs plain.1
      (push_segment-IsStack rooted stack seg plain.0 h)

IsStack-plain :
    (rooted : Bool) (stack : List Text)
    → IsStack rooted stack
    → All (λ w. (has_byte slash w ≡ false) × (w ≢ [])) stack
IsStack-plain rooted [] h = tt
IsStack-plain rooted (top ∷ stack) (inl n, h) =
    ((n.no_slash, n.some_byte), IsStack-plain rooted stack h)
IsStack-plain rooted (top ∷ stack) (inr (r, (u, ups)), h) =
    ((rw u (unfold has_byte in refl), λ e. ground arith), IsStack-plain rooted stack h)

All-plain :
    (ws : List Text)
    → All (λ w. (has_byte slash w ≡ false) × (w ≢ [])) ws
    → All (λ w. has_byte slash w ≡ false) ws
All-plain [] h = tt
All-plain (w ∷ ws) h = (h.0.0, All-plain ws h.1)

-- Reading printed segments pushes them again.
push_all-split :
    (rooted : Bool) (segs : List Text)
    → All (λ w. has_byte slash w ≡ false) segs
    → push_all rooted [] (split slash (join segs)) ≡ push_all rooted [] segs
push_all-split rooted [] h = unfold push_all push_segment join split text_beq in refl
push_all-split rooted (w ∷ ws) h = rw (split-join w ws h)

join-relative :
    (w : Text) (ws : List Text)
    → has_byte slash w ≡ false
    → w ≢ []
    → has_prefix (join (w ∷ ws)) (codes "/") ≡ false
unfolding join has_prefix has_byte
join-relative [] ws h ne = absurd (ne refl)
join-relative (c ∷ w) [] h ne = ground arith
join-relative (c ∷ w) (v ∷ ws) h ne = ground arith

-- The segments of a canonical path: no slash inside, and not empty.
abbrev IsSolid : List Text → Type 0
IsSolid = All (λ w. (has_byte slash w ≡ false) × (w ≢ []))

has_prefix-print_clean :
    (rooted : Bool) (segs : List Text)
    → IsSolid segs
    → has_prefix (print_clean rooted segs) (codes "/") ≡ rooted
unfolding print_clean
has_prefix-print_clean true segs h = unfold has_prefix in refl
has_prefix-print_clean false [] h = unfold has_prefix in refl
has_prefix-print_clean false (w ∷ ws) h = join-relative w ws h.0.0 h.0.1

push_all-print_clean :
    (rooted : Bool) (segs : List Text)
    → IsSolid segs
    → push_all rooted [] (split slash (print_clean rooted segs)) ≡ push_all rooted [] segs
unfolding print_clean
push_all-print_clean true segs h =
    unfold split push_all push_segment text_beq in push_all-split true segs (All-plain segs h)
push_all-print_clean false [] h = unfold split push_all push_segment text_beq in refl
push_all-print_clean false (w ∷ ws) h = push_all-split false (w ∷ ws) (All-plain (w ∷ ws) h)

-- The stack that `clean` prints.
clean_stack : Bool → Text → List Text
clean_stack rooted p = push_all rooted [] (split slash p)

clean_stack-IsStack : (rooted : Bool) (p : Text) → IsStack rooted (clean_stack rooted p)
unfolding clean_stack
clean_stack-IsStack rooted p = push_all-IsStack rooted [] (split slash p) (split-plain p) tt

clean_print :
    (rooted : Bool) (stack : List Text)
    → IsStack rooted stack
    → clean (print_clean rooted (reverse stack)) ≡ print_clean rooted (reverse stack)
unfolding clean
clean_print rooted stack h =
    let solid : IsSolid (reverse stack) = All-reverse _ stack (IsStack-plain rooted stack h) in
    rw (has_prefix-print_clean rooted (reverse stack) solid) (
      rw (push_all-print_clean rooted (reverse stack) solid)
        (ap (λ s. print_clean rooted (reverse s)) (push_all-reverse rooted stack h)))

clean_idem : (p : Text) → clean (clean p) ≡ clean p
unfolding clean clean_stack
clean_idem p =
    clean_print (has_prefix p (codes "/")) _ (clean_stack-IsStack (has_prefix p (codes "/")) p)

-- The clean form of a path starts with a slash exactly when the path does.
has_prefix-clean : (p : Text) → has_prefix (clean p) (codes "/") ≡ has_prefix p (codes "/")
unfolding clean clean_stack
has_prefix-clean p = has_prefix-print_clean (has_prefix p (codes "/")) _ (
    All-reverse _ _ (
      IsStack-plain (has_prefix p (codes "/")) _
        (clean_stack-IsStack (has_prefix p (codes "/")) p)))

print_clean-ne_nil :
    (rooted : Bool) (segs : List Text) → IsSolid segs → print_clean rooted segs ≢ []
unfolding print_clean join
print_clean-ne_nil true segs h e = cc
print_clean-ne_nil false [] h e = cc
print_clean-ne_nil false (w ∷ []) h e = h.0.1 e
print_clean-ne_nil false ((c ∷ w) ∷ v ∷ ws) h e = cc
print_clean-ne_nil false ([] ∷ v ∷ ws) h e = cc

clean-ne_nil : (p : Text) → clean p ≢ []
unfolding clean clean_stack
clean-ne_nil p =
    let rooted : Bool = has_prefix p (codes "/") in
    print_clean-ne_nil rooted _
      (All-reverse _ _ (IsStack-plain rooted _ (clean_stack-IsStack rooted p)))

canonicalize_path-clean : (p : Text) → p ≢ [] → canonicalize_path p ≡ clean p
unfolding canonicalize_path
canonicalize_path-clean p ne = ground (arith, beq_of_ne p [] ne, has_prefix-clean p)

-- Making a path canonical a second time changes nothing, for absolute and for relative paths.
pub canonicalize_path_idem :
    (p : Text) → canonicalize_path (canonicalize_path p) ≡ canonicalize_path p
canonicalize_path_idem [] = unfold canonicalize_path text_beq in refl
canonicalize_path_idem (c ∷ p) =
    let ne : (c ∷ p) ≢ [] = λ e. cc in
    rw (canonicalize_path-clean (c ∷ p) ne)
      (canonicalize_path-clean (clean (c ∷ p)) (clean-ne_nil (c ∷ p)) ∙ clean_idem (c ∷ p))

IsStack-names : (stack : List Text) → IsStack true stack → All IsName stack
IsStack-names [] h = tt
IsStack-names (top ∷ stack) (inl n, h) = (n, IsStack-names stack h)
IsStack-names (top ∷ stack) (inr (r, ups), h) = cc

-- The canonical form of an absolute path is a slash and names joined by slashes: no segment of it
-- is empty, "." or "..".
pub canonicalize_path_names :
    (p : Text)
    → has_prefix p (codes "/") ≡ true
    → (segs : List Text) × (canonicalize_path p ≡ slash ∷ join segs) × All IsName segs
canonicalize_path_names [] h = absurd (unfold has_prefix in ground arith)
canonicalize_path_names (c ∷ p) h = (
  reverse (clean_stack true (c ∷ p)),
  canonicalize_path-clean (c ∷ p) (λ e. cc)
      ∙ unfold clean clean_stack in rw h (unfold print_clean in refl),
  All-reverse _ _ (IsStack-names _ (clean_stack-IsStack true (c ∷ p))),
)
