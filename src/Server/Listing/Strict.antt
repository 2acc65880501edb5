-- ===== src/Server/Listing/Strict.antt =====
-- Listings without ties: no two jobs have the same id, so each sorts strictly before the later ones.
use go_sdk.Prelude.{
  ℕ, zero, suc, ◌≡◌, ◌≢◌, refl, ap, sym, subst, Bool, true, false, List, [], ◌∷◌, some, arith,
  Bool-cases, inl, inr, take, drop, keep, All, All-keep, All-drop,
}
use go_sdk.Strings.Order.{text_less_irrefl, text_less_total}
use go_sdk.Server.Listing.{JobInfo, job_less, insert_job, sort_onto, heap_root}
use go_sdk.Server.Listing.Sorting.{IsSorted, sort_onto-IsSorted, job_less_asymm, All-insert_job}

-- No two jobs have the same id.
abbrev pub DistinctIds : List JobInfo → Type 0
DistinctIds [] = Unit
DistinctIds (x ∷ xs) = All (λ z. x.id ≢ z.id) xs × DistinctIds xs

-- Every job sorts before each later one.
abbrev pub IsStrict : List JobInfo → Type 0
IsStrict [] = Unit
IsStrict (x ∷ xs) = All (λ z. job_less x z ≡ true) xs × IsStrict xs

insert_job-DistinctIds :
    (e : JobInfo) (xs : List JobInfo)
    → All (λ z. e.id ≢ z.id) xs
    → DistinctIds xs
    → DistinctIds (insert_job e xs)
unfolding insert_job
insert_job-DistinctIds e [] h d = (tt, tt)
insert_job-DistinctIds e (x ∷ xs) h d = elim (Bool-cases (job_less e x)) [
  | inl lt ↦ rw lt (h, d)
  | inr ge ↦ rw ge (
    All-insert_job (λ z. x.id ≢ z.id) e xs (λ q. h.0 (sym q)) d.0,
    insert_job-DistinctIds e xs h.1 d.1,
  )
]

-- Each of the jobs has another id than all that are sorted.
Apart : List JobInfo → List JobInfo → Type 0
Apart sorted es = All (λ e. All (λ z. e.id ≢ z.id) sorted) es

Apart-insert_job :
    (e : JobInfo) (sorted es : List JobInfo)
    → All (λ z. e.id ≢ z.id) es
    → Apart sorted es
    → Apart (insert_job e sorted) es
unfolding Apart
Apart-insert_job e sorted [] h a = tt
Apart-insert_job e sorted (x ∷ es) h a = (
  All-insert_job (λ z. x.id ≢ z.id) e sorted (λ q. h.0 (sym q)) a.0,
  Apart-insert_job e sorted es h.1 a.1,
)

sort_onto-DistinctIds :
    (sorted es : List JobInfo)
    → DistinctIds sorted
    → DistinctIds es
    → Apart sorted es
    → DistinctIds (sort_onto sorted es)
unfolding sort_onto Apart
sort_onto-DistinctIds sorted [] d k a = d
sort_onto-DistinctIds sorted (e ∷ es) d k a =
    sort_onto-DistinctIds (insert_job e sorted) es (insert_job-DistinctIds e sorted a.0 d) k.1
      (Apart-insert_job e sorted es k.0 a.1)

Apart-nil : (es : List JobInfo) → Apart [] es
unfolding Apart
Apart-nil [] = tt
Apart-nil (e ∷ es) = (tt, Apart-nil es)

pub keep-DistinctIds :
    (p : JobInfo → Bool) (xs : List JobInfo) → DistinctIds xs → DistinctIds (keep p xs)
keep-DistinctIds p [] d = tt
keep-DistinctIds p (x ∷ xs) d = elim (Bool-cases (p x)) [
  | inl held ↦ rw held (All-keep (λ z. x.id ≢ z.id) p xs d.0, keep-DistinctIds p xs d.1)
  | inr failed ↦ rw failed (keep-DistinctIds p xs d.1)
]

job_less_total : (a b : JobInfo) → job_less b a ≡ false → a.id ≢ b.id → job_less a b ≡ true
unfolding job_less
job_less_total a b h ne = ground (arith, text_less_total a.id b.id)

job_less_irrefl : (a : JobInfo) → job_less a a ≡ false
unfolding job_less
job_less_irrefl a = ground (arith, text_less_irrefl a.id)

All-strict :
    (x : JobInfo) (xs : List JobInfo)
    → All (λ z. job_less z x ≡ false) xs
    → All (λ z. x.id ≢ z.id) xs
    → All (λ z. job_less x z ≡ true) xs
All-strict x [] h d = tt
All-strict x (z ∷ xs) h d = (job_less_total x z h.0 d.0, All-strict x xs h.1 d.1)

IsStrict-of : (xs : List JobInfo) → IsSorted xs → DistinctIds xs → IsStrict xs
IsStrict-of [] s d = tt
IsStrict-of (x ∷ xs) s d = (All-strict x xs s.0 d.0, IsStrict-of xs s.1 d.1)

pub sort_onto-IsStrict : (es : List JobInfo) → DistinctIds es → IsStrict (sort_onto [] es)
sort_onto-IsStrict es d =
    IsStrict-of (sort_onto [] es) (sort_onto-IsSorted [] es tt)
      (sort_onto-DistinctIds [] es tt d (Apart-nil es))

root-All :
    (P : JobInfo → Type 0) (j : ℕ) (r : JobInfo) (xs : List JobInfo)
    → All P xs
    → heap_root (take j xs) ≡ some r
    → P r
unfolding heap_root
root-All P zero r xs h root = cc
root-All P (suc j) r [] h root = cc
root-All P (suc zero) r (x ∷ xs) h root = let e : x ≡ r = cc in subst P e h.0
root-All P (suc (suc j)) r (x ∷ []) h root = let e : x ≡ r = cc in subst P e h.0
root-All P (suc (suc j)) r (x ∷ y ∷ xs) h root = root-All P (suc j) r (y ∷ xs) h.1 root

keep-above :
    (x : JobInfo) (xs : List JobInfo)
    → All (λ z. job_less x z ≡ true) xs
    → keep (job_less x) xs ≡ xs
keep-above x [] h = refl
keep-above x (z ∷ xs) h = rw (h.0) (ap (◌∷◌ z) (keep-above x xs h.1))

-- What sorts after the last of the first j + 1 of a strictly sorted list is the rest.
keep-page :
    (j : ℕ) (r : JobInfo) (xs : List JobInfo)
    → IsStrict xs
    → heap_root (take (suc j) xs) ≡ some r
    → keep (job_less r) xs ≡ drop (suc j) xs
unfolding heap_root
keep-page j r [] s root = cc
keep-page zero r (x ∷ xs) s root =
    let e : x ≡ r = cc in
    subst (λ y. keep (job_less y) (x ∷ xs) ≡ xs) e (rw (job_less_irrefl x) (keep-above x xs s.0))
keep-page (suc j) r (x ∷ []) s root =
    let e : x ≡ r = cc in
    subst (λ y. keep (job_less y) (x ∷ []) ≡ []) e (rw (job_less_irrefl x) refl)
keep-page (suc j) r (x ∷ y ∷ xs) s root =
    let below : job_less x r ≡ true =
      root-All (λ z. job_less x z ≡ true) (suc j) r (y ∷ xs) s.0 root in
    rw (job_less_asymm x r below) (keep-page j r (y ∷ xs) s.1 root)

pub keep-rest :
    (k j : ℕ) (r : JobInfo) (xs : List JobInfo)
    → IsStrict xs
    → heap_root (take (suc j) (drop k xs)) ≡ some r
    → keep (job_less r) xs ≡ drop (suc j) (drop k xs)
keep-rest zero j r xs s root = keep-page j r xs s root
keep-rest (suc k) j r [] s root = refl
keep-rest (suc k) j r (x ∷ xs) s root =
    let below : job_less x r ≡ true =
      root-All (λ z. job_less x z ≡ true) (suc j) r (drop k xs)
        (All-drop (λ z. job_less x z ≡ true) k xs s.0) root in
    rw (job_less_asymm x r below) (keep-rest k j r xs s.1 root)
