-- ===== src/Server/Listing/Sorting.antt =====
-- The order of the listing, sorting by it, and the bounded heap against a full sort.
use go_sdk.Prelude.{
  ℕ, zero, suc, ◌≤◌, ◌<◌, ◌≡◌, refl, ap, sym, Bool, true, false, List, [], ◌∷◌, some, arith,
  Bool-cases, inl, inr, ltb, if◌then◌else◌, length, take, keep, All, All-keep, take-short,
}
use native.Mathlib.Decide.{dec_lt}
use go_sdk.Strings.Order.{text_less_asymm, text_less_weak}
use go_sdk.Server.Listing.{
  JobInfo, job_less, insert_job, sort_onto, heap_root, without_root, replace_root, offer, scan,
}

pub job_less_asymm : (a b : JobInfo) → job_less a b ≡ true → job_less b a ≡ false
unfolding job_less
job_less_asymm a b h = ground (arith, text_less_asymm a.id b.id)

pub job_less_weak :
    (a b c : JobInfo) → job_less a b ≡ true → job_less c b ≡ false → job_less a c ≡ true
unfolding job_less
job_less_weak a b c h k = ground (arith, text_less_weak a.id b.id c.id)

-- No later job sorts before an earlier one.
abbrev pub IsSorted : List JobInfo → Type 0
IsSorted [] = Unit
IsSorted (x ∷ xs) = All (λ z. job_less z x ≡ false) xs × IsSorted xs

pub All-insert_job :
    (P : JobInfo → Type 0) (e : JobInfo) (xs : List JobInfo)
    → P e
    → All P xs
    → All P (insert_job e xs)
unfolding insert_job
All-insert_job P e [] h k = (h, tt)
All-insert_job P e (x ∷ xs) h k = elim (Bool-cases (job_less e x)) [
  | inl lt ↦ rw lt (h, k)
  | inr ge ↦ rw ge (k.0, All-insert_job P e xs h k.1)
]

All-above :
    (e x : JobInfo) (xs : List JobInfo)
    → job_less e x ≡ true
    → All (λ z. job_less z x ≡ false) xs
    → All (λ z. job_less e z ≡ true) xs
All-above e x [] lt h = tt
All-above e x (z ∷ xs) lt h = (job_less_weak e x z lt h.0, All-above e x xs lt h.1)

All-not_below :
    (e : JobInfo) (xs : List JobInfo)
    → All (λ z. job_less e z ≡ true) xs
    → All (λ z. job_less z e ≡ false) xs
All-not_below e [] h = tt
All-not_below e (z ∷ xs) h = (job_less_asymm e z h.0, All-not_below e xs h.1)

insert_job-IsSorted : (e : JobInfo) (xs : List JobInfo) → IsSorted xs → IsSorted (insert_job e xs)
unfolding insert_job
insert_job-IsSorted e [] h = (tt, tt)
insert_job-IsSorted e (x ∷ xs) h = elim (Bool-cases (job_less e x)) [
  | inl lt ↦ rw lt ((job_less_asymm e x lt, All-not_below e xs (All-above e x xs lt h.0)), h)
  | inr ge ↦
      rw ge (All-insert_job (λ z. job_less z x ≡ false) e xs ge h.0, insert_job-IsSorted e xs h.1)
]

pub sort_onto-IsSorted :
    (sorted es : List JobInfo) → IsSorted sorted → IsSorted (sort_onto sorted es)
unfolding sort_onto
sort_onto-IsSorted sorted [] h = h
sort_onto-IsSorted sorted (e ∷ es) h =
    sort_onto-IsSorted (insert_job e sorted) es (insert_job-IsSorted e sorted h)

insert_job-below :
    (e : JobInfo) (xs : List JobInfo) → All (λ z. job_less e z ≡ true) xs → insert_job e xs ≡ e ∷ xs
unfolding insert_job
insert_job-below e [] h = refl
insert_job-below e (x ∷ xs) h = rw (h.0) refl

keep-insert_job :
    (p : JobInfo → Bool) (e : JobInfo) (xs : List JobInfo)
    → IsSorted xs
    → keep p (insert_job e xs) ≡ (if p e then insert_job e (keep p xs) else keep p xs)
unfolding insert_job
keep-insert_job p e [] h = refl
keep-insert_job p e (x ∷ xs) h = ground (
  arith,
  keep-insert_job p e xs h.1,
  λ (lt : job_less e x ≡ true).
      insert_job-below e (keep p xs)
        (All-keep (λ z. job_less e z ≡ true) p xs (All-above e x xs lt h.0)),
)

-- Filtering and then sorting is sorting and then filtering.
pub keep-sort_onto :
    (p : JobInfo → Bool) (sorted es : List JobInfo)
    → IsSorted sorted
    → keep p (sort_onto sorted es) ≡ sort_onto (keep p sorted) (keep p es)
unfolding sort_onto
keep-sort_onto p sorted [] h = refl
keep-sort_onto p sorted (e ∷ es) h = ground (
  arith,
  keep-sort_onto p (insert_job e sorted) es (insert_job-IsSorted e sorted h),
  keep-insert_job p e sorted h,
)

length-insert_job : (e : JobInfo) (xs : List JobInfo) → length (insert_job e xs) ≡ suc (length xs)
unfolding insert_job
length-insert_job e [] = refl
length-insert_job e (x ∷ xs) = ground (arith, length-insert_job e xs)

without_root-take :
    (k : ℕ) (xs : List JobInfo) → k < length xs → without_root (take (suc k) xs) ≡ take k xs
unfolding without_root
without_root-take k [] h = absurd (omega arith)
without_root-take zero (x ∷ xs) h = refl
without_root-take (suc k) (x ∷ []) h = absurd (omega arith)
without_root-take (suc k) (x ∷ y ∷ xs) h = ap (◌∷◌ x) (without_root-take k (y ∷ xs) (omega arith))

-- A new job below the last of the first k + 1 takes the place of that one among them.
insert_job-take :
    (e r : JobInfo) (k : ℕ) (xs : List JobInfo)
    → heap_root (take (suc k) xs) ≡ some r
    → k < length xs
    → job_less e r ≡ true
    → insert_job e (take k xs) ≡ take (suc k) (insert_job e xs)
unfolding insert_job heap_root
insert_job-take e r k [] root h lt = absurd (omega arith)
insert_job-take e r zero (x ∷ xs) root h lt = ground arith
insert_job-take e r (suc k) (x ∷ []) root h lt = absurd (omega arith)
insert_job-take e r (suc k) (x ∷ y ∷ xs) root h lt =
    let rest : insert_job e (take k (y ∷ xs)) ≡ take (suc k) (insert_job e (y ∷ xs)) =
      insert_job-take e r k (y ∷ xs) root (omega arith) lt in
    elim (Bool-cases (job_less e x)) [
      | inl below ↦ rw below refl
      | inr above ↦ rw above (ap (◌∷◌ x) rest)
    ]

root-above :
    (e r x : JobInfo) (k : ℕ) (xs : List JobInfo)
    → All (λ z. job_less z x ≡ false) xs
    → heap_root (take k xs) ≡ some r
    → job_less e x ≡ true
    → job_less e r ≡ true
unfolding heap_root
root-above e r x zero xs h root lt = cc
root-above e r x (suc k) [] h root lt = cc
root-above e r x (suc zero) (z ∷ xs) h root lt = ground (arith, job_less_weak e x z)
root-above e r x (suc (suc k)) (z ∷ []) h root lt = ground (arith, job_less_weak e x z)
root-above e r x (suc (suc k)) (z ∷ w ∷ xs) h root lt =
    root-above e r x (suc k) (w ∷ xs) h.1 root lt

-- A new job that is not below the last of the first k + 1 does not come among them.
take-insert_job :
    (e r : JobInfo) (k : ℕ) (xs : List JobInfo)
    → IsSorted xs
    → heap_root (take (suc k) xs) ≡ some r
    → k < length xs
    → job_less e r ≡ false
    → take (suc k) (insert_job e xs) ≡ take (suc k) xs
unfolding insert_job heap_root
take-insert_job e r k [] s root h ge = absurd (omega arith)
take-insert_job e r zero (x ∷ xs) s root h ge = ground arith
take-insert_job e r (suc k) (x ∷ []) s root h ge = absurd (omega arith)
take-insert_job e r (suc k) (x ∷ y ∷ xs) s root h ge = elim (Bool-cases (job_less e x)) [
  | inl below ↦ let t : job_less e r ≡ true = root-above e r x (suc k) (y ∷ xs) s.0 root below in cc
  | inr above ↦ rw above (ap (◌∷◌ x) (take-insert_job e r k (y ∷ xs) s.1 root (omega arith) ge))
]

root-some : (x : JobInfo) (h : List JobInfo) → (r : JobInfo) × (heap_root (x ∷ h) ≡ some r)
unfolding heap_root
root-some x [] = (x, refl)
root-some x (y ∷ h) = root-some y h

pub root-take :
    (k : ℕ) (xs : List JobInfo)
    → k < length xs
    → (r : JobInfo) × (heap_root (take (suc k) xs) ≡ some r)
root-take k [] h = absurd (omega arith)
root-take k (x ∷ xs) h = root-some x (take k xs)

length-take_full : (k : ℕ) (xs : List JobInfo) → k < length xs → length (take (suc k) xs) ≡ suc k
length-take_full k [] h = absurd (omega arith)
length-take_full zero (x ∷ xs) h = refl
length-take_full (suc k) (x ∷ []) h = absurd (omega arith)
length-take_full (suc k) (x ∷ y ∷ xs) h = ap suc (length-take_full k (y ∷ xs) (omega arith))

offer-full :
    (k : ℕ) (e : JobInfo) (sorted : List JobInfo)
    → IsSorted sorted
    → k < length sorted
    → offer (suc k) e (take (suc k) sorted) ≡ take (suc k) (insert_job e sorted)
unfolding offer replace_root
offer-full k e sorted s h =
    let (r, root) = root-take k sorted h in
    let full : ltb (length (take (suc k) sorted)) (suc k) ≡ false =
      ground (arith, length-take_full k sorted h) in
    elim (Bool-cases (job_less e r)) [
      | inl lt ↦
          rw (full, root, lt, without_root-take k sorted h) (insert_job-take e r k sorted root h lt)
      | inr ge ↦ rw (full, root, ge) (sym (take-insert_job e r k sorted s root h ge))
    ]

offer-short :
    (k : ℕ) (e : JobInfo) (sorted : List JobInfo)
    → length sorted ≤ k
    → offer (suc k) e (take (suc k) sorted) ≡ take (suc k) (insert_job e sorted)
unfolding offer
offer-short k e sorted h =
    let room : ltb (length sorted) (suc k) ≡ true = ground arith in
    rw (take-short (suc k) sorted (omega arith), room)
      (sym (take-short (suc k) (insert_job e sorted) (omega (arith, length-insert_job e sorted))))

offer-take :
    (k : ℕ) (e : JobInfo) (sorted : List JobInfo)
    → IsSorted sorted
    → offer (suc k) e (take (suc k) sorted) ≡ take (suc k) (insert_job e sorted)
offer-take k e sorted s = elim (dec_lt k (length sorted)) [
  | yes h ↦ offer-full k e sorted s h
  | no h ↦ offer-short k e sorted (omega arith)
]

scan-take :
    (k : ℕ) (want : JobInfo → Bool) (sorted es : List JobInfo)
    → IsSorted sorted
    → scan (suc k) want (take (suc k) sorted) es ≡ take (suc k) (sort_onto sorted (keep want es))
unfolding scan sort_onto
scan-take k want sorted [] s = refl
scan-take k want sorted (e ∷ es) s = elim (Bool-cases (want e)) [
  | inl kept ↦
      rw (kept, offer-take k e sorted s)
        (scan-take k want (insert_job e sorted) es (insert_job-IsSorted e sorted s))
  | inr left ↦ rw left (scan-take k want sorted es s)
]

-- The bounded heap ends with the first limit + 1 of the wanted jobs in the order of the listing.
pub scan_lem :
    (limit : ℕ) (want : JobInfo → Bool) (jobs : List JobInfo)
    → scan (suc limit) want [] jobs ≡ take (suc limit) (sort_onto [] (keep want jobs))
scan_lem limit want jobs = scan-take limit want [] jobs tt
