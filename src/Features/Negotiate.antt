-- ===== src/Features/Negotiate.antt =====
-- What both sides agree on.
use go_sdk.Prelude.{
  ◌≡◌, refl, ◌∙◌, Bool, true, false, ◌&&◌, ◌||◌, not, List, [], ◌∷◌, arith, Text, text_beq_iff,
  text_eq, contains,
}
use go_sdk.Features.{
  intersect_loop, intersect_features, has_feature, filter_features, requires_provisioner,
}

has_feature-contains : (fs : List Text) (x : Text) → has_feature fs x ≡ contains x fs
unfolding has_feature contains
has_feature-contains [] x = refl
has_feature-contains (f ∷ fs) x = ground (arith, has_feature-contains fs x)

has_feature-intersect_loop :
    (want seen a : List Text) (x : Text)
    → contains x seen ≡ false
    → has_feature (intersect_loop want seen a) x ≡ (contains x a && contains x want)
unfolding has_feature contains intersect_loop
has_feature-intersect_loop want seen [] x h = refl
has_feature-intersect_loop want seen (y ∷ a) x h = ground (
  arith,
  text_beq_iff y x,
  has_feature-intersect_loop want seen a x h,
  has_feature-intersect_loop want (y ∷ seen) a x,
)

-- A flag is in effect exactly when both sides list it.
pub has_feature-intersect_features :
    (a b : List Text) (x : Text)
    → has_feature (intersect_features a b) x ≡ (has_feature a x && has_feature b x)
unfolding intersect_features
has_feature-intersect_features [] b x = unfold has_feature in refl
has_feature-intersect_features (y ∷ a) [] x = unfold has_feature in ground arith
has_feature-intersect_features (y ∷ a) (z ∷ b) x =
    has_feature-intersect_loop (z ∷ b) [] (y ∷ a) x (unfold contains in refl)
    ∙ rw (has_feature-contains (y ∷ a) x, has_feature-contains (z ∷ b) x) refl

-- No flag is listed twice.
abbrev pub Distinct : List Text → Type 0
Distinct [] = Unit {0}
Distinct (x ∷ xs) = (contains x xs ≡ false) × Distinct xs

intersect_loop-avoids :
    (want seen a : List Text) (x : Text)
    → contains x seen ≡ true
    → contains x (intersect_loop want seen a) ≡ false
unfolding intersect_loop contains
intersect_loop-avoids want seen [] x h = refl
intersect_loop-avoids want seen (y ∷ a) x h = ground (
  arith,
  text_beq_iff y x,
  intersect_loop-avoids want seen a x h,
  intersect_loop-avoids want (y ∷ seen) a x,
)

intersect_loop-Distinct : (want seen a : List Text) → Distinct (intersect_loop want seen a)
unfolding intersect_loop
intersect_loop-Distinct want seen [] = tt
intersect_loop-Distinct want seen (y ∷ a) =
    let self : contains y (y ∷ seen) ≡ true = unfold contains in ground (arith, text_beq_iff y y) in
    ground (
      arith,
      intersect_loop-Distinct want seen a,
      intersect_loop-Distinct want (y ∷ seen) a,
      intersect_loop-avoids want (y ∷ seen) a y self,
    )

-- The negotiated list has no flag twice.
pub intersect_features-Distinct : (a b : List Text) → Distinct (intersect_features a b)
unfolding intersect_features
intersect_features-Distinct [] b = tt
intersect_features-Distinct (y ∷ a) [] = tt
intersect_features-Distinct (y ∷ a) (z ∷ b) = intersect_loop-Distinct (z ∷ b) [] (y ∷ a)

-- A server without a provisioner advertises no flag that needs one, and keeps every other flag.
pub has_feature-filter_features :
    (p : Bool) (fs : List Text) (x : Text)
    → has_feature (filter_features p fs) x
      ≡ (has_feature fs x && (p || not (requires_provisioner x)))
unfolding filter_features has_feature
has_feature-filter_features p [] x = refl
has_feature-filter_features p (f ∷ fs) x =
    ground (arith, text_beq_iff f x, has_feature-filter_features p fs x)
