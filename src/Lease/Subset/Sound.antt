-- ===== src/Lease/Subset/Sound.antt =====
-- lease.go: what `IsLeaseSubset` means for the targets and the expiry of parent and child.
use go_sdk.Prelude.{
  ℕ, ◌≡◌, refl, ◌≢◌, ◌⊎◌, true, false, List, [], ◌∷◌, Option, none, some, arith, Text, text_beq_iff,
  text_eq, any, Dict, lookup,
}
use go_sdk.Glob
use go_sdk.Glob.Cover.{covers_sound}
use go_sdk.Lease.{Floats, Urls, Lease, Capability, Currency, cap_cost_budget}
use go_sdk.Lease.State.{matches, any_match, is_expired, canonicalize_target}
use go_sdk.Lease.Subset.{check_patterns, missing_or, check_capabilities, outlives, is_lease_subset}

-- A covered pattern that matches is matched by a pattern of the parent.
any-covers :
    (canon cp : Text) (parent_patterns : List Text)
    → any (λ p. Glob.covers p cp) parent_patterns ≡ true
    → Glob.match cp canon ≡ true
    → any (λ p. Glob.match p canon) parent_patterns ≡ true
any-covers canon cp [] h m = cc
any-covers canon cp (p ∷ ps) h m = ground (arith, covers_sound p cp canon, any-covers canon cp ps)

module _ (fl : Floats) where
  check_patterns_sound :
      (ns : Capability) (canon : Text) (parent_patterns pats : List Text)
      → check_patterns fl ns parent_patterns pats ≡ none
      → any (λ p. Glob.match p canon) pats ≡ true
      → any (λ p. Glob.match p canon) parent_patterns ≡ true
  unfolding check_patterns
  check_patterns_sound ns canon parent_patterns [] h m = cc
  check_patterns_sound ns canon parent_patterns (cp ∷ pats) h m = ground (
    arith,
    any-covers canon cp parent_patterns,
    check_patterns_sound ns canon parent_patterns pats,
  )

  missing_or_sound :
      (ns : Capability) (canon : Text) (granted : Option (List Text)) (pats : List Text)
      → missing_or fl ns granted pats ≡ none
      → any (λ p. Glob.match p canon) pats ≡ true
      → any_match canon granted ≡ true
  unfolding missing_or any_match
  missing_or_sound ns canon none pats h m = cc
  missing_or_sound ns canon (some ps) pats h m = check_patterns_sound ns canon ps pats h m

  check_capabilities_sound :
      (parent child : Lease) (remaining : Dict Currency fl.Float) (cap : Capability) (canon : Text)
      → cap ≢ cap_cost_budget
      → check_capabilities fl parent remaining child ≡ none
      → any_match canon (lookup cap child) ≡ true
      → any_match canon (lookup cap parent) ≡ true
  unfolding check_capabilities lookup any_match
  check_capabilities_sound parent [] remaining cap canon ne h m = cc
  check_capabilities_sound parent ((ns, pats) ∷ child) remaining cap canon ne h m = ground (
    arith,
    text_beq_iff ns cap,
    missing_or_sound ns canon (lookup ns parent) pats,
    text_beq_iff ns cap_cost_budget,
    check_capabilities_sound parent child remaining cap canon ne,
  )

  check_expiry :
      (parent child : Option ℕ) (now : ℕ)
      → outlives fl child parent ≡ false
      → (parent ≡ none) ⊎ (child ≢ none)
      → is_expired child now ≡ false
      → is_expired parent now ≡ false
  unfolding outlives is_expired
  check_expiry none child now h k e = refl
  check_expiry (some p) none now h k e = ground arith
  check_expiry (some p) (some c) now h k e = ground arith

  -- If a child lease passes the test against its parent, then every target that the child grants
  -- under a capability other than "cost.budget" is granted by the parent too.
  pub is_lease_subset_sound :
      (urls : Urls) (parent child : Lease) (remaining : Dict Currency fl.Float)
      (parent_expiry child_expiry : Option ℕ) (cap : Capability) (target : Text)
      → is_lease_subset fl parent child remaining parent_expiry child_expiry ≡ none
      → cap ≢ cap_cost_budget
      → matches urls child cap target ≡ true
      → matches urls parent cap target ≡ true
  unfolding is_lease_subset
  is_lease_subset_sound urls parent child remaining pe ce cap target h ne m =
      unfold matches in
      check_capabilities_sound parent child remaining cap (canonicalize_target urls cap target) ne
        (ground arith) (unfold matches in m)

  -- If a child lease passes the test against its parent, and the parent has no expiry or the child
  -- has one, then the parent has not expired at an instant at which the child has not.
  pub is_lease_subset_expiry :
      (parent child : Lease) (remaining : Dict Currency fl.Float)
      (parent_expiry child_expiry : Option ℕ) (now : ℕ)
      → is_lease_subset fl parent child remaining parent_expiry child_expiry ≡ none
      → (parent_expiry ≡ none) ⊎ (child_expiry ≢ none)
      → is_expired child_expiry now ≡ false
      → is_expired parent_expiry now ≡ false
  unfolding is_lease_subset
  is_lease_subset_expiry parent child remaining pe ce now h k e =
      check_expiry pe ce now (ground arith) k e
