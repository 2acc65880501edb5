-- ===== src/Lease/Subset.antt =====
-- lease.go: `IsLeaseSubset`, which internal/lease/subset.go passes on. The result is the error, if
-- any. The child's capabilities are visited in the order in which they are listed.
pub mod Sound
pub mod Budgets
use go_sdk.Prelude.{
  ℕ, Bool, true, false, not, ◌||◌, List, [], ◌∷◌, Option, none, some, Text, text_beq, text_eq, ltb,
  if◌then◌else◌, any, Dict, lookup,
}
use go_sdk.Errors.{Error, fail, lease_subset_violation, says, about, about_two}
use go_sdk.Glob
use go_sdk.Lease.{Floats, Lease, Capability, Currency, cap_cost_budget}
use go_sdk.Lease.Budget.{BudgetAmount, Parsed, ok, bad, parse_budget_amount}

module _ (fl : Floats) where
  open fl use {Float, less}

  fits : Text → BudgetAmount fl → Option Float → Option Error
  fits pat amt none =
      some
        (fail lease_subset_violation (about "child budget currency " amt.currency " not in parent"))
  fits pat amt (some remaining) =
      if less remaining amt.value
      then some
          (fail lease_subset_violation (about "child budget " pat " exceeds parent remaining"))
      else none

  budget_error : Dict Currency Float → Text → Parsed (BudgetAmount fl) → Option Error
  unfolding fits
  budget_error remaining pat (bad e) = some e
  budget_error remaining pat (ok amt) = fits pat amt (lookup amt.currency remaining)

  abbrev or_else : Option Error → Option Error → Option Error
  or_else none next = next
  or_else (some e) next = some e

  -- The loop over the budget patterns of the child.
  check_budgets : Dict Currency Float → List Text → Option Error
  unfolding budget_error
  check_budgets remaining [] = none
  check_budgets remaining (pat ∷ pats) =
      or_else (budget_error remaining pat (parse_budget_amount fl pat))
        (check_budgets remaining pats)

  -- The loop over the patterns of one capability of the child.
  check_patterns : Capability → List Text → List Text → Option Error
  check_patterns ns parent_patterns [] = none
  check_patterns ns parent_patterns (cp ∷ pats) =
      or_else
        (if any (λ p. Glob.covers p cp) parent_patterns
          then none
          else some (
              fail lease_subset_violation
                (about_two "child pattern " cp " not covered by parent " ns)))
        (check_patterns ns parent_patterns pats)

  missing_or : Capability → Option (List Text) → List Text → Option Error
  unfolding check_patterns
  missing_or ns none pats =
      some (
        fail lease_subset_violation (about "child lease has capability " ns " missing from parent"))
  missing_or ns (some parent_patterns) pats = check_patterns ns parent_patterns pats

  -- The loop over the capabilities of the child.
  check_capabilities : Lease → Dict Currency Float → Lease → Option Error
  unfolding check_budgets missing_or
  check_capabilities parent remaining [] = none
  check_capabilities parent remaining ((ns, pats) ∷ child) =
      or_else
        (if text_beq ns cap_cost_budget
          then check_budgets remaining pats
          else missing_or ns (lookup ns parent) pats)
        (check_capabilities parent remaining child)

  -- `childExpiry != nil && parentExpiry != nil && childExpiry.After(*parentExpiry)`
  outlives : Option ℕ → Option ℕ → Bool
  outlives none parent = false
  outlives (some c) none = false
  outlives (some c) (some p) = ltb p c

  unfoldable pub is_lease_subset :
      Lease → Lease → Dict Currency Float → Option ℕ → Option ℕ → Option Error
  unfolding check_capabilities outlives
  is_lease_subset parent child remaining parent_expiry child_expiry =
      or_else (check_capabilities parent remaining child) (
        if outlives child_expiry parent_expiry
        then some (fail lease_subset_violation (says "child expires_at exceeds parent"))
        else none)
