-- ===== src/Lease/Subset/Budgets.antt =====
-- Budgets under the subset test: each pattern is compared with what the parent has left, and their
-- sum is not.
use go_sdk.Prelude.{
  ℕ, ◌≡◌, refl, false, List, [], ◌∷◌, Option, none, some, arith, Text, text_beq, text_eq, Dict,
  lookup, insert, lookup-insert_self, All,
}
use go_sdk.Lease.{Floats, Lease, Currency, cap_cost_budget}
use go_sdk.Lease.Budget.{BudgetAmount, Parsed, ok, bad, parse_budget_amount}
use go_sdk.Lease.State.{new_state, credit_all, amount_at}
use go_sdk.Lease.Subset.{fits, budget_error, check_budgets, check_capabilities, is_lease_subset}

module _ (fl : Floats) where
  open fl use {Float, zero_f, less, add_f}

  -- The pattern parses, and its amount is not above what the parent has left of its currency.
  abbrev pub Fits : Dict Currency Float → Text → Type 0
  Fits remaining pat =
      (amt : BudgetAmount fl) × (r : Float) × (parse_budget_amount fl pat ≡ ok amt)
      × (lookup amt.currency remaining ≡ some r)
      × (less r amt.value ≡ false)

  fits_sound :
      (pat : Text) (amt : BudgetAmount fl) (left : Option Float)
      → fits fl pat amt left ≡ none
      → (r : Float) × (left ≡ some r) × (less r amt.value ≡ false)
  unfolding fits
  fits_sound pat amt none h = cc
  fits_sound pat amt (some r) h = (r, refl, ground arith)

  budget_error_sound :
      (remaining : Dict Currency Float) (pat : Text) (p : Parsed (BudgetAmount fl))
      → parse_budget_amount fl pat ≡ p
      → budget_error fl remaining pat p ≡ none
      → Fits remaining pat
  unfolding budget_error
  budget_error_sound remaining pat (bad e) q h = cc
  budget_error_sound remaining pat (ok amt) q h =
      let (r, e, s) = fits_sound pat amt (lookup amt.currency remaining) h in (amt, r, q, e, s)

  check_budgets_sound :
      (remaining : Dict Currency Float) (pats : List Text)
      → check_budgets fl remaining pats ≡ none
      → All (Fits remaining) pats
  unfolding check_budgets
  check_budgets_sound remaining [] h = tt
  check_budgets_sound remaining (pat ∷ pats) h = (
    budget_error_sound remaining pat _ refl (ground arith),
    check_budgets_sound remaining pats (ground arith),
  )

  check_capabilities_budgets :
      (parent child : Lease) (remaining : Dict Currency Float) (pats : List Text)
      → check_capabilities fl parent remaining child ≡ none
      → lookup cap_cost_budget child ≡ some pats
      → check_budgets fl remaining pats ≡ none
  unfolding check_capabilities lookup
  check_capabilities_budgets parent [] remaining pats h e = cc
  check_capabilities_budgets parent ((ns, ps) ∷ child) remaining pats h e =
      ground (arith, check_capabilities_budgets parent child remaining pats)

  -- If a child lease passes the test, each of its budget patterns parses and asks for no more than
  -- the parent has left of its currency.
  pub is_lease_subset_budgets :
      (parent child : Lease) (remaining : Dict Currency Float)
      (parent_expiry child_expiry : Option ℕ) (pats : List Text)
      → is_lease_subset fl parent child remaining parent_expiry child_expiry ≡ none
      → lookup cap_cost_budget child ≡ some pats
      → All (Fits remaining) pats
  unfolding is_lease_subset
  is_lease_subset_budgets parent child remaining pe ce pats h e =
      check_budgets_sound remaining pats
        (check_capabilities_budgets parent child remaining pats (ground arith) e)

  abbrev pub twice : Text → Lease
  twice pat = (cap_cost_budget, pat ∷ pat ∷ []) ∷ []

  budget_error-Fits :
      (remaining : Dict Currency Float) (pat : Text)
      → Fits remaining pat
      → budget_error fl remaining pat (parse_budget_amount fl pat) ≡ none
  unfolding budget_error fits
  budget_error-Fits remaining pat (amt, r, p, e, s) = ground arith

  amount_at-insert_self :
      (cur : Currency) (v : Float) (m : Dict Currency Float) → amount_at fl cur (insert cur v m) ≡ v
  unfolding amount_at
  amount_at-insert_self cur v m = rw (lookup-insert_self cur v m)

  amount_at-nil : (cur : Currency) → amount_at fl cur [] ≡ zero_f
  unfolding amount_at lookup
  amount_at-nil cur = refl

  twice_credited :
      (pat : Text) (amt : BudgetAmount fl)
      → parse_budget_amount fl pat ≡ ok amt
      → amount_at fl amt.currency (new_state fl (twice pat) none).counters
        ≡ add_f (add_f zero_f amt.value) amt.value
  unfolding new_state credit_all text_beq lookup
  twice_credited pat amt p = rw p (simp (amount_at-insert_self, amount_at-nil))

  -- A budget pattern that fits what the parent has left passes the test also when the child lists it
  -- twice, and the state made from that child lease then starts with the amount added twice.
  pub repeated_budget_passes :
      (parent : Lease) (remaining : Dict Currency Float) (pat : Text) (amt : BudgetAmount fl)
      (r : Float)
      → parse_budget_amount fl pat ≡ ok amt
      → lookup amt.currency remaining ≡ some r
      → less r amt.value ≡ false
      → (is_lease_subset fl parent (twice pat) remaining none none ≡ none)
        × (amount_at fl amt.currency (new_state fl (twice pat) none).counters
            ≡ add_f (add_f zero_f amt.value) amt.value)
  unfolding is_lease_subset
  repeated_budget_passes parent remaining pat amt r p e s = (
    unfold text_beq in ground (arith, budget_error-Fits remaining pat (amt, r, p, e, s)),
    twice_credited pat amt p,
  )
