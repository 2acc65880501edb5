-- ===== src/Lease/State.antt =====
-- internal/lease/validate.go: the per-job lease state and its operations. A mutex guards every
-- method that touches the counters, so each is one step. A nil `*State` is `none`.
pub mod Gate
pub mod Reserve
use go_sdk.Prelude.{
  ℕ, Bool, true, false, not, ◌&&◌, ◌||◌, List, [], ◌∷◌, Option, none, some, Text, text_beq, text_eq,
  ltb, if◌then◌else◌, any, Dict, lookup, insert,
}
use go_sdk.Errors.{
  Error, fail, permission_denied, lease_expired, budget_exhausted, invalid_request, says, about,
  at_time,
}
use go_sdk.Glob
use go_sdk.Lease.{
  Floats, Urls, Lease, Capability, Currency, cap_fs_read, cap_fs_write, cap_net_fetch,
  cap_cost_budget,
}
use go_sdk.Lease.Path.{canonicalize_path, canonicalize_url}
use go_sdk.Lease.Budget.{BudgetAmount, Parsed, ok, bad, parse_budget_amount}

pub record State (fl : Floats) : Type 0 where
  pub lease : Lease
  pub expires_at : Option ℕ
  pub counters : Dict Currency fl.Float
  pub initialized : Dict Currency fl.Float

url_or : Text → Option Text → Text
url_or target none = target
url_or target (some u) = u

unfoldable pub canonicalize_target : Urls → Capability → Text → Text
unfolding url_or
canonicalize_target urls cap target =
    if text_beq cap cap_fs_read || text_beq cap cap_fs_write
    then canonicalize_path target
    else if text_beq cap cap_net_fetch
    then url_or target (canonicalize_url urls target)
    else target

unfoldable pub any_match : Text → Option (List Text) → Bool
any_match canon none = false
any_match canon (some patterns) = any (λ p. Glob.match p canon) patterns

-- The method `matches`.
unfoldable pub matches : Urls → Lease → Capability → Text → Bool
unfolding any_match
matches urls lease cap target = any_match (canonicalize_target urls cap target) (lookup cap lease)

-- `s.expiresAt != nil && !now.Before(*s.expiresAt)`
unfoldable pub is_expired : Option ℕ → ℕ → Bool
is_expired none now = false
is_expired (some e) now = not (ltb now e)

abbrev pub time_of : Option ℕ → ℕ
time_of none = 0
time_of (some e) = e

abbrev pub is_nil {ℓ} : {A : Type ℓ} → List A → Bool
is_nil [] = true
is_nil (x ∷ xs) = false

module _ (fl : Floats) where
  open fl use {Float, zero_f, add_f, sub_f, less, less_eq, equals}

  abbrev or_zero : Option Float → Float
  or_zero none = zero_f
  or_zero (some v) = v

  -- `m[cur]`, zero if the key is missing.
  unfoldable pub amount_at : Currency → Dict Currency Float → Float
  amount_at cur m = or_zero (lookup cur m)

  abbrev pub Counters : Type 0
  Counters = Dict Currency Float

  credit : Counters × Counters → Parsed (BudgetAmount fl) → Counters × Counters
  credit (c, i) (bad e) = (c, i)
  credit (c, i) (ok amt) =
      let c' : Counters = insert amt.currency (add_f (amount_at amt.currency c) amt.value) c in
      (c', insert amt.currency (amount_at amt.currency c') i)

  -- The loop of `NewState` over the budget patterns.
  unfoldable pub credit_all : Counters × Counters → List Text → Counters × Counters
  unfolding credit
  credit_all m [] = m
  credit_all m (pat ∷ pats) = credit_all (credit m (parse_budget_amount fl pat)) pats

  abbrev pub patterns_of : Option (List Text) → List Text
  patterns_of none = []
  patterns_of (some ps) = ps

  unfoldable pub new_state : Lease → Option ℕ → State fl
  new_state lease expires_at =
      let m : Counters × Counters =
        credit_all ([], []) (patterns_of (lookup cap_cost_budget lease)) in
      record { lease = lease; expires_at = expires_at; counters = m.0; initialized = m.1 }

  -- The first counter met that is not above zero.
  unfoldable pub first_exhausted : Counters → Option Currency
  first_exhausted [] = none
  first_exhausted ((cur, v) ∷ m) = if less_eq v zero_f then some cur else first_exhausted m

  exhausted_error : Option Currency → Option Error
  exhausted_error none = none
  exhausted_error (some cur) = some (fail budget_exhausted (about "budget exhausted for " cur ""))

  -- `if len(s.initialized) > 0 { for cur, v := range s.counters { … } }`. The loop over the map comes to
  -- the counters in any order, here in that of the list: which of several exhausted currencies the
  -- message names is open, not whether there is an error, nor its code.
  unfoldable pub budget_gate : State fl → Option Error
  unfolding exhausted_error
  budget_gate s =
      if is_nil s.initialized then none else exhausted_error (first_exhausted s.counters)

  unfoldable pub validate_op : Urls → Option (State fl) → ℕ → Capability → Text → Option Error
  validate_op urls none now cap target = some (fail permission_denied (says "no lease in scope"))
  validate_op urls (some s) now cap target =
      if is_expired s.expires_at now
      then some (fail lease_expired (at_time "lease expired at " (time_of s.expires_at)))
      else if not (matches urls s.lease cap target)
      then some (fail permission_denied (says "operation not permitted by lease"))
      else budget_gate s

  -- What a debit returns: the state after it, the balance and the error.
  abbrev pub Debited : Type 0 → Type 0
  Debited S = S × Float × Option Error

  abbrev pub set_counter : State fl → Currency → Float → State fl
  set_counter s cur v = record s { counters = insert cur v s.counters }

  abbrev is_budgeted : State fl → Currency → Bool
  is_budgeted s cur = elim (lookup cur s.initialized) [ none ↦ false | some v ↦ true ]

  unfoldable pub debit : State fl → Currency → Float → Debited (State fl)
  debit s cur v =
      if less v zero_f
      then (s, zero_f, some (fail invalid_request (says "debit value must be non-negative")))
      else if not (is_budgeted s cur)
      then (s, zero_f, none)
      else if less (sub_f (amount_at cur s.counters) v) zero_f
      then (
        s,
        amount_at cur s.counters,
        some (fail budget_exhausted (about "budget exhausted for " cur "")),
      )
      else (
        set_counter s cur (sub_f (amount_at cur s.counters) v),
        amount_at cur (set_counter s cur (sub_f (amount_at cur s.counters) v)).counters,
        none,
      )

  -- The end of `ValidateAndDebit`, after the budget gate.
  reserve : State fl → BudgetAmount fl → Debited (Option (State fl))
  reserve s d =
      if equals d.value zero_f || text_beq d.currency []
      then (some s, amount_at d.currency s.counters, none)
      else if not (is_budgeted s d.currency)
      then (some s, zero_f, none)
      else if less (sub_f (amount_at d.currency s.counters) d.value) zero_f
      then (
        some s,
        amount_at d.currency s.counters,
        some (fail budget_exhausted (about "budget exhausted for " d.currency "")),
      )
      else (
        some (set_counter s d.currency (sub_f (amount_at d.currency s.counters) d.value)),
        amount_at d.currency
            (set_counter s d.currency (sub_f (amount_at d.currency s.counters) d.value)).counters,
        none,
      )

  gated : State fl → BudgetAmount fl → Option Error → Debited (Option (State fl))
  unfolding reserve
  gated s d (some e) = (some s, zero_f, some e)
  gated s d none = reserve s d

  unfoldable pub validate_and_debit :
      Urls
      → Option (State fl)
      → ℕ
      → Capability
      → Text
      → BudgetAmount fl
      → Debited (Option (State fl))
  unfolding gated
  validate_and_debit urls none now cap target d =
      (none, zero_f, some (fail permission_denied (says "no lease in scope")))
  validate_and_debit urls (some s) now cap target d =
      if less d.value zero_f
      then (some s, zero_f, some (fail invalid_request (says "debit value must be non-negative")))
      else if is_expired s.expires_at now
      then (
        some s,
        zero_f,
        some (fail lease_expired (at_time "lease expired at " (time_of s.expires_at))),
      )
      else if not (matches urls s.lease cap target)
      then (some s, zero_f, some (fail permission_denied (says "operation not permitted by lease")))
      else gated s d (budget_gate s)

  -- `Report` returns the state, the balance and whether the currency is budgeted.
  unfoldable pub report : State fl → Currency → Float → State fl × Float × Bool
  report s cur v =
      if less v zero_f
      then (s, zero_f, false)
      else if not (is_budgeted s cur)
      then (s, zero_f, false)
      else (
        set_counter s cur (sub_f (amount_at cur s.counters) v),
        amount_at cur (set_counter s cur (sub_f (amount_at cur s.counters) v)).counters,
        true,
      )
