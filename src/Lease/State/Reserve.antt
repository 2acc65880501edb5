-- ===== src/Lease/State/Reserve.antt =====
-- internal/lease/validate.go: the atomic `ValidateAndDebit` against the pair that it replaces, and
-- series of reservations.
use go_sdk.Prelude.{
  ℕ, ◌≡◌, refl, ◌≢◌, inl, inr, false, List, [], ◌∷◌, Option, none, some, arith, Text, text_eq,
  text_beq_iff, lookup, insert, lookup-insert, Dict, Bool-cases, Option-cases,
}
use go_sdk.Errors.{Error}
use go_sdk.Lease.{Floats, IsIeee, Urls, Lease, Capability, Currency}
use go_sdk.Lease.Budget.{BudgetAmount, Parsed, ok, bad, parse_budget_amount}
use go_sdk.Lease.Budget.Grammar.{parse_budget_amount_iff}
use go_sdk.Lease.State.{
  State, validate_op, budget_gate, gated, reserve, debit, validate_and_debit, Debited, amount_at,
  new_state, credit, credit_all, Counters,
}

module _ (fl : Floats) where
  open fl use {Float, zero_f, less, less_eq, equals, sub_f, add_f}

  -- `ValidateOp`, and on success `Debit`.
  abbrev pub validate_then_debit :
      Option Error → State fl → Currency → Float → Debited fl (Option (State fl))
  validate_then_debit (some e) s cur v = (some s, zero_f, some e)
  validate_then_debit none s cur v =
      let r : Debited fl (State fl) = debit fl s cur v in (some r.0, r.1, r.2)

  reserve-debit :
      (s : State fl) (d : BudgetAmount fl)
      → less d.value zero_f ≡ false
      → equals d.value zero_f ≡ false
      → d.currency ≢ []
      → reserve fl s d ≡ validate_then_debit none s d.currency d.value
  unfolding reserve debit
  reserve-debit s d sign nonzero cur = ground (arith, text_beq_iff d.currency [])

  gated-debit :
      (s : State fl) (d : BudgetAmount fl) (gate : Option Error)
      → less d.value zero_f ≡ false
      → equals d.value zero_f ≡ false
      → d.currency ≢ []
      → gated fl s d gate ≡ validate_then_debit gate s d.currency d.value
  unfolding gated
  gated-debit s d (some e) sign nonzero cur = refl
  gated-debit s d none sign nonzero cur = reserve-debit s d sign nonzero cur

  -- For an amount that is neither zero nor negative, in a named currency, the atomic call does in
  -- one step what `ValidateOp` followed on success by `Debit` does, with the same state, balance
  -- and error.
  pub validate_and_debit-debit :
      (urls : Urls) (s : State fl) (now : ℕ) (cap : Capability) (target : Text)
      (d : BudgetAmount fl)
      → less d.value zero_f ≡ false
      → equals d.value zero_f ≡ false
      → d.currency ≢ []
      → validate_and_debit fl urls (some s) now cap target d
        ≡ validate_then_debit (validate_op fl urls (some s) now cap target) s d.currency d.value
  unfolding validate_and_debit validate_op gated
  validate_and_debit-debit urls s now cap target d sign nonzero cur =
      ground (arith, gated-debit s d (budget_gate fl s))

  -- No counter is below zero.
  abbrev pub Funded : Dict Currency Float → Type 0
  Funded m = (cur : Currency) (v : Float) → lookup cur m ≡ some v → less v zero_f ≡ false

  insert-Funded :
      (m : Dict Currency Float) (cur : Currency) (v : Float)
      → less v zero_f ≡ false
      → Funded m
      → Funded (insert cur v m)
  insert-Funded m cur v h f j w e = ground (arith, lookup-insert cur j v m, f j w)

  debit-Funded :
      (s : State fl) (cur : Currency) (v : Float)
      → Funded s.counters
      → Funded (debit fl s cur v).0.counters
  unfolding debit
  debit-Funded s cur v f =
      let left : Float = sub_f (amount_at fl cur s.counters) v in
      elim (Bool-cases (less left zero_f)) [
        | inl e ↦ λ j w h. ground (arith, f j w)
        | inr e ↦ λ j w h. ground (arith, f j w, insert-Funded s.counters cur left e f j w)
      ]

  reserve-Funded :
      (s s' : State fl) (d : BudgetAmount fl)
      → Funded s.counters
      → (reserve fl s d).0 ≡ some s'
      → Funded s'.counters
  unfolding reserve
  reserve-Funded s s' d f h j w e =
      let left : Float = sub_f (amount_at fl d.currency s.counters) d.value in
      ground (arith, f j w, lookup-insert d.currency j left s.counters)

  gated-Funded :
      (s s' : State fl) (d : BudgetAmount fl) (gate : Option Error)
      → Funded s.counters
      → (gated fl s d gate).0 ≡ some s'
      → Funded s'.counters
  unfolding gated
  gated-Funded s s' d (some e) f h j w q = ground (arith, f j w)
  gated-Funded s s' d none f h j w q = reserve-Funded s s' d f h j w q

  validate_and_debit-Funded :
      (urls : Urls) (s s' : State fl) (now : ℕ) (cap : Capability) (target : Text)
      (d : BudgetAmount fl)
      → Funded s.counters
      → (validate_and_debit fl urls (some s) now cap target d).0 ≡ some s'
      → Funded s'.counters
  unfolding validate_and_debit gated
  validate_and_debit-Funded urls s s' now cap target d f h j w q = ground (
    arith,
    f j w,
    λ (e : (gated fl s d (budget_gate fl s)).0 ≡ some s').
        gated-Funded s s' d (budget_gate fl s) f e j w,
  )

  -- The calls that reserve budget.
  pub data Reservation : Type 0 where
    debits : Currency → Float → Reservation
    validates : ℕ → Capability → Text → BudgetAmount fl → Reservation

  abbrev state_or : State fl → Option (State fl) → State fl
  state_or s none = s
  state_or s (some s') = s'

  unfoldable pub after : Urls → State fl → Reservation → State fl
  after urls s (debits cur v) = (debit fl s cur v).0
  after urls s (validates now cap target d) =
      state_or s (validate_and_debit fl urls (some s) now cap target d).0

  unfoldable pub after_all : Urls → State fl → List Reservation → State fl
  after_all urls s [] = s
  after_all urls s (r ∷ rs) = after_all urls (after urls s r) rs

  state_or-Funded :
      (s : State fl) (r : Option (State fl))
      → Funded s.counters
      → ((s' : State fl) → r ≡ some s' → Funded s'.counters)
      → Funded (state_or s r).counters
  state_or-Funded s none f h = f
  state_or-Funded s (some s') f h = h s' refl

  after-Funded :
      (urls : Urls) (s : State fl) (r : Reservation)
      → Funded s.counters
      → Funded (after urls s r).counters
  unfolding after
  after-Funded urls s (debits cur v) f = debit-Funded s cur v f
  after-Funded urls s (validates now cap target d) f =
      state_or-Funded s _ f (λ s'. validate_and_debit-Funded urls s s' now cap target d f)

  after_all-Funded :
      (urls : Urls) (s : State fl) (rs : List Reservation)
      → Funded s.counters
      → Funded (after_all urls s rs).counters
  unfolding after_all
  after_all-Funded urls s [] f = f
  after_all-Funded urls s (r ∷ rs) f =
      after_all-Funded urls (after urls s r) rs (after-Funded urls s r f)

module _ (fl : Floats) (ieee : IsIeee fl) where
  open fl use {Float, zero_f, less, add_f}

  amount_at-Funded :
      (m : Dict Currency Float) (cur : Currency)
      → Funded fl m
      → less (amount_at fl cur m) zero_f ≡ false
  unfolding amount_at
  amount_at-Funded m cur f = elim (Option-cases (lookup cur m)) [
    | inl e ↦ rw e ieee.zero-not_less
    | inr (v, e) ↦ rw e (f cur v e)
  ]

  credit-Funded :
      (c i : Counters fl) (r : Parsed (BudgetAmount fl))
      → ((a : BudgetAmount fl) → r ≡ ok a → less a.value zero_f ≡ false)
      → Funded fl c
      → Funded fl (credit fl (c, i) r).0
  unfolding credit
  credit-Funded c i (bad e) h f = f
  credit-Funded c i (ok a) h f =
      insert-Funded fl c a.currency _
        (ieee.add-not_less _ _ (amount_at-Funded c a.currency f) (h a refl)) f

  credit_all-Funded :
      (m : Counters fl × Counters fl) (pats : List Text)
      → Funded fl m.0
      → Funded fl (credit_all fl m pats).0
  unfolding credit_all
  credit_all-Funded m [] f = f
  credit_all-Funded m (pat ∷ pats) f =
      credit_all-Funded (credit fl m (parse_budget_amount fl pat)) pats (
        credit-Funded m.0 m.1 (parse_budget_amount fl pat)
          (λ a e. ((parse_budget_amount_iff fl pat a).0 e).not_negative) f)

  -- Starting from any lease grant, no series of debits and validated reservations, allowed or
  -- refused, brings a counter below zero.
  pub reservations_never_overdraw :
      (urls : Urls) (lease : Lease) (expires_at : Option ℕ) (rs : List (Reservation fl))
      (cur : Currency) (v : Float)
      → lookup cur (after_all fl urls (new_state fl lease expires_at) rs).counters ≡ some v
      → less v zero_f ≡ false
  unfolding new_state
  reservations_never_overdraw urls lease expires_at rs =
      after_all-Funded fl urls _ rs (credit_all-Funded ([], []) _ (unfold lookup in λ cur v e. cc))
