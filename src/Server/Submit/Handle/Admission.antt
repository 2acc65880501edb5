-- ===== src/Server/Submit/Handle/Admission.antt =====
-- Which submits start a job, apart from what the code tests them by.
use go_sdk.Prelude.{
  ℕ, ◌<◌, ◌≡◌, ◌⊎◌, ◌↔◌, refl, true, false, List, [], ◌∷◌, Option, none, some, Text, text_eq,
  lookup, All, arith,
}
use go_sdk.Errors.{GoError}
use go_sdk.Lease.{Floats, cap_cost_budget}
use go_sdk.Lease.Budget.{BudgetAmount, Parsed, ok, bad, parse_budget_amount}
use go_sdk.Agent.{AgentRef, ok, parse_agent_ref}
use go_sdk.IdStore
use go_sdk.Server.Agents.{Atoi, found, resolve_agent}
use go_sdk.Server.World.{Session}
use go_sdk.Server.Session.{Decoded, decoded, malformed}
use go_sdk.Server.Submit.{
  Expiry, JobSubmit, JobAccepted, IssueRequest, Issued, issue_failed, Arrival, Services, Submits,
  expiry_fault, patterns_or, bad_amount, budget_fault,
}
use go_sdk.Server.Submit.Handle.{}

-- A deadline is in UTC and in the future.
abbrev pub IsTimely : ℕ → Option Expiry → Type 0
IsTimely now none = Unit
IsTimely now (some e) = (e.utc ≡ true) × (now < e.instant)

pub expiry_fault-none : (now : ℕ) (e : Option Expiry) → (expiry_fault now e ≡ none) ↔ IsTimely now e
unfolding expiry_fault
expiry_fault-none now none = (λ h. tt, λ h. refl)
expiry_fault-none now (some e) = ground arith

abbrev pub IsParsed : (fl : Floats) → Text → Type 0
IsParsed fl pat = (amount : BudgetAmount fl) × (parse_budget_amount fl pat ≡ ok amount)

bad_amount-none :
    (fl : Floats) (pat : Text) (pats : List Text) (r : Parsed (BudgetAmount fl))
    → parse_budget_amount fl pat ≡ r
    → (budget_fault fl pats ≡ none) ↔ All (IsParsed fl) pats
    → (bad_amount fl r (budget_fault fl pats) ≡ none) ↔ All (IsParsed fl) (pat ∷ pats)
unfolding bad_amount
bad_amount-none fl pat pats (bad e) p rest =
    (λ h. absurd (ground arith), λ h. absurd (ground arith))
bad_amount-none fl pat pats (ok amount) p rest = (λ h. ((amount, p), rest.0 h), λ h. rest.1 h.1)

pub budget_fault-none :
    (fl : Floats) (pats : List Text) → (budget_fault fl pats ≡ none) ↔ All (IsParsed fl) pats
unfolding budget_fault
budget_fault-none fl [] = (λ h. tt, λ h. refl)
budget_fault-none fl (pat ∷ pats) =
    bad_amount-none fl pat pats (parse_budget_amount fl pat) refl (budget_fault-none fl pats)

-- The request has no idempotency key, or one that is not in the store, which the context leaves time
-- to ask.
abbrev pub IsNewKey : Submits → Arrival → Session → JobSubmit → Type 0
IsNewKey st a s req =
    (req.idempotency_key ≡ [])
    ⊎ ((a.put_done ≡ false)
        × (lookup (IdStore.store_key s.principal req.idempotency_key) st.ids ≡ none))

-- The acceptance of the job does not marshal, or the provisioner fails on the job's request.
abbrev pub IsFailing : {F : Type 0} → (fl : Floats) → Services F fl → Arrival → Type 0
IsFailing fl env a =
    ((acc : JobAccepted fl) × (acc.job_id ≡ a.job_id) × (env.marshal acc ≡ none))
    ⊎ ((issue : IssueRequest fl → Issued) × (env.provisioner ≡ some issue)
        × ((req : IssueRequest fl) × (req.job_id ≡ a.job_id)
            × ((e : GoError) × (issue req ≡ issue_failed e))))

-- The agent is named in the right form and registered.
abbrev pub IsResolved : {F : Type 0} → (fl : Floats) ⦃P : Atoi⦄ → Services F fl → Text → Type 0
IsResolved {F = F} fl env agent =
    (ref : AgentRef) × (parse_agent_ref agent ≡ ok ref)
    × ((f : F) × (canonical : Text) × (resolve_agent env.agents ref ≡ found f canonical))

-- The request decodes, its agent resolves, its deadline, if it has one, is in UTC and in the future,
-- every budget pattern of its lease parses, the fresh id of the job is free and its key is new.
abbrev pub IsAdmissible :
    {F : Type 0}
    → (fl : Floats) ⦃P : Atoi⦄ → Services F fl
    → Submits
    → Arrival
    → Session
    → Decoded JobSubmit
    → Type 0
IsAdmissible fl env st a s (malformed e) = ⊥
IsAdmissible fl env st a s (decoded req) =
    IsResolved fl env req.agent
    × IsTimely a.now req.expires_at
    × All (IsParsed fl) (patterns_or (lookup cap_cost_budget req.lease_request))
    × (lookup a.job_id st.world.jobs ≡ none)
    × IsNewKey st a s req
