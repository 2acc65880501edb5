-- ===== src/Server/Submit/Handle/Once.antt =====
-- Idempotency keys over any number of submits.
use go_sdk.Prelude.{
  ◌≡◌, ◌⊎◌, refl, inl, inr, Bool, true, false, List, [], ◌∷◌, Option, none, some, Text, text_beq,
  text_eq, lookup,
}
use go_sdk.Errors.{}
use go_sdk.Lease.{Floats, cap_cost_budget}
use go_sdk.Lease.Budget.{ok, bad}
use go_sdk.Agent.{ParsedRef, ok, bad, parse_agent_ref}
use go_sdk.IdStore
use go_sdk.Server.Agents.{Atoi, Resolved, found, unresolved, resolve_agent}
use go_sdk.Server.World.{Session, World, ErrorText, register_job}
use go_sdk.Server.Session.{Decoded, decoded, malformed}
use go_sdk.Server.Submit.{
  JobSubmit, Arrival, Services, Submits, refuse, expiry_fault, patterns_or, budget_fault,
  new_registered,
}
use go_sdk.Server.Submit.Handle.{
  submit_keyed, submit_registered, submit_checked, submit_resolved, submit_parsed,
  handle_job_submit,
}
use go_sdk.IdStore.Keys.{HasKey}
use go_sdk.Server.Submit.Handle.Keys.{
  KeepsKeys, submit_keyed-KeepsKeys, submit_keyed-present, submit_keyed-there,
}

-- A submit is refused with the keys and the started jobs as they were, or it comes to its key.
abbrev IsRefusedOr : Submits → (World → Text → Submits) → Submits → Type 0
IsRefusedOr st keyed v =
    ((v.ids ≡ st.ids) × (v.started ≡ st.started))
    ⊎ ((w : World) × ((canonical : Text) × (v ≡ keyed w canonical)))

module _ {F : Type 0} (fl : Floats) ⦃P : Atoi⦄ (env : Services F fl) where
  abbrev to_key : Submits → Arrival → Session → JobSubmit → World → Text → Submits
  to_key st a s req w canonical = submit_keyed fl env (record st { world = w }) a s req canonical

  registered_cases :
      (st : Submits) (a : Arrival) (s : Session) (req : JobSubmit) (canonical : Text)
      (r : World × Bool)
      → IsRefusedOr st (to_key st a s req) (submit_registered fl env st a s req canonical r)
  unfolding submit_registered refuse
  registered_cases st a s req canonical (w, false) = inl (refl, refl)
  registered_cases st a s req canonical (w, true) = inr (w, (canonical, refl))

  checked_cases :
      (st : Submits) (a : Arrival) (s : Session) (req : JobSubmit) (canonical : Text)
      (expiry budget : Option ErrorText)
      → IsRefusedOr st
          (to_key st a s req)
          (submit_checked fl env st a s req canonical expiry budget)
  unfolding submit_checked refuse
  checked_cases st a s req canonical (some msg) budget = inl (refl, refl)
  checked_cases st a s req canonical none (some msg) = inl (refl, refl)
  checked_cases st a s req canonical none none =
      registered_cases st a s req canonical
        (register_job st.world a.job_id (new_registered st.world a s canonical))

  resolved_cases :
      (st : Submits) (a : Arrival) (s : Session) (req : JobSubmit) (r : Resolved F)
      → IsRefusedOr st (to_key st a s req) (submit_resolved fl env st a s req r)
  unfolding submit_resolved refuse
  resolved_cases st a s req (unresolved e) = inl (refl, refl)
  resolved_cases st a s req (found f canonical) =
      checked_cases st a s req canonical (expiry_fault a.now req.expires_at)
        (budget_fault fl (patterns_or (lookup cap_cost_budget req.lease_request)))

  parsed_cases :
      (st : Submits) (a : Arrival) (s : Session) (req : JobSubmit) (r : ParsedRef)
      → IsRefusedOr st (to_key st a s req) (submit_parsed fl env st a s req r)
  unfolding submit_parsed refuse
  parsed_cases st a s req (bad e) = inl (refl, refl)
  parsed_cases st a s req (ok ref) = resolved_cases st a s req (resolve_agent env.agents ref)

  submit-KeepsKeys :
      (st : Submits) (a : Arrival) (s : Session) (d : Decoded JobSubmit)
      → KeepsKeys st (handle_job_submit fl env st a s d)
  unfolding handle_job_submit refuse
  submit-KeepsKeys st a s (malformed e) k h = h
  submit-KeepsKeys st a s (decoded req) k h =
      elim (parsed_cases st a s req (parse_agent_ref req.agent)) [
        | inl (ids, same) ↦ rw ids h
        | inr (w, (canonical, e)) ↦
            rw e (submit_keyed-KeepsKeys fl env (record st { world = w }) a s req canonical k h)
      ]

  submit-there :
      (st : Submits) (a : Arrival) (s : Session) (req : JobSubmit)
      → text_beq req.idempotency_key [] ≡ false
      → ((handle_job_submit fl env st a s (decoded req)).started ≡ st.started)
        ⊎ HasKey
            (IdStore.store_key s.principal req.idempotency_key)
            (handle_job_submit fl env st a s (decoded req)).ids
  unfolding handle_job_submit
  submit-there st a s req some_key = elim (parsed_cases st a s req (parse_agent_ref req.agent)) [
    | inl (ids, same) ↦ inl same
    | inr (w, (canonical, e)) ↦
        rw e (submit_keyed-there fl env (record st { world = w }) a s req canonical some_key)
  ]

  submit-present :
      (st : Submits) (a : Arrival) (s : Session) (req : JobSubmit)
      → text_beq req.idempotency_key [] ≡ false
      → HasKey (IdStore.store_key s.principal req.idempotency_key) st.ids
      → (handle_job_submit fl env st a s (decoded req)).started ≡ st.started
  unfolding handle_job_submit
  submit-present st a s req some_key there =
      elim (parsed_cases st a s req (parse_agent_ref req.agent)) [
        | inl (ids, same) ↦ same
        | inr (w, (canonical, e)) ↦
            rw e (
              submit_keyed-present fl env (record st { world = w }) a s req canonical some_key
                there)
      ]

  -- Submits one after another.
  unfoldable pub submit_all : Submits → List (Arrival × Session × Decoded JobSubmit) → Submits
  submit_all st [] = st
  submit_all st ((a, s, d) ∷ more) = submit_all (handle_job_submit fl env st a s d) more

  submit_all-KeepsKeys :
      (more : List (Arrival × Session × Decoded JobSubmit)) (st : Submits)
      → KeepsKeys st (submit_all st more)
  unfolding submit_all
  submit_all-KeepsKeys [] st k h = h
  submit_all-KeepsKeys ((a, s, d) ∷ more) st k h =
      submit_all-KeepsKeys more (handle_job_submit fl env st a s d) k
        (submit-KeepsKeys st a s d k h)

  -- An idempotency key starts one job at most: once a submit has started a job under a key, a later
  -- submit of the same principal under this key starts none, whatever other submits come in between,
  -- and whether its parameters are the same or not. The key is not empty and is not swept.
  pub submit_once :
      (st : Submits) (a b : Arrival) (s t : Session) (first second : JobSubmit)
      (between : List (Arrival × Session × Decoded JobSubmit))
      → text_beq first.idempotency_key [] ≡ false
      → t.principal ≡ s.principal
      → second.idempotency_key ≡ first.idempotency_key
      → ¬ ((handle_job_submit fl env st a s (decoded first)).started ≡ st.started)
      → (handle_job_submit fl env
          (submit_all (handle_job_submit fl env st a s (decoded first)) between)
          b
          t
          (decoded second)).started
        ≡ (submit_all (handle_job_submit fl env st a s (decoded first)) between).started
  submit_once st a b s t first second between some_key owner key started =
      let k : Text = IdStore.store_key s.principal first.idempotency_key in
      let after : Submits = handle_job_submit fl env st a s (decoded first) in
      let held : HasKey k after.ids = elim (submit-there st a s first some_key) [
        | inl same ↦ absurd (started same)
        | inr there ↦ there
      ] in
      submit-present (submit_all after between) b t second (rw key some_key)
        (rw owner (rw key (submit_all-KeepsKeys between after k held)))
