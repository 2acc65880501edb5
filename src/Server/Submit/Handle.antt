-- ===== src/Server/Submit/Handle.antt =====
-- server/session.go: the rest of `handleJobSubmit`, from its start to the use of the key, and
-- `replayAccepted`.
pub mod Pending
pub mod Admission
pub mod Answers
pub mod Settles
pub mod Atomic
pub mod Keys
pub mod Once
mod Samples
use go_sdk.Prelude.{
  ℕ, Bool, true, false, not, ◌&&◌, List, [], ◌∷◌, ◌++◌, Option, none, some, Text, text_beq, text_eq,
  codes, ltb, if◌then◌else◌, Dict, lookup, insert,
}
use go_sdk.Errors.{
  ErrorCode, Error, GoError, Message, structured, foreign, code_of, invalid_request, duplicate_key,
  internal_error, says,
}
use go_sdk.Features.{has_feature}
use go_sdk.Lease.{Floats, Currency, Lease, cap_cost_budget}
use go_sdk.Lease.Budget.{BudgetAmount, Parsed, ok, bad, parse_budget_amount}
use go_sdk.Lease.State.{State, new_state}
use go_sdk.Agent.{AgentRef, ParsedRef, ok, bad, parse_agent_ref}
use go_sdk.IdStore
use go_sdk.Server.Agents.{Atoi, Registry, Resolved, found, unresolved, resolve_agent}
use go_sdk.Server.Job.{Job, Credential, new_job, attach_credentials}
use go_sdk.Server.World.{
  Session, Payload, Envelope, Registered, World, ErrorText, plain, printed, prefixed, job_accepted,
  current_seq, send, send_error_for, register_job, unregister_job,
}
use go_sdk.Server.Session.{Decoded, decoded, malformed}
use go_sdk.Server.Submit.{
  JobSubmit, JobAccepted, Arrival, Services, Submits, refuse, withdraw, expiry_fault, patterns_or,
  code_or, error_code, budget_fault, new_registered, accepted_env, remember, accept_marshalled,
  attach_found, accept_issued, accept_provisioned, submit_fresh,
}

module _ {F : Type 0} (fl : Floats) (env : Services F fl) where
  replay_marshalled : Submits → Arrival → Session → Text → Option Text → Submits
  unfolding accepted_env
  replay_marshalled st a s job_id none = st
  replay_marshalled st a s job_id (some raw) = record st {
    world = send st.world a.now s.id (accepted_env s job_id raw);
  }

  replay_decoded : Submits → Arrival → Session → Decoded (JobAccepted fl) → Submits
  unfolding replay_marshalled accepted_env
  replay_decoded st a s (malformed e) =
      refuse st a s internal_error (prefixed "cached job.accepted decode: " e)
  replay_decoded st a s (decoded acc) = replay_marshalled st a s acc.job_id (env.marshal acc)

  unfoldable pub replay_accepted : Submits → Arrival → Session → IdStore.Entry → Submits
  unfolding replay_decoded replay_marshalled accepted_env
  replay_accepted st a s entry = replay_decoded st a s (env.unmarshal entry.accepted)

  -- The answer to a key that is already in the store.
  unfoldable pub submit_repeat : Submits → Arrival → Session → JobSubmit → IdStore.Entry → Submits
  submit_repeat st a s req entry =
      if not (text_beq entry.params_hash (env.params_hash req))
      then refuse st a s duplicate_key
          (plain (says "idempotency key reused with different parameters"))
      else if text_beq entry.accepted []
      then refuse st a s internal_error (plain (says "idempotent submit still in progress"))
      else replay_accepted st a s entry

  submit_stored :
      Submits
      → Arrival
      → Session
      → JobSubmit
      → Text
      → IdStore.Outcome (IdStore.Entry × Bool)
      → Submits
  unfolding submit_fresh accept_provisioned accept_issued accept_marshalled attach_found error_code
      code_or accepted_env remember
  submit_stored st a s req canonical IdStore.context_done =
      refuse (withdraw st a) a s (error_code env.ctx_error)
        (prefixed "idempotency store error: " env.ctx_error)
  submit_stored st a s req canonical (IdStore.ok (entry, true)) =
      submit_fresh fl env st a s req canonical
  submit_stored st a s req canonical (IdStore.ok (entry, false)) =
      submit_repeat (withdraw st a) a s req entry

  abbrev pub id_entry : Arrival → Session → JobSubmit → IdStore.Entry
  id_entry a s req = record {
    principal = s.principal;
    key = req.idempotency_key;
    job_id = a.job_id;
    created_at = a.now;
    params_hash = env.params_hash req;
    accepted = [];
  }

  -- The key of the submit, once the job is registered.
  pub submit_keyed : Submits → Arrival → Session → JobSubmit → Text → Submits
  unfolding submit_stored submit_fresh accept_provisioned accept_issued accept_marshalled
      attach_found error_code code_or accepted_env remember
  submit_keyed st a s req canonical =
      if text_beq req.idempotency_key []
      then submit_fresh fl env st a s req canonical
      else let r : IdStore.Store × IdStore.Outcome (IdStore.Entry × Bool) =
          IdStore.put_if_absent a.put_done st.ids a.now (id_entry a s req) in
        submit_stored (record st { ids = r.0 }) a s req canonical r.1

  submit_registered : Submits → Arrival → Session → JobSubmit → Text → World × Bool → Submits
  unfolding submit_keyed submit_stored submit_fresh accept_provisioned accept_issued
      accept_marshalled attach_found error_code code_or accepted_env remember
  submit_registered st a s req canonical (w, false) =
      refuse st a s internal_error (plain (says "job id collision"))
  submit_registered st a s req canonical (w, true) =
      submit_keyed (record st { world = w }) a s req canonical

  -- The deadline, then the budget, then the registration.
  submit_checked :
      Submits → Arrival → Session → JobSubmit → Text → Option ErrorText → Option ErrorText → Submits
  unfolding submit_registered submit_keyed submit_stored submit_fresh accept_provisioned
      accept_issued accept_marshalled attach_found error_code code_or accepted_env remember
  submit_checked st a s req canonical (some msg) budget = refuse st a s invalid_request msg
  submit_checked st a s req canonical none (some msg) = refuse st a s invalid_request msg
  submit_checked st a s req canonical none none =
      submit_registered st a s req canonical
        (register_job st.world a.job_id (new_registered st.world a s canonical))

module _ {F : Type 0} (fl : Floats) ⦃P : Atoi⦄ (env : Services F fl) where
  submit_resolved : Submits → Arrival → Session → JobSubmit → Resolved F → Submits
  unfolding submit_checked submit_registered submit_keyed submit_stored submit_fresh
      accept_provisioned accept_issued accept_marshalled attach_found error_code code_or
      accepted_env remember
  submit_resolved st a s req (unresolved e) =
      refuse st a s (error_code (structured e)) (printed (structured e))
  submit_resolved st a s req (found f canonical) =
      submit_checked fl env st a s req canonical (expiry_fault a.now req.expires_at)
        (budget_fault fl (patterns_or (lookup cap_cost_budget req.lease_request)))

  submit_parsed : Submits → Arrival → Session → JobSubmit → ParsedRef → Submits
  unfolding submit_resolved submit_checked submit_registered submit_keyed submit_stored submit_fresh
      accept_provisioned accept_issued accept_marshalled attach_found error_code code_or
      accepted_env remember
  submit_parsed st a s req (bad e) = refuse st a s invalid_request (printed (structured e))
  submit_parsed st a s req (ok ref) = submit_resolved st a s req (resolve_agent env.agents ref)

  unfoldable pub handle_job_submit : Submits → Arrival → Session → Decoded JobSubmit → Submits
  unfolding submit_parsed submit_resolved submit_checked submit_registered submit_keyed
      submit_stored submit_fresh accept_provisioned accept_issued accept_marshalled attach_found
      error_code code_or accepted_env remember
  handle_job_submit st a s (malformed e) = refuse st a s invalid_request (printed e)
  handle_job_submit st a s (decoded req) = submit_parsed st a s req (parse_agent_ref req.agent)
