-- ===== src/Server/Submit.antt =====
-- server/session.go: the state of `handleJobSubmit`, its checks, and how a job is accepted: over the
-- server's world, the store of idempotency keys and the jobs whose `run` is started. The clock is read once for all of a submit.
-- The timers that `newJob` sets up are events of Server/Job.
pub mod Handle
use go_sdk.Prelude.{
  ℕ, Bool, true, false, not, ◌&&◌, List, [], ◌∷◌, ◌++◌, Option, none, some, Text, text_beq, text_eq,
  codes, ltb, if◌then◌else◌, Dict, lookup, insert,
}
use go_sdk.Errors.{
  ErrorCode, Error, GoError, Message, structured, foreign, code_of, invalid_request, duplicate_key,
  internal_error, says,
}
use go_sdk.Features.{has_feature}
use go_sdk.Lease.{Floats, Currency, Lease, cap_cost_budget}
use go_sdk.Lease.Budget.{BudgetAmount, Parsed, ok, bad, parse_budget_amount}
use go_sdk.Lease.State.{State, new_state}
use go_sdk.Agent.{AgentRef, ParsedRef, ok, bad, parse_agent_ref}
use go_sdk.IdStore
use go_sdk.Server.Agents.{Atoi, Registry, Resolved, found, unresolved, resolve_agent}
use go_sdk.Server.Job.{Job, Credential, new_job, attach_credentials}
use go_sdk.Server.World.{
  Session, Payload, Envelope, Registered, World, ErrorText, plain, printed, prefixed, job_accepted,
  current_seq, send, send_error_for, register_job, unregister_job,
}
use go_sdk.Server.Session.{Decoded, decoded, malformed}

-- `lease_constraints.expires_at`: the instant, and whether the offset of its zone is 0.
pub record Expiry : Type 0 where
  pub instant : ℕ
  pub utc : Bool

-- A limit on the runtime that is not positive is 0.
pub record JobSubmit : Type 0 where
  pub agent : Text
  pub input : Text
  pub lease_request : Lease
  pub expires_at : Option Expiry
  pub idempotency_key : Text
  pub max_runtime_sec : ℕ

pub record JobAccepted (fl : Floats) : Type 0 where
  pub job_id : Text
  pub lease : Lease
  pub expires_at : Option ℕ
  pub budget : Dict Currency fl.Float
  pub credentials : List Credential
  pub accepted_at : ℕ
  pub trace_id : Text
  pub agent : Text

pub record IssueRequest (fl : Floats) : Type 0 where
  pub job_id : Text
  pub principal : Text
  pub agent : Text
  pub lease : Lease
  pub budget : Dict Currency fl.Float
  pub expires_at : Option ℕ

-- What the provisioner answers.
pub data Issued : Type 0 where
  issued : List Credential → Issued
  issue_failed : GoError → Issued

-- What one submit finds outside the state: the clock, the ids of the envelope, the fresh id of the
-- job, the trace of the envelope or a fresh one, and whether the context is done when each call of the store looks.
pub record Arrival : Type 0 where
  pub now : ℕ
  pub request_id : Text
  pub env_job_id : Text
  pub job_id : Text
  pub trace_id : Text
  pub put_done : Bool
  pub set_done : Bool

-- The agents, and what is outside the repository: `submitParamsHash` over json.Marshal and sha256,
-- json.Marshal and json.Unmarshal on job.accepted, the provisioner, if there is one, and the error
-- of a context that is done.
pub record Services (F : Type 0) (fl : Floats) : Type 0 where
  pub agents : Registry F
  pub params_hash : JobSubmit → Text
  pub marshal : JobAccepted fl → Option Text
  pub unmarshal : Text → Decoded (JobAccepted fl)
  pub provisioner : Option (IssueRequest fl → Issued)
  pub ctx_error : GoError

pub record Submits : Type 0 where
  pub world : World
  pub ids : IdStore.Store
  pub started : List Text

unfoldable pub refuse : Submits → Arrival → Session → ErrorCode → ErrorText → Submits
refuse st a s code msg = record st {
  world = send_error_for st.world a.now s.id a.request_id a.env_job_id code msg;
}

-- The registered job goes again.
unfoldable pub withdraw : Submits → Arrival → Submits
withdraw st a = record st { world = unregister_job st.world a.job_id }

-- The message for a deadline that is refused.
unfoldable pub expiry_fault : ℕ → Option Expiry → Option ErrorText
expiry_fault now none = none
expiry_fault now (some e) =
    if not e.utc
    then some (plain (says "lease_constraints.expires_at must be UTC (Z suffix)"))
    else if not (ltb now e.instant)
    then some (plain (says "lease_constraints.expires_at must be in the future"))
    else none

abbrev instant_of : Option Expiry → Option ℕ
instant_of none = none
instant_of (some e) = some e.instant

abbrev patterns_or : Option (List Text) → List Text
patterns_or none = []
patterns_or (some patterns) = patterns

code_or : Option ErrorCode → ErrorCode
code_or none = internal_error
code_or (some code) = code

-- `arcp.Code` of an error that is not nil.
error_code : GoError → ErrorCode
unfolding code_or
error_code e = code_or (code_of (some e))

abbrev pub new_registered : World → Arrival → Session → Text → Registered
new_registered w a s canonical = record {
  session_id = s.id;
  principal = s.principal;
  agent = canonical;
  created_at = a.now;
  state = new_job (current_seq w s.id);
}

-- The envelope of a job.accepted.
accepted_env : Session → Text → Text → Envelope
accepted_env s job_id raw = record {
  payload = job_accepted raw;
  session_id = s.id;
  job_id = job_id;
  event_seq = 0;
}

remember : Submits → Arrival → Session → JobSubmit → Text → IdStore.Store
remember st a s req raw =
    if not (text_beq req.idempotency_key [])
    then (IdStore.set_accepted a.set_done st.ids s.principal req.idempotency_key raw).0
    else st.ids

pub accept_marshalled : Submits → Arrival → Session → JobSubmit → Option Text → Submits
unfolding accepted_env remember
accept_marshalled st a s req none = withdraw st a
accept_marshalled st a s req (some raw) = record {
  world = send st.world a.now s.id (accepted_env s a.job_id raw);
  ids = remember st a s req raw;
  started = st.started ++ a.job_id ∷ [];
}

pub attach_found : Submits → Arrival → List Credential → Option Registered → Submits
attach_found st a creds none = st
attach_found st a creds (some j) = record st {
  world = record st.world {
    jobs = insert a.job_id (record j { state = attach_credentials j.state creds }) st.world.jobs;
  };
}

module _ (fl : Floats) where
  bad_amount : Parsed (BudgetAmount fl) → Option ErrorText → Option ErrorText
  bad_amount (bad e) rest = some (prefixed "lease_request cost.budget: " (structured e))
  bad_amount (ok amount) rest = rest

  -- The message for the first budget pattern that does not parse.
  unfoldable pub budget_fault : List Text → Option ErrorText
  unfolding bad_amount
  budget_fault [] = none
  budget_fault (pat ∷ patterns) = bad_amount (parse_budget_amount fl pat) (budget_fault patterns)

module _ {F : Type 0} (fl : Floats) (env : Services F fl) where
  -- What is asked for, with the name that the agent resolved to.
  abbrev pub acceptance : Arrival → JobSubmit → Text → List Credential → JobAccepted fl
  acceptance a req canonical creds =
      let state : State fl = new_state fl req.lease_request (instant_of req.expires_at) in
      record {
        job_id = a.job_id;
        lease = state.lease;
        expires_at = state.expires_at;
        budget = state.initialized;
        credentials = creds;
        accepted_at = a.now;
        trace_id = a.trace_id;
        agent = canonical;
      }

  abbrev issue_request : Arrival → Session → JobSubmit → Text → IssueRequest fl
  issue_request a s req canonical =
      let state : State fl = new_state fl req.lease_request (instant_of req.expires_at) in
      record {
        job_id = a.job_id;
        principal = s.principal;
        agent = canonical;
        lease = state.lease;
        budget = state.initialized;
        expires_at = state.expires_at;
      }

  -- The credentials go to the job and into the acceptance.
  accept_issued : Submits → Arrival → Session → JobSubmit → Text → Issued → Submits
  unfolding accept_marshalled attach_found error_code code_or accepted_env remember
  accept_issued st a s req canonical (issue_failed e) =
      refuse (withdraw st a) a s (error_code e) (prefixed "credential issue failed: " e)
  accept_issued st a s req canonical (issued creds) =
      accept_marshalled (attach_found st a creds (lookup a.job_id st.world.jobs)) a s req
        (env.marshal (acceptance a req canonical creds))

  accept_provisioned :
      Submits → Arrival → Session → JobSubmit → Text → Option (IssueRequest fl → Issued) → Submits
  unfolding accept_issued accept_marshalled attach_found error_code code_or accepted_env remember
  accept_provisioned st a s req canonical none =
      accept_marshalled st a s req (env.marshal (acceptance a req canonical []))
  accept_provisioned st a s req canonical (some issue) =
      accept_issued st a s req canonical (issue (issue_request a s req canonical))

  submit_fresh : Submits → Arrival → Session → JobSubmit → Text → Submits
  unfolding accept_provisioned accept_issued accept_marshalled attach_found error_code code_or
      accepted_env remember
  submit_fresh st a s req canonical =
      accept_provisioned st a s req canonical
        (if has_feature s.features (codes "provisioned_credentials") then env.provisioner else none)
