-- ===== src/Server/Job.antt =====
-- server/job.go: one job's status, its terminal flag, and the handlers that race to end it. Every
-- handler that can end the job is in two parts, which other goroutines may come between: the call of
-- `markTerminal`, and, for the one that wins it, the work of ending the job. What `run` stops and
-- unregisters on its way out is not part of the state.
pub mod Once
use Prim.Native.String.{String}
use go_sdk.Prelude.{
  ℕ, suc, ◌+◌, Bool, true, false, not, ◌&&◌, ◌||◌, List, [], ◌∷◌, ◌++◌, Option, none, some, Text,
  text_beq, map, leb, if◌then◌else◌,
}
use go_sdk.Errors.{
  ErrorCode, GoError, structured, fail, says, code_of, is_retryable, cancelled, timeout,
  lease_expired, internal_error,
}

pub data Status : Type 0 where
  status_pending status_running status_success status_error status_cancelled status_timed_out :
      Status

-- The message of a job.error: fixed, the canceller's, or printed from an error.
pub data JobText : Type 0 where
  fixed : String → JobText
  reason : Text → JobText
  error_text : GoError → JobText
  marshal_text : Text → JobText

-- The payloads of the terminal envelopes: the final status of either, then the code, the message
-- and the retryable flag, or the inline output and the id and size of a streamed one.
pub data Terminal : Type 0 where
  job_error : Status → Option ErrorCode → JobText → Bool → Terminal
  job_result : Status → Option Text → Option (Text × ℕ) → Terminal

pub record Credential : Type 0 where
  pub id : Text
  pub value : Text

-- `seq` is the counter of the session, and `sent` the terminal envelopes with their numbers.
pub record Job : Type 0 where
  pub status_v : Status
  pub terminal : Bool
  pub cancel_re : Text
  pub ctx_done : Bool
  pub creds : List Credential
  pub revoked : Bool
  pub revocations : List Text
  pub last_event_seq : ℕ
  pub seq : ℕ
  pub sent : List (ℕ × Terminal)

pub data Marshalled : Type 0 where
  raw : Text → Marshalled
  unmarshallable : Text → Marshalled

-- `json.Marshal` on the agent's outputs, `errors.Is(err, context.Canceled)`, and whether the options
-- have a provisioner.
pub record Runtime (O : Type 0) : Type 0 where
  pub marshal : O → Marshalled
  pub is_canceled : GoError → Bool
  pub provisioner : Bool

-- How the agent's function ends.
pub data Outcome (O : Type 0) : Type 0 where
  panicked : Outcome O
  returned : Option O → Option GoError → Outcome O

-- The result stream that the agent opened: its id and the bytes written to it.
abbrev pub Streamed : Type 0
Streamed = Option (Text × ℕ)

-- The part of `newJob` that sets the state up.
abbrev pub new_job : ℕ → Job
new_job seq = record {
  status_v = status_pending;
  terminal = false;
  cancel_re = [];
  ctx_done = false;
  creds = [];
  revoked = false;
  revocations = [];
  last_event_seq = 0;
  seq = seq;
  sent = [];
}

unfoldable pub set_status : Job → Status → Job
set_status j s = if j.terminal then j else record j { status_v = s }

unfoldable pub mark_terminal : Job → Status → Job × Bool
mark_terminal j final =
    if j.terminal then (j, false) else (record j { terminal = true; status_v = final }, true)

-- The loop of compare-and-swap, which ends with the maximum.
unfoldable pub record_seq : Job → ℕ → Job
record_seq j s = if leb s j.last_event_seq then j else record j { last_event_seq = s }

unfoldable pub attach_credentials : Job → List Credential → Job
attach_credentials j creds = record j { creds = j.creds ++ creds }

prior_value : List Credential → Text → Option Text
prior_value [] id = none
prior_value (c ∷ cs) id = if text_beq c.id id then some c.value else prior_value cs id

replace_first : List Credential → Text → Text → List Credential
replace_first [] id value = []
replace_first (c ∷ cs) id value =
    if text_beq c.id id then record c { value = value } ∷ cs else c ∷ replace_first cs id value

unfoldable pub replace_credential_value : Job → Text → Text → Job × Option Text
unfolding prior_value replace_first
replace_credential_value j id value =
    (record j { creds = replace_first j.creds id value }, prior_value j.creds id)

unfoldable pub cancel_with_reason : Job → Text → Job
cancel_with_reason j why = record j { cancel_re = why; ctx_done = true }

-- The number of the envelope and the high-water mark of the job, for a job.event.
unfoldable pub emit_event : Job → Job
unfolding record_seq
emit_event j = record_seq (record j { seq = suc j.seq }) (suc j.seq)

-- What it is called with are strings and JSON that json.Marshal made, on which `NewEnvelope` does not
-- fail.
unfoldable pub emit_terminal : Job → Terminal → Job
unfolding emit_event record_seq
emit_terminal j t =
    let next : Job = emit_event j in record next { sent = j.sent ++ (next.seq, t) ∷ [] }

-- `revokeOnce` around the loop that asks the provisioner to revoke each credential.
unfoldable pub revoke_all : Bool → Job → Job
revoke_all provisioner j =
    if not provisioner || j.revoked
    then j
    else record j { revoked = true; revocations = j.revocations ++ map (λ c. c.id) j.creds }

-- What the winner of `markTerminal` has left to do: the envelope to send after the revocation, and
-- whether it cancels the job's context at the end.
pub record Work : Type 0 where
  pub envelope : Terminal
  pub cancels : Bool

unfoldable pub finish : Bool → Job → Work → Job
unfolding revoke_all emit_terminal emit_event record_seq
finish provisioner j w =
    let emitted : Job = emit_terminal (revoke_all provisioner j) w.envelope in
    if w.cancels then record emitted { ctx_done = true } else emitted

claim_work : Job × Bool → Work → Job × Option Work
claim_work (j, true) w = (j, some w)
claim_work (j, false) w = (j, none)

-- `if !j.markTerminal(final) { return }` before the work.
unfoldable pub claim_end : Job → Status → Work → Job × Option Work
unfolding claim_work mark_terminal
claim_end j final w = claim_work (mark_terminal j final) w

-- `emitTerminalError` on the only two codes it is called with.
abbrev pub terminal_error : Status → ErrorCode → String → Terminal
terminal_error final code msg = job_error final (some code) (fixed msg) false

unfoldable pub expire_lease : Job → Job × Option Work
unfolding claim_end claim_work mark_terminal
expire_lease j = claim_end j status_error (record {
  envelope = terminal_error status_error lease_expired "lease expired during execution";
  cancels = true;
})

unfoldable pub timeout_job : Job → Job × Option Work
unfolding claim_end claim_work mark_terminal
timeout_job j = claim_end j status_timed_out (record {
  envelope = terminal_error status_timed_out timeout "job exceeded max_runtime_sec";
  cancels = true;
})

-- A rejected job ends without an envelope.
unfoldable pub discard : Job → Job
unfolding mark_terminal
discard j = record (mark_terminal j status_error).0 { ctx_done = true }

-- `run` up to the agent's call, in the two parts that the lock is held for: whether the job has not
-- ended, and then the status.
unfoldable pub run_checks : Job → Bool
run_checks j = not j.terminal

unfoldable pub run_reports : Job → Job
unfolding set_status
run_reports j = set_status j status_running

abbrev pub ends : Terminal → Work
ends t = record { envelope = t; cancels = false }

marshalled_end : Job → Marshalled → Job × Option Work
marshalled_end j (raw text) =
    claim_end j status_success (ends (job_result status_success (some text) none))
marshalled_end j (unmarshallable why) =
    claim_end j status_success
      (ends (job_error status_error (some internal_error) (marshal_text why) true))

unfoldable pub complete : Bool → Job × Option Work → Job
complete provisioner (j, none) = j
complete provisioner (j, some w) = finish provisioner j w

module _ {O : Type 0} where
  abbrev outcome_error : Outcome O → Option GoError
  outcome_error panicked = some (structured (fail internal_error (says "agent panicked")))
  outcome_error (returned output e) = e

  abbrev outcome_output : Outcome O → Option O
  outcome_output panicked = none
  outcome_output (returned output e) = output

  is_canceled_error : Runtime O → Option GoError → Bool
  is_canceled_error env none = false
  is_canceled_error env (some e) = env.is_canceled e

  success_end : Runtime O → Job → Streamed → Option O → Job × Option Work
  unfolding marshalled_end
  success_end env j (some stream) output =
      claim_end j status_success (ends (job_result status_success none (some stream)))
  success_end env j none none =
      claim_end j status_success (ends (job_result status_success none none))
  success_end env j none (some output) = marshalled_end j (env.marshal output)

  error_end : Runtime O → Job → Streamed → Option O → Option GoError → Job × Option Work
  unfolding success_end marshalled_end
  error_end env j stream output none = success_end env j stream output
  error_end env j stream output (some e) =
      claim_end j status_error
        (ends (job_error status_error (code_of (some e)) (error_text e) (is_retryable (some e))))

  -- `run` after the agent's call.
  unfoldable pub run_end : Runtime O → Job → Streamed → Outcome O → Job × Option Work
  unfolding is_canceled_error error_end success_end marshalled_end
  run_end env j stream outcome =
      if is_canceled_error env (outcome_error outcome) || j.ctx_done
      then claim_end j status_cancelled
          (ends (job_error status_cancelled (some cancelled) (reason j.cancel_re) false))
      else error_end env j stream (outcome_output outcome) (outcome_error outcome)

  -- `run` with no other goroutine in between.
  unfoldable pub run : Runtime O → Job → Streamed → Outcome O → Job
  unfolding run_checks run_reports
  run env j stream outcome =
      if run_checks j
      then complete env.provisioner (run_end env (run_reports j) stream outcome)
      else j

-- One step of one of the goroutines that share the job.
pub data Event (O : Type 0) : Type 0 where
  expiry_fires : Event O
  runtime_fires : Event O
  discarded : Event O
  run_looks : Event O
  run_starts : Event O
  agent_ends : Streamed → Outcome O → Event O
  winner_finishes : Event O
  cancel_requested : Text → Event O
  event_emitted : Event O
  other_job_emits : Event O
  attached : List Credential → Event O
  rotated : Text → Text → Event O

-- The job, the work of the handlers that have won and not finished, and whether `run` has seen that
-- the job has not ended and has not set its status yet.
pub record Racing : Type 0 where
  pub job : Job
  pub works : List Work
  pub starting : Bool

-- The race after a handler's first part.
with_work : Racing → Job × Option Work → Racing
with_work s (j, none) = record s { job = j }
with_work s (j, some w) = record s { job = j; works = w ∷ s.works }

finish_one : Bool → Racing → List Work → Racing
unfolding finish revoke_all emit_terminal emit_event record_seq
finish_one provisioner s [] = record s { works = [] }
finish_one provisioner s (w ∷ works) = record s { job = finish provisioner s.job w; works = works }

abbrev pub new_race : Job → Racing
new_race j = record { job = j; works = []; starting = false }

module _ {O : Type 0} where
  unfoldable pub step : Runtime O → Racing → Event O → Racing
  unfolding with_work finish_one
  step env s expiry_fires = with_work s (expire_lease s.job)
  step env s runtime_fires = with_work s (timeout_job s.job)
  step env s discarded = record s { job = discard s.job }
  step env s run_looks = record s { starting = run_checks s.job }
  step env s run_starts =
      if s.starting then record s { job = run_reports s.job; starting = false } else s
  step env s (agent_ends stream outcome) = with_work s (run_end env s.job stream outcome)
  step env s winner_finishes = finish_one env.provisioner s s.works
  step env s (cancel_requested why) = record s { job = cancel_with_reason s.job why }
  step env s event_emitted = record s { job = emit_event s.job }
  step env s other_job_emits = record s { job = record s.job { seq = suc s.job.seq } }
  step env s (attached creds) = record s { job = attach_credentials s.job creds }
  step env s (rotated id value) = record s { job = (replace_credential_value s.job id value).0 }

  unfoldable pub steps : Runtime O → Racing → List (Event O) → Racing
  steps env s [] = s
  steps env s (e ∷ es) = steps env (step env s e) es
