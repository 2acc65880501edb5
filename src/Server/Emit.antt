-- ===== src/Server/Emit.antt =====
-- What a running job sends through the server's world: `emitEvent` and `RotateCredential` of
-- server/jobcontext.go and `emitTerminal` of server/job.go. The job is a pointer there, which
-- outlives its place in the registry: it is an argument, and its state in the registry, if it is
-- there, is what changes. An envelope or a body that json.Marshal refuses is `none`.
pub mod Steps
pub mod Calls
pub mod Metric
mod Samples
use Prim.Native.String.{String}
use go_sdk.Prelude.{
  ℕ, suc, Bool, true, false, not, ◌||◌, List, [], ◌∷◌, Option, none, some, Text, text_beq, text_eq,
  codes, leb, nat_beq, if◌then◌else◌, Dict, lookup, insert,
}
use go_sdk.Server.Job.{Job, Terminal, Credential, record_seq, replace_credential_value}
use go_sdk.Server.World.{
  Session, Payload, Envelope, Conn, Registered, World, Body, status_body, phase_credential_rotated,
  job_event, job_ended, next_seq, send, send_ephemeral, fanout_event,
}

update_found : World → Text → (Job → Job) → Option Registered → World
update_found w job_id f none = w
update_found w job_id f (some j) = record w {
  jobs = insert job_id (record j { state = f j.state }) w.jobs;
}

-- A change of the state of a job.
unfoldable pub update_job : World → Text → (Job → Job) → World
unfolding update_found
update_job w job_id f = update_found w job_id f (lookup job_id w.jobs)

-- A number of the job's session is taken, and the job's high-water mark raised to it.
pub numbered_for : World → Text → Text → World × ℕ
unfolding next_seq update_job update_found record_seq
numbered_for w id job_id =
    let numbered : World × ℕ = next_seq w id in
    (update_job numbered.0 job_id (λ state. record_seq state numbered.1), numbered.1)

-- The rest of `emitEvent` and of `emitTerminal`, once the envelope has its number. Nothing is locked
-- between the two parts, so that other calls may come there.
unfoldable pub deliver : World → ℕ → Text → Text → Envelope → World
deliver w now id job_id env = fanout_event (send w now id env) now job_id env

-- The envelope goes to the submitter and, with numbers of their own, to the subscribers.
emit_numbered : World → ℕ → Text → Text → Payload → World
unfolding numbered_for deliver
emit_numbered w now id job_id payload =
    let numbered : World × ℕ = numbered_for w id job_id in
    let env : Envelope = record {
      payload = payload;
      session_id = id;
      job_id = job_id;
      event_seq = numbered.1;
    } in
    deliver numbered.0 now id job_id env

unfoldable pub emit_event : World → ℕ → Text → Text → Text → Option Body → World
unfolding emit_numbered numbered_for
emit_event w now id job_id kind none = w
emit_event w now id job_id kind (some body) = emit_numbered w now id job_id (job_event kind body)

unfoldable pub emit_terminal : World → ℕ → Text → Text → Option Terminal → World
unfolding emit_numbered numbered_for
emit_terminal w now id job_id none = w
emit_terminal w now id job_id (some t) = emit_numbered w now id job_id (job_ended t)

-- What `RotateCredential` returns: an error, or nil, where the prior value is left to be revoked.
pub data Rotation : Type 0 where
  not_configured : Rotation
  not_attached : Rotation
  marshal_failed : Rotation
  rotated : Text → Rotation

-- The status event of a rotation.
abbrev pub rotation : Text → Text → Payload
rotation cred value =
    job_event (codes "status")
      (status_body phase_credential_rotated cred ((codes "id", cred) ∷ (codes "value", value) ∷ []))

rotate_prior : World → ℕ → Text → Text → Text → Text → Bool → Option Text → World × Rotation
unfolding numbered_for
rotate_prior w now id job_id cred value marshals none = (w, not_attached)
rotate_prior w now id job_id cred value marshals (some prior) =
    if not marshals
    then (w, marshal_failed)
    else let numbered : World × ℕ = numbered_for w id job_id in
      (
        send_ephemeral numbered.0 now id (record {
          payload = rotation cred value;
          session_id = id;
          job_id = job_id;
          event_seq = numbered.1;
        }),
        rotated prior,
      )

-- On the state of the job and the new value.
unfoldable pub rotate_credential :
    World → ℕ → Text → Text → Job → Bool → Text → Text → Bool → World × Rotation
unfolding rotate_prior numbered_for update_job update_found
rotate_credential w now id job_id j provisioner cred value marshals =
    if not provisioner
    then (w, not_configured)
    else rotate_prior (update_job w job_id (λ state. (replace_credential_value state cred value).0))
        now id job_id cred value marshals (replace_credential_value j cred value).1
