-- ===== src/Server/Emit/Steps.antt =====
-- What the sends of a running job do to the event log and the counters.
use go_sdk.Prelude.{ℕ, ◌≡◌, refl, Bool, not, Option, none, some, Text, text_eq, if_cases, lookup}
use go_sdk.Server.Job.{Job, Terminal, record_seq, replace_credential_value}
use go_sdk.Server.World.{Envelope, send, Payload, Registered, World, Body, next_seq, send_ephemeral}
use go_sdk.Server.World.Evolves.{
  send-Evolves, Evolves, still, also, send_ephemeral-Evolves, send_next-Evolves,
  fanout_event-Evolves, next_seq-Evolves,
}
use go_sdk.Server.Session.{}
use go_sdk.Server.Session.Steps.{}
use go_sdk.Server.Emit.{
  rotation, Rotation, marshal_failed, not_configured, rotated, update_found, update_job,
  numbered_for, deliver, emit_numbered, emit_event, emit_terminal, rotate_prior, rotate_credential,
}

update_found-Evolves :
    (w : World) (job_id : Text) (f : Job → Job) (found : Option Registered)
    → Evolves w (update_found w job_id f found)
unfolding update_found
update_found-Evolves w job_id f none = still w w refl refl
update_found-Evolves w job_id f (some j) = still _ _ refl refl

-- Numbers and changes of jobs do not meet.
update_found-next_seq :
    (w : World) (id job_id : Text) (f : Job → Job) (found : Option Registered)
    → update_found (next_seq w id).0 job_id f found
      ≡ (next_seq (update_found w job_id f found) id).0
unfolding update_found next_seq
update_found-next_seq w id job_id f none = refl
update_found-next_seq w id job_id f (some j) = refl

allocs-update_found :
    (w : World) (job_id : Text) (f : Job → Job) (found : Option Registered)
    → (update_found w job_id f found).allocs ≡ w.allocs
unfolding update_found
allocs-update_found w job_id f none = refl
allocs-update_found w job_id f (some j) = refl

-- A number for a job is the next number of a world that differs in the job's state only.
numbered_for-next_seq :
    (w : World) (id job_id : Text)
    → (u : World) × Evolves w u
      × ((numbered_for w id job_id).0 ≡ (next_seq u id).0)
      × ((numbered_for w id job_id).1 ≡ (next_seq u id).1)
unfolding numbered_for update_job
numbered_for-next_seq w id job_id =
    let f : Job → Job = λ state. record_seq state (next_seq w id).1 in
    let found : Option Registered = lookup job_id w.jobs in
    let u : World = update_found w job_id f found in
    (
      u,
      update_found-Evolves w job_id f found,
      update_found-next_seq w id job_id f found,
      unfold next_seq in rw (allocs-update_found w job_id f found) refl,
    )

pub numbered_for-Evolves : (w : World) (id job_id : Text) → Evolves w (numbered_for w id job_id).0
numbered_for-Evolves w id job_id =
    let (u, changed, world, number) = numbered_for-next_seq w id job_id in
    rw world (also changed (next_seq-Evolves u id))

pub deliver-Evolves :
    (w : World) (now : ℕ) (id job_id : Text) (env : Envelope)
    → Evolves w (deliver w now id job_id env)
unfolding deliver
deliver-Evolves w now id job_id env =
    also (send-Evolves w now id env) (fanout_event-Evolves (send w now id env) now job_id env)

emit_numbered-Evolves :
    (w : World) (now : ℕ) (id job_id : Text) (payload : Payload)
    → Evolves w (emit_numbered w now id job_id payload)
unfolding emit_numbered deliver
emit_numbered-Evolves w now id job_id payload =
    let (u, changed, world, number) = numbered_for-next_seq w id job_id in
    rw world (
      rw number (
        also (also changed (send_next-Evolves u now id _ refl))
          (fanout_event-Evolves _ now job_id _)))

pub emit_event-Evolves :
    (w : World) (now : ℕ) (id job_id kind : Text) (body : Option Body)
    → Evolves w (emit_event w now id job_id kind body)
unfolding emit_event
emit_event-Evolves w now id job_id kind none = still w w refl refl
emit_event-Evolves w now id job_id kind (some body) = emit_numbered-Evolves w now id job_id _

pub emit_terminal-Evolves :
    (w : World) (now : ℕ) (id job_id : Text) (t : Option Terminal)
    → Evolves w (emit_terminal w now id job_id t)
unfolding emit_terminal
emit_terminal-Evolves w now id job_id none = still w w refl refl
emit_terminal-Evolves w now id job_id (some t) = emit_numbered-Evolves w now id job_id _

rotate_prior-Evolves :
    (w : World) (now : ℕ) (id job_id cred value : Text) (marshals : Bool) (prior : Option Text)
    → Evolves w (rotate_prior w now id job_id cred value marshals prior).0
unfolding rotate_prior
rotate_prior-Evolves w now id job_id cred value marshals none = still w w refl refl
rotate_prior-Evolves w now id job_id cred value marshals (some prior) =
    let (u, changed, world, number) = numbered_for-next_seq w id job_id in
    if_cases (λ (r : World × Rotation). Evolves w r.0) (not marshals) (w, marshal_failed)
      (
        send_ephemeral (numbered_for w id job_id).0 now id (record {
          payload = rotation cred value;
          session_id = id;
          job_id = job_id;
          event_seq = (numbered_for w id job_id).1;
        }),
        rotated prior,
      )
      (λ h. still w w refl refl)
      (λ h.
        rw world (also changed (also (next_seq-Evolves u id) (send_ephemeral-Evolves _ now id _))))

pub rotate_credential-Evolves :
    (w : World) (now : ℕ) (id job_id : Text) (j : Job) (provisioner : Bool) (cred value : Text)
    (marshals : Bool)
    → Evolves w (rotate_credential w now id job_id j provisioner cred value marshals).0
unfolding rotate_credential update_job
rotate_credential-Evolves w now id job_id j provisioner cred value marshals =
    let f : Job → Job = λ state. (replace_credential_value state cred value).0 in
    let replaced : World = update_found w job_id f (lookup job_id w.jobs) in
    if_cases (λ (r : World × Rotation). Evolves w r.0) (not provisioner) (w, not_configured)
      (rotate_prior replaced now id job_id cred value marshals
        (replace_credential_value j cred value).1)
      (λ h. still w w refl refl)
      (λ h. also (update_found-Evolves w job_id f (lookup job_id w.jobs)) (
        rotate_prior-Evolves replaced now id job_id cred value marshals
          (replace_credential_value j cred value).1))
