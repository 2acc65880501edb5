-- ===== src/Server/Submit/Handle/Pending.antt =====
-- A job that a submit has registered, and the ways in which it is accepted or goes again.
use go_sdk.Prelude.{
  ◌≡◌, ◌∙◌, refl, ap, arith, lookup-insert, lookup-delete, text_beq_iff, List, [], ◌∷◌, ◌++◌,
  Option, none, some, Text, text_beq, text_eq, if◌then◌else◌, lookup, insert,
}
use go_sdk.Errors.{ErrorCode}
use go_sdk.Server.Job.{Credential, attach_credentials}
use go_sdk.Server.World.{Session, Registered, World, ErrorText, send, unregister_job}
use go_sdk.Server.Submit.{
  JobSubmit, Arrival, Submits, refuse, withdraw, new_registered, accepted_env, accept_marshalled,
  attach_found,
}
use go_sdk.Server.World.Frame.{KeepsJobs, send-KeepsJobs, send_error_for-KeepsJobs}
use go_sdk.Server.Submit.Handle.{}

abbrev pub IsUntouched : Submits → Submits → Type 0
IsUntouched st v =
    (v.started ≡ st.started)
    × ((other : Text) → lookup other v.world.jobs ≡ lookup other st.world.jobs)

-- The job of the session and its principal is the only one that is new.
abbrev pub IsNewIn : Submits → Arrival → Session → World → Type 0
IsNewIn st a s w =
    (lookup a.job_id st.world.jobs ≡ none)
    × ((j : Registered) × (j.session_id ≡ s.id)
        × (j.principal ≡ s.principal)
        × ((other : Text)
            → lookup other w.jobs
              ≡ (if text_beq a.job_id other then some j else lookup other st.world.jobs)))

abbrev pub IsStarted : Submits → Arrival → Session → Submits → Type 0
IsStarted st a s v = (v.started ≡ st.started ++ a.job_id ∷ []) × IsNewIn st a s v.world

abbrev pub IsPending : Submits → Arrival → Session → Submits → Type 0
IsPending st a s v = (v.started ≡ st.started) × IsNewIn st a s v.world

keeps-IsNewIn :
    (st : Submits) (a : Arrival) (s : Session) (w v : World)
    → KeepsJobs w v
    → IsNewIn st a s w
    → IsNewIn st a s v
keeps-IsNewIn st a s w v kept (absent, (j, mine, owns, rest)) =
    (absent, (j, mine, owns, λ other. rw kept.0 (rest other)))

pub refuse-IsUntouched :
    (st u : Submits) (a : Arrival) (s : Session) (code : ErrorCode) (msg : ErrorText)
    → IsUntouched st u
    → IsUntouched st (refuse u a s code msg)
unfolding refuse
refuse-IsUntouched st u a s code msg h = (
  h.0,
  λ other.
      rw (send_error_for-KeepsJobs u.world a.now s.id a.request_id a.env_job_id code msg).0
        (h.1 other),
)

pub withdraw-IsUntouched :
    (st u : Submits) (a : Arrival) (s : Session)
    → IsPending st a s u
    → IsUntouched st (withdraw u a)
unfolding withdraw unregister_job
withdraw-IsUntouched st u a s (same, (absent, (j, mine, owns, rest))) = (
  same,
  λ other.
      ground
        (arith, lookup-delete a.job_id other u.world.jobs, rest other, text_beq_iff a.job_id other),
)

pub attach_found-IsPending :
    (st u : Submits) (a : Arrival) (s : Session) (creds : List Credential) (r : Option Registered)
    → lookup a.job_id u.world.jobs ≡ r
    → IsPending st a s u
    → IsPending st a s (attach_found u a creds r)
unfolding attach_found
attach_found-IsPending st u a s creds none e h = h
attach_found-IsPending st u a s creds (some k) e (same, (absent, (j, mine, owns, rest))) =
    let there : k ≡ j = ground (arith, rest a.job_id, text_beq_iff a.job_id a.job_id) in
    let changed : Registered = record k { state = attach_credentials k.state creds } in
    (
      same,
      (
        absent,
        (
          changed,
          ap (λ r. r.session_id) there ∙ mine,
          ap (λ r. r.principal) there ∙ owns,
          λ other. ground (
            arith,
            lookup-insert a.job_id other changed u.world.jobs,
            rest other,
            text_beq_iff a.job_id other,
          ),
        ),
      ),
    )

pub accept_marshalled-IsStarted :
    (st u : Submits) (a : Arrival) (s : Session) (req : JobSubmit) (raw : Text)
    → IsPending st a s u
    → IsStarted st a s (accept_marshalled u a s req (some raw))
unfolding accept_marshalled
accept_marshalled-IsStarted st u a s req raw h = (
  ap (λ xs. xs ++ a.job_id ∷ []) h.0,
  keeps-IsNewIn st a s u.world (send u.world a.now s.id (accepted_env s a.job_id raw))
      (send-KeepsJobs u.world a.now s.id (accepted_env s a.job_id raw)) h.1,
)

pub registered-IsPending :
    (st : Submits) (a : Arrival) (s : Session) (canonical : Text)
    → lookup a.job_id st.world.jobs ≡ none
    → IsPending st a s (record st {
      world = record st.world {
        jobs = insert a.job_id (new_registered st.world a s canonical) st.world.jobs;
      };
    })
registered-IsPending st a s canonical absent =
    let j : Registered = new_registered st.world a s canonical in
    (refl, (absent, (j, refl, refl, λ other. lookup-insert a.job_id other j st.world.jobs)))

-- The registered job goes, and an error is sent.
pub withdrawn :
    (st u : Submits) (a : Arrival) (s : Session) (code : ErrorCode) (msg : ErrorText)
    → IsPending st a s u
    → IsUntouched st (refuse (withdraw u a) a s code msg)
withdrawn st u a s code msg h =
    refuse-IsUntouched st (withdraw u a) a s code msg (withdraw-IsUntouched st u a s h)
