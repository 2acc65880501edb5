-- ===== src/Server/Session/Cancel.antt =====
-- Whose cancellation reaches a job.
use go_sdk.Prelude.{
  ℕ, ◌≡◌, ◌⊎◌, refl, true, false, Option, none, some, Text, text_beq, text_eq, text_beq_iff, Dict,
  lookup, insert, lookup-insert, Bool-cases, inl, inr, arith,
}
use go_sdk.Errors.{ErrorCode}
use go_sdk.Server.Job.{cancel_with_reason}
use go_sdk.Server.World.{
  ErrorText, Session, Registered, World, job_cancelled, send_numbered, send_error_for,
}
use go_sdk.Server.World.Frame.{KeepsJobs, send_numbered-KeepsJobs, send_error_for-KeepsJobs}
use go_sdk.Server.Session.{Decoded, decoded, malformed, handle_job_cancel, cancel_found, may_cancel}

-- The request names the job, comes from its session and its principal, and gives a reason.
abbrev pub IsRequest : Session → Text → Decoded Text → Text → Registered → Text → Type 0
IsRequest s job_id why other j reason =
    (other ≡ job_id) × (j.session_id ≡ s.id) × (j.principal ≡ s.principal) × (why ≡ decoded reason)

-- The context of the job is done exactly if it is asked for so, and nothing else changes.
abbrev pub IsTouchedBy :
    Session → Text → Decoded Text → Text → Registered → Option Registered → Type 0
IsTouchedBy s job_id why other j after =
    ((¬ ((reason : Text) × IsRequest s job_id why other j reason)) × (after ≡ some j))
    ⊎ ((reason : Text) × IsRequest s job_id why other j reason
        × (after
            ≡ some (record j { state = record j.state { cancel_re = reason; ctx_done = true } })))

refused_lookup :
    (w : World) (now : ℕ) (id request_id job_id : Text) (code : ErrorCode) (msg : ErrorText)
    (other : Text) (j : Registered)
    → lookup other w.jobs ≡ some j
    → lookup other (send_error_for w now id request_id job_id code msg).jobs ≡ some j
refused_lookup w now id request_id job_id code msg other j found =
    rw (send_error_for-KeepsJobs w now id request_id job_id code msg).0 found

same_job :
    (j k : Registered) (jobs : Dict Text Registered) (a b : Text)
    → a ≡ b
    → lookup a jobs ≡ some j
    → lookup b jobs ≡ some k
    → j ≡ k
same_job j k jobs a b e x y = ground arith

refused-IsRequest :
    (s : Session) (job_id : Text) (why : Decoded Text) (other : Text) (j k : Registered)
    (jobs : Dict Text Registered)
    → lookup job_id jobs ≡ some k
    → lookup other jobs ≡ some j
    → may_cancel s k ≡ false
    → ¬ ((reason : Text) × IsRequest s job_id why other j reason)
unfolding may_cancel
refused-IsRequest s job_id why other j k jobs asked found refused
      (reason, (named, by, as_one, given)) =
    let one : j ≡ k = same_job j k jobs other job_id named found asked in
    ground (arith, text_beq_iff k.session_id s.id, text_beq_iff k.principal s.principal)

cancelled_lookup :
    (w u : World) (s : Session) (job_id reason other : Text) (j k : Registered)
    → KeepsJobs w u
    → lookup other w.jobs ≡ some j
    → lookup job_id w.jobs ≡ some k
    → may_cancel s k ≡ true
    → IsTouchedBy s job_id (decoded reason) other j (
        lookup other
          (insert job_id (record k { state = cancel_with_reason k.state reason }) u.jobs))
cancelled_lookup w u s job_id reason other j k kept found asked allowed =
    rw (lookup-insert job_id other (record k { state = cancel_with_reason k.state reason }) u.jobs)
      (elim (Bool-cases (text_beq job_id other)) [
        | inl same ↦
            let here : other ≡ job_id = ground (arith, text_beq_iff job_id other) in
            let one : j ≡ k = same_job j k w.jobs other job_id here found asked in
            rw same (
              rw one (
                inr (
                  reason,
                  (
                    here,
                    unfold may_cancel in ground (arith, text_beq_iff k.session_id s.id),
                    unfold may_cancel in ground (arith, text_beq_iff k.principal s.principal),
                    refl,
                  ),
                  unfold cancel_with_reason in refl,
                )))
        | inr differs ↦ rw differs (
            inl (
              (λ (why, request). ground (arith, request, text_beq_iff job_id other)),
              rw kept.0 found,
            ))
      ])

cancel_found-touches :
    (w : World) (now : ℕ) (s : Session) (request_id job_id reason other : Text) (j : Registered)
    (target : Option Registered)
    → lookup job_id w.jobs ≡ target
    → lookup other w.jobs ≡ some j
    → IsTouchedBy s job_id
        (decoded reason)
        other
        j
        (lookup other (cancel_found w now s request_id job_id reason target).jobs)
unfolding cancel_found
cancel_found-touches w now s request_id job_id reason other j none asked found = inl (
  (λ (why, (named, by, as_one, given)). ground arith),
  refused_lookup w now s.id request_id job_id _ _ other j found,
)
cancel_found-touches w now s request_id job_id reason other j (some k) asked found =
    elim (Bool-cases (may_cancel s k)) [
      | inl allowed ↦ rw allowed (
          cancelled_lookup w (send_numbered w now s.id job_id (job_cancelled job_id reason)) s
            job_id reason other j k
            (send_numbered-KeepsJobs w now s.id job_id (job_cancelled job_id reason)) found asked
            allowed)
      | inr refused ↦ rw refused (
          inl (
            refused-IsRequest s job_id (decoded reason) other j k w.jobs asked found refused,
            refused_lookup w now s.id request_id job_id _ _ other j found,
          ))
    ]

-- A job.cancel leaves every registered job as it was, with one exception: the job that it names, when
-- the session has the id of the session that submitted the job and the principal of the job, and the
-- payload decodes. That job's context is then done, with the reason given as its cause, and nothing
-- else of it changes.
pub handle_job_cancel_touches :
    (w : World) (now : ℕ) (s : Session) (request_id job_id : Text) (why : Decoded Text)
    (other : Text) (j : Registered)
    → lookup other w.jobs ≡ some j
    → IsTouchedBy s job_id why other j
        (lookup other (handle_job_cancel w now s request_id job_id why).jobs)
unfolding handle_job_cancel
handle_job_cancel_touches w now s request_id job_id (malformed e) other j found = inl (
  (λ (why, (named, by, as_one, given)). ground arith),
  refused_lookup w now s.id request_id job_id _ _ other j found,
)
handle_job_cancel_touches w now s request_id job_id (decoded reason) other j found =
    cancel_found-touches w now s request_id job_id reason other j (lookup job_id w.jobs) refl found
