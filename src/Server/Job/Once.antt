-- ===== src/Server/Job/Once.antt =====
-- How the handlers of server/job.go share the terminal flag, whatever the order of their steps.
use go_sdk.Prelude.{
  ℕ, suc, ◌+◌, ◌≤◌, ◌≡◌, refl, Bool, true, false, ◌||◌, List, [], ◌∷◌, ◌++◌, Option, none, some,
  Text, length, length-append, Bool-cases, inl, inr, if◌then◌else◌, arith,
}
use go_sdk.Server.Job.{
  Job, Status, Terminal, Work, Runtime, Outcome, Streamed, Event, Racing, Marshalled, set_status,
  mark_terminal, record_seq, replace_credential_value, cancel_with_reason, emit_event,
  emit_terminal, revoke_all, finish, claim_work, claim_end, expire_lease, timeout_job, discard,
  run_checks, run_reports, new_race, run_end, marshalled_end, success_end, error_end, with_work,
  finish_one, returned, panicked, is_canceled_error, outcome_error, outcome_output, step, steps,
  new_job, run, complete, expiry_fires, runtime_fires, discarded, run_looks, run_starts, agent_ends,
  winner_finishes, cancel_requested, event_emitted, other_job_emits, attached, rotated, raw,
  unmarshallable, job_error, job_result, attach_credentials, status_running,
}

-- How many terminal envelopes are sent or will be.
abbrev pub owed : Racing → ℕ
owed s = length s.works + length s.job.sent

-- At most one of them, and none before the flag is set.
abbrev pub Once : Racing → Type 0
Once s = owed s ≤ (if s.job.terminal then 1 else 0)

with_work-Once :
    (s : Racing) (final : Status) (w : Work) → Once s → Once (with_work s (claim_end s.job final w))
unfolding with_work claim_end claim_work mark_terminal
with_work-Once s final w h = elim (Bool-cases s.job.terminal) [
  | inl t ↦ rw t (ground arith)
  | inr f ↦ rw f (ground arith)
]

abbrev pub final_status : Terminal → Status
final_status (job_error final code text again) = final
final_status (job_result final output stream) = final

-- What a handler that can end the job comes down to; where `Sound` holds, the envelope says the
-- status that the job gets.
abbrev Claims : Job → Type 0 → Job × Option Work → Type 0
Claims j Sound r =
    (final : Status) × (w : Work) × ((r ≡ claim_end j final w)
      × (Sound → final_status w.envelope ≡ final))

finish-job :
    (provisioner : Bool) (j : Job) (w : Work)
    → ((finish provisioner j w).terminal ≡ j.terminal)
      × ((finish provisioner j w).status_v ≡ j.status_v)
      × ((finish provisioner j w).sent ≡ j.sent ++ (suc j.seq, w.envelope) ∷ [])
unfolding finish revoke_all emit_terminal emit_event record_seq
finish-job provisioner j w = ground arith

finish_one-Once :
    (provisioner : Bool) (s : Racing) (works : List Work)
    → Once (record s { works = works })
    → Once (finish_one provisioner s works)
unfolding finish_one
finish_one-Once provisioner s [] h = h
finish_one-Once provisioner s (w ∷ works) h =
    let (flag, _, sent) = finish-job provisioner s.job w in
    rw (flag, sent) (ground (arith, length-append s.job.sent ((suc s.job.seq, w.envelope) ∷ [])))

claim_end-settled :
    (s : Racing) (final : Status) (w : Work)
    → s.job.terminal ≡ true
    → with_work s (claim_end s.job final w) ≡ s
unfolding with_work claim_end claim_work mark_terminal
claim_end-settled s final w t = rw t refl

-- The status of a job that has ended.
abbrev pub IsEnded : Status → Racing → Type 0
IsEnded final s = (s.job.terminal ≡ true) × (s.job.status_v ≡ final)

finish_one-IsEnded :
    (provisioner : Bool) (s : Racing) (works : List Work) (final : Status)
    → IsEnded final s
    → IsEnded final (finish_one provisioner s works)
unfolding finish_one
finish_one-IsEnded provisioner s [] final h = h
finish_one-IsEnded provisioner s (w ∷ works) final h =
    let (flag, status, _) = finish-job provisioner s.job w in rw (flag, status) h

complete-ends :
    (provisioner : Bool) (j : Job) (final : Status) (w : Work)
    → j.terminal ≡ false
    → ((complete provisioner (claim_end j final w)).terminal ≡ true)
      × (length (complete provisioner (claim_end j final w)).sent ≡ suc (length j.sent))
unfolding complete claim_end claim_work mark_terminal
complete-ends provisioner j final w f =
    let marked : Job = record j { terminal = true; status_v = final } in
    let (flag, _, sent) = finish-job provisioner marked w in
    rw f (flag, rw sent (omega (arith, length-append j.sent ((suc j.seq, w.envelope) ∷ []))))

module _ {O : Type 0} where
  -- The agent's output, if there is an inline one, can be marshalled.
  abbrev pub Marshals : Runtime O → Outcome O → Type 0
  Marshals env panicked = Unit
  Marshals env (returned none e) = Unit
  Marshals env (returned (some output) e) = (text : Text) × (env.marshal output ≡ raw text)

  marshalled_end-Claims :
      (env : Runtime O) (j : Job) (output : O) (m : Marshalled)
      → env.marshal output ≡ m
      → Claims j ((text : Text) × (env.marshal output ≡ raw text)) (marshalled_end j m)
  unfolding marshalled_end
  marshalled_end-Claims env j output (raw text) h = (_, _, (refl, λ sound. refl))
  marshalled_end-Claims env j output (unmarshallable why) h =
      (_, _, (refl, λ (text, sound). ground arith))

  error_end-Claims :
      (env : Runtime O) (j : Job) (stream : Streamed) (o : Outcome O)
      → Claims j (Marshals env o) (error_end env j stream (outcome_output o) (outcome_error o))
  unfolding error_end success_end
  error_end-Claims env j stream panicked = (_, _, (refl, λ sound. refl))
  error_end-Claims env j stream (returned output (some e)) = (_, _, (refl, λ sound. refl))
  error_end-Claims env j (some info) (returned output none) = (_, _, (refl, λ sound. refl))
  error_end-Claims env j none (returned none none) = (_, _, (refl, λ sound. refl))
  error_end-Claims env j none (returned (some output) none) =
      marshalled_end-Claims env j output (env.marshal output) refl

  run_end-Claims :
      (env : Runtime O) (j : Job) (stream : Streamed) (o : Outcome O)
      → Claims j (Marshals env o) (run_end env j stream o)
  unfolding run_end
  run_end-Claims env j stream o =
      elim (Bool-cases (is_canceled_error env (outcome_error o) || j.ctx_done)) [
        | inl stopped ↦ rw stopped (_, _, (refl, λ sound. refl))
        | inr done ↦ rw done (error_end-Claims env j stream o)
      ]

  run_end-Once :
      (env : Runtime O) (s : Racing) (stream : Streamed) (o : Outcome O)
      → Once s
      → Once (with_work s (run_end env s.job stream o))
  run_end-Once env s stream o h =
      let (final, w, (same, _)) = run_end-Claims env s.job stream o in
      rw same (with_work-Once s final w h)

  step-Once : (env : Runtime O) (s : Racing) (e : Event O) → Once s → Once (step env s e)
  unfolding step finish_one expire_lease timeout_job
  step-Once env s expiry_fires h = with_work-Once s _ _ h
  step-Once env s runtime_fires h = with_work-Once s _ _ h
  step-Once env s discarded h = unfold discard mark_terminal in ground arith
  step-Once env s run_looks h = h
  step-Once env s run_starts h = unfold run_reports set_status in ground arith
  step-Once env s (agent_ends stream o) h = run_end-Once env s stream o h
  step-Once env s winner_finishes h = finish_one-Once env.provisioner s s.works h
  step-Once env s (cancel_requested why) h = unfold cancel_with_reason in h
  step-Once env s event_emitted h = unfold emit_event record_seq in ground arith
  step-Once env s other_job_emits h = h
  step-Once env s (attached creds) h = unfold attach_credentials in h
  step-Once env s (rotated id value) h = unfold replace_credential_value in h

  steps-Once : (env : Runtime O) (s : Racing) (es : List (Event O)) → Once s → Once (steps env s es)
  unfolding steps
  steps-Once env s [] h = h
  steps-Once env s (e ∷ es) h = steps-Once env (step env s e) es (step-Once env s e h)

  -- Whatever the handlers of a new job do and in whatever order their steps come, at most one
  -- terminal envelope is sent, and none while the job is not marked as terminal.
  pub terminal_once :
      (env : Runtime O) (seq : ℕ) (es : List (Event O))
      → length (steps env (new_race (new_job seq)) es).job.sent
        ≤ (if (steps env (new_race (new_job seq)) es).job.terminal then 1 else 0)
  terminal_once env seq es = omega (arith, steps-Once env (new_race (new_job seq)) es (omega arith))

  step-IsEnded :
      (env : Runtime O) (s : Racing) (e : Event O) (final : Status)
      → IsEnded final s
      → IsEnded final (step env s e)
  unfolding step finish_one expire_lease timeout_job
  step-IsEnded env s expiry_fires final (t, v) = rw (claim_end-settled s _ _ t) (t, v)
  step-IsEnded env s runtime_fires final (t, v) = rw (claim_end-settled s _ _ t) (t, v)
  step-IsEnded env s discarded final (t, v) = unfold discard mark_terminal in ground arith
  step-IsEnded env s run_looks final (t, v) = (t, v)
  step-IsEnded env s run_starts final (t, v) = unfold run_reports set_status in ground arith
  step-IsEnded env s (agent_ends stream o) final (t, v) =
      let (final, w, (same, _)) = run_end-Claims env s.job stream o in
      rw same (rw (claim_end-settled s final w t) (t, v))
  step-IsEnded env s winner_finishes final (t, v) =
      finish_one-IsEnded env.provisioner s s.works final (t, v)
  step-IsEnded env s (cancel_requested why) final h = unfold cancel_with_reason in h
  step-IsEnded env s event_emitted final h = unfold emit_event record_seq in ground arith
  step-IsEnded env s other_job_emits final h = h
  step-IsEnded env s (attached creds) final h = unfold attach_credentials in h
  step-IsEnded env s (rotated id value) final h = unfold replace_credential_value in h

  -- Once a job has ended, none of its handlers changes its status again, in whatever order their steps
  -- come: also not a `run` that has seen before that the job had not ended and sets the status after.
  pub status_settled :
      (env : Runtime O) (s : Racing) (es : List (Event O)) (final : Status)
      → IsEnded final s
      → IsEnded final (steps env s es)
  unfolding steps
  status_settled env s [] final h = h
  status_settled env s (e ∷ es) final h =
      status_settled env (step env s e) es final (step-IsEnded env s e final h)

  -- With no other goroutine in between, `run` of a job that has not ended ends it: the flag is set
  -- and exactly one more terminal envelope is sent.
  pub run_ends :
      (env : Runtime O) (j : Job) (stream : Streamed) (o : Outcome O)
      → j.terminal ≡ false
      → ((run env j stream o).terminal ≡ true)
        × (length (run env j stream o).sent ≡ suc (length j.sent))
  unfolding run run_checks run_reports set_status
  run_ends env j stream o f =
      let started : Job = record j { status_v = status_running; terminal = false } in
      let (final, w, (same, _)) = run_end-Claims env started stream o in
      rw f (rw same (complete-ends env.provisioner started final w refl))
