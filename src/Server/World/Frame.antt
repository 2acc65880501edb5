-- ===== src/Server/World/Frame.antt =====
-- What sending leaves alone: the registry of the jobs and the subscriptions.
use go_sdk.Prelude.{
  ℕ, ◌≡◌, refl, ◌∙◌, List, [], ◌∷◌, Option, none, some, Text, text_eq, nat_beq, if_cases, lookup,
  delete, inl, inr,
}
use go_sdk.Errors.{ErrorCode}
use go_sdk.Server.World.{
  ErrorText, Session, Payload, Envelope, Conn, Subscription, World, next_seq,
  is_credential_rotation, persist_outbound, set_conn, push, emit_back_pressure,
  maybe_emit_back_pressure, enqueue_on, enqueue, send, send_ephemeral, send_numbered,
  send_error_for, publish, publish_all, fanout_event, subscribers, clear_current_session, clear_if,
  same_session,
}
use go_sdk.Server.World.Evolves.{maybe_emit_cases}

abbrev pub KeepsJobs : World → World → Type 0
KeepsJobs w v = (v.jobs ≡ w.jobs) × (v.subs ≡ w.subs)

pub KeepsJobs-trans : (w u v : World) → KeepsJobs w u → KeepsJobs u v → KeepsJobs w v
KeepsJobs-trans w u v h k = (k.0 ∙ h.0, k.1 ∙ h.1)

persist_outbound-KeepsJobs :
    (w : World) (now : ℕ) (id : Text) (env : Envelope) → KeepsJobs w (persist_outbound w now id env)
unfolding persist_outbound
persist_outbound-KeepsJobs w now id env =
    if_cases (KeepsJobs w) (nat_beq env.event_seq 0) w _ (λ h. (refl, refl))
      (λ h.
        if_cases (KeepsJobs w) (is_credential_rotation env.payload) w _ (λ k. (refl, refl))
          (λ k. (refl, refl)))

maybe_emit-KeepsJobs :
    (w : World) (now : ℕ) (id : Text) (c : Conn) (job_id : Text) (seq : ℕ)
    → KeepsJobs w (maybe_emit_back_pressure w now id c job_id seq)
maybe_emit-KeepsJobs w now id c job_id seq = elim (maybe_emit_cases w now id c job_id seq) [
  | inl e ↦ rw e (refl, refl)
  | inr (e, armed) ↦ rw e (
      unfold emit_back_pressure set_conn next_seq in
      persist_outbound-KeepsJobs (next_seq w id).0 now id _)
]

enqueue_on-KeepsJobs :
    (w : World) (now : ℕ) (id : Text) (env : Envelope) (found : Option Conn)
    → KeepsJobs w (enqueue_on w now id env found)
unfolding enqueue_on set_conn
enqueue_on-KeepsJobs w now id env none = (refl, refl)
enqueue_on-KeepsJobs w now id env (some c) =
    if_cases (KeepsJobs w) c.outbox_closed w
      (maybe_emit_back_pressure (set_conn w id (push c env)) now id (push c env) env.job_id
        env.event_seq)
      (λ h. (refl, refl))
      (λ h.
        maybe_emit-KeepsJobs (set_conn w id (push c env)) now id (push c env) env.job_id
          env.event_seq)

pub enqueue-KeepsJobs :
    (w : World) (now : ℕ) (id : Text) (env : Envelope) → KeepsJobs w (enqueue w now id env)
unfolding enqueue
enqueue-KeepsJobs w now id env = enqueue_on-KeepsJobs w now id env (lookup id w.conns)

pub send-KeepsJobs :
    (w : World) (now : ℕ) (id : Text) (env : Envelope) → KeepsJobs w (send w now id env)
unfolding send
send-KeepsJobs w now id env =
    let out : Envelope = record env { session_id = id } in
    let u : World = persist_outbound w now id out in
    KeepsJobs-trans w u (enqueue u now id out) (persist_outbound-KeepsJobs w now id out)
      (enqueue-KeepsJobs u now id out)

pub send_ephemeral-KeepsJobs :
    (w : World) (now : ℕ) (id : Text) (env : Envelope) → KeepsJobs w (send_ephemeral w now id env)
unfolding send_ephemeral
send_ephemeral-KeepsJobs w now id env = enqueue-KeepsJobs w now id (record env { session_id = id })

pub send_numbered-KeepsJobs :
    (w : World) (now : ℕ) (id job_id : Text) (payload : Payload)
    → KeepsJobs w (send_numbered w now id job_id payload)
unfolding send_numbered next_seq
send_numbered-KeepsJobs w now id job_id payload = send-KeepsJobs (next_seq w id).0 now id _

pub send_error_for-KeepsJobs :
    (w : World) (now : ℕ) (id request_id job_id : Text) (code : ErrorCode) (msg : ErrorText)
    → KeepsJobs w (send_error_for w now id request_id job_id code msg)
unfolding send_error_for
send_error_for-KeepsJobs w now id request_id job_id code msg = send-KeepsJobs w now id _

publish-KeepsJobs :
    (w : World) (now : ℕ) (env : Envelope) (sub : Subscription)
    → KeepsJobs w (publish w now env sub)
unfolding publish next_seq
publish-KeepsJobs w now env sub =
    if_cases (KeepsJobs w) sub.closed w _ (λ h. (refl, refl))
      (λ h. send-KeepsJobs (next_seq w sub.session.id).0 now sub.session.id _)

publish_all-KeepsJobs :
    (subs : List Subscription) (w : World) (now : ℕ) (env : Envelope)
    → KeepsJobs w (publish_all w now env subs)
unfolding publish_all
publish_all-KeepsJobs [] w now env = (refl, refl)
publish_all-KeepsJobs (sub ∷ subs) w now env =
    let u : World = publish w now env sub in
    KeepsJobs-trans w u (publish_all u now env subs) (publish-KeepsJobs w now env sub)
      (publish_all-KeepsJobs subs u now env)

pub fanout_event-KeepsJobs :
    (w : World) (now : ℕ) (job_id : Text) (env : Envelope)
    → KeepsJobs w (fanout_event w now job_id env)
unfolding fanout_event
fanout_event-KeepsJobs w now job_id env = publish_all-KeepsJobs (subscribers w job_id) w now env

clear_if-KeepsJobs :
    (w : World) (s : Session) (found : Option Conn) → KeepsJobs w (clear_if w s found)
unfolding clear_if
clear_if-KeepsJobs w s none = (refl, refl)
clear_if-KeepsJobs w s (some c) =
    if_cases (KeepsJobs w) (same_session c.session s) (record w { conns = delete s.id w.conns }) w
      (λ h. (refl, refl)) (λ h. (refl, refl))

pub clear_current_session-KeepsJobs :
    (w : World) (s : Session) → KeepsJobs w (clear_current_session w s)
unfolding clear_current_session
clear_current_session-KeepsJobs w s = clear_if-KeepsJobs w s (lookup s.id w.conns)
