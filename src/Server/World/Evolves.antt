-- ===== src/Server/World/Evolves.antt =====
-- What can happen to the event log and the counters of the sessions, as an abstract machine, and the
-- functions of the server's world as its steps.
use go_sdk.Prelude.{
  ℕ, suc, ◌≡◌, ◌⊎◌, refl, Bool, true, false, List, [], ◌∷◌, Option, none, some, Text, text_eq,
  nat_beq, Dict, insert, delete, Bool-cases, inl, inr, arith, if_cases, lookup,
}
use go_sdk.EventLog.{Entry, append, trim}
use go_sdk.Server.Resume.{alloc_for}
use go_sdk.Server.World.{
  ErrorText, Session, Payload, Envelope, Conn, Subscription, World, next_seq,
  is_credential_rotation, persist_outbound, set_conn, push, emit_back_pressure,
  maybe_emit_back_pressure, enqueue_on, enqueue, send, send_ephemeral, send_numbered,
  send_error_for, publish, publish_all, fanout_event, subscribers, back_pressure, Registered,
  register_job, clear_current_session, clear_if, same_session, is_registered,
}
use go_sdk.Errors.{ErrorCode}

-- The next number of a session.
abbrev pub count_up : Dict Text ℕ → Text → Dict Text ℕ
count_up allocs id = insert id (suc (alloc_for allocs id)) allocs

pub data Evolves : World → World → Type 0 where
  still : (w v : World) → v.log ≡ w.log → v.allocs ≡ w.allocs → Evolves w v
  counts : (w v : World) (id : Text) → v.log ≡ w.log → v.allocs ≡ count_up w.allocs id → Evolves w v
  records :
      (w v : World) (now : ℕ) (e : Entry Envelope)
      → is_credential_rotation e.envelope.payload ≡ false
      → v.log ≡ append w.log now e
      → Evolves w v
  trims :
      (w v : World) (id : Text) (last : ℕ)
      → v.log ≡ trim w.log id last
      → v.allocs ≡ w.allocs
      → Evolves w v
  also : {w u v : World} → Evolves w u → Evolves u v → Evolves w v

-- A number is taken and the envelope that has it persisted, unless it is a rotation.
persist_numbered-Evolves :
    (w : World) (now : ℕ) (id : Text) (env : Envelope)
    → env.event_seq ≡ (next_seq w id).1
    → Evolves w (persist_outbound (next_seq w id).0 now id env)
unfolding next_seq persist_outbound
persist_numbered-Evolves w now id env n =
    let some_seq : nat_beq env.event_seq 0 ≡ false = ground arith in
    rw some_seq (elim (Bool-cases (is_credential_rotation env.payload)) [
      | inl secret ↦ rw secret (counts w _ id refl refl)
      | inr open_one ↦ rw open_one (records w _ now _ open_one refl)
    ])

-- Any envelope, with whatever number.
persist-Evolves :
    (w : World) (now : ℕ) (id : Text) (env : Envelope) → Evolves w (persist_outbound w now id env)
unfolding persist_outbound
persist-Evolves w now id env =
    if_cases (Evolves w) (nat_beq env.event_seq 0) w _ (λ zero_seq. still w w refl refl)
      (λ some_seq. elim (Bool-cases (is_credential_rotation env.payload)) [
        | inl secret ↦ rw secret (still w w refl refl)
        | inr open_one ↦ rw open_one (records w _ now _ open_one refl)
      ])

persist_zero-Evolves :
    (w : World) (now : ℕ) (id : Text) (env : Envelope)
    → env.event_seq ≡ 0
    → persist_outbound w now id env ≡ w
unfolding persist_outbound
persist_zero-Evolves w now id env n = ground arith

emit_back_pressure-Evolves :
    (w : World) (now : ℕ) (id : Text) (c : Conn) (job_id : Text) (seq : ℕ)
    → Evolves w (emit_back_pressure w now id c job_id seq)
unfolding emit_back_pressure set_conn
emit_back_pressure-Evolves w now id c job_id seq =
    also
      (persist_numbered-Evolves w now id
        (record {
          payload = back_pressure w.ack_lag_threshold seq c.high;
          session_id = id;
          job_id = job_id;
          event_seq = (next_seq w id).1;
        })
        refl)
      (still _ _ refl refl)

-- The event is emitted, or nothing is done; it is emitted only while it is armed.
pub maybe_emit_cases :
    (w : World) (now : ℕ) (id : Text) (c : Conn) (job_id : Text) (seq : ℕ)
    → (maybe_emit_back_pressure w now id c job_id seq ≡ w)
      ⊎ ((maybe_emit_back_pressure w now id c job_id seq ≡ emit_back_pressure w now id c job_id seq)
          × (c.back_pressure_armed ≡ true))
unfolding maybe_emit_back_pressure
maybe_emit_cases w now id c job_id seq = ground arith

maybe_emit-Evolves :
    (w : World) (now : ℕ) (id : Text) (c : Conn) (job_id : Text) (seq : ℕ)
    → Evolves w (maybe_emit_back_pressure w now id c job_id seq)
maybe_emit-Evolves w now id c job_id seq = elim (maybe_emit_cases w now id c job_id seq) [
  | inl e ↦ rw e (still w w refl refl)
  | inr (e, armed) ↦ rw e (emit_back_pressure-Evolves w now id c job_id seq)
]

enqueue_on-Evolves :
    (w : World) (now : ℕ) (id : Text) (env : Envelope) (found : Option Conn)
    → Evolves w (enqueue_on w now id env found)
unfolding enqueue_on set_conn
enqueue_on-Evolves w now id env none = still w w refl refl
enqueue_on-Evolves w now id env (some c) =
    if_cases (Evolves w) c.outbox_closed w
      (maybe_emit_back_pressure (set_conn w id (push c env)) now id (push c env) env.job_id
        env.event_seq)
      (λ h. still w w refl refl)
      (λ h. also (still _ _ refl refl) (
        maybe_emit-Evolves (set_conn w id (push c env)) now id (push c env) env.job_id
          env.event_seq))

pub enqueue-Evolves :
    (w : World) (now : ℕ) (id : Text) (env : Envelope) → Evolves w (enqueue w now id env)
unfolding enqueue
enqueue-Evolves w now id env = enqueue_on-Evolves w now id env (lookup id w.conns)

-- A reply has no number.
pub send_zero-Evolves :
    (w : World) (now : ℕ) (id : Text) (env : Envelope)
    → env.event_seq ≡ 0
    → Evolves w (send w now id env)
unfolding send
send_zero-Evolves w now id env n =
    rw (persist_zero-Evolves w now id (record env { session_id = id }) n)
      (enqueue-Evolves w now id (record env { session_id = id }))

pub send_next-Evolves :
    (w : World) (now : ℕ) (id : Text) (env : Envelope)
    → env.event_seq ≡ (next_seq w id).1
    → Evolves w (send (next_seq w id).0 now id env)
unfolding send
send_next-Evolves w now id env n =
    also (persist_numbered-Evolves w now id (record env { session_id = id }) n)
      (enqueue-Evolves _ now id (record env { session_id = id }))

pub send-Evolves :
    (w : World) (now : ℕ) (id : Text) (env : Envelope) → Evolves w (send w now id env)
unfolding send
send-Evolves w now id env =
    also (persist-Evolves w now id (record env { session_id = id }))
      (enqueue-Evolves _ now id (record env { session_id = id }))

pub send_ephemeral-Evolves :
    (w : World) (now : ℕ) (id : Text) (env : Envelope) → Evolves w (send_ephemeral w now id env)
unfolding send_ephemeral
send_ephemeral-Evolves w now id env = enqueue-Evolves w now id (record env { session_id = id })

pub send_numbered-Evolves :
    (w : World) (now : ℕ) (id job_id : Text) (payload : Payload)
    → Evolves w (send_numbered w now id job_id payload)
unfolding send_numbered
send_numbered-Evolves w now id job_id payload = send_next-Evolves w now id _ refl

publish-Evolves :
    (w : World) (now : ℕ) (env : Envelope) (sub : Subscription) → Evolves w (publish w now env sub)
unfolding publish
publish-Evolves w now env sub =
    if_cases (Evolves w) sub.closed w
      (send (next_seq w sub.session.id).0 now sub.session.id
        (record env { event_seq = (next_seq w sub.session.id).1 }))
      (λ h. still w w refl refl) (λ h. send_next-Evolves w now sub.session.id _ refl)

publish_all-Evolves :
    (w : World) (now : ℕ) (env : Envelope) (subs : List Subscription)
    → Evolves w (publish_all w now env subs)
unfolding publish_all
publish_all-Evolves w now env [] = still w w refl refl
publish_all-Evolves w now env (sub ∷ subs) =
    also (publish-Evolves w now env sub) (publish_all-Evolves (publish w now env sub) now env subs)

pub fanout_event-Evolves :
    (w : World) (now : ℕ) (job_id : Text) (env : Envelope)
    → Evolves w (fanout_event w now job_id env)
unfolding fanout_event
fanout_event-Evolves w now job_id env = publish_all-Evolves w now env (subscribers w job_id)

pub next_seq-Evolves : (w : World) (id : Text) → Evolves w (next_seq w id).0
unfolding next_seq
next_seq-Evolves w id = counts w _ id refl refl

pub send_error_for-Evolves :
    (w : World) (now : ℕ) (id request_id job_id : Text) (code : ErrorCode) (msg : ErrorText)
    → Evolves w (send_error_for w now id request_id job_id code msg)
unfolding send_error_for
send_error_for-Evolves w now id request_id job_id code msg = send_zero-Evolves w now id _ refl

pub register_job-Evolves :
    (w : World) (id : Text) (j : Registered) → Evolves w (register_job w id j).0
unfolding register_job
register_job-Evolves w id j =
    if_cases (λ (r : World × Bool). Evolves w r.0) (is_registered (lookup id w.jobs)) (w, false)
      (record w { jobs = insert id j w.jobs }, true) (λ h. still _ _ refl refl)
      (λ h. still _ _ refl refl)

clear_if-Evolves : (w : World) (s : Session) (found : Option Conn) → Evolves w (clear_if w s found)
unfolding clear_if
clear_if-Evolves w s none = still w w refl refl
clear_if-Evolves w s (some c) =
    if_cases (Evolves w) (same_session c.session s) (record w { conns = delete s.id w.conns }) w
      (λ h. still _ _ refl refl) (λ h. still _ _ refl refl)

pub clear_current_session-Evolves :
    (w : World) (s : Session) → Evolves w (clear_current_session w s)
unfolding clear_current_session
clear_current_session-Evolves w s = clear_if-Evolves w s (lookup s.id w.conns)
