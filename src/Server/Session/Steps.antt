-- ===== src/Server/Session/Steps.antt =====
-- What the handlers of a session do to the event log and the counters.
use go_sdk.Prelude.{
  ℕ, ◌≡◌, refl, Bool, false, not, List, [], ◌∷◌, Option, none, some, Text, text_beq, text_eq, codes,
  if◌then◌else◌, if_cases, lookup,
}
use go_sdk.Features.{has_feature}
use go_sdk.EventLog.{Entry}
use go_sdk.Server.Listing.{Decimals}
use go_sdk.Server.World.{
  Session, Envelope, Conn, Registered, World, job_cancelled, next_seq, enqueue, add_subscriber,
  remove_subscriber, set_conn,
}
use go_sdk.Server.World.Evolves.{
  Evolves, still, trims, also, send_zero-Evolves, send_error_for-Evolves, send_numbered-Evolves,
  enqueue-Evolves, next_seq-Evolves,
}
use go_sdk.Server.Session.{
  Decoded, decoded, malformed, ListRequest, SubscribeRequest, handle_ping, handle_ack, ack_decoded,
  ack_conn, handle_list_jobs, list_decoded, handle_job_cancel, cancel_found, may_cancel,
  replay_history, handle_job_subscribe, subscribe_decoded, subscribe_found, subscribe_granted,
  answer_subscribe, reply_subscribed, handle_job_unsubscribe, handle_session_close, closed_conn,
}

pub handle_ping-Evolves :
    (w : World) (now : ℕ) (s : Session) (nonce : Option Text)
    → Evolves w (handle_ping w now s nonce)
unfolding handle_ping
handle_ping-Evolves w now s none = still w w refl refl
handle_ping-Evolves w now s (some nonce) = send_zero-Evolves w now s.id _ refl

ack_conn-Evolves :
    (w : World) (id : Text) (last : ℕ) (found : Option Conn) → Evolves w (ack_conn w id last found)
unfolding ack_conn set_conn
ack_conn-Evolves w id last none = still w w refl refl
ack_conn-Evolves w id last (some c) = still _ _ refl refl

ack_conn-log :
    (w : World) (id : Text) (last : ℕ) (found : Option Conn)
    → ((ack_conn w id last found).log ≡ w.log) × ((ack_conn w id last found).allocs ≡ w.allocs)
unfolding ack_conn set_conn
ack_conn-log w id last none = (refl, refl)
ack_conn-log w id last (some c) = (refl, refl)

ack_decoded-Evolves : (w : World) (s : Session) (last : Option ℕ) → Evolves w (ack_decoded w s last)
unfolding ack_decoded
ack_decoded-Evolves w s none = still w w refl refl
ack_decoded-Evolves w s (some last) =
    trims w _ s.id last refl (ack_conn-log w s.id last (lookup s.id w.conns)).1

-- The refusal of a feature that is not negotiated, or the handler's own work.
gated-Evolves :
    (w : World) (b : Bool) (refused v : World)
    → Evolves w refused
    → Evolves w v
    → Evolves w (if b then refused else v)
gated-Evolves w b refused v r h = if_cases (Evolves w) b refused v (λ e. r) (λ e. h)

pub handle_ack-Evolves :
    (w : World) (now : ℕ) (s : Session) (request_id : Text) (last : Option ℕ)
    → Evolves w (handle_ack w now s request_id last)
unfolding handle_ack
handle_ack-Evolves w now s request_id last =
    gated-Evolves w (not (has_feature s.features (codes "ack"))) _ _
      (send_error_for-Evolves w now s.id request_id [] _ _) (ack_decoded-Evolves w s last)

module _ ⦃D : Decimals⦄ where
  list_decoded-Evolves :
      (w : World) (now : ℕ) (s : Session) (request_id : Text) (req : Option ListRequest)
      → Evolves w (list_decoded w now s request_id req)
  unfolding list_decoded
  list_decoded-Evolves w now s request_id none = still w w refl refl
  list_decoded-Evolves w now s request_id (some req) = send_zero-Evolves w now s.id _ refl

  pub handle_list_jobs-Evolves :
      (w : World) (now : ℕ) (s : Session) (request_id : Text) (req : Option ListRequest)
      → Evolves w (handle_list_jobs w now s request_id req)
  unfolding handle_list_jobs
  handle_list_jobs-Evolves w now s request_id req =
      gated-Evolves w (not (has_feature s.features (codes "list_jobs"))) _ _
        (send_error_for-Evolves w now s.id request_id [] _ _)
        (list_decoded-Evolves w now s request_id req)

cancel_found-Evolves :
    (w : World) (now : ℕ) (s : Session) (request_id job_id why : Text) (found : Option Registered)
    → Evolves w (cancel_found w now s request_id job_id why found)
unfolding cancel_found
cancel_found-Evolves w now s request_id job_id why none =
    send_error_for-Evolves w now s.id request_id job_id _ _
cancel_found-Evolves w now s request_id job_id why (some j) =
    gated-Evolves w (not (may_cancel s j)) _ _
      (send_error_for-Evolves w now s.id request_id job_id _ _)
      (also (send_numbered-Evolves w now s.id job_id (job_cancelled job_id why))
        (still _ _ refl refl))

pub handle_job_cancel-Evolves :
    (w : World) (now : ℕ) (s : Session) (request_id job_id : Text) (why : Decoded Text)
    → Evolves w (handle_job_cancel w now s request_id job_id why)
unfolding handle_job_cancel
handle_job_cancel-Evolves w now s request_id job_id (malformed e) =
    send_error_for-Evolves w now s.id request_id job_id _ _
handle_job_cancel-Evolves w now s request_id job_id (decoded why) =
    cancel_found-Evolves w now s request_id job_id why (lookup job_id w.jobs)

replay_history-Evolves :
    (w : World) (now : ℕ) (id : Text) (es : List (Entry Envelope))
    → Evolves w (replay_history w now id es)
unfolding replay_history
replay_history-Evolves w now id [] = still w w refl refl
replay_history-Evolves w now id (e ∷ es) =
    also (also (next_seq-Evolves w id) (enqueue-Evolves (next_seq w id).0 now id _)) (
      replay_history-Evolves
        (enqueue (next_seq w id).0 now id
          (record e.envelope { session_id = id; event_seq = (next_seq w id).1 }))
        now id es)

answer_subscribe-Evolves :
    (w : World) (now : ℕ) (s : Session) (req : SubscribeRequest) (j : Registered)
    → Evolves w (answer_subscribe w now s req j)
unfolding answer_subscribe reply_subscribed
answer_subscribe-Evolves w now s req j =
    let replied = send_zero-Evolves w now s.id _ refl in
    if_cases (Evolves w) req.history _ _ (λ h. also replied (replay_history-Evolves _ now s.id _))
      (λ h. replied)

pub subscribe_granted-Evolves :
    (w : World) (now : ℕ) (s : Session) (req : SubscribeRequest) (j : Registered)
    → Evolves w (subscribe_granted w now s req j)
unfolding subscribe_granted add_subscriber
subscribe_granted-Evolves w now s req j = also (still _ _ refl refl) (
    answer_subscribe-Evolves (add_subscriber w req.job_id (record { session = s; closed = false }))
      now s req j)

subscribe_found-Evolves :
    (w : World) (now : ℕ) (s : Session) (request_id : Text) (req : SubscribeRequest)
    (found : Option Registered)
    → Evolves w (subscribe_found w now s request_id req found)
unfolding subscribe_found add_subscriber
subscribe_found-Evolves w now s request_id req none =
    send_error_for-Evolves w now s.id request_id [] _ _
subscribe_found-Evolves w now s request_id req (some j) =
    gated-Evolves w (not (text_beq j.principal s.principal)) _ _
      (send_error_for-Evolves w now s.id request_id [] _ _)
      (subscribe_granted-Evolves w now s req j)

subscribe_decoded-Evolves :
    (w : World) (now : ℕ) (s : Session) (request_id : Text) (req : Option SubscribeRequest)
    → Evolves w (subscribe_decoded w now s request_id req)
unfolding subscribe_decoded
subscribe_decoded-Evolves w now s request_id none = still w w refl refl
subscribe_decoded-Evolves w now s request_id (some req) =
    subscribe_found-Evolves w now s request_id req (lookup req.job_id w.jobs)

pub handle_job_subscribe-Evolves :
    (w : World) (now : ℕ) (s : Session) (request_id : Text) (req : Option SubscribeRequest)
    → Evolves w (handle_job_subscribe w now s request_id req)
unfolding handle_job_subscribe
handle_job_subscribe-Evolves w now s request_id req =
    gated-Evolves w (not (has_feature s.features (codes "subscribe"))) _ _
      (send_error_for-Evolves w now s.id request_id [] _ _)
      (subscribe_decoded-Evolves w now s request_id req)

pub handle_job_unsubscribe-Evolves :
    (w : World) (s : Session) (job_id : Option Text) → Evolves w (handle_job_unsubscribe w s job_id)
unfolding handle_job_unsubscribe remove_subscriber
handle_job_unsubscribe-Evolves w s none = still w w refl refl
handle_job_unsubscribe-Evolves w s (some job_id) = still _ _ refl refl

closed_conn-Evolves :
    (w : World) (s : Session) (why : Text) (found : Option Conn)
    → Evolves w (closed_conn w s why found)
unfolding closed_conn set_conn
closed_conn-Evolves w s why none = still w w refl refl
closed_conn-Evolves w s why (some c) = still _ _ refl refl

pub handle_session_close-Evolves :
    (w : World) (s : Session) (why : Text) → Evolves w (handle_session_close w s why)
unfolding handle_session_close
handle_session_close-Evolves w s why = closed_conn-Evolves w s why (lookup s.id w.conns)
