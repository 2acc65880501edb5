-- ===== src/Server/Session.antt =====
-- server/session.go: the handlers of one session's requests, but for job.submit, over what the
-- sessions share. Where an error of the decoder is only
-- logged, a payload that does not decode is `none`; an error that a handler returns is only
-- logged. The session is the live one for its id.
pub mod Steps
pub mod Ack
pub mod Cancel
pub mod Follow
use Prim.Native.String.{String}
use go_sdk.Prelude.{
  ℕ, suc, ◌+◌, ◌-◌, Bool, true, false, not, ◌&&◌, ◌||◌, List, [], ◌∷◌, ◌++◌, Option, none, some,
  Text, text_beq, text_eq, codes, ltb, leb, nat_beq, if◌then◌else◌, Dict, lookup, insert, delete,
  map,
}
use go_sdk.Errors.{
  ErrorCode, GoError, Message, invalid_request, job_not_found, permission_denied, says, about,
}
use go_sdk.EventLog.{Entry, Memory, trim, since_job}
use go_sdk.Features.{has_feature}
use go_sdk.Server.Job.{
  Job, Status, status_pending, status_running, status_success, status_error, status_cancelled,
  status_timed_out, cancel_with_reason,
}
use go_sdk.Server.Listing.{Decimals, JobInfo, Filter, list_jobs}
use go_sdk.Server.World.{
  Session, Payload, Envelope, Conn, Subscription, Registered, World, ErrorText, plain, printed,
  session_error, session_pong, session_jobs, session_closed, job_cancelled, job_subscribed,
  next_seq, current_seq, is_caught_up, set_conn, enqueue, send, send_numbered, send_error_for,
  add_subscriber, remove_subscriber,
}

unnumbered : Text → Text → Payload → Envelope
unnumbered id job_id payload = record {
  payload = payload;
  session_id = id;
  job_id = job_id;
  event_seq = 0;
}

unfoldable pub handle_ping : World → ℕ → Session → Option Text → World
unfolding unnumbered
handle_ping w now s none = w
handle_ping w now s (some nonce) = send w now s.id (unnumbered s.id [] (session_pong nonce))

-- The refusal of a request whose feature is not negotiated.
abbrev pub not_negotiated : World → ℕ → Session → Text → Text → String → World
not_negotiated w now s request_id job_id msg =
    send_error_for w now s.id request_id job_id invalid_request (plain (says msg))

-- The part of `handleAck` on the fields of the session.
unfoldable pub acknowledge : ℕ → ℕ → ℕ → Conn → Conn
acknowledge threshold cur last c =
    let high : ℕ = if ltb c.high last then last else c.high in
    record c {
      high = high;
      back_pressure_armed =
          if ltb 0 threshold && is_caught_up cur high threshold
          then true
          else c.back_pressure_armed;
    }

ack_conn : World → Text → ℕ → Option Conn → World
ack_conn w id last none = w
ack_conn w id last (some c) =
    set_conn w id (acknowledge w.ack_lag_threshold (current_seq w id) last c)

ack_decoded : World → Session → Option ℕ → World
unfolding ack_conn
ack_decoded w s none = w
ack_decoded w s (some last) = record (ack_conn w s.id last (lookup s.id w.conns)) {
  log = trim w.log s.id last;
}

unfoldable pub handle_ack : World → ℕ → Session → Text → Option ℕ → World
unfolding ack_decoded ack_conn
handle_ack w now s request_id last =
    if not (has_feature s.features (codes "ack"))
    then not_negotiated w now s request_id [] "ack feature not negotiated"
    else ack_decoded w s last

-- The status on the wire.
abbrev pub status_text : Status → Text
status_text status_pending = codes "pending"
status_text status_running = codes "running"
status_text status_success = codes "success"
status_text status_error = codes "error"
status_text status_cancelled = codes "cancelled"
status_text status_timed_out = codes "timed_out"

unfoldable pub job_infos : Dict Text Registered → List JobInfo
job_infos [] = []
job_infos ((id, j) ∷ jobs) =
    record {
      id = id;
      principal = j.principal;
      agent = j.agent;
      status = status_text j.state.status_v;
      created_at = j.created_at;
    }
    ∷ job_infos jobs

pub record ListRequest : Type 0 where
  pub filter : Filter
  pub limit : ℕ
  pub cursor : Text

module _ ⦃D : Decimals⦄ where
  list_decoded : World → ℕ → Session → Text → Option ListRequest → World
  unfolding unnumbered
  list_decoded w now s request_id none = w
  list_decoded w now s request_id (some req) =
      let page : List JobInfo × Text =
        list_jobs (job_infos w.jobs) s.principal req.filter req.limit req.cursor in
      send w now s.id (unnumbered s.id [] (session_jobs request_id page.0 page.1))

  unfoldable pub handle_list_jobs : World → ℕ → Session → Text → Option ListRequest → World
  unfolding list_decoded unnumbered
  handle_list_jobs w now s request_id req =
      if not (has_feature s.features (codes "list_jobs"))
      then not_negotiated w now s request_id [] "list_jobs feature not negotiated"
      else list_decoded w now s request_id req

may_cancel : Session → Registered → Bool
may_cancel s j = text_beq j.session_id s.id && text_beq j.principal s.principal

cancel_found : World → ℕ → Session → Text → Text → Text → Option Registered → World
unfolding may_cancel
cancel_found w now s request_id job_id why none =
    send_error_for w now s.id request_id job_id job_not_found
      (plain (about "job " job_id " not found"))
cancel_found w now s request_id job_id why (some j) =
    if not (may_cancel s j)
    then send_error_for w now s.id request_id job_id permission_denied
        (plain (says "only the submitting session can cancel"))
    else let sent : World = send_numbered w now s.id job_id (job_cancelled job_id why) in
      record sent {
        jobs = insert job_id (record j { state = cancel_with_reason j.state why }) sent.jobs;
      }

-- What a payload decodes to, or the error of the decoder.
pub data Decoded {ℓ} (A : Type ℓ) : Type ℓ where
  decoded : A → Decoded A
  malformed : GoError → Decoded A

-- On the envelope's id and job id and the decoded reason.
unfoldable pub handle_job_cancel : World → ℕ → Session → Text → Text → Decoded Text → World
unfolding cancel_found may_cancel
handle_job_cancel w now s request_id job_id (malformed e) =
    send_error_for w now s.id request_id job_id invalid_request (printed e)
handle_job_cancel w now s request_id job_id (decoded why) =
    cancel_found w now s request_id job_id why (lookup job_id w.jobs)

pub record SubscribeRequest : Type 0 where
  pub job_id : Text
  pub history : Bool
  pub from_event_seq : ℕ

-- The loop over the buffered events, each with a number of the subscriber.
unfoldable pub replay_history : World → ℕ → Text → List (Entry Envelope) → World
unfolding next_seq
replay_history w now id [] = w
replay_history w now id (e ∷ es) =
    let numbered : World × ℕ = next_seq w id in
    replay_history
      (enqueue numbered.0 now id (record e.envelope { session_id = id; event_seq = numbered.1 }))
      now id es

reply_subscribed : World → ℕ → Session → SubscribeRequest → Registered → World
unfolding unnumbered
reply_subscribed w now s req j = send w now s.id (
    unnumbered s.id req.job_id
      (job_subscribed req.job_id j.state.status_v (current_seq w s.id) req.history))

-- The reply, and the buffered events if these are asked for.
answer_subscribe : World → ℕ → Session → SubscribeRequest → Registered → World
unfolding reply_subscribed unnumbered
answer_subscribe w now s req j =
    let replied : World = reply_subscribed w now s req j in
    if req.history
    then replay_history replied now s.id (since_job replied.log req.job_id req.from_event_seq)
    else replied

-- The rest of `handleJobSubscribe`, once the subscription is granted for the job that was found. The
-- locks of the search and of the new subscriber are different ones, so that other calls may come
-- between, and the job may have ended.
unfoldable pub subscribe_granted : World → ℕ → Session → SubscribeRequest → Registered → World
unfolding answer_subscribe reply_subscribed unnumbered
subscribe_granted w now s req j =
    answer_subscribe (add_subscriber w req.job_id (record { session = s; closed = false })) now s
      req j

subscribe_found : World → ℕ → Session → Text → SubscribeRequest → Option Registered → World
unfolding answer_subscribe reply_subscribed unnumbered
subscribe_found w now s request_id req none =
    send_error_for w now s.id request_id [] job_not_found
      (plain (about "job " req.job_id " not found"))
subscribe_found w now s request_id req (some j) =
    if not (text_beq j.principal s.principal)
    then send_error_for w now s.id request_id [] permission_denied
        (plain (says "subscription denied by deployment policy"))
    else subscribe_granted w now s req j

subscribe_decoded : World → ℕ → Session → Text → Option SubscribeRequest → World
unfolding subscribe_found answer_subscribe reply_subscribed unnumbered
subscribe_decoded w now s request_id none = w
subscribe_decoded w now s request_id (some req) =
    subscribe_found w now s request_id req (lookup req.job_id w.jobs)

unfoldable pub handle_job_subscribe : World → ℕ → Session → Text → Option SubscribeRequest → World
unfolding subscribe_decoded subscribe_found answer_subscribe reply_subscribed unnumbered
handle_job_subscribe w now s request_id req =
    if not (has_feature s.features (codes "subscribe"))
    then not_negotiated w now s request_id [] "subscribe feature not negotiated"
    else subscribe_decoded w now s request_id req

-- The subscription that is closed is the one that is removed.
unfoldable pub handle_job_unsubscribe : World → Session → Option Text → World
handle_job_unsubscribe w s none = w
handle_job_unsubscribe w s (some job_id) = remove_subscriber w job_id s

-- The reply goes straight to the transport, here onto the outbox, and ends the session's context.
closed_conn : World → Session → Text → Option Conn → World
closed_conn w s why none = w
closed_conn w s why (some c) = set_conn w s.id (record c {
  outbox = c.outbox ++ unnumbered s.id [] (session_closed why) ∷ [];
  ctx_done = true;
})

unfoldable pub handle_session_close : World → Session → Text → World
unfolding closed_conn unnumbered
handle_session_close w s why = closed_conn w s why (lookup s.id w.conns)
