-- ===== src/Server/Emit/Calls.antt =====
-- The calls that come to a server's world, in any order, and what they do to the event log.
use go_sdk.Prelude.{ℕ, refl, Bool, List, [], ◌∷◌, Option, Text, text_eq, lookup}
use go_sdk.EventLog.{entries_of, new_memory}
use go_sdk.Server.Job.{Job, Terminal}
use go_sdk.Server.Listing.{Decimals}
use go_sdk.Server.World.{
  Session, Body, Envelope, Registered, World, register_job, unregister_job, set_current_session,
  clear_current_session, set_conn, send,
}
use go_sdk.Server.World.Evolves.{
  send-Evolves, Evolves, still, also, register_job-Evolves, clear_current_session-Evolves,
}
use go_sdk.Server.World.Secrets.{HoldsNoSecret, Evolves-IsOpenLog, open-HoldsNoSecret}
use go_sdk.Server.Session.{
  Decoded, ListRequest, SubscribeRequest, handle_ping, handle_ack, handle_list_jobs,
  subscribe_granted, handle_job_cancel, handle_job_subscribe, handle_job_unsubscribe,
  handle_session_close,
}
use go_sdk.Server.Session.Steps.{
  handle_ping-Evolves, handle_ack-Evolves, handle_list_jobs-Evolves, handle_job_cancel-Evolves,
  subscribe_granted-Evolves, handle_job_subscribe-Evolves, handle_job_unsubscribe-Evolves,
  handle_session_close-Evolves,
}
use go_sdk.Server.Emit.{numbered_for, deliver, emit_event, emit_terminal, rotate_credential}
use go_sdk.Server.Emit.Steps.{
  numbered_for-Evolves, deliver-Evolves, emit_event-Evolves, emit_terminal-Evolves,
  rotate_credential-Evolves,
}

-- One call of the transport of a session, of a job, or of the server's own loops. Parts of these that
-- another call may come between are also calls on their own: a number that is taken, an envelope that
-- is sent or delivered with one, and a subscription that is granted for a job found before.
pub data Call : Type 0 where
  pinged : Session → Option Text → Call
  acked : Session → Text → Option ℕ → Call
  listed : Session → Text → Option ListRequest → Call
  cancel_asked : Session → Text → Text → Decoded Text → Call
  subscribe_asked : Session → Text → Option SubscribeRequest → Call
  unsubscribe_asked : Session → Option Text → Call
  subscribe_grants : Session → SubscribeRequest → Registered → Call
  close_asked : Session → Text → Call
  connected : Session → Call
  disconnected : Session → Call
  registered : Text → Registered → Call
  unregistered : Text → Call
  event_emitted : Text → Text → Text → Option Body → Call
  ended : Text → Text → Option Terminal → Call
  number_taken : Text → Text → Call
  envelope_sent : Text → Envelope → Call
  envelope_delivered : Text → Text → Envelope → Call
  rotates : Text → Text → Job → Bool → Text → Text → Bool → Call

module _ ⦃D : Decimals⦄ where
  unfoldable pub serve : World → ℕ × Call → World
  serve w (now, pinged s nonce) = handle_ping w now s nonce
  serve w (now, acked s request_id last) = handle_ack w now s request_id last
  serve w (now, listed s request_id req) = handle_list_jobs w now s request_id req
  serve w (now, cancel_asked s request_id job_id why) =
      handle_job_cancel w now s request_id job_id why
  serve w (now, subscribe_asked s request_id req) = handle_job_subscribe w now s request_id req
  serve w (now, unsubscribe_asked s job_id) = handle_job_unsubscribe w s job_id
  serve w (now, close_asked s why) = handle_session_close w s why
  serve w (now, subscribe_grants s req j) = subscribe_granted w now s req j
  serve w (now, number_taken id job_id) = (numbered_for w id job_id).0
  serve w (now, envelope_sent id env) = send w now id env
  serve w (now, envelope_delivered id job_id env) = deliver w now id job_id env
  serve w (now, connected s) = set_current_session w s
  serve w (now, disconnected s) = clear_current_session w s
  serve w (now, registered id j) = (register_job w id j).0
  serve w (now, unregistered id) = unregister_job w id
  serve w (now, event_emitted id job_id kind body) = emit_event w now id job_id kind body
  serve w (now, ended id job_id t) = emit_terminal w now id job_id t
  serve w (now, rotates id job_id j provisioner cred value marshals) =
      (rotate_credential w now id job_id j provisioner cred value marshals).0

  unfoldable pub serve_all : World → List (ℕ × Call) → World
  serve_all w [] = w
  serve_all w (c ∷ cs) = serve_all (serve w c) cs

-- A server that has served nothing, with the sizes of its options.
abbrev pub new_world : ℕ → ℕ → World
new_world window ack_lag_threshold = record {
  conns = [];
  allocs = [];
  log = new_memory Envelope window;
  jobs = [];
  subs = [];
  ack_lag_threshold = ack_lag_threshold;
}

module _ ⦃D : Decimals⦄ where
  serve-Evolves : (w : World) (c : ℕ × Call) → Evolves w (serve w c)
  unfolding serve set_current_session set_conn unregister_job
  serve-Evolves w (now, pinged s nonce) = handle_ping-Evolves w now s nonce
  serve-Evolves w (now, acked s request_id last) = handle_ack-Evolves w now s request_id last
  serve-Evolves w (now, listed s request_id req) = handle_list_jobs-Evolves w now s request_id req
  serve-Evolves w (now, cancel_asked s request_id job_id why) =
      handle_job_cancel-Evolves w now s request_id job_id why
  serve-Evolves w (now, subscribe_asked s request_id req) =
      handle_job_subscribe-Evolves w now s request_id req
  serve-Evolves w (now, unsubscribe_asked s job_id) = handle_job_unsubscribe-Evolves w s job_id
  serve-Evolves w (now, close_asked s why) = handle_session_close-Evolves w s why
  serve-Evolves w (now, subscribe_grants s req j) = subscribe_granted-Evolves w now s req j
  serve-Evolves w (now, number_taken id job_id) = numbered_for-Evolves w id job_id
  serve-Evolves w (now, envelope_sent id env) = send-Evolves w now id env
  serve-Evolves w (now, envelope_delivered id job_id env) = deliver-Evolves w now id job_id env
  serve-Evolves w (now, connected s) = still _ _ refl refl
  serve-Evolves w (now, disconnected s) = clear_current_session-Evolves w s
  serve-Evolves w (now, registered id j) = register_job-Evolves w id j
  serve-Evolves w (now, unregistered id) = still _ _ refl refl
  serve-Evolves w (now, event_emitted id job_id kind body) =
      emit_event-Evolves w now id job_id kind body
  serve-Evolves w (now, ended id job_id t) = emit_terminal-Evolves w now id job_id t
  serve-Evolves w (now, rotates id job_id j provisioner cred value marshals) =
      rotate_credential-Evolves w now id job_id j provisioner cred value marshals

  serve_all-Evolves : (w : World) (cs : List (ℕ × Call)) → Evolves w (serve_all w cs)
  unfolding serve_all
  serve_all-Evolves w [] = still w w refl refl
  serve_all-Evolves w (c ∷ cs) = also (serve-Evolves w c) (serve_all-Evolves (serve w c) cs)

  -- Whatever calls a server gets, and where others come between the parts of them, rotations of credentials and events of any kind and body among them,
  -- no entry that its event log retains is a status event with the phase "credential_rotated", which
  -- is how a rotation carries the new secret. So none is ever replayed.
  pub serve_all-HoldsNoSecret :
      (window ack_lag_threshold : ℕ) (cs : List (ℕ × Call))
      → HoldsNoSecret (serve_all (new_world window ack_lag_threshold) cs)
  serve_all-HoldsNoSecret window ack_lag_threshold cs =
      open-HoldsNoSecret (serve_all (new_world window ack_lag_threshold) cs) (
        Evolves-IsOpenLog (serve_all-Evolves (new_world window ack_lag_threshold) cs)
          (λ id. unfold entries_of new_memory lookup in tt))
