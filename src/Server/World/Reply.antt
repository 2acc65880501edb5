-- ===== src/Server/World/Reply.antt =====
-- How a reply reaches a live session.
use go_sdk.Prelude.{
  ℕ, ◌≡◌, ◌∙◌, ap, refl, Bool, false, [], ◌∷◌, ◌++◌, some, Text, text_eq, if◌then◌else◌, lookup,
  lookup-insert_self, arith,
}
use go_sdk.Errors.{ErrorCode}
use go_sdk.Server.World.{
  Session, Payload, Envelope, Conn, World, ErrorText, session_error, is_caught_up, set_conn, push,
  maybe_emit_back_pressure, enqueue, enqueue_on, persist_outbound, send, send_error_for,
  is_internal,
}

-- A reply has no number.
abbrev pub reply : Session → Text → Payload → Envelope
reply s job_id payload = record {
  payload = payload;
  session_id = s.id;
  job_id = job_id;
  event_seq = 0;
}

if_false : {A : Type 0} (b : Bool) (x y : A) → b ≡ false → (if b then x else y) ≡ y
if_false b x y e = rw e refl

maybe_emit_zero :
    (w : World) (now : ℕ) (id : Text) (c : Conn) (job_id : Text)
    → maybe_emit_back_pressure w now id c job_id 0 ≡ w
unfolding maybe_emit_back_pressure is_caught_up
maybe_emit_zero w now id c job_id = ground arith

pub send-reply :
    (w : World) (now : ℕ) (s : Session) (job_id : Text) (payload : Payload) (c : Conn)
    → lookup s.id w.conns ≡ some c
    → c.outbox_closed ≡ false
    → c.ctx_done ≡ false
    → lookup s.id (send w now s.id (reply s job_id payload)).conns
      ≡ some (record c { outbox = c.outbox ++ reply s job_id payload ∷ [] })
unfolding send persist_outbound enqueue
send-reply w now s job_id payload c there open_it live =
    let env : Envelope = reply s job_id payload in
    let v : World = set_conn w s.id (push c env) in
    let quiet : (if c.outbox_closed
          then w
          else maybe_emit_back_pressure v now s.id (push c env) job_id 0)
        ≡ v =
      if_false c.outbox_closed w (maybe_emit_back_pressure v now s.id (push c env) job_id 0) open_it
      ∙ maybe_emit_zero v now s.id (push c env) job_id in
    let stored : lookup s.id v.conns ≡ some (push c env) =
      (unfold set_conn in lookup-insert_self s.id (push c env) w.conns) in
    let pushed : push c env ≡ record c { outbox = c.outbox ++ env ∷ [] } =
      (unfold push in if_false c.ctx_done c (record c { outbox = c.outbox ++ env ∷ [] }) live) in
    rw there (unfold enqueue_on in ap (λ u. lookup s.id u.conns) quiet ∙ stored ∙ ap some pushed)

pub send_error_for-reply :
    (w : World) (now : ℕ) (s : Session) (request_id job_id : Text) (code : ErrorCode)
    (msg : ErrorText) (c : Conn)
    → lookup s.id w.conns ≡ some c
    → c.outbox_closed ≡ false
    → c.ctx_done ≡ false
    → (retryable : Bool) × (lookup s.id (send_error_for w now s.id request_id job_id code msg).conns
        ≡ some (record c {
          outbox = c.outbox ++ reply s job_id (session_error code msg retryable request_id) ∷ [];
        }))
unfolding send_error_for
send_error_for-reply w now s request_id job_id code msg c there open_it live =
    (is_internal code, send-reply w now s job_id _ c there open_it live)
