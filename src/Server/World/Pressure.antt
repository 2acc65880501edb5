-- ===== src/Server/World/Pressure.antt =====
-- Back-pressure: when a session is told that it lags, and how often.
use go_sdk.Prelude.{
  ℕ, ◌+◌, ◌≤◌, ◌<◌, ◌≡◌, ◌↔◌, refl, Bool, true, false, List, [], ◌∷◌, ◌++◌, Option, none, some,
  Text, text_eq, codes, nat_beq, if◌then◌else◌, if_cases, lookup, lookup-insert_self, length, keep,
  keep-append, length-append, All, inl, inr, arith,
}
use go_sdk.Features.{has_feature}
use go_sdk.Server.World.{
  Payload, Envelope, Conn, World, back_pressure, next_seq, is_credential_rotation, persist_outbound,
  set_conn, push, sub_u64, is_caught_up, offer_pressure, emit_back_pressure,
  maybe_emit_back_pressure, enqueue_on, enqueue, send, send_numbered,
}
use go_sdk.Server.World.Evolves.{maybe_emit_cases}

-- The session negotiated acknowledgements, and the number is by the threshold or more above what it
-- acknowledged last.
abbrev pub IsBreach : ℕ → Conn → ℕ → Type 0
IsBreach threshold c seq =
    (0 < threshold)
    × (has_feature c.session.features (codes "ack") ≡ true)
    × (c.high + threshold ≤ seq)

-- On uint64 numbers the wrapping difference is not looked at where it would wrap around.
pub is_caught_up_iff :
    (seq high threshold : ℕ)
    → 0 < threshold
    → seq < 18446744073709551616
    → high < 18446744073709551616
    → (is_caught_up seq high threshold ≡ true) ↔ (seq < high + threshold)
unfolding is_caught_up sub_u64
is_caught_up_iff seq high threshold some_threshold hs hh = ground arith

abbrev pub is_pressure : Payload → Bool
is_pressure (back_pressure threshold seq high) = true
is_pressure _ = false

-- The back-pressure events that went out.
pub pressures : List Envelope → ℕ
pressures envs = length (keep (λ e. is_pressure e.payload) envs)

-- With the one that is armed.
tokens : Conn → ℕ
tokens c = pressures c.outbox + (if c.back_pressure_armed then 1 else 0)

pressures-append : (xs ys : List Envelope) → pressures (xs ++ ys) ≡ pressures xs + pressures ys
unfolding pressures
pressures-append xs ys =
    rw (keep-append (λ e. is_pressure e.payload) xs ys)
      (length-append (keep (λ e. is_pressure e.payload) xs) (keep (λ e. is_pressure e.payload) ys))

pressures_one : (env : Envelope) → pressures (env ∷ []) ≤ 1
unfolding pressures
pressures_one env = ground arith

-- One back-pressure event at most, and it takes the token.
tokens-offer_pressure :
    (c : Conn) (env : Envelope)
    → c.back_pressure_armed ≡ true
    → tokens (offer_pressure (record c { back_pressure_armed = false }) env) ≤ tokens c
unfolding tokens offer_pressure
tokens-offer_pressure c env armed =
    ground (arith, pressures-append c.outbox (env ∷ []), pressures_one env)

-- The live session for an id, and how many events more can come.
tokens_of : Option Conn → ℕ
unfolding tokens
tokens_of none = 0
tokens_of (some c) = tokens c

tokens_at : World → Text → ℕ
unfolding tokens_of tokens
tokens_at w id = tokens_of (lookup id w.conns)

conns-persist_outbound :
    (w : World) (now : ℕ) (id : Text) (env : Envelope)
    → (persist_outbound w now id env).conns ≡ w.conns
unfolding persist_outbound
conns-persist_outbound w now id env =
    if_cases (λ v. v.conns ≡ w.conns) (nat_beq env.event_seq 0) w _ (λ h. refl)
      (λ h.
        if_cases (λ v. v.conns ≡ w.conns) (is_credential_rotation env.payload) w _ (λ k. refl)
          (λ k. refl))

tokens_at-conns : (v w : World) (id : Text) → v.conns ≡ w.conns → tokens_at v id ≡ tokens_at w id
unfolding tokens_at
tokens_at-conns v w id e = rw e refl

tokens-maybe_emit :
    (w : World) (now : ℕ) (id : Text) (c : Conn) (job_id : Text) (seq : ℕ)
    → lookup id w.conns ≡ some c
    → tokens_at (maybe_emit_back_pressure w now id c job_id seq) id ≤ tokens c
tokens-maybe_emit w now id c job_id seq found = elim (maybe_emit_cases w now id c job_id seq) [
  | inl e ↦ rw e (unfold tokens_at in rw found (unfold tokens_of in omega arith))
  | inr (e, armed) ↦
      let env : Envelope = record {
        payload = back_pressure w.ack_lag_threshold seq c.high;
        session_id = id;
        job_id = job_id;
        event_seq = (next_seq w id).1;
      } in
      let v : World = persist_outbound (next_seq w id).0 now id env in
      let after : Conn = offer_pressure (record c { back_pressure_armed = false }) env in
      rw e (
        unfold emit_back_pressure set_conn tokens_at in
        rw (lookup-insert_self id after v.conns)
          (unfold tokens_of in tokens-offer_pressure c env armed))
]

tokens-push :
    (c : Conn) (env : Envelope) → is_pressure env.payload ≡ false → tokens (push c env) ≤ tokens c
unfolding tokens push
tokens-push c env other =
    let nothing : pressures (env ∷ []) ≡ 0 = (unfold pressures in ground arith) in
    ground (arith, pressures-append c.outbox (env ∷ []))

tokens-enqueue_on :
    (w : World) (now : ℕ) (id : Text) (env : Envelope) (found : Option Conn)
    → lookup id w.conns ≡ found
    → is_pressure env.payload ≡ false
    → tokens_at (enqueue_on w now id env found) id ≤ tokens_of found
unfolding enqueue_on
tokens-enqueue_on w now id env none found other = unfold tokens_at in rw found (omega arith)
tokens-enqueue_on w now id env (some c) found other =
    if_cases (λ v. tokens_at v id ≤ tokens_of (some c)) c.outbox_closed w
      (maybe_emit_back_pressure (set_conn w id (push c env)) now id (push c env) env.job_id
        env.event_seq)
      (λ h. unfold tokens_at in rw found (omega arith))
      (λ h.
        let pushed = tokens-push c env other in
        let emitted =
          tokens-maybe_emit (set_conn w id (push c env)) now id (push c env) env.job_id
            env.event_seq (unfold set_conn in lookup-insert_self id (push c env) w.conns) in
        unfold tokens_of in omega arith)

tokens-send :
    (w : World) (now : ℕ) (id : Text) (env : Envelope)
    → is_pressure env.payload ≡ false
    → tokens_at (send w now id env) id ≤ tokens_at w id
unfolding send enqueue
tokens-send w now id env other =
    let out : Envelope = record env { session_id = id } in
    let v : World = persist_outbound w now id out in
    let sent = tokens-enqueue_on v now id out (lookup id v.conns) refl other in
    let kept = tokens_at-conns v w id (conns-persist_outbound w now id out) in
    unfold tokens_at in omega arith

-- Envelopes of one session, each with the next number.
unfoldable pub send_each : World → ℕ → Text → Text → List Payload → World
send_each w now id job_id [] = w
send_each w now id job_id (p ∷ ps) = send_each (send_numbered w now id job_id p) now id job_id ps

tokens-send_each :
    (ps : List Payload) (w : World) (now : ℕ) (id job_id : Text)
    → All (λ p. is_pressure p ≡ false) ps
    → tokens_at (send_each w now id job_id ps) id ≤ tokens_at w id
unfolding send_each
tokens-send_each [] w now id job_id others = omega arith
tokens-send_each (p ∷ ps) w now id job_id others =
    let u : World = send_numbered w now id job_id p in
    let first : tokens_at u id ≤ tokens_at w id =
      (unfold send_numbered next_seq tokens_at in
        tokens-send (next_seq w id).0 now id _ others.0) in
    let rest = tokens-send_each ps u now id job_id others.1 in omega arith

abbrev pub outbox_or : Option Conn → List Envelope
outbox_or none = []
outbox_or (some c) = c.outbox

pressures-tokens : (found : Option Conn) → pressures (outbox_or found) ≤ tokens_of found
unfolding tokens_of tokens
pressures-tokens none = unfold pressures in omega arith
pressures-tokens (some c) = ground arith

-- However many events go to a live session without an acknowledgement in between, however far they
-- run ahead of it, they add at most one back-pressure event to its outbox, and none if back-pressure
-- is not armed.
pub pressures-send_each :
    (w : World) (now : ℕ) (id job_id : Text) (ps : List Payload) (c : Conn)
    → lookup id w.conns ≡ some c
    → All (λ p. is_pressure p ≡ false) ps
    → pressures (outbox_or (lookup id (send_each w now id job_id ps).conns))
      ≤ pressures c.outbox + (if c.back_pressure_armed then 1 else 0)
pressures-send_each w now id job_id ps c found others =
    let v : World = send_each w now id job_id ps in
    let some_tokens : tokens_at w id ≡ tokens c =
      (unfold tokens_at in rw found (unfold tokens_of in refl)) in
    let used : tokens_at v id ≤ tokens_at w id = tokens-send_each ps w now id job_id others in
    let held : pressures (outbox_or (lookup id v.conns)) ≤ tokens_at v id =
      (unfold tokens_at in pressures-tokens (lookup id v.conns)) in
    unfold tokens in omega arith
