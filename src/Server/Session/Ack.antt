-- ===== src/Server/Session/Ack.antt =====
-- session.ack: the acknowledged number, the log behind it, and the arming of back-pressure.
use go_sdk.Prelude.{
  ℕ, ◌+◌, ◌≤◌, ◌<◌, ◌≡◌, ◌≢◌, ◌↔◌, ◌⊎◌, refl, true, some, Text, text_eq, codes, leb, ltb,
  if◌then◌else◌, lookup, insert, lookup-insert_self, arith,
}
use go_sdk.Features.{has_feature}
use go_sdk.EventLog.{since, trim}
use go_sdk.EventLog.Replay.{since-trim}
use go_sdk.Server.World.{Session, Conn, World, set_conn, current_seq}
use go_sdk.Server.World.Pressure.{is_caught_up_iff}
use go_sdk.Server.Session.{acknowledge, ack_conn, ack_decoded, handle_ack}

-- An acknowledgement never lowers the session's high number, which becomes the greater of the two,
-- and, under a threshold, back-pressure is armed afterwards exactly if it was armed before or the
-- session's counter is less than the threshold above the high number. The three numbers have 64 bits,
-- on which the difference in the code wraps around.
pub acknowledge_lem :
    (threshold cur last : ℕ) (c : Conn)
    → 0 < threshold
    → cur < 18446744073709551616
    → last < 18446744073709551616
    → c.high < 18446744073709551616
    → ((acknowledge threshold cur last c).high ≡ (if leb c.high last then last else c.high))
      × (((acknowledge threshold cur last c).back_pressure_armed ≡ true) ↔ (
          (c.back_pressure_armed ≡ true)
          ⊎ (cur < (acknowledge threshold cur last c).high + threshold)))
unfolding acknowledge
acknowledge_lem threshold cur last c some_threshold hc hl hh =
    let high : ℕ = if ltb c.high last then last else c.high in
    let fits : high < 18446744073709551616 = ground arith in
    let caught = is_caught_up_iff cur high threshold some_threshold hc fits in
    (ground arith, ground (arith, caught))

handle_ack_found :
    (w : World) (now : ℕ) (s : Session) (request_id : Text) (last : ℕ) (c : Conn)
    → has_feature s.features (codes "ack") ≡ true
    → lookup s.id w.conns ≡ some c
    → handle_ack w now s request_id (some last) ≡ (record w {
      conns = insert s.id (acknowledge w.ack_lag_threshold (current_seq w s.id) last c) w.conns;
      log = trim w.log s.id last;
    })
unfolding handle_ack ack_decoded
handle_ack_found w now s request_id last c negotiated found =
    rw negotiated (rw found (unfold ack_conn set_conn in refl))

-- An acknowledgement on a live session that negotiated the feature leaves the session live, with the
-- greater of the two numbers as its high number and its outbox as it was. The replay of the log to
-- another session, by that session's own id, and a replay to this one that starts at or after the
-- acknowledged number, are as before. The history of a job, which a subscriber is sent, may lose
-- events.
pub handle_ack_replay :
    (w : World) (now : ℕ) (s : Session) (request_id : Text) (last : ℕ) (c : Conn) (other : Text)
    (from_seq : ℕ)
    → has_feature s.features (codes "ack") ≡ true
    → lookup s.id w.conns ≡ some c
    → (s.id ≢ other) ⊎ (last ≤ from_seq)
    → ((after : Conn) × ((lookup s.id (handle_ack w now s request_id (some last)).conns
            ≡ some after)
          × (after.high ≡ (if leb c.high last then last else c.high))
          × (after.outbox ≡ c.outbox)))
      × (since (handle_ack w now s request_id (some last)).log other from_seq
          ≡ since w.log other from_seq)
handle_ack_replay w now s request_id last c other from_seq negotiated found apart =
    rw (handle_ack_found w now s request_id last c negotiated found) (
      (
        acknowledge w.ack_lag_threshold (current_seq w s.id) last c,
        (
          lookup-insert_self s.id (acknowledge w.ack_lag_threshold (current_seq w s.id) last c)
              w.conns,
          (unfold acknowledge in ground arith),
          (unfold acknowledge in refl),
        ),
      ),
      since-trim w.log s.id other last from_seq apart,
    )
