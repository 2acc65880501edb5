-- ===== src/Server/Emit/Samples.antt =====
-- A session that submits a job, follows it, lags behind and cancels it.
use go_sdk.Lease.{Floats}
use go_sdk.Server.Emit.Metric.{Metering, Meter, JobIds}
use go_sdk.Prelude.{
  ◌-◌, ltb, nat_beq, ℕ, ◌+◌, ◌≤◌, ◌<◌, ◌≡◌, ◌↔◌, ◌⊎◌, refl, true, false, List, [], ◌∷◌, none, some,
  text_beq, text_eq, codes, leb, if◌then◌else◌, lookup, inr, arith, contains,
}
use go_sdk.EventLog.{since}
use go_sdk.Features.{has_feature}
use go_sdk.Server.Job.{attach_credentials, new_job}
use go_sdk.Server.Listing.{Decimals}
use go_sdk.Server.World.{
  Session, Payload, Conn, Registered, World, other_body, phase_credential_rotated, job_event,
}
use go_sdk.Server.World.Secrets.{HoldsNoSecret}
use go_sdk.Server.World.Pressure.{pressures, send_each, outbox_or, pressures-send_each}
use go_sdk.Server.Session.{acknowledge, decoded, handle_ack, handle_job_cancel}
use go_sdk.Server.Session.{SubscribeRequest, handle_job_subscribe}
use go_sdk.Server.World.{subscribers}
use go_sdk.Server.Session.Follow.{IsFollowed, handle_job_subscribe_follows}
use go_sdk.Server.Session.Ack.{acknowledge_lem, handle_ack_replay}
use go_sdk.Server.Session.Cancel.{IsTouchedBy, handle_job_cancel_touches}
use go_sdk.Server.Emit.{rotation}
use go_sdk.Server.Emit.Calls.{
  Call, acked, cancel_asked, subscribe_asked, connected, registered, event_emitted, rotates,
  serve_all, new_world, serve_all-HoldsNoSecret, number_taken, envelope_delivered,
}

abbrev no_decimals : Decimals
no_decimals = record { format_int = λ n. []; parse_int = λ s. none }

abbrev client : Session
client = record {
  id = codes "s";
  incarnation = 0;
  principal = codes "p";
  features = codes "ack" ∷ codes "subscribe" ∷ [];
}

abbrev submitted : Registered
submitted = record {
  session_id = codes "s";
  principal = codes "p";
  agent = codes "a";
  created_at = 1;
  state = attach_credentials (new_job 0) (record { id = codes "key"; value = codes "old" } ∷ []);
}

abbrev calls : List (ℕ × Call)
calls =
    (1, connected client)
    ∷ (2, registered (codes "j") submitted)
    ∷ (
      3,
      subscribe_asked client (codes "r")
          (some (record { job_id = codes "j"; history = false; from_event_seq = 0 })),
    )
    ∷ (4, event_emitted (codes "s") (codes "j") (codes "log") (some (other_body (codes "{}") none)))
    ∷ (4, number_taken (codes "s") (codes "j"))
    ∷ (
      4,
      event_emitted (codes "s") (codes "j") (codes "status")
          (some (other_body (codes "{}") (some phase_credential_rotated))),
    )
    ∷ (
      4,
      envelope_delivered (codes "s") (codes "j") (record {
        payload = rotation (codes "key") (codes "new");
        session_id = codes "s";
        job_id = codes "j";
        event_seq = 3;
      }),
    )
    ∷ (5, rotates (codes "s") (codes "j") submitted.state true (codes "key") (codes "new") true)
    ∷ (6, acked client (codes "r") (some 1))
    ∷ (7, cancel_asked client (codes "r") (codes "j") (decoded (codes "enough")))
    ∷ []

serve_all-HoldsNoSecret_example : HoldsNoSecret (serve_all ⦃D = no_decimals⦄ (new_world 10 2) calls)
serve_all-HoldsNoSecret_example = serve_all-HoldsNoSecret ⦃D = no_decimals⦄ 10 2 calls

abbrev with_job : World
with_job = record (new_world 10 2) { jobs = (codes "j", submitted) ∷ [] }

found_job : lookup (codes "j") with_job.jobs ≡ some submitted
unfolding lookup text_beq
found_job = refl

handle_job_cancel_touches_example :
    IsTouchedBy client (codes "j") (decoded (codes "enough")) (codes "j") submitted (
      lookup
        (codes "j")
        (handle_job_cancel with_job 7 client
          (codes "r")
          (codes "j")
          (decoded (codes "enough"))).jobs)
handle_job_cancel_touches_example =
    handle_job_cancel_touches with_job 7 client (codes "r") (codes "j") (decoded (codes "enough"))
      (codes "j") submitted found_job

abbrev follow : SubscribeRequest
follow = record { job_id = codes "j"; history = true; from_event_seq = 0 }

handle_job_subscribe_follows_example :
    IsFollowed with_job client
      (some follow)
      (codes "j")
      (subscribers (handle_job_subscribe with_job 7 client (codes "r") (some follow)) (codes "j"))
handle_job_subscribe_follows_example =
    handle_job_subscribe_follows with_job 7 client (codes "r") (some follow) (codes "j")

abbrev lagging : Conn
lagging = record {
  session = client;
  outbox = [];
  outbox_closed = false;
  ctx_done = false;
  saturated = false;
  high = 1;
  back_pressure_armed = true;
}

abbrev live : World
live = record (new_world 10 2) { conns = (codes "s", lagging) ∷ [] }

found_conn : lookup (codes "s") live.conns ≡ some lagging
unfolding lookup text_beq
found_conn = refl

negotiated : has_feature client.features (codes "ack") ≡ true
unfolding has_feature contains text_beq
negotiated = refl

acknowledge_lem_example :
    ((acknowledge 2 5 3 lagging).high ≡ (if leb 1 3 then 3 else 1))
    × (((acknowledge 2 5 3 lagging).back_pressure_armed ≡ true)
        ↔ ((lagging.back_pressure_armed ≡ true) ⊎ (5 < (acknowledge 2 5 3 lagging).high + 2)))
acknowledge_lem_example =
    acknowledge_lem 2 5 3 lagging (omega arith) (omega arith) (omega arith) (omega arith)

handle_ack_replay_example :
    ((after : Conn) × ((lookup (codes "s") (handle_ack live 6 client (codes "r") (some 3)).conns
          ≡ some after)
        × (after.high ≡ (if leb 1 3 then 3 else 1))
        × (after.outbox ≡ lagging.outbox)))
    × (since (handle_ack live 6 client (codes "r") (some 3)).log (codes "s") 4
        ≡ since live.log (codes "s") 4)
handle_ack_replay_example =
    handle_ack_replay live 6 client (codes "r") 3 lagging (codes "s") 4 negotiated found_conn
      (inr (omega arith))

abbrev two_events : List Payload
two_events =
    job_event (codes "log") (other_body [] none) ∷ job_event (codes "log") (other_body [] none) ∷ []

pressures-send_each_example :
    pressures
      (outbox_or (lookup (codes "s") (send_each live 6 (codes "s") (codes "j") two_events).conns))
    ≤ pressures [] + (if true then 1 else 0)
pressures-send_each_example =
    pressures-send_each live 6 (codes "s") (codes "j") two_events lagging found_conn
      (refl, (refl, tt))

abbrev coins : Floats
coins = record {
  Float = ℕ;
  zero_f = 0;
  add_f = λ a b. a + b;
  sub_f = λ a b. a - b;
  less = ltb;
  less_eq = leb;
  equals = nat_beq;
  parse_float = λ s. none;
}

abbrev metering : Metering coins
metering = record {
  abs_f = λ a. a;
  div_f = λ a b. a;
  five_percent = 3;
  metric_body = λ name value unit. some (other_body name none);
}

abbrev metered : Meter coins
metered = record {
  world = live;
  lease = record {
    lease = [];
    expires_at = none;
    counters = (codes "USD", 40) ∷ [];
    initialized = (codes "USD", 100) ∷ [];
  };
  last_remain_emit = (codes "USD", 42) ∷ [];
}

abbrev job_ids : JobIds
job_ids = record { session_id = codes "s"; job_id = codes "j" }
