-- ===== src/Server/World.antt =====
-- What the sessions of one server share, and how an envelope leaves it: server/session.go from
-- `nextSeq` to `maybeEmitBackPressure`, server/subscription.go, and the registry and fan-out of
-- server/server.go. A call holds no lock between its steps, and each runs here on its own. The
-- session that handles a request is the live one for its id; a stale one has a closed outbox.
pub mod Evolves
pub mod Frame
pub mod Registry
pub mod Reply
pub mod Secrets
pub mod Pressure
use go_sdk.Prelude.{
  ℕ, suc, ◌+◌, ◌-◌, ◌%◌, Bool, true, false, not, ◌&&◌, ◌||◌, List, [], ◌∷◌, ◌++◌, Option, none,
  some, Text, text_beq, text_eq, codes, ltb, leb, nat_beq, if◌then◌else◌, Dict, lookup, insert,
  delete,
}
use Prim.Native.String.{String}
use go_sdk.Errors.{ErrorCode, GoError, Message, internal_error, code_discrete}
use go_sdk.EventLog.{Entry, Memory, append, trim}
use go_sdk.Features.{has_feature}
use go_sdk.Server.Job.{Job, Status, Terminal}
use go_sdk.Server.Listing.{JobInfo}
use go_sdk.Server.Resume.{or_new, alloc_for}

-- The session pointer, as the id and a number for the struct, and what the handshake fixes.
pub record Session : Type 0 where
  pub id : Text
  pub incarnation : ℕ
  pub principal : Text
  pub features : List Text

-- The message of a session.error: fixed, or an error's own text, alone or after a prefix.
pub data ErrorText : Type 0 where
  plain : Message → ErrorText
  printed : GoError → ErrorText
  prefixed : String → GoError → ErrorText

-- The body of a job.event: a `StatusBody` with its details, which is JSON by its fields, or other
-- JSON with the phase that json.Unmarshal reads from it into a `StatusBody`, `none` if it fails.
pub data Body : Type 0 where
  status_body : Text → Text → Dict Text Text → Body
  other_body : Text → Option Text → Body

unfoldable pub phase_of : Body → Option Text
phase_of (status_body phase message details) = some phase
phase_of (other_body json phase) = phase

-- The payloads that the server sends. A job.event has its kind and its body.
pub data Payload : Type 0 where
  session_error : ErrorCode → ErrorText → Bool → Text → Payload
  session_pong : Text → Payload
  session_jobs : Text → List JobInfo → Text → Payload
  session_closed : Text → Payload
  job_accepted : Text → Payload
  job_cancelled : Text → Text → Payload
  job_subscribed : Text → Status → ℕ → Bool → Payload
  job_event : Text → Body → Payload
  back_pressure : ℕ → ℕ → ℕ → Payload
  job_ended : Terminal → Payload

pub record Envelope : Type 0 where
  pub payload : Payload
  pub session_id : Text
  pub job_id : Text
  pub event_seq : ℕ

-- A live session: what went onto its outbox, whether that is closed or its context done, whether
-- the channel is full at the moment, and the fields of the acknowledgements.
pub record Conn : Type 0 where
  pub session : Session
  pub outbox : List Envelope
  pub outbox_closed : Bool
  pub ctx_done : Bool
  pub saturated : Bool
  pub high : ℕ
  pub back_pressure_armed : Bool

pub record Subscription : Type 0 where
  pub session : Session
  pub closed : Bool

-- A registered job: the fields that do not change, and the state.
pub record Registered : Type 0 where
  pub session_id : Text
  pub principal : Text
  pub agent : Text
  pub created_at : ℕ
  pub state : Job

pub record World : Type 0 where
  pub conns : Dict Text Conn
  pub allocs : Dict Text ℕ
  pub log : Memory Envelope
  pub jobs : Dict Text Registered
  pub subs : Dict Text (List Subscription)
  pub ack_lag_threshold : ℕ

unfoldable pub next_seq : World → Text → World × ℕ
next_seq w id =
    let n : ℕ = suc (alloc_for w.allocs id) in (record w { allocs = insert id n w.allocs }, n)

unfoldable pub current_seq : World → Text → ℕ
current_seq w id = alloc_for w.allocs id

abbrev pub phase_credential_rotated : Text
phase_credential_rotated = codes "credential_rotated"

is_rotated_phase : Option Text → Bool
is_rotated_phase none = false
is_rotated_phase (some phase) = text_beq phase phase_credential_rotated

-- Events of other kinds are not decoded.
unfoldable pub is_credential_rotation : Payload → Bool
unfolding is_rotated_phase phase_of
is_credential_rotation (job_event kind body) =
    text_beq kind (codes "status") && is_rotated_phase (phase_of body)
is_credential_rotation _ = false

unfoldable pub persist_outbound : World → ℕ → Text → Envelope → World
persist_outbound w now id env =
    if nat_beq env.event_seq 0
    then w
    else if is_credential_rotation env.payload
    then w
    else record w {
      log = append w.log now (record {
        session_id = id;
        event_seq = env.event_seq;
        job_id = env.job_id;
        stored_at = now;
        envelope = env;
      });
    }

unfoldable pub set_conn : World → Text → Conn → World
set_conn w id c = record w { conns = insert id c w.conns }

-- The channel send of `enqueue`, which gives up when the session's context is done.
unfoldable pub push : Conn → Envelope → Conn
push c env = if c.ctx_done then c else record c { outbox = c.outbox ++ env ∷ [] }

-- A difference of uint64 numbers, which wraps around.
unfoldable pub sub_u64 : ℕ → ℕ → ℕ
sub_u64 a b = (a + 18446744073709551616 - b) % 18446744073709551616

-- `seq <= high || seq-high < threshold`
unfoldable pub is_caught_up : ℕ → ℕ → ℕ → Bool
is_caught_up seq high threshold = leb seq high || ltb (sub_u64 seq high) threshold

-- The channel send that does not block: on a full channel the breach may fire again.
unfoldable pub offer_pressure : Conn → Envelope → Conn
offer_pressure c env =
    if c.outbox_closed
    then c
    else if c.saturated
    then record c { back_pressure_armed = true }
    else record c { outbox = c.outbox ++ env ∷ [] }

-- The event, once it is decided on: numbered, persisted and offered.
unfoldable pub emit_back_pressure : World → ℕ → Text → Conn → Text → ℕ → World
unfolding next_seq
emit_back_pressure w now id c job_id seq =
    let numbered : World × ℕ = next_seq w id in
    let env : Envelope = record {
      payload = back_pressure w.ack_lag_threshold seq c.high;
      session_id = id;
      job_id = job_id;
      event_seq = numbered.1;
    } in
    set_conn (persist_outbound numbered.0 now id env) id
      (offer_pressure (record c { back_pressure_armed = false }) env)

unfoldable pub maybe_emit_back_pressure : World → ℕ → Text → Conn → Text → ℕ → World
maybe_emit_back_pressure w now id c job_id seq =
    if nat_beq w.ack_lag_threshold 0 || not (has_feature c.session.features (codes "ack"))
    then w
    else if is_caught_up seq c.high w.ack_lag_threshold
    then w
    else if not c.back_pressure_armed
    then w
    else emit_back_pressure w now id c job_id seq

enqueue_on : World → ℕ → Text → Envelope → Option Conn → World
enqueue_on w now id env none = w
enqueue_on w now id env (some c) =
    if c.outbox_closed
    then w
    else maybe_emit_back_pressure (set_conn w id (push c env)) now id (push c env) env.job_id
        env.event_seq

-- `enqueue` on the live session, `none` for a session whose outbox is closed.
unfoldable pub enqueue : World → ℕ → Text → Envelope → World
unfolding enqueue_on
enqueue w now id env = enqueue_on w now id env (lookup id w.conns)

unfoldable pub send : World → ℕ → Text → Envelope → World
send w now id env =
    let out : Envelope = record env { session_id = id } in
    enqueue (persist_outbound w now id out) now id out

unfoldable pub send_ephemeral : World → ℕ → Text → Envelope → World
send_ephemeral w now id env = enqueue w now id (record env { session_id = id })

-- An envelope of the session with the next number.
unfoldable pub send_numbered : World → ℕ → Text → Text → Payload → World
unfolding next_seq
send_numbered w now id job_id payload =
    let numbered : World × ℕ = next_seq w id in
    send numbered.0 now id
      (record { payload = payload; session_id = id; job_id = job_id; event_seq = numbered.1 })

is_internal : ErrorCode → Bool
is_internal code = elim (code_discrete code internal_error) [ yes _ ↦ true | no _ ↦ false ]

-- `sendErrorFor` on a request with an id and a job id.
unfoldable pub send_error_for : World → ℕ → Text → Text → Text → ErrorCode → ErrorText → World
unfolding is_internal
send_error_for w now id request_id job_id code msg = send w now id (record {
  payload = session_error code msg (is_internal code) request_id;
  session_id = id;
  job_id = job_id;
  event_seq = 0;
})

-- `publish`, with a number of the subscriber's own session.
unfoldable pub publish : World → ℕ → Envelope → Subscription → World
unfolding next_seq
publish w now env sub =
    if sub.closed
    then w
    else let numbered : World × ℕ = next_seq w sub.session.id in
      send numbered.0 now sub.session.id (record env { event_seq = numbered.1 })

abbrev pub subs_or : Option (List Subscription) → List Subscription
subs_or none = []
subs_or (some subs) = subs

unfoldable pub subscribers : World → Text → List Subscription
subscribers w job_id = subs_or (lookup job_id w.subs)

unfoldable pub publish_all : World → ℕ → Envelope → List Subscription → World
publish_all w now env [] = w
publish_all w now env (sub ∷ subs) = publish_all (publish w now env sub) now env subs

unfoldable pub fanout_event : World → ℕ → Text → Envelope → World
fanout_event w now job_id env = publish_all w now env (subscribers w job_id)

unfoldable pub add_subscriber : World → Text → Subscription → World
add_subscriber w job_id sub = record w {
  subs = insert job_id (subscribers w job_id ++ sub ∷ []) w.subs;
}

same_session : Session → Session → Bool
same_session a b = text_beq a.id b.id && nat_beq a.incarnation b.incarnation

-- `removeSubscriber` of the first subscription of the session.
remove_first : Session → List Subscription → List Subscription
unfolding same_session
remove_first s [] = []
remove_first s (sub ∷ subs) = if same_session sub.session s then subs else sub ∷ remove_first s subs

unfoldable pub remove_subscriber : World → Text → Session → World
unfolding remove_first same_session
remove_subscriber w job_id s = record w {
  subs = insert job_id (remove_first s (subscribers w job_id)) w.subs;
}

is_registered : Option Registered → Bool
is_registered none = false
is_registered (some j) = true

unfoldable pub register_job : World → Text → Registered → World × Bool
unfolding is_registered
register_job w id j =
    if is_registered (lookup id w.jobs)
    then (w, false)
    else (record w { jobs = insert id j w.jobs }, true)

unfoldable pub unregister_job : World → Text → World
unregister_job w id = record w { jobs = delete id w.jobs; subs = delete id w.subs }

-- `setCurrentSession`, with the fields of `newSession`.
unfoldable pub set_current_session : World → Session → World
set_current_session w s = set_conn w s.id (record {
  session = s;
  outbox = [];
  outbox_closed = false;
  ctx_done = false;
  saturated = false;
  high = 0;
  back_pressure_armed = true;
})

clear_if : World → Session → Option Conn → World
unfolding same_session
clear_if w s none = w
clear_if w s (some c) =
    if same_session c.session s then record w { conns = delete s.id w.conns } else w

unfoldable pub clear_current_session : World → Session → World
unfolding clear_if same_session
clear_current_session w s = clear_if w s (lookup s.id w.conns)
