-- ===== src/Server/Submit/Handle/Answers.antt =====
-- What a client gets for a submit: one envelope.
use go_sdk.Prelude.{◌≡◌, Bool, [], ◌∷◌, ◌++◌, none, some, Text, text_eq, lookup}
use go_sdk.Errors.{ErrorCode}
use go_sdk.Lease.{Floats}
use go_sdk.IdStore
use go_sdk.Server.World.{Session, Envelope, Conn, ErrorText, session_error, job_accepted}
use go_sdk.Server.World.Reply.{reply}
use go_sdk.Server.Submit.{JobAccepted, Arrival, Services, Submits}

-- The outbox of the live session has the envelope at its end, and the session is else as it was.
abbrev pub IsSent : Conn → Session → Submits → Envelope → Type 0
IsSent c s v env = lookup s.id v.world.conns ≡ some (record c { outbox = c.outbox ++ env ∷ [] })

abbrev IsReady : Submits → Conn → Session → Submits → Type 0
IsReady st c s u = (u.started ≡ st.started) × (lookup s.id u.world.conns ≡ some c)

module _ {F : Type 0} (fl : Floats) (env : Services F fl) where
  -- The job is started and accepted, or it is not started and an error is sent, or the accepted job of
  -- an earlier submit, or an accepted job does not marshal and nothing is sent.
  pub data IsAnswered (st : Submits) (c : Conn) (s : Session) (a : Arrival) (v : Submits)
      : Type 0 where
    accepted :
        (raw : Text)
        → v.started ≡ st.started ++ a.job_id ∷ []
        → IsSent c s v (reply s a.job_id (job_accepted raw))
        → IsAnswered st c s a v
    refused :
        (code : ErrorCode) (msg : ErrorText) (retryable : Bool)
        → v.started ≡ st.started
        → IsSent c s v (reply s a.env_job_id (session_error code msg retryable a.request_id))
        → IsAnswered st c s a v
    replayed :
        (job_id raw : Text)
        → v.started ≡ st.started
        → IsSent c s v (reply s job_id (job_accepted raw))
        → IsAnswered st c s a v
    unmarshalled :
        (acc : JobAccepted fl)
        → env.marshal acc ≡ none
        → v.started ≡ st.started
        → lookup s.id v.world.conns ≡ some c
        → IsAnswered st c s a v
