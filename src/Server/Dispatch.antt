-- ===== src/Server/Dispatch.antt =====
-- server/session.go: `dispatch`, the handler for each type of a client's envelope. The flag of a
-- graceful end is left out, and so is an error that a handler returns, which is only logged.
use go_sdk.Prelude.{ℕ, List, [], ◌∷◌, Option, Text}
use go_sdk.Errors.{invalid_request, about}
use go_sdk.Lease.{Floats}
use go_sdk.Server.Agents.{Atoi}
use go_sdk.Server.Listing.{Decimals}
use go_sdk.Server.World.{Session, World, plain}
use go_sdk.Server.Session.{
  Decoded, ListRequest, SubscribeRequest, handle_ping, handle_ack, handle_list_jobs,
  handle_job_cancel, handle_job_subscribe, handle_job_unsubscribe, handle_session_close,
}
use go_sdk.Server.Submit.{JobSubmit, Arrival, Services, Submits, refuse}
use go_sdk.Server.Submit.Handle.{handle_job_submit}

-- An envelope by its type, with what its payload decodes to.
pub data Request : Type 0 where
  session_ping : Option Text → Request
  session_pong : Request
  session_ack : Option ℕ → Request
  session_list_jobs : Option ListRequest → Request
  session_close : Text → Request
  job_submit : Decoded JobSubmit → Request
  job_cancel : Decoded Text → Request
  job_subscribe : Option SubscribeRequest → Request
  job_unsubscribe : Option Text → Request
  unknown : Text → Request

in_world : Submits → World → Submits
in_world st w = record st { world = w }

module _ {F : Type 0} (fl : Floats) ⦃P : Atoi⦄ ⦃D : Decimals⦄ (env : Services F fl) where
  unfoldable pub dispatch : Submits → Arrival → Session → Request → Submits
  unfolding in_world
  dispatch st a s (session_ping nonce) = in_world st (handle_ping st.world a.now s nonce)
  dispatch st a s session_pong = st
  dispatch st a s (session_ack last) = in_world st (handle_ack st.world a.now s a.request_id last)
  dispatch st a s (session_list_jobs req) =
      in_world st (handle_list_jobs st.world a.now s a.request_id req)
  dispatch st a s (session_close why) = in_world st (handle_session_close st.world s why)
  dispatch st a s (job_submit d) = handle_job_submit fl env st a s d
  dispatch st a s (job_cancel why) =
      in_world st (handle_job_cancel st.world a.now s a.request_id a.env_job_id why)
  dispatch st a s (job_subscribe req) =
      in_world st (handle_job_subscribe st.world a.now s a.request_id req)
  dispatch st a s (job_unsubscribe job_id) = in_world st (handle_job_unsubscribe st.world s job_id)
  dispatch st a s (unknown typ) =
      refuse st a s invalid_request (plain (about "unknown envelope type " typ ""))

  -- The requests of any sessions, in the order in which they are handled.
  unfoldable pub dispatch_all : Submits → List (Arrival × Session × Request) → Submits
  dispatch_all st [] = st
  dispatch_all st ((a, s, r) ∷ more) = dispatch_all (dispatch st a s r) more
