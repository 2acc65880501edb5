-- ===== src/Server/Session/Follow.antt =====
-- job.subscribe: whom it lets follow a job.
use go_sdk.Prelude.{
  ℕ, ◌≡◌, ◌⊎◌, refl, ◌∙◌, true, false, not, List, [], ◌∷◌, ◌++◌, Option, none, some, Text, text_beq,
  text_eq, text_beq_iff, codes, if◌then◌else◌, if_cases, lookup, lookup-insert, inl, inr, arith,
}
use go_sdk.Features.{has_feature}
use go_sdk.EventLog.{Entry, since_job}
use go_sdk.Server.World.{
  Session, Envelope, Subscription, Registered, World, next_seq, enqueue, add_subscriber,
  subscribers, subs_or,
}
use go_sdk.Server.World.Frame.{
  KeepsJobs, KeepsJobs-trans, send-KeepsJobs, send_error_for-KeepsJobs, enqueue-KeepsJobs,
}
use go_sdk.Server.Session.{
  SubscribeRequest, replay_history, handle_job_subscribe, subscribe_decoded, subscribe_found,
  subscribe_granted, answer_subscribe, reply_subscribed,
}

subscribers-add_subscriber :
    (w : World) (job_id other : Text) (sub : Subscription)
    → subscribers (add_subscriber w job_id sub) other
      ≡ (if text_beq job_id other then subscribers w job_id ++ sub ∷ [] else subscribers w other)
unfolding subscribers add_subscriber
subscribers-add_subscriber w job_id other sub =
    ground (arith, lookup-insert job_id other (subs_or (lookup job_id w.subs) ++ sub ∷ []) w.subs)

subscribers-KeepsJobs :
    (w v : World) (other : Text) → KeepsJobs w v → subscribers v other ≡ subscribers w other
unfolding subscribers
subscribers-KeepsJobs w v other kept = rw kept.1 refl

replay_history-KeepsJobs :
    (es : List (Entry Envelope)) (w : World) (now : ℕ) (id : Text)
    → KeepsJobs w (replay_history w now id es)
unfolding replay_history next_seq
replay_history-KeepsJobs [] w now id = (refl, refl)
replay_history-KeepsJobs (e ∷ es) w now id =
    let u : World =
      enqueue (next_seq w id).0 now id
        (record e.envelope { session_id = id; event_seq = (next_seq w id).1 }) in
    KeepsJobs-trans w u (replay_history u now id es)
      (enqueue-KeepsJobs (next_seq w id).0 now id
        (record e.envelope { session_id = id; event_seq = (next_seq w id).1 }))
      (replay_history-KeepsJobs es u now id)

answer_subscribe-KeepsJobs :
    (w : World) (now : ℕ) (s : Session) (req : SubscribeRequest) (j : Registered)
    → KeepsJobs w (answer_subscribe w now s req j)
unfolding answer_subscribe
answer_subscribe-KeepsJobs w now s req j =
    let u : World = reply_subscribed w now s req j in
    let replied : KeepsJobs w u = unfold reply_subscribed in send-KeepsJobs w now s.id _ in
    let es : List (Entry Envelope) = since_job u.log req.job_id req.from_event_seq in
    if_cases (KeepsJobs w) req.history (replay_history u now s.id es) u
      (λ h.
        KeepsJobs-trans w u (replay_history u now s.id es) replied
          (replay_history-KeepsJobs es u now s.id))
      (λ h. replied)

-- The session negotiated subscriptions, and the job is registered with the principal of the session.
abbrev pub IsGranted : World → Session → SubscribeRequest → Type 0
IsGranted w s req =
    (has_feature s.features (codes "subscribe") ≡ true)
    × ((j : Registered) × (lookup req.job_id w.jobs ≡ some j) × (j.principal ≡ s.principal))

-- The subscribers of a job after the request, if it decodes.
abbrev pub IsFollowed :
    World → Session → Option SubscribeRequest → Text → List Subscription → Type 0
IsFollowed w s none other after = after ≡ subscribers w other
IsFollowed w s (some req) other after =
    (IsGranted w s req
      × (after ≡ (
          if text_beq req.job_id other
          then subscribers w req.job_id ++ record { session = s; closed = false } ∷ []
          else subscribers w other)))
    ⊎ ((¬ IsGranted w s req) × (after ≡ subscribers w other))

refused-IsFollowed :
    (w v : World) (s : Session) (req : SubscribeRequest) (other : Text)
    → (¬ IsGranted w s req)
    → KeepsJobs w v
    → IsFollowed w s (some req) other (subscribers v other)
refused-IsFollowed w v s req other refused kept =
    inr (refused, subscribers-KeepsJobs w v other kept)

granted-IsFollowed :
    (w : World) (now : ℕ) (s : Session) (req : SubscribeRequest) (other : Text) (j : Registered)
    → IsGranted w s req
    → IsFollowed w s (some req) other (subscribers (subscribe_granted w now s req j) other)
unfolding subscribe_granted
granted-IsFollowed w now s req other j granted =
    let sub : Subscription = record { session = s; closed = false } in
    let u : World = add_subscriber w req.job_id sub in
    inl (
      granted,
      subscribers-KeepsJobs u (answer_subscribe u now s req j) other
            (answer_subscribe-KeepsJobs u now s req j)
          ∙ subscribers-add_subscriber w req.job_id other sub,
    )

subscribe_found-IsFollowed :
    (w : World) (now : ℕ) (s : Session) (request_id : Text) (req : SubscribeRequest) (other : Text)
    (found : Option Registered)
    → has_feature s.features (codes "subscribe") ≡ true
    → lookup req.job_id w.jobs ≡ found
    → IsFollowed w s
        (some req)
        other
        (subscribers (subscribe_found w now s request_id req found) other)
unfolding subscribe_found
subscribe_found-IsFollowed w now s request_id req other none negotiated e =
    refused-IsFollowed w _ s req other (λ (feature, (j, found, owns)). ground arith)
      (send_error_for-KeepsJobs w now s.id request_id [] _ _)
subscribe_found-IsFollowed w now s request_id req other (some j) negotiated e =
    if_cases (λ v. IsFollowed w s (some req) other (subscribers v other))
      (not (text_beq j.principal s.principal)) _ _
      (λ foreign.
        refused-IsFollowed w _ s req other
          (λ (feature, (k, found, owns)). ground (arith, text_beq_iff j.principal s.principal))
          (send_error_for-KeepsJobs w now s.id request_id [] _ _))
      (λ own.
        granted-IsFollowed w now s req other j
          (negotiated, (j, e, ground (arith, text_beq_iff j.principal s.principal))))

subscribe_decoded-IsFollowed :
    (w : World) (now : ℕ) (s : Session) (request_id : Text) (req : Option SubscribeRequest)
    (other : Text)
    → has_feature s.features (codes "subscribe") ≡ true
    → IsFollowed w s req other (subscribers (subscribe_decoded w now s request_id req) other)
unfolding subscribe_decoded
subscribe_decoded-IsFollowed w now s request_id none other negotiated = refl
subscribe_decoded-IsFollowed w now s request_id (some req) other negotiated =
    subscribe_found-IsFollowed w now s request_id req other (lookup req.job_id w.jobs) negotiated
      refl

not_negotiated-IsFollowed :
    (w v : World) (s : Session) (req : Option SubscribeRequest) (other : Text)
    → has_feature s.features (codes "subscribe") ≡ false
    → KeepsJobs w v
    → IsFollowed w s req other (subscribers v other)
not_negotiated-IsFollowed w v s none other missing kept = subscribers-KeepsJobs w v other kept
not_negotiated-IsFollowed w v s (some req) other missing kept =
    refused-IsFollowed w v s req other (λ (feature, found). ground arith) kept

-- A job.subscribe with no other call in between makes its session the last subscriber of the job that
-- it names, exactly if the session negotiated subscriptions, the job is registered and the session has
-- the principal of the job. It changes the subscribers of no other job, and otherwise of none.
pub handle_job_subscribe_follows :
    (w : World) (now : ℕ) (s : Session) (request_id : Text) (req : Option SubscribeRequest)
    (other : Text)
    → IsFollowed w s req other (subscribers (handle_job_subscribe w now s request_id req) other)
unfolding handle_job_subscribe
handle_job_subscribe_follows w now s request_id req other =
    if_cases (λ v. IsFollowed w s req other (subscribers v other))
      (not (has_feature s.features (codes "subscribe"))) _ _
      (λ missing.
        not_negotiated-IsFollowed w _ s req other (ground arith)
          (send_error_for-KeepsJobs w now s.id request_id [] _ _))
      (λ negotiated. subscribe_decoded-IsFollowed w now s request_id req other (ground arith))
