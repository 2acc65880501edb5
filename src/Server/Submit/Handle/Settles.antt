-- ===== src/Server/Submit/Handle/Settles.antt =====
-- What a submit leaves among the jobs, from the registration of its job on.
use go_sdk.Prelude.{
  ◌≡◌, ◌⊎◌, ◌∙◌, sym, refl, inl, inr, if_cases, Bool, true, false, not, [], Option, none, some,
  Text, text_beq, text_eq, text_beq_iff, codes, if◌then◌else◌, lookup, insert, arith,
}
use go_sdk.Features.{has_feature}
use go_sdk.Lease.{Floats}
use go_sdk.IdStore
use go_sdk.IdStore.Keys.{put_if_absent-present, put_if_absent-absent}
use go_sdk.Server.World.{Session}
use go_sdk.Server.World.Frame.{send-KeepsJobs}
use go_sdk.Server.Session.{Decoded, decoded, malformed}
use go_sdk.Server.Submit.{
  JobSubmit, JobAccepted, Arrival, Services, Submits, Issued, issued, issue_failed, IssueRequest,
  withdraw, accepted_env, accept_marshalled, attach_found, acceptance, issue_request, accept_issued,
  accept_provisioned, submit_fresh,
}
use go_sdk.Server.Submit.Handle.{
  replay_marshalled, replay_decoded, replay_accepted, submit_repeat, submit_stored, submit_keyed,
  id_entry,
}
use go_sdk.Server.Submit.Handle.Admission.{IsNewKey, IsFailing}
use go_sdk.Server.Submit.Handle.Pending.{
  IsUntouched, IsStarted, IsPending, refuse-IsUntouched, withdraw-IsUntouched,
  attach_found-IsPending, accept_marshalled-IsStarted, withdrawn,
}

some-none : {A : Type 0} (x : A) → (some x ≡ none) → ⊥
some-none x e = ground arith

module _ {F : Type 0} (fl : Floats) (env : Services F fl) where
  -- The job is started, or something failed and everything is as before.
  abbrev IsRun : Submits → Arrival → Session → Submits → Type 0
  IsRun st a s v = IsStarted st a s v ⊎ (IsUntouched st v × IsFailing fl env a)

  -- What a part of the handler does, under the condition that is left to be tested.
  abbrev pub Settles : Type 0 → Submits → Arrival → Session → Submits → Type 0
  Settles C st a s v = (IsStarted st a s v × C) ⊎ (IsUntouched st v × ((¬ C) ⊎ IsFailing fl env a))

  Settles-run :
      (C : Type 0) (st : Submits) (a : Arrival) (s : Session) (v : Submits)
      → C
      → IsRun st a s v
      → Settles C st a s v
  Settles-run C st a s v c (inl ran) = inl (ran, c)
  Settles-run C st a s v c (inr (same, fails)) = inr (same, inr fails)

  -- A further condition.
  pub Settles-under :
      (C D : Type 0) (st : Submits) (a : Arrival) (s : Session) (v : Submits)
      → (C → D)
      → (D → C)
      → Settles C st a s v
      → Settles D st a s v
  Settles-under C D st a s v to from (inl (ran, c)) = inl (ran, to c)
  Settles-under C D st a s v to from (inr (same, inl fails_c)) =
      inr (same, inl (λ d. fails_c (from d)))
  Settles-under C D st a s v to from (inr (same, inr fails)) = inr (same, inr fails)

  accept_marshalled-IsRun :
      (st u : Submits) (a : Arrival) (s : Session) (req : JobSubmit) (acc : JobAccepted fl)
      (raw : Option Text)
      → acc.job_id ≡ a.job_id
      → env.marshal acc ≡ raw
      → IsPending st a s u
      → IsRun st a s (accept_marshalled u a s req raw)
  accept_marshalled-IsRun st u a s req acc none mine e h =
      inr (unfold accept_marshalled in withdraw-IsUntouched st u a s h, inl (acc, mine, e))
  accept_marshalled-IsRun st u a s req acc (some raw) mine e h =
      inl (accept_marshalled-IsStarted st u a s req raw h)

  accept_issued-IsRun :
      (st u : Submits) (a : Arrival) (s : Session) (req : JobSubmit) (canonical : Text)
      (issue : IssueRequest fl → Issued) (r : Issued)
      → env.provisioner ≡ some issue
      → issue (issue_request fl env a s req canonical) ≡ r
      → IsPending st a s u
      → IsRun st a s (accept_issued fl env u a s req canonical r)
  unfolding accept_issued
  accept_issued-IsRun st u a s req canonical issue (issue_failed e) there fails h = inr (
    withdrawn st u a s _ _ h,
    inr (issue, there, (issue_request fl env a s req canonical, refl, (e, fails))),
  )
  accept_issued-IsRun st u a s req canonical issue (issued creds) there gives h =
      accept_marshalled-IsRun st (attach_found u a creds (lookup a.job_id u.world.jobs)) a s req
        (acceptance fl env a req canonical creds) _ refl refl
        (attach_found-IsPending st u a s creds (lookup a.job_id u.world.jobs) refl h)

  accept_provisioned-IsRun :
      (st u : Submits) (a : Arrival) (s : Session) (req : JobSubmit) (canonical : Text)
      (found : Option (IssueRequest fl → Issued))
      → (found ≡ none) ⊎ (found ≡ env.provisioner)
      → IsPending st a s u
      → IsRun st a s (accept_provisioned fl env u a s req canonical found)
  unfolding accept_provisioned
  accept_provisioned-IsRun st u a s req canonical none e h =
      accept_marshalled-IsRun st u a s req (acceptance fl env a req canonical []) _ refl refl h
  accept_provisioned-IsRun st u a s req canonical (some issue) (inl e) h = absurd (ground arith)
  accept_provisioned-IsRun st u a s req canonical (some issue) (inr e) h =
      accept_issued-IsRun st u a s req canonical issue _ (sym e) refl h

  submit_fresh-IsRun :
      (st u : Submits) (a : Arrival) (s : Session) (req : JobSubmit) (canonical : Text)
      → IsPending st a s u
      → IsRun st a s (submit_fresh fl env u a s req canonical)
  unfolding submit_fresh
  submit_fresh-IsRun st u a s req canonical h =
      accept_provisioned-IsRun st u a s req canonical
        (if has_feature s.features (codes "provisioned_credentials") then env.provisioner else none)
        (ground arith) h

  replay_marshalled-IsUntouched :
      (st u : Submits) (a : Arrival) (s : Session) (job_id : Text) (raw : Option Text)
      → IsUntouched st u
      → IsUntouched st (replay_marshalled fl env u a s job_id raw)
  unfolding replay_marshalled
  replay_marshalled-IsUntouched st u a s job_id none h = h
  replay_marshalled-IsUntouched st u a s job_id (some raw) h = (
    h.0,
    λ other. rw (send-KeepsJobs u.world a.now s.id (accepted_env s job_id raw)).0 (h.1 other),
  )

  replay_decoded-IsUntouched :
      (st u : Submits) (a : Arrival) (s : Session) (d : Decoded (JobAccepted fl))
      → IsUntouched st u
      → IsUntouched st (replay_decoded fl env u a s d)
  unfolding replay_decoded
  replay_decoded-IsUntouched st u a s (malformed e) h = refuse-IsUntouched st u a s _ _ h
  replay_decoded-IsUntouched st u a s (decoded acc) h =
      replay_marshalled-IsUntouched st u a s acc.job_id (env.marshal acc) h

  replay_accepted-IsUntouched :
      (st u : Submits) (a : Arrival) (s : Session) (entry : IdStore.Entry)
      → IsUntouched st u
      → IsUntouched st (replay_accepted fl env u a s entry)
  unfolding replay_accepted
  replay_accepted-IsUntouched st u a s entry h =
      replay_decoded-IsUntouched st u a s (env.unmarshal entry.accepted) h

  submit_repeat-IsUntouched :
      (st u : Submits) (a : Arrival) (s : Session) (req : JobSubmit) (entry : IdStore.Entry)
      → IsUntouched st u
      → IsUntouched st (submit_repeat fl env u a s req entry)
  unfolding submit_repeat
  submit_repeat-IsUntouched st u a s req entry h =
      if_cases (IsUntouched st) (not (text_beq entry.params_hash (env.params_hash req))) _ _
        (λ k. refuse-IsUntouched st u a s _ _ h)
        (λ k.
          if_cases (IsUntouched st) (text_beq entry.accepted []) _ _
            (λ e. refuse-IsUntouched st u a s _ _ h)
            (λ e. replay_accepted-IsUntouched st u a s entry h))

  submit_put-Settles :
      (st u : Submits) (a : Arrival) (s : Session) (req : JobSubmit) (canonical : Text)
      (done : Bool) (held : Option IdStore.Entry)
      → text_beq req.idempotency_key [] ≡ false
      → a.put_done ≡ done
      → u.ids ≡ st.ids
      → lookup (IdStore.store_key s.principal req.idempotency_key) u.ids ≡ held
      → IsPending st a s u
      → Settles (IsNewKey st a s req) st a s (
          let r : IdStore.Store × IdStore.Outcome (IdStore.Entry × Bool) =
            IdStore.put_if_absent done u.ids a.now (id_entry fl env a s req) in
          submit_stored fl env (record u { ids = r.0 }) a s req canonical r.1)
  submit_put-Settles st u a s req canonical true held keyed d same there h = inr (
    unfold IdStore.put_if_absent submit_stored in withdrawn st u a s _ _ h,
    inl (λ (fresh : IsNewKey st a s req). elim fresh [
      | inl empty ↦ ground (arith, text_beq_iff req.idempotency_key [])
      | inr (live, absent) ↦ ground arith
    ]),
  )
  submit_put-Settles st u a s req canonical false (some entry) keyed d same there h =
      rw (put_if_absent-present u.ids a.now (id_entry fl env a s req) entry there) (
        inr (
          unfold submit_stored in
              submit_repeat-IsUntouched st (withdraw u a) a s req entry
                (withdraw-IsUntouched st u a s h),
          inl (λ (fresh : IsNewKey st a s req). elim fresh [
            | inl empty ↦ ground (arith, text_beq_iff req.idempotency_key [])
            | inr (live, absent) ↦ absurd (some-none entry (sym there ∙ rw same absent))
          ]),
        ))
  submit_put-Settles st u a s req canonical false none keyed d same there h =
      let e : IdStore.Entry = id_entry fl env a s req in
      let v : Submits = record u {
        ids =
            insert (IdStore.store_key s.principal req.idempotency_key) (IdStore.stamp a.now e)
              u.ids;
      } in
      let ran : Settles (IsNewKey st a s req) st a s (submit_fresh fl env v a s req canonical) =
        Settles-run (IsNewKey st a s req) st a s (submit_fresh fl env v a s req canonical)
          (inr (d, rw same at there)) (submit_fresh-IsRun st v a s req canonical h) in
      rw (put_if_absent-absent u.ids a.now e there) (unfold submit_stored in ran)

  pub submit_keyed-Settles :
      (st u : Submits) (a : Arrival) (s : Session) (req : JobSubmit) (canonical : Text)
      → u.ids ≡ st.ids
      → IsPending st a s u
      → Settles (IsNewKey st a s req) st a s (submit_keyed fl env u a s req canonical)
  unfolding submit_keyed
  submit_keyed-Settles st u a s req canonical same h =
      if_cases (Settles (IsNewKey st a s req) st a s) (text_beq req.idempotency_key []) _ _
        (λ k.
          Settles-run (IsNewKey st a s req) st a s (submit_fresh fl env u a s req canonical)
            (inl ((text_beq_iff req.idempotency_key []).0 k))
            (submit_fresh-IsRun st u a s req canonical h))
        (λ k. submit_put-Settles st u a s req canonical a.put_done _ k refl same refl h)
