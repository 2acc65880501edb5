-- ===== src/Server/Submit/Handle/Keys.antt =====
-- What becomes of the keys in the stages of a submit.
use go_sdk.Prelude.{
  ◌≡◌, ◌⊎◌, refl, inl, inr, if_cases, Bool, true, false, not, List, [], Option, none, some, Text,
  text_beq, text_eq, codes, if◌then◌else◌, lookup,
}
use go_sdk.Errors.{}
use go_sdk.Features.{has_feature}
use go_sdk.Lease.{Floats}
use go_sdk.IdStore
use go_sdk.Server.Job.{Credential}
use go_sdk.Server.World.{Session, Registered}
use go_sdk.Server.Session.{Decoded, decoded, malformed}
use go_sdk.Server.Submit.{
  acceptance, issue_request, JobSubmit, JobAccepted, Arrival, Services, Submits, refuse, withdraw,
  remember, accept_marshalled, attach_found, accept_issued, accept_provisioned, submit_fresh,
}
use go_sdk.Server.Submit.Handle.{
  replay_marshalled, replay_decoded, replay_accepted, submit_repeat, submit_stored, id_entry,
  submit_keyed,
}
use go_sdk.Server.Submit.{Issued, issued, issue_failed, IssueRequest}
use go_sdk.IdStore.Keys.{
  HasKey, put_if_absent-HasKey, set_accepted-HasKey, put_if_absent-present, put_if_absent-there,
}

-- What a stage does: it keeps every key, and starts nothing or leaves the key of the submit there.
abbrev pub KeepsKeys : Submits → Submits → Type 0
KeepsKeys st v = (k : Text) → HasKey k st.ids → HasKey k v.ids

same-KeepsKeys : (st v : Submits) → v.ids ≡ st.ids → KeepsKeys st v
same-KeepsKeys st v e k h = rw e h

remember-HasKey :
    (st : Submits) (a : Arrival) (s : Session) (req : JobSubmit) (raw k : Text)
    → HasKey k st.ids
    → HasKey k (remember st a s req raw)
unfolding remember
remember-HasKey st a s req raw k h =
    if_cases (HasKey k) (not (text_beq req.idempotency_key [])) _ _
      (λ e. set_accepted-HasKey k a.set_done st.ids s.principal req.idempotency_key raw h) (λ e. h)

accept_marshalled-KeepsKeys :
    (st : Submits) (a : Arrival) (s : Session) (req : JobSubmit) (raw : Option Text)
    → KeepsKeys st (accept_marshalled st a s req raw)
unfolding accept_marshalled withdraw
accept_marshalled-KeepsKeys st a s req none k h = h
accept_marshalled-KeepsKeys st a s req (some raw) k h = remember-HasKey st a s req raw k h

attach_found-ids :
    (st : Submits) (a : Arrival) (creds : List Credential) (r : Option Registered)
    → (attach_found st a creds r).ids ≡ st.ids
unfolding attach_found
attach_found-ids st a creds none = refl
attach_found-ids st a creds (some j) = refl

module _ {F : Type 0} (fl : Floats) (env : Services F fl) where
  accept_issued-KeepsKeys :
      (st : Submits) (a : Arrival) (s : Session) (req : JobSubmit) (canonical : Text) (r : Issued)
      → KeepsKeys st (accept_issued fl env st a s req canonical r)
  unfolding accept_issued refuse withdraw
  accept_issued-KeepsKeys st a s req canonical (issue_failed e) k h = h
  accept_issued-KeepsKeys st a s req canonical (issued creds) k h =
      let u : Submits = attach_found st a creds (lookup a.job_id st.world.jobs) in
      accept_marshalled-KeepsKeys u a s req (env.marshal (acceptance fl env a req canonical creds))
        k (rw (attach_found-ids st a creds (lookup a.job_id st.world.jobs)) h)

  accept_provisioned-KeepsKeys :
      (st : Submits) (a : Arrival) (s : Session) (req : JobSubmit) (canonical : Text)
      (issue : Option (IssueRequest fl → Issued))
      → KeepsKeys st (accept_provisioned fl env st a s req canonical issue)
  unfolding accept_provisioned
  accept_provisioned-KeepsKeys st a s req canonical none k h =
      accept_marshalled-KeepsKeys st a s req (env.marshal (acceptance fl env a req canonical [])) k
        h
  accept_provisioned-KeepsKeys st a s req canonical (some issue) k h =
      accept_issued-KeepsKeys st a s req canonical (issue (issue_request fl env a s req canonical))
        k h

  submit_fresh-KeepsKeys :
      (st : Submits) (a : Arrival) (s : Session) (req : JobSubmit) (canonical : Text)
      → KeepsKeys st (submit_fresh fl env st a s req canonical)
  unfolding submit_fresh
  submit_fresh-KeepsKeys st a s req canonical =
      accept_provisioned-KeepsKeys st a s req canonical
        (if has_feature s.features (codes "provisioned_credentials") then env.provisioner else none)

  replay_marshalled-same :
      (st : Submits) (a : Arrival) (s : Session) (job_id : Text) (raw : Option Text)
      → ((replay_marshalled fl env st a s job_id raw).ids ≡ st.ids)
        × ((replay_marshalled fl env st a s job_id raw).started ≡ st.started)
  unfolding replay_marshalled
  replay_marshalled-same st a s job_id none = (refl, refl)
  replay_marshalled-same st a s job_id (some raw) = (refl, refl)

  replay_decoded-same :
      (st : Submits) (a : Arrival) (s : Session) (d : Decoded (JobAccepted fl))
      → ((replay_decoded fl env st a s d).ids ≡ st.ids)
        × ((replay_decoded fl env st a s d).started ≡ st.started)
  unfolding replay_decoded refuse
  replay_decoded-same st a s (malformed e) = (refl, refl)
  replay_decoded-same st a s (decoded acc) =
      replay_marshalled-same st a s acc.job_id (env.marshal acc)

  replay_accepted-same :
      (st : Submits) (a : Arrival) (s : Session) (entry : IdStore.Entry)
      → ((replay_accepted fl env st a s entry).ids ≡ st.ids)
        × ((replay_accepted fl env st a s entry).started ≡ st.started)
  unfolding replay_accepted
  replay_accepted-same st a s entry = replay_decoded-same st a s (env.unmarshal entry.accepted)

  submit_repeat-same :
      (st : Submits) (a : Arrival) (s : Session) (req : JobSubmit) (entry : IdStore.Entry)
      → ((submit_repeat fl env st a s req entry).ids ≡ st.ids)
        × ((submit_repeat fl env st a s req entry).started ≡ st.started)
  unfolding submit_repeat refuse
  submit_repeat-same st a s req entry =
      let P : Submits → Type 0 = λ v. (v.ids ≡ st.ids) × (v.started ≡ st.started) in
      if_cases P (not (text_beq entry.params_hash (env.params_hash req))) _ _ (λ k. (refl, refl))
        (λ k.
          if_cases P (text_beq entry.accepted []) _ (replay_accepted fl env st a s entry)
            (λ e. (refl, refl)) (λ e. replay_accepted-same st a s entry))

  submit_stored-KeepsKeys :
      (st : Submits) (a : Arrival) (s : Session) (req : JobSubmit) (canonical : Text)
      (r : IdStore.Outcome (IdStore.Entry × Bool))
      → KeepsKeys st (submit_stored fl env st a s req canonical r)
  unfolding submit_stored refuse withdraw
  submit_stored-KeepsKeys st a s req canonical IdStore.context_done k h = h
  submit_stored-KeepsKeys st a s req canonical (IdStore.ok (entry, true)) k h =
      submit_fresh-KeepsKeys st a s req canonical k h
  submit_stored-KeepsKeys st a s req canonical (IdStore.ok (entry, false)) k h =
      rw (submit_repeat-same (withdraw st a) a s req entry).0 h

  pub submit_keyed-KeepsKeys :
      (st : Submits) (a : Arrival) (s : Session) (req : JobSubmit) (canonical : Text)
      → KeepsKeys st (submit_keyed fl env st a s req canonical)
  unfolding submit_keyed
  submit_keyed-KeepsKeys st a s req canonical k h =
      let r : IdStore.Store × IdStore.Outcome (IdStore.Entry × Bool) =
        IdStore.put_if_absent a.put_done st.ids a.now (id_entry fl env a s req) in
      if_cases (λ v. HasKey k v.ids) (text_beq req.idempotency_key [])
        (submit_fresh fl env st a s req canonical)
        (submit_stored fl env (record st { ids = r.0 }) a s req canonical r.1)
        (λ e. submit_fresh-KeepsKeys st a s req canonical k h)
        (λ e.
          submit_stored-KeepsKeys (record st { ids = r.0 }) a s req canonical r.1 k
            (put_if_absent-HasKey k a.put_done st.ids a.now (id_entry fl env a s req) h))

  -- The store's answer, for a context that is done or not.
  abbrev answered : Bool → Submits → Arrival → Session → JobSubmit → Text → Submits
  answered done st a s req canonical =
      let r : IdStore.Store × IdStore.Outcome (IdStore.Entry × Bool) =
        IdStore.put_if_absent done st.ids a.now (id_entry fl env a s req) in
      submit_stored fl env (record st { ids = r.0 }) a s req canonical r.1

  answered-present :
      (done : Bool) (st : Submits) (a : Arrival) (s : Session) (req : JobSubmit) (canonical : Text)
      → HasKey (IdStore.store_key s.principal req.idempotency_key) st.ids
      → (answered done st a s req canonical).started ≡ st.started
  unfolding submit_stored withdraw
  answered-present true st a s req canonical there = unfold IdStore.put_if_absent refuse in refl
  answered-present false st a s req canonical (held, there) =
      rw (put_if_absent-present st.ids a.now (id_entry fl env a s req) held there)
        (submit_repeat-same (withdraw st a) a s req held).1

  answered-there :
      (done : Bool) (st : Submits) (a : Arrival) (s : Session) (req : JobSubmit) (canonical : Text)
      → ((answered done st a s req canonical).started ≡ st.started)
        ⊎ HasKey
            (IdStore.store_key s.principal req.idempotency_key)
            (answered done st a s req canonical).ids
  answered-there true st a s req canonical =
      inl (unfold IdStore.put_if_absent submit_stored refuse withdraw in refl)
  answered-there false st a s req canonical =
      let r : IdStore.Store × IdStore.Outcome (IdStore.Entry × Bool) =
        IdStore.put_if_absent false st.ids a.now (id_entry fl env a s req) in
      inr (
        submit_stored-KeepsKeys (record st { ids = r.0 }) a s req canonical r.1
          (IdStore.store_key s.principal req.idempotency_key)
          (put_if_absent-there st.ids a.now (id_entry fl env a s req)))

  -- A key that is there starts nothing.
  pub submit_keyed-present :
      (st : Submits) (a : Arrival) (s : Session) (req : JobSubmit) (canonical : Text)
      → text_beq req.idempotency_key [] ≡ false
      → HasKey (IdStore.store_key s.principal req.idempotency_key) st.ids
      → (submit_keyed fl env st a s req canonical).started ≡ st.started
  unfolding submit_keyed
  submit_keyed-present st a s req canonical some_key there =
      rw some_key (answered-present a.put_done st a s req canonical there)

  -- The key is there afterwards, or nothing is started.
  pub submit_keyed-there :
      (st : Submits) (a : Arrival) (s : Session) (req : JobSubmit) (canonical : Text)
      → text_beq req.idempotency_key [] ≡ false
      → ((submit_keyed fl env st a s req canonical).started ≡ st.started)
        ⊎ HasKey
            (IdStore.store_key s.principal req.idempotency_key)
            (submit_keyed fl env st a s req canonical).ids
  unfolding submit_keyed
  submit_keyed-there st a s req canonical some_key =
      rw some_key (answered-there a.put_done st a s req canonical)
