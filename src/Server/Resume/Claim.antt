-- ===== src/Server/Resume/Claim.antt =====
-- server/server.go: who can claim a disconnected session (`claimResume`, `stashResume`, the purge).
use go_sdk.Prelude.{
  ℕ, ◌+◌, ◌≤◌, ◌≡◌, refl, ◌≢◌, ◌↔◌, ◌⊎◌, inl, inr, true, List, Option, none, Option-cases, some,
  Text, text_beq_iff, text_eq, lookup, UniqueKeys, filter_value, lookup-keep, lookup-insert_self,
  insert-UniqueKeys, arith,
}
use go_sdk.Errors.{ErrorCode, fail-code, unauthenticated, says}
use go_sdk.Server.Resume.{
  ResumeEntry, ResumeRequest, Streams, Claimed, ok, refused, is_live, stash_resume, purge_lazily,
  claim_entry, claim_resume,
}

-- The entry that a claim can still reach, after the expired ones are dropped.
abbrev pub claimable : {E : Type 0} → Streams E → ℕ → Text → Option ResumeEntry
claimable st now id = filter_value (is_live now) (lookup id st.resumes)

-- What the request has to show to claim the entry.
abbrev pub Owns : ResumeRequest → Text → ResumeEntry → Type 0
Owns req principal e = (e.resume_token ≡ req.resume_token) × (e.principal ≡ principal)

lookup-purge_lazily :
    {E : Type 0}
    → (st : Streams E) (now : ℕ) (id : Text) → UniqueKeys st.resumes
    → lookup id (purge_lazily st now).resumes ≡ claimable st now id
unfolding purge_lazily
lookup-purge_lazily st now id u = lookup-keep (is_live now) id st.resumes u

claim_entry_ok :
    {E : Type 0}
    → (st : Streams E) (now : ℕ) (req : ResumeRequest) (principal : Text)
      (found : Option ResumeEntry) (e : ResumeEntry)
    → ((claim_entry st now req principal found).1 ≡ ok e)
      ↔ ((found ≡ some e) × ((is_live now e ≡ true) × Owns req principal e))
unfolding claim_entry
claim_entry_ok st now req principal none e = ground arith
claim_entry_ok st now req principal (some f) e =
    ground (arith, text_beq_iff f.resume_token req.resume_token, text_beq_iff f.principal principal)

-- A claim succeeds with an entry exactly when that entry is the one stashed under the session's id,
-- its window has not passed, and the request has its token and comes from its principal. The
-- resume table has one entry for a session.
pub claim_resume_iff :
    {E : Type 0}
    → (st : Streams E) (now : ℕ) (req : ResumeRequest) (principal : Text) (e : ResumeEntry)
    → UniqueKeys st.resumes
    → ((claim_resume st now req principal).1 ≡ ok e) ↔ (
        (lookup req.session_id st.resumes ≡ some e)
        × ((is_live now e ≡ true) × Owns req principal e))
unfolding claim_resume
claim_resume_iff st now req principal e u = ground (
  arith,
  lookup-purge_lazily st now req.session_id u,
  claim_entry_ok (purge_lazily st now) now req principal
      (lookup req.session_id (purge_lazily st now).resumes) e,
)

abbrev pub refusal : {A : Type 0} → Claimed A → Option ErrorCode
refusal (ok a) = none
refusal (refused e) = some e.code

claim_entry-refused :
    {E : Type 0}
    → (st : Streams E) (now : ℕ) (req : ResumeRequest) (principal : Text) (f : ResumeEntry)
    → is_live now f ≡ true
    → (f.resume_token ≢ req.resume_token) ⊎ (f.principal ≢ principal)
    → ((claim_entry st now req principal (some f)).0 ≡ st)
      × (refusal (claim_entry st now req principal (some f)).1 ≡ some unauthenticated)
unfolding claim_entry
claim_entry-refused st now req principal f live h = ground (
  arith,
  fail-code unauthenticated (says "resume_token mismatch"),
  fail-code unauthenticated (says "resume principal mismatch"),
  text_beq_iff f.resume_token req.resume_token,
  text_beq_iff f.principal principal,
)

claimable-purge_lazily :
    {E : Type 0}
    → (st : Streams E) (now later : ℕ) (id : Text) → UniqueKeys st.resumes
    → now ≤ later
    → claimable (purge_lazily st now) later id ≡ claimable st later id
claimable-purge_lazily st now later id u le = elim (Option-cases (lookup id st.resumes)) [
  | inl absent ↦ ground (arith, lookup-purge_lazily st now id u)
  | inr (e, found) ↦ ground (arith, lookup-purge_lazily st now id u)
]

-- A claim of a live entry with another token or by another principal is refused as
-- unauthenticated, and takes nothing from its owner: the claims of every session at any time from
-- then on find what they would have found. The resume table has one entry for a session.
pub claim_resume_hostile :
    {E : Type 0}
    → (st : Streams E) (now later : ℕ) (req : ResumeRequest) (principal : Text) (f : ResumeEntry)
      (id : Text)
    → UniqueKeys st.resumes
    → now ≤ later
    → lookup req.session_id st.resumes ≡ some f
    → is_live now f ≡ true
    → (f.resume_token ≢ req.resume_token) ⊎ (f.principal ≢ principal)
    → (refusal (claim_resume st now req principal).1 ≡ some unauthenticated)
      × (claimable (claim_resume st now req principal).0 later id ≡ claimable st later id)
unfolding claim_resume
claim_resume_hostile {E = E} st now later req principal f id u le found live h =
    let purged : Streams E = purge_lazily st now in
    let there : lookup req.session_id purged.resumes ≡ some f =
      ground (arith, lookup-purge_lazily st now req.session_id u) in
    let (same, code) = claim_entry-refused purged now req principal f live h in
    rw there (code, (rw same (claimable-purge_lazily st now later id u le)))

-- What `stashResume` stores for a session that disconnects at a time, its owner claims with the
-- session's token up to the end of the window, and gets back with the features and the sequence
-- number it had.
pub claim_resume-stash_resume :
    {E : Type 0}
    → (st : Streams E) (at now seq last : ℕ) (id principal token : Text) (features : List Text)
    → UniqueKeys st.resumes
    → now ≤ at + st.resume_window
    → (claim_resume
        (stash_resume st at id principal features seq token)
        now
        (record { session_id = id; resume_token = token; last_event_seq = last })
        principal).1
      ≡ ok (record {
        session_id = id;
        principal = principal;
        features = features;
        seq = seq;
        resume_token = token;
        expires_at = at + st.resume_window;
      })
unfolding stash_resume
claim_resume-stash_resume st at now seq last id principal token features u in_time =
    let e : ResumeEntry = record {
      session_id = id;
      principal = principal;
      features = features;
      seq = seq;
      resume_token = token;
      expires_at = at + st.resume_window;
    } in
    let live : is_live now e ≡ true = ground arith in
    (claim_resume_iff (stash_resume st at id principal features seq token) now
        (record { session_id = id; resume_token = token; last_event_seq = last }) principal e
        (insert-UniqueKeys id e st.resumes u)).1
      (lookup-insert_self id e st.resumes, (live, (refl, refl)))
