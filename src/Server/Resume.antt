-- ===== src/Server/Resume.antt =====
-- server/server.go: the sequence allocators, the resume entries and the janitor's purge of them,
-- and the resume path of the handshake in server/session.go. The calls hold `resumeMu` or
-- `allocsMu`; each is one step here. The clock's reading is `now`.
pub mod Claim
pub mod Lossless
use go_sdk.Prelude.{
  ℕ, suc, ◌+◌, ◌-◌, ◌^◌, Bool, true, false, not, ◌&&◌, List, [], ◌∷◌, Option, none, some, Text,
  text_beq, text_eq, ltb, if◌then◌else◌, keep, Dict, lookup, insert, delete,
}
use go_sdk.Errors.{Error, err, fail, resume_window_expired, unauthenticated, says, about}
use go_sdk.EventLog.{Entry, Memory, oldest, since, trim}

-- The methods of `seqAlloc`, on the counter that it guards.
abbrev pub next : ℕ → ℕ × ℕ
next val = (suc val, suc val)

abbrev pub set_if_greater : ℕ → ℕ → ℕ
set_if_greater val v = if ltb val v then v else val

pub record ResumeEntry : Type 0 where
  pub session_id : Text
  pub principal : Text
  pub features : List Text
  pub seq : ℕ
  pub resume_token : Text
  pub expires_at : ℕ

pub record ResumeRequest : Type 0 where
  pub session_id : Text
  pub resume_token : Text
  pub last_event_seq : ℕ

pub record Streams (E : Type 0) : Type 0 where
  pub resumes : Dict Text ResumeEntry
  pub seq_allocs : Dict Text ℕ
  pub log : Memory E
  pub resume_window : ℕ

pub data Claimed (A : Type 0) : Type 0 where
  ok : A → Claimed A
  refused : Error → Claimed A

-- `^uint64(0)`
abbrev pub max_seq : ℕ
max_seq = 2 ^ 64 - 1

abbrev pub or_new : Option ℕ → ℕ
or_new none = 0
or_new (some v) = v

-- `allocFor`, as the counter that it returns, and `dropAlloc`.
unfoldable pub alloc_for : Dict Text ℕ → Text → ℕ
alloc_for allocs id = or_new (lookup id allocs)

abbrev pub drop_alloc : Dict Text ℕ → Text → Dict Text ℕ
drop_alloc allocs id = delete id allocs

-- `!now.After(e.expiresAt)`
abbrev pub is_live : ℕ → ResumeEntry → Bool
is_live now e = not (ltb e.expires_at now)

drop_expired : ℕ → Dict Text ResumeEntry → Dict Text ℕ → Dict Text ℕ
drop_expired now [] allocs = allocs
drop_expired now ((id, e) ∷ rest) allocs =
    drop_expired now rest (if is_live now e then allocs else drop_alloc allocs id)

-- `ok && oldest > hello.Resume.LastEventSeq+1`
lost_events : Option ℕ → ℕ → Bool
lost_events none last = false
lost_events (some first) last = ltb (last + 1) first

-- What the handshake sets up for the resumed session.
pub record Resumed : Type 0 where
  pub entry : ResumeEntry
  pub seq : ℕ
  pub replay_from : ℕ

module _ {E : Type 0} where
  -- The session's id, principal and features, its current sequence number and its token.
  unfoldable pub stash_resume : Streams E → ℕ → Text → Text → List Text → ℕ → Text → Streams E
  stash_resume st now id principal features seq token = record st {
    resumes =
        insert id
          (record {
            session_id = id;
            principal = principal;
            features = features;
            seq = seq;
            resume_token = token;
            expires_at = now + st.resume_window;
          })
          st.resumes;
  }

  -- `Trim(id, ^uint64(0))` for each expired entry.
  trim_expired : ℕ → Dict Text ResumeEntry → Memory E → Memory E
  trim_expired now [] log = log
  trim_expired now ((id, e) ∷ rest) log =
      trim_expired now rest (if is_live now e then log else trim log id max_seq)

  unfoldable pub purge_expired_resumes : Streams E → ℕ → Streams E
  unfolding trim_expired drop_expired
  purge_expired_resumes st now = record st {
    resumes = keep (λ kv. is_live now kv.1) st.resumes;
    seq_allocs = drop_expired now st.resumes st.seq_allocs;
    log = trim_expired now st.resumes st.log;
  }

  -- The lazy purge at the start of `claimResume`, which leaves the allocators alone.
  unfoldable pub purge_lazily : Streams E → ℕ → Streams E
  unfolding trim_expired
  purge_lazily st now = record st {
    resumes = keep (λ kv. is_live now kv.1) st.resumes;
    log = trim_expired now st.resumes st.log;
  }

  without : Streams E → Text → Streams E
  without st id = record st { resumes = delete id st.resumes }

  claim_entry :
      Streams E → ℕ → ResumeRequest → Text → Option ResumeEntry → Streams E × Claimed ResumeEntry
  unfolding without
  claim_entry st now req principal none = (
    st,
    refused (fail resume_window_expired (about "session " req.session_id " is not resumable")),
  )
  claim_entry st now req principal (some entry) =
      if not (is_live now entry)
      then (without st req.session_id, refused (err resume_window_expired))
      else if not (text_beq entry.resume_token req.resume_token)
      then (st, refused (fail unauthenticated (says "resume_token mismatch")))
      else if not (text_beq entry.principal principal)
      then (st, refused (fail unauthenticated (says "resume principal mismatch")))
      else (without st req.session_id, ok entry)

  unfoldable pub claim_resume :
      Streams E → ℕ → ResumeRequest → Text → Streams E × Claimed ResumeEntry
  unfolding claim_entry
  claim_resume st now req principal =
      let purged : Streams E = purge_lazily st now in
      claim_entry purged now req principal (lookup req.session_id purged.resumes)

  unfoldable pub drop_resume : Streams E → Text → Streams E
  drop_resume st id = record st {
    resumes = delete id st.resumes;
    log = trim st.log id max_seq;
    seq_allocs = drop_alloc st.seq_allocs id;
  }

  -- The test of the handshake that the buffer still covers the requested number.
  unfoldable pub buffer_gap : Memory E → Text → ℕ → Bool
  unfolding lost_events
  buffer_gap log id last = ltb 0 last && lost_events (oldest log id) last

  resume_claimed : Streams E → ResumeRequest → Claimed ResumeEntry → Streams E × Claimed Resumed
  resume_claimed st req (refused e) = (st, refused e)
  resume_claimed st req (ok entry) =
      if buffer_gap st.log entry.session_id req.last_event_seq
      then (
        st,
        refused (fail resume_window_expired (says "resume buffer no longer covers last_event_seq")),
      )
      else let seq : ℕ = set_if_greater (alloc_for st.seq_allocs entry.session_id) entry.seq in
        (
          record st { seq_allocs = insert entry.session_id seq st.seq_allocs },
          ok (record { entry = entry; seq = seq; replay_from = req.last_event_seq }),
        )

  unfoldable pub resume_handshake :
      Streams E → ℕ → ResumeRequest → Text → Streams E × Claimed Resumed
  unfolding resume_claimed
  resume_handshake st now req principal =
      let r : Streams E × Claimed ResumeEntry = claim_resume st now req principal in
      resume_claimed r.0 req r.1

  -- sort.Slice by sequence number, as an insertion sort.
  insert_by_seq : Entry E → List (Entry E) → List (Entry E)
  insert_by_seq e [] = e ∷ []
  insert_by_seq e (x ∷ xs) =
      if ltb x.event_seq e.event_seq then x ∷ insert_by_seq e xs else e ∷ x ∷ xs

  sort_by_seq : List (Entry E) → List (Entry E)
  sort_by_seq [] = []
  sort_by_seq (e ∷ es) = insert_by_seq e (sort_by_seq es)

  -- The entries that `replayBuffered` delivers, in order.
  unfoldable pub replay_buffered : Memory E → Text → ℕ → List (Entry E)
  unfolding sort_by_seq insert_by_seq
  replay_buffered log id from_seq = sort_by_seq (since log id from_seq)
