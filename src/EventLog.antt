-- ===== src/EventLog.antt =====
-- internal/eventlog/eventlog.go: the in-memory event log of each session, with its retention
-- window. The mutex makes every method one step; the clock's reading is an argument. The envelopes
-- are of any type.
pub mod Window
pub mod Replay
pub mod Order
mod Samples
use go_sdk.Prelude.{
  ℕ, ◌-◌, Bool, true, false, ◌&&◌, List, [], ◌∷◌, ◌++◌, Option, none, some, Text, text_beq, text_eq,
  ltb, nat_beq, if◌then◌else◌, length, drop, keep, Dict, lookup, insert, delete,
}

pub record Entry (E : Type 0) : Type 0 where
  pub session_id : Text
  pub event_seq : ℕ
  pub job_id : Text
  pub stored_at : ℕ
  pub envelope : E

pub record Memory (E : Type 0) : Type 0 where
  pub by_sess : Dict Text (List (Entry E))
  pub max : ℕ

module _ {E : Type 0} where
  -- `none` for the nil slice of a missing session.
  abbrev pub entries_or : Option (List (Entry E)) → List (Entry E)
  entries_or none = []
  entries_or (some es) = es

  -- `m.bySess[sessionID]`
  unfoldable pub entries_of : Memory E → Text → List (Entry E)
  entries_of m session_id = entries_or (lookup session_id m.by_sess)

-- A window of 0 stands for every window that is not positive.
unfoldable pub new_memory : (E : Type 0) → ℕ → Memory E
new_memory E max_per_session = record {
  by_sess = [];
  max = if nat_beq max_per_session 0 then 10_000 else max_per_session;
}

module _ {E : Type 0} where
  -- A zero time is filled in from the clock.
  unfoldable pub stamp : ℕ → Entry E → Entry E
  stamp now e = if nat_beq e.stored_at 0 then record e { stored_at = now } else e

  -- The entries after the oldest ones past the limit are dropped.
  unfoldable pub retain : ℕ → List (Entry E) → List (Entry E)
  retain max entries =
      if ltb max (length entries) then drop (length entries - max) entries else entries

  unfoldable pub append : Memory E → ℕ → Entry E → Memory E
  append m now e = record m {
    by_sess =
        insert e.session_id (retain m.max (entries_of m e.session_id ++ stamp now e ∷ []))
          m.by_sess;
  }

  abbrev pub is_after : ℕ → Entry E → Bool
  is_after from_seq e = ltb from_seq e.event_seq

  unfoldable pub since : Memory E → Text → ℕ → List (Entry E)
  since m session_id from_seq = keep (is_after from_seq) (entries_of m session_id)

  job_entries : Text → ℕ → Dict Text (List (Entry E)) → List (Entry E)
  job_entries job_id from_seq [] = []
  job_entries job_id from_seq ((_, entries) ∷ rest) =
      keep (λ e. text_beq e.job_id job_id && is_after from_seq e) entries
      ++ job_entries job_id from_seq rest

  unfoldable pub since_job : Memory E → Text → ℕ → List (Entry E)
  unfolding job_entries
  since_job m job_id from_seq = job_entries job_id from_seq m.by_sess

  -- The loop of `Oldest` over the entries after the first.
  min_seq : ℕ → List (Entry E) → ℕ
  min_seq least [] = least
  min_seq least (e ∷ es) = min_seq (if ltb e.event_seq least then e.event_seq else least) es

  pub least_of : List (Entry E) → Option ℕ
  least_of [] = none
  least_of (e ∷ es) = some (min_seq e.event_seq es)

  unfoldable pub oldest : Memory E → Text → Option ℕ
  unfolding least_of min_seq
  oldest m session_id = least_of (entries_of m session_id)

  store_kept : Memory E → Text → List (Entry E) → Memory E
  store_kept m session_id [] = record m { by_sess = delete session_id m.by_sess }
  store_kept m session_id (e ∷ es) = record m { by_sess = insert session_id (e ∷ es) m.by_sess }

  unfoldable pub trim : Memory E → Text → ℕ → Memory E
  unfolding store_kept
  trim m session_id before_seq =
      store_kept m session_id (keep (is_after before_seq) (entries_of m session_id))
