-- ===== src/EventLog/Replay.antt =====
-- What `Since` and `Oldest` answer, on any log.
use go_sdk.Prelude.{
  ℕ, ◌≤◌, ◌≡◌, refl, ◌≢◌, true, ◌||◌, ◌⊎◌, List, [], ◌∷◌, Option, none, some, arith, Text, text_eq,
  ltb, nat_beq, if◌then◌else◌, keep, any, All, text_beq_iff,
}
use go_sdk.EventLog.{Entry, Memory, entries_of, since, is_after, min_seq, least_of, oldest, trim}
use go_sdk.EventLog.Window.{entries_of-trim}

module _ {E : Type 0} where
  min_seq_le : (least : ℕ) (es : List (Entry E)) → min_seq least es ≤ least
  unfolding min_seq
  min_seq_le least [] = omega arith
  min_seq_le least (e ∷ es) =
      ground (arith, min_seq_le (if ltb e.event_seq least then e.event_seq else least) es)

  min_seq_lower : (least : ℕ) (es : List (Entry E)) → All (λ e. min_seq least es ≤ e.event_seq) es
  unfolding min_seq
  min_seq_lower least [] = tt
  min_seq_lower least (e ∷ es) =
      let l : ℕ = if ltb e.event_seq least then e.event_seq else least in
      (ground (arith, min_seq_le l es), min_seq_lower l es)

  min_seq_attained :
      (least : ℕ) (es : List (Entry E))
      → (nat_beq least (min_seq least es) || any (λ e. nat_beq e.event_seq (min_seq least es)) es)
        ≡ true
  unfolding min_seq
  min_seq_attained least [] = ground arith
  min_seq_attained least (e ∷ es) =
      ground (arith, min_seq_attained (if ltb e.event_seq least then e.event_seq else least) es)

  abbrev pub IsLeast : List (Entry E) → Option ℕ → Type 0
  IsLeast es none = es ≡ []
  IsLeast es (some n) = All (λ e. n ≤ e.event_seq) es × (any (λ e. nat_beq e.event_seq n) es ≡ true)

  least_of-IsLeast : (es : List (Entry E)) → IsLeast es (least_of es)
  unfolding least_of
  least_of-IsLeast [] = refl
  least_of-IsLeast (e ∷ es) =
      ((min_seq_le e.event_seq es, min_seq_lower e.event_seq es), min_seq_attained e.event_seq es)

  -- `Oldest` reports no entry exactly for a session without entries, and otherwise a sequence number
  -- that some entry of the session has and that is not above that of any of them.
  pub oldest-IsLeast :
      (m : Memory E) (session_id : Text) → IsLeast (entries_of m session_id) (oldest m session_id)
  unfolding oldest
  oldest-IsLeast m session_id = least_of-IsLeast (entries_of m session_id)

  keep-keep :
      (from before : ℕ) (es : List (Entry E))
      → before ≤ from
      → keep (is_after from) (keep (is_after before) es) ≡ keep (is_after from) es
  keep-keep from before [] h = refl
  keep-keep from before (e ∷ es) h = ground (arith, keep-keep from before es h)

  -- Trimming what a client has acknowledged takes nothing from a replay that starts at or after the
  -- acknowledged number, nor from the replay of another session.
  pub since-trim :
      (m : Memory E) (session_id other : Text) (before_seq from_seq : ℕ)
      → (session_id ≢ other) ⊎ (before_seq ≤ from_seq)
      → since (trim m session_id before_seq) other from_seq ≡ since m other from_seq
  unfolding since
  since-trim m session_id other before_seq from_seq h = ground (
    arith,
    entries_of-trim m session_id other before_seq,
    text_beq_iff session_id other,
    keep-keep from_seq before_seq (entries_of m other),
  )
