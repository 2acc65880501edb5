-- ===== src/Server/Resume/Lossless.antt =====
-- The replay to a resumed session (`handshake`, `replayBuffered`): which of the session's events it
-- delivers, and in which order.
use go_sdk.Prelude.{
  ℕ, suc, ◌≤◌, ◌<◌, ◌≡◌, refl, sym, subst, ◌∙◌, false, List, [], ◌∷◌, Text, length, drop, keep,
  arith, text_eq, lookup-insert_self,
}
use go_sdk.EventLog.{Entry, Memory, entries_of, is_after, oldest, since, least_of}
use go_sdk.EventLog.Order.{Ascending, Ascending-keep, Ascending-drop, least_of-Ascending, keep-drop}
use go_sdk.Server.Resume.{
  ResumeEntry, ResumeRequest, Resumed, Streams, Claimed, ok, refused, buffer_gap, lost_events,
  resume_claimed, resume_handshake, claim_resume, set_if_greater, alloc_for, insert_by_seq,
  sort_by_seq, replay_buffered,
}

module _ {E : Type 0} where
  sort_by_seq-Ascending : (es : List (Entry E)) → Ascending es → sort_by_seq es ≡ es
  unfolding sort_by_seq insert_by_seq
  sort_by_seq-Ascending [] h = refl
  sort_by_seq-Ascending (e ∷ []) h = refl
  sort_by_seq-Ascending (e ∷ x ∷ es) h = rw (sort_by_seq-Ascending (x ∷ es) h.1) (ground arith)

  -- The retained entries after `last` are all the entries after `last`, where the oldest retained
  -- one is at most the next.
  kept_all :
      (k last : ℕ) (hs rest : List (Entry E))
      → Ascending hs
      → drop k hs ≡ rest
      → 0 < length rest
      → lost_events (least_of rest) last ≡ false
      → keep (is_after last) rest ≡ keep (is_after last) hs
  unfolding lost_events
  kept_all k last hs [] asc e some_left covered = absurd (omega arith)
  kept_all k last hs (f ∷ fs) asc e some_left covered =
      let sorted : Ascending (f ∷ fs) = subst Ascending e (Ascending-drop k hs asc) in
      let at_most : f.event_seq ≤ suc last = ground (arith, least_of-Ascending f fs sorted) in
      subst (λ ys. keep (is_after last) ys ≡ keep (is_after last) hs) e
        (keep-drop k last f fs hs asc e at_most)

  replay_buffered-Ascending :
      (log : Memory E) (id : Text) (last : ℕ)
      → Ascending (entries_of log id)
      → replay_buffered log id last ≡ keep (is_after last) (entries_of log id)
  unfolding replay_buffered since
  replay_buffered-Ascending log id last h =
      sort_by_seq-Ascending (keep (is_after last) (entries_of log id))
        (Ascending-keep (is_after last) (entries_of log id) h)

  resume_claimed-covered :
      (st : Streams E) (req : ResumeRequest) (c : Claimed ResumeEntry) (r : Resumed)
      → (resume_claimed st req c).1 ≡ ok r
      → (buffer_gap (resume_claimed st req c).0.log r.entry.session_id req.last_event_seq ≡ false)
        × (r.replay_from ≡ req.last_event_seq)
  unfolding resume_claimed
  resume_claimed-covered st req (refused e) r h = ground arith
  resume_claimed-covered st req (ok entry) r h = ground arith

  resume_handshake-covered :
      (st : Streams E) (now : ℕ) (req : ResumeRequest) (principal : Text) (r : Resumed)
      → (resume_handshake st now req principal).1 ≡ ok r
      → (buffer_gap
            (resume_handshake st now req principal).0.log
            r.entry.session_id
            req.last_event_seq
          ≡ false)
        × (r.replay_from ≡ req.last_event_seq)
  unfolding resume_handshake
  resume_handshake-covered st now req principal r h =
      let c : Streams E × Claimed ResumeEntry = claim_resume st now req principal in
      resume_claimed-covered c.0 req c.1 r h

  buffer_gap-covered :
      (log : Memory E) (id : Text) (last : ℕ)
      → 0 < last
      → buffer_gap log id last ≡ false
      → lost_events (least_of (entries_of log id)) last ≡ false
  unfolding buffer_gap oldest
  buffer_gap-covered log id last some_seen h = ground arith

  -- A resume that is accepted, of a client that has seen some event, loses nothing: if the log holds
  -- the latest entries of the session's history, at least one and however many earlier ones are
  -- evicted, and the history is numbered in ascending order, with gaps or not, then the replay is
  -- every entry of the whole history after the last one that the client has seen, each once and in
  -- order.
  pub resume_handshake_lossless :
      (st : Streams E) (now : ℕ) (req : ResumeRequest) (principal : Text) (r : Resumed)
      (evicted : ℕ) (history : List (Entry E))
      → (resume_handshake st now req principal).1 ≡ ok r
      → 0 < req.last_event_seq
      → Ascending history
      → 0 < length (entries_of (resume_handshake st now req principal).0.log r.entry.session_id)
      → entries_of (resume_handshake st now req principal).0.log r.entry.session_id
        ≡ drop evicted history
      → replay_buffered
          (resume_handshake st now req principal).0.log
          r.entry.session_id
          r.replay_from
        ≡ keep (is_after req.last_event_seq) history
  resume_handshake_lossless st now req principal r evicted history done some_seen asc left held =
      let log : Memory E = (resume_handshake st now req principal).0.log in
      let id : Text = r.entry.session_id in
      let (covered, from) = resume_handshake-covered st now req principal r done in
      let sorted : Ascending (entries_of log id) =
        subst Ascending (sym held) (Ascending-drop evicted history asc) in
      rw from (
        replay_buffered-Ascending log id req.last_event_seq sorted
        ∙ kept_all evicted req.last_event_seq history (entries_of log id) asc (sym held) left
            (buffer_gap-covered log id req.last_event_seq some_seen covered))

  resume_claimed-seq :
      (st : Streams E) (req : ResumeRequest) (c : Claimed ResumeEntry) (r : Resumed)
      → (resume_claimed st req c).1 ≡ ok r
      → (alloc_for (resume_claimed st req c).0.seq_allocs r.entry.session_id ≡ r.seq)
        × ((r.entry.seq ≤ r.seq) × (alloc_for st.seq_allocs r.entry.session_id ≤ r.seq))
  unfolding resume_claimed alloc_for
  resume_claimed-seq st req (refused e) r h = ground arith
  resume_claimed-seq st req (ok entry) r h =
      let size : ℕ = set_if_greater (alloc_for st.seq_allocs entry.session_id) entry.seq in
      ground (arith, lookup-insert_self entry.session_id size st.seq_allocs)

  -- A resume that is accepted goes on numbering where the session stopped: its allocator stands at
  -- the session's number, which is below neither the number stored at the disconnect nor the one
  -- that the jobs running on reached since.
  pub resume_handshake_seq :
      (st : Streams E) (now : ℕ) (req : ResumeRequest) (principal : Text) (r : Resumed)
      → (resume_handshake st now req principal).1 ≡ ok r
      → (alloc_for (resume_handshake st now req principal).0.seq_allocs r.entry.session_id ≡ r.seq)
        × ((r.entry.seq ≤ r.seq)
            × (alloc_for (claim_resume st now req principal).0.seq_allocs r.entry.session_id
                ≤ r.seq))
  unfolding resume_handshake
  resume_handshake_seq st now req principal r h =
      let c : Streams E × Claimed ResumeEntry = claim_resume st now req principal in
      resume_claimed-seq c.0 req c.1 r h
