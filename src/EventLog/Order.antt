-- ===== src/EventLog/Order.antt =====
-- Entries in the order of their numbers, which may have gaps: the oldest of them, and what the
-- retention window cannot take from a reader who has caught up with it.
use go_sdk.Prelude.{
  ℕ, zero, suc, ◌≤◌, ◌<◌, ◌≡◌, refl, ap, subst, Bool, List, [], ◌∷◌, some, drop, keep, All,
  All-keep, All-drop, Bool-cases, inl, inr, arith,
}
use go_sdk.EventLog.{Entry, is_after, min_seq, least_of}

module _ {E : Type 0} where
  abbrev pub Ascending : List (Entry E) → Type 0
  Ascending [] = Unit
  Ascending (e ∷ es) = All (λ x. e.event_seq < x.event_seq) es × Ascending es

  pub Ascending-keep :
      (p : Entry E → Bool) (es : List (Entry E)) → Ascending es → Ascending (keep p es)
  Ascending-keep p [] h = tt
  Ascending-keep p (e ∷ es) h = elim (Bool-cases (p e)) [
    | inl held ↦
        rw held (All-keep (λ x. e.event_seq < x.event_seq) p es h.0, Ascending-keep p es h.1)
    | inr failed ↦ rw failed (Ascending-keep p es h.1)
  ]

  pub Ascending-drop : (k : ℕ) (es : List (Entry E)) → Ascending es → Ascending (drop k es)
  Ascending-drop zero es h = h
  Ascending-drop (suc k) [] h = tt
  Ascending-drop (suc k) (e ∷ es) h = Ascending-drop k es h.1

  min_seq-first :
      (least : ℕ) (es : List (Entry E))
      → All (λ x. least < x.event_seq) es
      → min_seq least es ≡ least
  unfolding min_seq
  min_seq-first least [] h = refl
  min_seq-first least (e ∷ es) h = ground (arith, min_seq-first least es h.1)

  pub least_of-Ascending :
      (e : Entry E) (es : List (Entry E))
      → Ascending (e ∷ es)
      → least_of (e ∷ es) ≡ some e.event_seq
  unfolding least_of
  least_of-Ascending e es h = ap some (min_seq-first e.event_seq es h.0)

  -- The entries before a retained one are not above its number.
  pub keep-drop :
      (k last : ℕ) (f : Entry E) (fs hs : List (Entry E))
      → Ascending hs
      → drop k hs ≡ f ∷ fs
      → f.event_seq ≤ suc last
      → keep (is_after last) (drop k hs) ≡ keep (is_after last) hs
  keep-drop zero last f fs hs asc e le = refl
  keep-drop (suc k) last f fs [] asc e le = refl
  keep-drop (suc k) last f fs (x ∷ hs) asc e le =
      let above : x.event_seq < f.event_seq =
        (subst (λ ys. All (λ y. x.event_seq < y.event_seq) ys) e
          (All-drop (λ y. x.event_seq < y.event_seq) k hs asc.0)).0 in
      ground (arith, keep-drop k last f fs hs asc.1 e le)
