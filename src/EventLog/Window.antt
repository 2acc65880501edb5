-- ===== src/EventLog/Window.antt =====
-- What each operation does to the entries of a session, and the bound on their number.
use native.Mathlib.Decide.{dec_lt}
use go_sdk.Prelude.{
  ℕ, suc, ◌-◌, ◌≤◌, ◌≡◌, refl, sym, ap, ◌∙◌, List, [], ◌∷◌, ◌++◌, arith, Text, text_beq, text_eq,
  text_beq_iff, nat_beq, if◌then◌else◌, length, drop, keep, length-append, length-drop,
  length-keep-le, lookup, lookup-insert, lookup-delete, drop-append, drop-suc, append-nil,
  append_assoc, Bool-cases, inl, inr,
}
use go_sdk.EventLog.{
  Entry, Memory, entries_or, entries_of, new_memory, stamp, retain, append, is_after, store_kept,
  trim,
}

module _ {E : Type 0} where
  pub entries_of-append :
      (m : Memory E) (now : ℕ) (e : Entry E) (session_id : Text)
      → entries_of (append m now e) session_id ≡ (
          if text_beq e.session_id session_id
          then retain m.max (entries_of m session_id ++ stamp now e ∷ [])
          else entries_of m session_id)
  unfolding entries_of append
  entries_of-append m now e session_id = ground (
    arith,
    lookup-insert e.session_id session_id
        (retain m.max (entries_or (lookup e.session_id m.by_sess) ++ stamp now e ∷ [])) m.by_sess,
    text_beq_iff e.session_id session_id,
  )

  entries_of-store_kept :
      (m : Memory E) (session_id other : Text) (kept : List (Entry E))
      → entries_of (store_kept m session_id kept) other
        ≡ (if text_beq session_id other then kept else entries_of m other)
  unfolding entries_of store_kept
  entries_of-store_kept m session_id other [] =
      ground (arith, lookup-delete session_id other m.by_sess)
  entries_of-store_kept m session_id other (e ∷ es) =
      ground (arith, lookup-insert session_id other (e ∷ es) m.by_sess)

  pub entries_of-trim :
      (m : Memory E) (session_id other : Text) (before_seq : ℕ)
      → entries_of (trim m session_id before_seq) other ≡ (
          if text_beq session_id other
          then keep (is_after before_seq) (entries_of m other)
          else entries_of m other)
  unfolding trim
  entries_of-trim m session_id other before_seq = ground (
    arith,
    entries_of-store_kept m session_id other (keep (is_after before_seq) (entries_of m session_id)),
    text_beq_iff session_id other,
  )

  pub length-retain : (max : ℕ) (es : List (Entry E)) → length (retain max es) ≤ max
  unfolding retain
  length-retain max es = ground (arith, length-drop (length es - max) es)

-- A call that changes the log.
pub data Call (E : Type 0) : Type 0 where
  appends : ℕ → Entry E → Call E
  trims : Text → ℕ → Call E

module _ {E : Type 0} where
  pub step : Memory E → Call E → Memory E
  step m (appends now e) = append m now e
  step m (trims session_id before_seq) = trim m session_id before_seq

  pub run : Memory E → List (Call E) → Memory E
  run m [] = m
  run m (c ∷ cs) = run (step m c) cs

  max-store_kept :
      (m : Memory E) (session_id : Text) (kept : List (Entry E))
      → (store_kept m session_id kept).max ≡ m.max
  unfolding store_kept
  max-store_kept m session_id [] = refl
  max-store_kept m session_id (e ∷ es) = refl

  pub max-step : (m : Memory E) (c : Call E) → (step m c).max ≡ m.max
  unfolding step append trim
  max-step m (appends now e) = refl
  max-step m (trims session_id before_seq) = max-store_kept m session_id _

  abbrev pub IsBounded : Memory E → Type 0
  IsBounded m = (session_id : Text) → length (entries_of m session_id) ≤ m.max

  step-IsBounded : (m : Memory E) (c : Call E) → IsBounded m → IsBounded (step m c)
  unfolding step
  step-IsBounded m (appends now e) h id = ground (
    arith,
    h id,
    entries_of-append m now e id,
    max-step m (appends now e),
    length-retain m.max (entries_of m id ++ stamp now e ∷ []),
  )
  step-IsBounded m (trims session_id before_seq) h id = ground (
    arith,
    h id,
    entries_of-trim m session_id id before_seq,
    max-step m (trims session_id before_seq),
    length-keep-le (is_after before_seq) (entries_of m id),
  )

  run-IsBounded : (m : Memory E) (cs : List (Call E)) → IsBounded m → IsBounded (run m cs)
  unfolding run
  run-IsBounded m [] h = h
  run-IsBounded m (c ∷ cs) h = run-IsBounded (step m c) cs (step-IsBounded m c h)

  max-run : (m : Memory E) (cs : List (Call E)) → (run m cs).max ≡ m.max
  unfolding run
  max-run m [] = refl
  max-run m (c ∷ cs) = max-run (step m c) cs ∙ max-step m c

  -- Whatever is appended and trimmed, no session ever holds more entries than the window for which
  -- the log was made, and a window that is not positive counts as ten thousand.
  pub run_window :
      (window : ℕ) (cs : List (Call E)) (session_id : Text)
      → length (entries_of (run (new_memory E window) cs) session_id)
        ≤ (if nat_beq window 0 then 10_000 else window)
  unfolding new_memory
  run_window window cs session_id =
      let bounded =
        run-IsBounded (new_memory E window) cs (λ id. unfold entries_of lookup in omega arith) in
      ground (arith, bounded session_id, max-run (new_memory E window) cs)

  pub retain-drop : (max : ℕ) (es : List (Entry E)) → retain max es ≡ drop (length es - max) es
  unfolding retain
  retain-drop max es = elim (dec_lt max (length es)) [
    | yes more ↦ ground arith
    | no fits ↦ let z : length es - max ≡ 0 = omega arith in rw z (ground arith)
  ]

  retain-append :
      (max : ℕ) (es : List (Entry E)) (e : Entry E)
      → retain max (retain max es ++ e ∷ []) ≡ retain max (es ++ e ∷ [])
  retain-append max es e = elim (dec_lt max (length es)) [
    | yes more ↦
        let k : ℕ = length es - max in
        let one : length (drop k es ++ e ∷ []) - max ≡ 1 =
          omega (arith, length-append (drop k es) (e ∷ []), length-drop k es) in
        let next : length (es ++ e ∷ []) - max ≡ suc k = omega (arith, length-append es (e ∷ [])) in
        rw
          (
            retain-drop max es,
            retain-drop max (drop k es ++ e ∷ []),
            retain-drop max (es ++ e ∷ []),
          )
          (rw (one, next)
            (sym
              (drop-suc k (es ++ e ∷ []) ∙ ap (drop 1) (drop-append k es (e ∷ []) (omega arith)))))
    | no fits ↦ let same : retain max es ≡ es = unfold retain in ground arith in rw same
  ]

  abbrev pub append_all : Memory E → List (ℕ × Entry E) → Memory E
  append_all m [] = m
  append_all m ((now, e) ∷ cs) = append_all (append m now e) cs

  -- The stamped entries of one session, in the order of their calls.
  abbrev pub stamped : Text → List (ℕ × Entry E) → List (Entry E)
  stamped session_id [] = []
  stamped session_id ((now, e) ∷ cs) =
      if text_beq e.session_id session_id
      then stamp now e ∷ stamped session_id cs
      else stamped session_id cs

  max-append : (m : Memory E) (now : ℕ) (e : Entry E) → (append m now e).max ≡ m.max
  unfolding append
  max-append m now e = refl

  retain-nil : (max : ℕ) → ◌≡◌ {A = List (Entry E)} [] (retain {E = E} max [])
  unfolding retain
  retain-nil max = ground arith

  entries_of-append_all_from :
      (max : ℕ) (m : Memory E) (cs : List (ℕ × Entry E)) (session_id : Text) (es : List (Entry E))
      → m.max ≡ max
      → entries_of m session_id ≡ retain max es
      → entries_of (append_all m cs) session_id ≡ retain max (es ++ stamped session_id cs)
  entries_of-append_all_from max m [] session_id es w h = rw (append-nil es) h
  entries_of-append_all_from max m ((now, e) ∷ cs) session_id es w h =
      elim (Bool-cases (text_beq e.session_id session_id)) [
        | inl same ↦ rw same (
            entries_of-append_all_from max (append m now e) cs session_id (es ++ stamp now e ∷ [])
              (max-append m now e ∙ w)
              (entries_of-append m now e session_id
                ∙ rw (same, h, w) (retain-append max es (stamp now e)))
            ∙ ap (retain max) (append_assoc es (stamp now e ∷ []) (stamped session_id cs)))
        | inr other ↦ rw other (
            entries_of-append_all_from max (append m now e) cs session_id es
              (max-append m now e ∙ w) (entries_of-append m now e session_id ∙ rw other h))
      ]

  -- Until something is trimmed, a session of a new log holds exactly the last entries appended to
  -- it, as many as the window allows, in the order of the appends and with their times filled in.
  pub entries_of-append_all :
      (window : ℕ) (cs : List (ℕ × Entry E)) (session_id : Text)
      → entries_of (append_all (new_memory E window) cs) session_id
        ≡ drop
            (length (stamped session_id cs) - (if nat_beq window 0 then 10_000 else window))
            (stamped session_id cs)
  entries_of-append_all window cs session_id =
      entries_of-append_all_from (if nat_beq window 0 then 10_000 else window) (new_memory E window)
        cs session_id [] (unfold new_memory in refl)
        (unfold new_memory entries_of lookup in retain-nil _)
      ∙ retain-drop _ (stamped session_id cs)
