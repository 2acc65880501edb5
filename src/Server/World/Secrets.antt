-- ===== src/Server/World/Secrets.antt =====
-- Rotations of credentials and the event log.
use go_sdk.Prelude.{
  ℕ, ◌≡◌, ◌++◌, ◌-◌, false, some, codes, text_beq_iff, List, [], ◌∷◌, Text, text_beq, text_eq, All,
  All-append, All-keep, All-drop, if_cases, length, keep, arith,
}
use go_sdk.EventLog.{Entry, entries_of, stamp, retain, append, is_after}
use go_sdk.EventLog.Window.{entries_of-append, entries_of-trim, retain-drop}
use go_sdk.Server.World.{
  Body, Payload, Envelope, World, job_event, phase_of, is_rotated_phase, is_credential_rotation,
}
use go_sdk.Server.World.Evolves.{Evolves, still, counts, records, trims, also}

-- What the code's own test says of an entry.
abbrev IsOpen : Entry Envelope → Type 0
IsOpen e = is_credential_rotation e.envelope.payload ≡ false

abbrev pub IsOpenLog : World → Type 0
IsOpenLog w = (id : Text) → All IsOpen (entries_of w.log id)

-- A status event whose phase is "credential_rotated".
abbrev pub IsRotation : Payload → Type 0
IsRotation p =
    (body : Body) × (p ≡ job_event (codes "status") body)
    × (phase_of body ≡ some (codes "credential_rotated"))

-- No retained entry is one.
abbrev pub HoldsNoSecret : World → Type 0
HoldsNoSecret w = (id : Text) → All (λ e. ¬ IsRotation e.envelope.payload) (entries_of w.log id)

open-IsRotation : (p : Payload) → is_credential_rotation p ≡ false → ¬ IsRotation p
unfolding is_credential_rotation is_rotated_phase
open-IsRotation p h (body, event, phase) = ground (
  arith,
  rw event at h,
  phase,
  text_beq_iff (codes "status") (codes "status"),
  text_beq_iff (codes "credential_rotated") (codes "credential_rotated"),
)

All-open :
    (es : List (Entry Envelope)) → All IsOpen es → All (λ e. ¬ IsRotation e.envelope.payload) es
All-open [] h = tt
All-open (e ∷ es) h = (open-IsRotation e.envelope.payload h.0, All-open es h.1)

pub open-HoldsNoSecret : (w : World) → IsOpenLog w → HoldsNoSecret w
open-HoldsNoSecret w h id = All-open (entries_of w.log id) (h id)

stamp-IsOpen : (now : ℕ) (e : Entry Envelope) → IsOpen e → IsOpen (stamp now e)
unfolding stamp
stamp-IsOpen now e h = ground arith

retain-IsOpen : (max : ℕ) (es : List (Entry Envelope)) → All IsOpen es → All IsOpen (retain max es)
retain-IsOpen max es h = rw (retain-drop max es) (All-drop IsOpen (length es - max) es h)

append-IsOpenLog :
    (w : World) (now : ℕ) (e : Entry Envelope) (other : Text)
    → IsOpen e
    → IsOpenLog w
    → All IsOpen (entries_of (append w.log now e) other)
append-IsOpenLog w now e other open_one h =
    let es : List (Entry Envelope) = entries_of w.log other in
    rw (entries_of-append w.log now e other) (
      if_cases (All IsOpen) (text_beq e.session_id other)
        (retain w.log.max (es ++ stamp now e ∷ [])) es
        (λ same.
          retain-IsOpen w.log.max (es ++ stamp now e ∷ [])
            (All-append IsOpen es (stamp now e ∷ []) (h other) (stamp-IsOpen now e open_one, tt)))
        (λ differs. h other))

pub Evolves-IsOpenLog : {w v : World} → Evolves w v → IsOpenLog w → IsOpenLog v
Evolves-IsOpenLog (still w v log allocs) h = λ id. rw log (h id)
Evolves-IsOpenLog (counts w v one log allocs) h = λ id. rw log (h id)
Evolves-IsOpenLog (records w v now e open_one log) h =
    λ id. rw log (append-IsOpenLog w now e id open_one h)
Evolves-IsOpenLog (trims w v one last log allocs) h = λ id.
    let es : List (Entry Envelope) = entries_of w.log id in
    rw log (
      rw (entries_of-trim w.log one id last) (
        if_cases (All IsOpen) (text_beq one id) (keep (is_after last) es) es
          (λ same. All-keep IsOpen (is_after last) es (h id)) (λ differs. h id)))
Evolves-IsOpenLog (also a b) h = Evolves-IsOpenLog b (Evolves-IsOpenLog a h)
