-- ===== src/EventLog/Samples.antt =====
-- A log with a window of two entries.
use go_sdk.Prelude.{ℕ, ◌-◌, ◌≡◌, List, [], ◌∷◌, codes, length, drop, nat_beq, if◌then◌else◌}
use go_sdk.EventLog.{Entry, entries_of, new_memory}
use go_sdk.EventLog.Window.{Call, appends, trims, append_all, stamped, entries_of-append_all}

abbrev event : ℕ → Entry ℕ
event n = record {
  session_id = codes "s";
  event_seq = n;
  job_id = codes "j";
  stored_at = 1;
  envelope = n;
}

abbrev three : List (ℕ × Entry ℕ)
three = (1, event 1) ∷ (1, event 2) ∷ (1, event 3) ∷ []

entries_of-append_all_example :
    entries_of (append_all (new_memory ℕ 2) three) (codes "s")
    ≡ drop
        (length (stamped (codes "s") three) - (if nat_beq 2 0 then 10_000 else 2))
        (stamped (codes "s") three)
entries_of-append_all_example = entries_of-append_all 2 three (codes "s")

abbrev calls : List (Call ℕ)
calls = appends 1 (event 1) ∷ appends 1 (event 2) ∷ trims (codes "s") 1 ∷ appends 1 (event 3) ∷ []
