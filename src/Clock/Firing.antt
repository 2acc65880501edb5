-- ===== src/Clock/Firing.antt =====
-- Which timers an advance of the mock clock fires.
use go_sdk.Prelude.{ℕ, ◌≤◌, ◌≡◌, true, false, Option, none, some, nat_eq, contains, lookup}
use go_sdk.Clock.{Timer, Mock}

abbrev stopped_timer : Option Timer → Option Timer
stopped_timer none = none
stopped_timer (some t) = some (record t { stopped = true })

-- The clock holds the timer, which is not stopped and whose deadline is not after the time.
abbrev pub IsReady : Mock → ℕ → ℕ → Type 0
IsReady m time j =
    (contains j m.timers ≡ true)
    × ((t : Timer) × (lookup j m.heap ≡ some t) × (t.stopped ≡ false) × (t.deadline ≤ time))
