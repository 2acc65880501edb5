-- ===== src/Clock.antt =====
-- internal/clock/clock.go: the mock clock. A timer is a pointer, which the caller keeps after the
-- clock has let go of it: here a number into a heap. A duration is not negative. `advance` also
-- returns the timers whose functions it calls.
pub mod Firing
mod Samples
use go_sdk.Prelude.{
  ℕ, ◌+◌, Bool, true, false, not, ◌&&◌, ◌||◌, List, [], ◌∷◌, ◌++◌, Option, none, some, nat_eq,
  nat_beq, leb, contains, if◌then◌else◌, Dict, lookup, insert,
}

pub record Timer : Type 0 where
  pub deadline : ℕ
  pub stopped : Bool

pub record Mock : Type 0 where
  pub now : ℕ
  pub timers : List ℕ
  pub heap : Dict ℕ Timer

unfoldable pub new_mock : ℕ → Mock
new_mock t = record { now = t; timers = []; heap = [] }

-- `!t.deadline.After(m.now) && !t.stopped`
unfoldable pub is_due : ℕ → Option Timer → Bool
is_due now none = false
is_due now (some t) = leb t.deadline now && not t.stopped

mark_found : Dict ℕ Timer → ℕ → Option Timer → Dict ℕ Timer
mark_found heap i none = heap
mark_found heap i (some t) = insert i (record t { stopped = true }) heap

mark_stopped : Dict ℕ Timer → ℕ → Dict ℕ Timer
unfolding mark_found
mark_stopped heap i = mark_found heap i (lookup i heap)

-- What the loop of `Advance` leaves and finds.
pub record Swept : Type 0 where
  pub heap : Dict ℕ Timer
  pub due : List ℕ
  pub remaining : List ℕ

-- The loop of `Advance`.
unfoldable pub sweep_timers : ℕ → Dict ℕ Timer → List ℕ → Swept
unfolding mark_stopped mark_found
sweep_timers now heap [] = record { heap = heap; due = []; remaining = [] }
sweep_timers now heap (i ∷ is) = elim (is_due now (lookup i heap)) [
  | true ↦ let r : Swept = sweep_timers now (mark_stopped heap i) is in record r { due = i ∷ r.due }
  | false ↦ let r : Swept = sweep_timers now heap is in record r { remaining = i ∷ r.remaining }
]

-- The functions of the timers that are due, in their order: any of them may use the clock.
unfoldable pub call_functions : (ℕ → Mock → Mock) → Mock → List ℕ → Mock
call_functions function m [] = m
call_functions function m (i ∷ is) = call_functions function (function i m) is

-- What a timer's function does to the clock is a parameter.
unfoldable pub advance : (ℕ → Mock → Mock) → Mock → ℕ → Mock × List ℕ
advance function m d =
    let r : Swept = sweep_timers (m.now + d) m.heap m.timers in
    (
      call_functions function (record { now = m.now + d; timers = r.remaining; heap = r.heap })
          r.due,
      r.due,
    )

-- The new timer is at a place of the heap that is not in use.
unfoldable pub after_func : Mock → ℕ → ℕ → Mock
after_func m i d = record m {
  timers = m.timers ++ i ∷ [];
  heap = insert i (record { deadline = m.now + d; stopped = false }) m.heap;
}

stop_found : Mock → ℕ → Option Timer → Mock × Bool
stop_found m i none = (m, false)
stop_found m i (some t) =
    if t.stopped
    then (m, false)
    else (record m { heap = insert i (record t { stopped = true }) m.heap }, true)

unfoldable pub stop : Mock → ℕ → Mock × Bool
unfolding stop_found
stop m i = stop_found m i (lookup i m.heap)

reset_found : Mock → ℕ → ℕ → Option Timer → Mock × Bool
reset_found m i d none = (m, false)
reset_found m i d (some t) = (
  record m {
    timers = if contains i m.timers then m.timers else m.timers ++ i ∷ [];
    heap = insert i (record { deadline = m.now + d; stopped = false }) m.heap;
  },
  not t.stopped,
)

unfoldable pub reset : Mock → ℕ → ℕ → Mock × Bool
unfolding reset_found
reset m i d = reset_found m i d (lookup i m.heap)
