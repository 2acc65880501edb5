-- ===== src/Clock/Samples.antt =====
-- Two timers on a mock clock, of which the function of the first sets it again.
use go_sdk.Prelude.{ℕ, nat_eq}
use go_sdk.Clock.{Mock, new_mock, after_func, reset}

abbrev two_timers : Mock
two_timers = after_func (after_func (new_mock 0) 0 5) 1 9

abbrev again : ℕ → Mock → Mock
again i m = (reset m 0 3).0
