-- ===== src/Policy.antt =====
-- security/isolation.ex: failures and timeouts that put a worker into quarantine. The clock is an
-- argument, in milliseconds.
mod Counts
mod Tests
use olwsx.Base.{ℕ, ◌+◌, ◌-◌, Bool, ◌&&◌, ◌||◌, ltb, leb, if◌then◌else◌, List, [], ◌∷◌}

abbrev pub window_ms : ℕ
window_ms = 10000

abbrev pub fail_threshold : ℕ
fail_threshold = 5

abbrev pub timeout_threshold : ℕ
timeout_threshold = 3

abbrev pub quarantine_ms : ℕ
quarantine_ms = 30000

pub record State : Type 0 where
  pub failures : ℕ
  pub timeouts : ℕ
  pub window_start_ms : ℕ
  pub quarantined_until_ms : ℕ

-- `new`, where the module was compiled at `start`.
abbrev pub new : ℕ → State
new start = record { failures = 0; timeouts = 0; window_start_ms = start; quarantined_until_ms = 0 }

-- `rotate_window`
abbrev pub rotate_window : ℕ → State → State
rotate_window now s =
    if ltb window_ms (now - s.window_start_ms)
    then record s { failures = 0; timeouts = 0; window_start_ms = now }
    else s

-- `maybe_quarantine`
unfoldable pub maybe_quarantine : ℕ → State → State
maybe_quarantine now s =
    if leb fail_threshold s.failures || leb timeout_threshold s.timeouts
    then record s { quarantined_until_ms = now + quarantine_ms }
    else s

-- `record_failure` and `record_timeout`; the state that `rotate_window` returns is dropped.
unfoldable pub record_failure : ℕ → State → State
record_failure now s =
    let dropped = rotate_window now s in
    maybe_quarantine now (record s { failures = s.failures + 1 })

unfoldable pub record_timeout : ℕ → State → State
record_timeout now s =
    let dropped = rotate_window now s in
    maybe_quarantine now (record s { timeouts = s.timeouts + 1 })

-- `allowed?`
unfoldable pub allowed : ℕ → State → Bool
allowed now s = leb s.quarantined_until_ms now

pub data Signal : Type 0 where
  go_on : Signal
  shed_compression : Signal
  shed_gpu : Signal
  shed_inference : Signal

-- `backpressure_signal`
unfoldable pub backpressure_signal : State → Signal
backpressure_signal s =
    if leb fail_threshold s.failures && leb timeout_threshold s.timeouts
    then shed_gpu
    else if leb timeout_threshold s.timeouts
    then shed_compression
    else if leb fail_threshold s.failures
    then shed_inference
    else go_on
