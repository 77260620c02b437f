-- ===== src/Bridge/Durations.antt =====
-- temporalio_trio/worker/_bridge_types.py: durations and timestamps.
use python_trio_sdk.Common.{
  ℕ, ◌+◌, ◌*◌, ◌/◌, ◌%◌, ◌<◌, ◌≡◌, ◌∙◌, Option, none, some, arith, if◌then◌else◌, ◌==◌, ℕ_eq,
}
use python_trio_sdk.Bridge.Converters.{Floats}
use python_trio_sdk.Bridge.Messages.{Duration}

-- A timestamp as nanoseconds.
unfoldable pub timestamp_ns : Duration → ℕ
timestamp_ns t = t.seconds * 1000000000 + t.nanos

-- The duration of a StartTimerCommand.
unfoldable pub timer_duration : (duration_ms : ℕ) → Duration
timer_duration duration_ms = record {
  seconds = duration_ms / 1000;
  nanos = duration_ms % 1000 * 1000000;
}

module _ (floats : Floats) where
  -- A duration as milliseconds.
  unfoldable pub timeout_ms : Duration → ℕ
  timeout_ms d = floats.int (floats.plus (d.seconds * 1000) (floats.quotient d.nanos 1000000))

  unfoldable pub set_duration : (td : ℕ) → Duration
  set_duration td =
      let total_seconds = floats.total_seconds td in
      record {
        seconds = floats.int total_seconds;
        nanos =
            floats.int
              (floats.times (floats.minus total_seconds (floats.int total_seconds)) 1000000000);
      }

  -- `if td: _set_duration(...)`; timedelta(0) is false
  unfoldable pub set_timeout : Option ℕ → Option Duration
  unfolding set_duration
  set_timeout none = none
  set_timeout (some td) = if td == 0 then none else some (set_duration td)

  -- The duration that a timer is started with is read back as the same number of milliseconds, for
  -- a timer of less than 2 ^ 52 milliseconds, and it is normalized: less than a second of
  -- nanoseconds, the seconds rounded down, and as a timestamp the milliseconds times a million.
  pub timer_round_trip :
      (ms : ℕ)
      → ms < 4503599627370496
      → (timeout_ms (timer_duration ms) ≡ ms)
        × ((timer_duration ms).nanos < 1000000000)
        × (timestamp_ns (timer_duration ms) ≡ ms * 1000000)
  unfolding timeout_ms timer_duration timestamp_ns
  timer_round_trip ms bound = (
    floats.int-plus (ms / 1000 * 1000) (ms % 1000) 1000000 (omega arith) (omega arith)
        ∙ omega arith,
    omega arith,
    omega arith,
  )
