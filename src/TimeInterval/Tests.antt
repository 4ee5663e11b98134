-- ===== src/TimeInterval/Tests.antt =====
-- The theorems on `CTimeInterval` at an interval of 600 milliseconds.
use tools_demo.Base.{◌<◌, refl, arith}
use tools_demo.TimeInterval.Defs.{TimeInterval, increment, doubled}
use tools_demo.TimeInterval.Backoff.{micros, increment_over}

abbrev short : TimeInterval
short = record {
  timeval_min = record { tv_sec = 0; tv_usec = 600000 };
  timeval_max = record { tv_sec = 1; tv_usec = 100000 };
  timeval_current = record { tv_sec = 0; tv_usec = 600000 };
}

increment_over_example : 1100000 < micros (increment short).timeval_current
unfolding doubled
increment_over_example = increment_over short refl (omega arith)
