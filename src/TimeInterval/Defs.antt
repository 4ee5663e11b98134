-- ===== src/TimeInterval/Defs.antt =====
-- `CTimeInterval` of workerprocess/TimeInterval.cpp, on times that are not negative.
use tools_demo.Base.{ℕ, ◌+◌, ◌*◌, ◌/◌, ◌%◌, ◌&&◌, ◌||◌, ◌==◌, ltb, leb, if◌then◌else◌}

-- `struct timeval`
pub record Timeval : Type 0 where
  pub tv_sec : ℕ
  pub tv_usec : ℕ

pub record TimeInterval : Type 0 where
  pub timeval_min : Timeval
  pub timeval_max : Timeval
  pub timeval_current : Timeval

unfoldable pub init : TimeInterval
init = record {
  timeval_min = record { tv_sec = 0; tv_usec = 0 };
  timeval_max = record { tv_sec = 0; tv_usec = 0 };
  timeval_current = record { tv_sec = 0; tv_usec = 0 };
}

-- the constructor with four arguments
unfoldable pub init_with : ℕ → ℕ → ℕ → ℕ → TimeInterval
init_with sec_min usec_min sec_max usec_max = record {
  timeval_min = record { tv_sec = sec_min; tv_usec = usec_min };
  timeval_max = record { tv_sec = sec_max; tv_usec = usec_max };
  timeval_current = record { tv_sec = sec_min; tv_usec = usec_min };
}

unfoldable pub reset : TimeInterval → TimeInterval
reset s = record s { timeval_current = s.timeval_min }

-- `timeVal` of `operator++`
unfoldable pub doubled : Timeval → Timeval
doubled t = record {
  tv_sec = t.tv_sec * 2 + t.tv_usec * 2 / (1000 * 1000);
  tv_usec = t.tv_usec * 2 % (1000 * 1000);
}

-- `operator++`. Its second test compares the seconds again.
unfoldable pub increment : TimeInterval → TimeInterval
unfolding doubled
increment s =
    let time_val = doubled s.timeval_current in
    if ltb time_val.tv_sec s.timeval_max.tv_sec
      || (time_val.tv_sec == s.timeval_max.tv_sec && leb time_val.tv_sec s.timeval_max.tv_sec)
    then record s { timeval_current = time_val }
    else record s { timeval_current = s.timeval_max }

-- `operator++(int)`: what it returns, and the new state
unfoldable pub post_increment : TimeInterval → TimeInterval × TimeInterval
unfolding increment
post_increment s = (s, increment s)

abbrev pub get_current : TimeInterval → Timeval
get_current s = s.timeval_current

unfoldable pub set_min : ℕ → ℕ → TimeInterval → TimeInterval
unfolding reset
set_min sec usec s = reset (record s { timeval_min = record { tv_sec = sec; tv_usec = usec } })

unfoldable pub set_max : ℕ → ℕ → TimeInterval → TimeInterval
set_max sec usec s = record s { timeval_max = record { tv_sec = sec; tv_usec = usec } }
