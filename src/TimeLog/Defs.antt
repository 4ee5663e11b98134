-- ===== src/TimeLog/Defs.antt =====
-- `TimeLog` of timelog/main.cpp. A time point is the nanoseconds of a clock that does not go back, and
-- each call that reads the clock takes the reading.
use tools_demo.Base.{ℕ, ◌+◌, ◌-◌, ◌*◌, ◌/◌, List}

pub record TimeLog : Type 0 where
  pub tag : List ℕ
  pub begin : ℕ

-- The constructor
abbrev pub init : ℕ → List ℕ → TimeLog
init now tag = record { tag = tag; begin = now }

abbrev pub reset : ℕ → TimeLog → TimeLog
reset now t = record t { begin = now }

unfoldable pub diff_us : ℕ → ℕ → ℕ
diff_us before after = (after - before) / 1000

unfoldable pub diff_ms : ℕ → ℕ → ℕ
diff_ms before after = (after - before) / 1000000

unfoldable pub elapsed : ℕ → TimeLog → ℕ
elapsed now t = (now - t.begin) / 1000000

-- What `~TimeLog` prints: the tag and the milliseconds
unfoldable pub leave : ℕ → TimeLog → List ℕ × ℕ
leave now t = (t.tag, (now - t.begin) / 1000000)

pub record Timeval : Type 0 where
  pub tv_sec : ℕ
  pub tv_usec : ℕ

-- `gettimeofday`, of what `mktime` makes of the local time, and its milliseconds
unfoldable pub gettimeofday : ℕ → ℕ → Timeval
gettimeofday clock milliseconds = record { tv_sec = clock; tv_usec = milliseconds * 1000 }

unfoldable pub get_current_ms : Timeval → ℕ
get_current_ms time = time.tv_sec * 1000 + time.tv_usec / 1000
