-- ===== src/TimeLog/Tests.antt =====
-- The theorem on `TimeLog` at two laps.
use tools_demo.Base.{ℕ, ◌+◌, ◌-◌, ◌*◌, ◌≤◌, List, [], ◌∷◌, length, arith}
use tools_demo.TimeLog.Defs.{TimeLog, init, diff_ms}
use tools_demo.TimeLog.Laps.{laps, between, laps_lem}

abbrev started : TimeLog
started = init 1000 []

abbrev readings : List (ℕ × ℕ)
readings = (1600000, 1700000) ∷ (3100000, 3100500) ∷ []

laps_lem_example :
    (laps started readings ≤ diff_ms 1000 3100500)
    × (3100500 - 1000
        ≤ laps started readings * 1000000 + between readings + length readings * 999999)
laps_lem_example =
    laps_lem started readings (omega arith, omega arith, (omega arith, omega arith, tt))
