-- ===== src/TimeLog/Laps.antt =====
-- Times of timelog/main.cpp that follow one another.
use tools_demo.Base.{ℕ, ◌+◌, ◌-◌, ◌*◌, ◌≤◌, ◌≡◌, List, [], ◌∷◌, length, arith}
use tools_demo.TimeLog.Defs.{TimeLog, reset, diff_ms, elapsed, gettimeofday, get_current_ms}

-- The readings of a clock from one on, two for each lap: that of `Elapsed`, and that of the `Reset` after it
abbrev pub IsForward : ℕ → List (ℕ × ℕ) → Type 0
IsForward now [] = Unit
IsForward now ((read, again) ∷ readings) = (now ≤ read) × (read ≤ again) × IsForward again readings

abbrev pub last_of : ℕ → List (ℕ × ℕ) → ℕ
last_of now [] = now
last_of now ((read, again) ∷ readings) = last_of again readings

-- The sum of what `Elapsed` returns for each lap
unfoldable pub laps : TimeLog → List (ℕ × ℕ) → ℕ
laps t [] = 0
laps t ((read, again) ∷ readings) = elapsed read t + laps (reset again t) readings

-- The nanoseconds between each `Elapsed` and its `Reset`, which no lap has
abbrev pub between : List (ℕ × ℕ) → ℕ
between [] = 0
between ((read, again) ∷ readings) = again - read + between readings

last_of-forward :
    (now : ℕ) (readings : List (ℕ × ℕ)) → IsForward now readings → now ≤ last_of now readings
last_of-forward now [] f = omega arith
last_of-forward now ((read, again) ∷ readings) (first, second, rest) =
    let l = last_of-forward again readings rest in omega (arith, first, second, l)

-- If the clock does not go back from one reading to the next, the milliseconds that `Elapsed` returns for
-- laps one after another, each ended by a `Reset` that reads the clock again, come to no more than
-- `DiffMs` from the start to the last `Reset`. The time from the start to that `Reset` is at most these
-- milliseconds, the time between each `Elapsed` and its `Reset`, and less than one millisecond for each lap.
pub laps_lem :
    (t : TimeLog) (readings : List (ℕ × ℕ))
    → IsForward t.begin readings
    → (laps t readings ≤ diff_ms t.begin (last_of t.begin readings))
      × (last_of t.begin readings - t.begin
          ≤ laps t readings * 1000000 + between readings + length readings * 999999)
unfolding laps elapsed diff_ms
laps_lem t [] f = (omega arith, omega arith)
laps_lem t ((read, again) ∷ readings) (first, second, rest) =
    let r = laps_lem (reset again t) readings rest in
    let l = last_of-forward again readings rest in
    (omega (arith, first, second, l, r.0, r.1), omega (arith, first, second, l, r.0, r.1))

get_current_ms_lem :
    (clock milliseconds : ℕ)
    → get_current_ms (gettimeofday clock milliseconds) ≡ clock * 1000 + milliseconds
unfolding get_current_ms gettimeofday
get_current_ms_lem clock milliseconds = omega arith
