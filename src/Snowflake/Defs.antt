-- ===== src/Snowflake/Defs.antt =====
-- `Snowflake<t>` of snowflake_demo/snowflake.h. The clock is the list of the microseconds that
-- `system_clock::now` returns, one for each reading. The calls hold the lock, so they are one after
-- another.
use Prim.Native.Nat.{bit_and, bit_or}
use tools_demo.Base.{
  ℕ, ◌+◌, ◌-◌, ◌*◌, ◌/◌, ◌%◌, ◌^◌, ◌==◌, Option, none, some, List, [], ◌∷◌, ltb, leb, if◌then◌else◌,
}

pub record Snowflake : Type 0 where
  pub epoch : ℕ
  pub last_ms : ℕ
  pub machine : ℕ
  pub sequence : ℕ
  pub exception_counter : ℕ

unfoldable pub init : Snowflake
init = record { epoch = 0; last_ms = 0; machine = 0; sequence = 0; exception_counter = 0 }

abbrev pub set_epoch : ℕ → Snowflake → Snowflake
set_epoch e s = record s { epoch = e }

abbrev pub set_machine : ℕ → Snowflake → Snowflake
set_machine m s = record s { machine = m }

-- The reading with which the first loop ends, the readings after it, and the state
pub record Caught : Type 0 where
  pub microsecs : ℕ
  pub clock : List ℕ
  pub state : Snowflake

-- `while (ms < last_ms_)`. It goes on for as long as the clock is behind.
unfoldable pub catch_up : List ℕ → Snowflake → Option Caught
catch_up [] s = none
catch_up (us ∷ clock) s =
    let rest = catch_up clock (record s { exception_counter = s.exception_counter + 1 }) in
    if ltb (us / 1000) (s.last_ms + s.epoch)
    then rest
    else some (record { microsecs = us; clock = clock; state = s })

-- `while (sleep_to >= now)`, and the readings after it
unfoldable pub sleep_until : ℕ → List ℕ → Option (List ℕ)
sleep_until sleep_to [] = none
sleep_until sleep_to (us ∷ clock) =
    let rest = sleep_until sleep_to clock in if leb us sleep_to then rest else some clock

-- What a call comes to: its id, the readings that are left and the new state; a loop that waits for the
-- clock; or a shift out of the 63 bits.
pub data Generated : Type 0 where
  id : ℕ → List ℕ → Snowflake → Generated
  waiting : Generated
  overflow : Generated

unfoldable pub after_sleep : ℕ → Snowflake → Option (List ℕ) → Generated
after_sleep value s none = waiting
after_sleep value s (some clock) = id value clock s

-- `sequence_++`, which starts again at 0x1000 and then waits for the next millisecond
unfoldable pub issue_next : ℕ → ℕ → Snowflake → List ℕ → Generated
issue_next value cur s clock =
    let incremented = (s.sequence + 1) % 2 ^ 32 in
    let next = if incremented == 0x1000 then 0 else incremented in
    after_sleep value (record s { sequence = next })
      (if next == 0 then sleep_until ((cur + 1) * 1000) clock else some clock)

-- `generate` from the end of its first loop on
unfoldable pub issue : Caught → Generated
issue c =
    let s = c.state in
    let cur = c.microsecs / 1000 in
    let ms = cur - s.epoch in
    let value = bit_or (ms * 2 ^ 22) (bit_and s.machine 0x3ff * 2 ^ 12) in
    if leb (2 ^ 41) ms
    then overflow
    else if ms == s.last_ms
    then issue_next (bit_or value (bit_and s.sequence 0xfff)) cur s c.clock
    else id value c.clock (record s { last_ms = ms; sequence = 0 })

unfoldable pub generate : List ℕ → Snowflake → Generated
generate clock s = elim (catch_up clock s) [ none ↦ waiting | some c ↦ issue c ]
