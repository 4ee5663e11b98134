-- ===== src/Snowflake/Tests.antt =====
-- The theorems on `Snowflake` at a clock of four readings.
use tools_demo.Base.{
  ℕ, ◌+◌, ◌*◌, ◌/◌, ◌%◌, ◌^◌, ◌≤◌, ◌≡◌, refl, ℕ_discrete, false, some, List, [], ◌∷◌, arith,
}
use tools_demo.Snowflake.Defs.{Snowflake, id, generate, issue, issue_next, after_sleep, catch_up}
use tools_demo.Snowflake.Fields.{Issued}
use tools_demo.Snowflake.Calls.{Among, generate_lem, generate_decode}
use tools_demo.Snowflake.Loops.{generate_runs}
use tools_demo.Snowflake.Lock
use tools_demo.Snowflake.Lock.{run, turn, move, compare_exchange, finish}
use tools_demo.Snowflake.Exclusion.{replay, holds}
use tools_demo.Snowflake.Threads.{lock_excludes, linearizable}
use tools_demo.Snowflake.Ordering.{ids, IsSorted, ids-IsSorted, generate_twice}

abbrev start : Snowflake
start = record { epoch = 1; last_ms = 0; machine = 1; sequence = 0; exception_counter = 0 }

abbrev second : Snowflake
second = record start { last_ms = 2 }

abbrev third : Snowflake
third = record second { sequence = 1 }

abbrev clock : List ℕ
clock = 3000 ∷ 3500 ∷ 3900 ∷ 5000 ∷ []

abbrev rest : List ℕ
rest = 3500 ∷ 3900 ∷ 5000 ∷ []

abbrev last : List ℕ
last = 3900 ∷ 5000 ∷ []

abbrev first_id : ℕ
first_id = 2 * 2 ^ 22 + 2 ^ 12

first_call : generate clock start ≡ id first_id rest second
unfolding generate catch_up issue
first_call = refl

second_call : generate rest second ≡ id first_id last third
unfolding generate catch_up issue issue_next after_sleep
second_call = refl

generate_lem_example : (us : ℕ) × (3000 ≤ us) × Issued start us first_id rest second
generate_lem_example =
    generate_lem 3000 first_id clock rest start second (omega arith)
      (omega arith, (omega arith, (omega arith, (omega arith, tt)))) first_call

generate_decode_example :
    (us : ℕ) × Among us clock
    × (first_id / 2 ^ 22 + 1 ≡ us / 1000)
    × (first_id / 2 ^ 22 ≡ 2)
    × (0 ≤ 2)
    × (first_id / 2 ^ 12 % 1024 ≡ 1)
    × (first_id % 4096 ≡ 0)
generate_decode_example =
    generate_decode 3000 first_id clock rest start second (omega arith)
      (omega arith, (omega arith, (omega arith, (omega arith, tt)))) first_call

-- The last number of a millisecond, on a clock that is behind at first
abbrev last_number : Snowflake
last_number = record second { sequence = 4095 }

generate_runs_example :
    generate (2000 ∷ 3000 ∷ 3500 ∷ 4001 ∷ 5000 ∷ []) last_number
    ≡ id
        (2 * 2 ^ 22 + 2 ^ 12 + 4095)
        (5000 ∷ [])
        (record second { sequence = 0; exception_counter = 1 })
generate_runs_example =
    generate_runs (2000 ∷ []) (3500 ∷ []) (5000 ∷ []) 3000 4001 last_number (omega arith)
      (omega arith, tt) (omega arith) (omega arith) (omega arith, tt) (omega arith)

ids-IsSorted_example : IsSorted 0 (ids 3 clock start)
ids-IsSorted_example =
    ids-IsSorted 3 3000 clock start (omega arith)
      (omega arith, (omega arith, (omega arith, (omega arith, tt))))

generate_twice_example : first_id ≡ first_id
generate_twice_example =
    generate_twice 3000 first_id first_id clock rest last start second third (omega arith)
      (omega arith, (omega arith, (omega arith, (omega arith, tt)))) first_call second_call
      (λ e. absurd (omega arith)) refl

-- Two threads: the first stands in the body, the second waits for the lock.
abbrev turns : List (ℕ × List ℕ)
turns = (0, clock) ∷ (1, clock) ∷ (0, clock) ∷ (1, clock) ∷ (0, clock) ∷ []

lock_excludes_example : holds ((run turns (Lock.start start)).pc 1) ≡ false
unfolding run turn move compare_exchange finish generate catch_up issue ℕ_discrete
lock_excludes_example = lock_excludes start turns 0 1 (λ e. absurd (omega (arith, e))) refl

linearizable_example :
    replay (run turns (Lock.start start)).shared.log start
    ≡ some (run turns (Lock.start start)).shared.object
linearizable_example = linearizable start turns
