-- ===== src/Snowflake/Loops.antt =====
-- The two loops of `generate`, and what it returns when the clock gets past what they wait for.
use Prim.Native.Nat.{bit_and, bit_or}
use tools_demo.Base.{
  ℕ, ◌+◌, ◌-◌, ◌*◌, ◌/◌, ◌%◌, ◌^◌, ◌≤◌, ◌<◌, ◌≡◌, ◌&&◌, some, List, [], ◌∷◌, ◌++◌, arith, ◌==◌,
  if◌then◌else◌, length, ltb, ℕ_discrete,
}
use tools_demo.Snowflake.Defs.{
  Snowflake, catch_up, sleep_until, Generated, id, after_sleep, issue_next, issue, generate,
}
use tools_demo.Snowflake.Fields.{id_of, head_lem, full_lem}

-- Readings before the millisecond that the first loop waits for
abbrev pub AllBehind : ℕ → List ℕ → Type 0
AllBehind ms [] = Unit
AllBehind ms (us ∷ clock) = (us / 1000 < ms) × AllBehind ms clock

-- Readings that the second loop sleeps at
abbrev pub AllUpTo : ℕ → List ℕ → Type 0
AllUpTo sleep_to [] = Unit
AllUpTo sleep_to (us ∷ clock) = (us ≤ sleep_to) × AllUpTo sleep_to clock

-- The state with some more exceptions
abbrev pub counted : ℕ → Snowflake → Snowflake
counted n s = record s { exception_counter = s.exception_counter + n }

catch_up-behind :
    (behind : List ℕ) (us : ℕ) (clock : List ℕ) (s : Snowflake)
    → AllBehind (s.last_ms + s.epoch) behind
    → s.last_ms + s.epoch ≤ us / 1000
    → catch_up (behind ++ us ∷ clock) s
      ≡ some (record { microsecs = us; clock = clock; state = counted (length behind) s })
unfolding catch_up
catch_up-behind [] us clock s a h = ground (arith, a, h)
catch_up-behind (b ∷ behind) us clock s (first, a) h =
    let rest = catch_up-behind behind us clock (counted 1 s) a h in ground (arith, first, rest)

sleep_until-past :
    (sleep_to : ℕ) (early : List ℕ) (us : ℕ) (clock : List ℕ)
    → AllUpTo sleep_to early
    → sleep_to < us
    → sleep_until sleep_to (early ++ us ∷ clock) ≡ some clock
unfolding sleep_until
sleep_until-past sleep_to [] us clock a h = ground (arith, h)
sleep_until-past sleep_to (e ∷ early) us clock (first, a) h =
    ground (arith, first, sleep_until-past sleep_to early us clock a h)

issue_next-wraps :
    (value cur : ℕ) (s : Snowflake) (early : List ℕ) (us : ℕ) (clock : List ℕ)
    → s.sequence ≡ 4095
    → AllUpTo ((cur + 1) * 1000) early
    → (cur + 1) * 1000 < us
    → issue_next value cur s (early ++ us ∷ clock) ≡ id value clock (record s { sequence = 0 })
unfolding issue_next after_sleep
issue_next-wraps value cur s early us clock last a past =
    let slept = sleep_until-past ((cur + 1) * 1000) early us clock a past in
    ground (arith, last, slept)

issue_next-counts :
    (value cur : ℕ) (s : Snowflake) (clock : List ℕ)
    → s.sequence < 4095
    → issue_next value cur s clock ≡ id value clock (record s { sequence = s.sequence + 1 })
unfolding issue_next after_sleep
issue_next-counts value cur s clock small =
    let no_wrap : (s.sequence + 1) % 2 ^ 32 ≡ s.sequence + 1 = omega (arith, small) in
    ground (arith, small, no_wrap)

-- What a call that goes on with the reading `us` returns, where `clock` comes after the sleep
abbrev pub issued : ℕ → List ℕ → List ℕ → Snowflake → Generated
issued us more clock s =
    let ms = us / 1000 - s.epoch in
    id (id_of ms s.machine (if ms == s.last_ms then s.sequence else 0))
      (if (ms == s.last_ms) && (s.sequence == 4095) then clock else more)
      (record s {
        last_ms = ms;
        sequence = if (ms == s.last_ms) && ltb s.sequence 4095 then s.sequence + 1 else 0;
      })

issue-issued :
    (us us' : ℕ) (early clock : List ℕ) (s : Snowflake)
    → s.sequence < 4096
    → s.last_ms + s.epoch ≤ us / 1000
    → us / 1000 < s.epoch + 2 ^ 41
    → AllUpTo ((us / 1000 + 1) * 1000) early
    → (us / 1000 + 1) * 1000 < us'
    → issue (record { microsecs = us; clock = early ++ us' ∷ clock; state = s })
      ≡ issued us (early ++ us' ∷ clock) clock s
unfolding issue
issue-issued us us' early clock s h late small a past =
    let ms = us / 1000 - s.epoch in
    let head = bit_or (ms * 2 ^ 22) (bit_and s.machine 0x3ff * 2 ^ 12) in
    let value = bit_or head (bit_and s.sequence 0xfff) in
    let more = early ++ us' ∷ clock in
    elim (ℕ_discrete ms s.last_ms) [
      | yes same ↦
          let is = full_lem ms s.machine s.sequence h in
          elim (ℕ_discrete s.sequence 4095) [
            | yes last ↦
                let call = issue_next-wraps value (us / 1000) s early us' clock last a past in
                ground (arith, same, small, last, call, is)
            | no before ↦
                let call = issue_next-counts value (us / 1000) s more (omega (arith, h, before)) in
                ground (arith, same, small, before, call, is, h)
          ]
      | no new ↦ let is = head_lem ms s.machine in ground (arith, new, small, is)
    ]

-- From a state whose number is below 4096, and on a clock whose readings are at first before the last
-- millisecond, then one of a millisecond that is not and fits 41 bits, and then some up to a millisecond
-- after it and one past that: `generate` returns. Its id is of that millisecond, with the number of the
-- state where it is the last one and 0 where it is new; each reading that was behind is counted; and the
-- readings up to the one past the next millisecond are used up only where the number starts again at 0
-- after 4095.
pub generate_runs :
    (behind early clock : List ℕ) (us us' : ℕ) (s : Snowflake)
    → s.sequence < 4096
    → AllBehind (s.last_ms + s.epoch) behind
    → s.last_ms + s.epoch ≤ us / 1000
    → us / 1000 < s.epoch + 2 ^ 41
    → AllUpTo ((us / 1000 + 1) * 1000) early
    → (us / 1000 + 1) * 1000 < us'
    → generate (behind ++ us ∷ (early ++ us' ∷ clock)) s
      ≡ issued us (early ++ us' ∷ clock) clock (counted (length behind) s)
unfolding generate
generate_runs behind early clock us us' s h b late small a past =
    let caught = catch_up-behind behind us (early ++ us' ∷ clock) s b late in
    let rest = issue-issued us us' early clock (counted (length behind) s) h late small a past in
    ground (arith, caught, rest)
