-- ===== src/Snowflake/Calls.antt =====
-- A call of `generate`.
use Prim.Native.Nat.{bit_and, bit_or}
use tools_demo.Base.{
  subst, ℕ, ◌+◌, ◌-◌, ◌*◌, ◌/◌, ◌%◌, ◌^◌, ◌≤◌, ◌<◌, ◌≡◌, refl, sym, ap, ◌∙◌, ◌⊎◌, inl, inr, some,
  List, [], ◌∷◌, dec_lt, arith, ◌==◌, if◌then◌else◌, Option-cases, ℕ_discrete,
}
use tools_demo.Snowflake.Defs.{Snowflake, Caught, catch_up, id, issue_next, issue, generate}
use tools_demo.Snowflake.Fields.{
  id_of, head_lem, full_lem, IsClock, IsClock-mono, SameFields, catch_up_lem, next_lem, Step, again,
  wrapped, fresh, Issued,
}

issue_lem :
    (v : ℕ) (c : Caught) (s' : Snowflake) (rest : List ℕ)
    → c.state.sequence < 4096
    → c.state.last_ms + c.state.epoch ≤ c.microsecs / 1000
    → IsClock c.microsecs c.clock
    → issue c ≡ id v rest s'
    → Issued c.state c.microsecs v rest s'
unfolding issue
issue_lem v c s' rest h late k e =
    let s = c.state in
    let cur = c.microsecs / 1000 in
    let k' = IsClock-mono c.microsecs (cur * 1000) c.clock (omega arith) k in
    elim (ℕ_discrete (cur - s.epoch) s.last_ms) [
      | yes same ↦
          let value =
            bit_or (bit_or ((cur - s.epoch) * 2 ^ 22) (bit_and s.machine 0x3ff * 2 ^ 12))
              (bit_and s.sequence 0xfff) in
          let call : issue_next value cur s c.clock ≡ id v rest s' = ground arith in
          let (is, ep, la, ma, more) = next_lem value cur v s s' c.clock rest h k' call in
          let number : v ≡ id_of s.last_ms s.machine s.sequence =
            is
            ∙ full_lem (cur - s.epoch) s.machine s.sequence h
            ∙ ap (λ m. id_of m s.machine s.sequence) same in
          let time : cur ≡ s.last_ms + s.epoch = omega arith in
          elim more [
            | inl (q, small, kk) ↦ record {
              epoch_kept = ep;
              machine_kept = ma;
              in_range = omega arith;
              time = omega arith;
              step = again la q number (subst (λ x. IsClock (x * 1000) rest) time kk);
            }
            | inr (q, kk) ↦ record {
              epoch_kept = ep;
              machine_kept = ma;
              in_range = omega arith;
              time = omega arith;
              step = wrapped la q number (subst (λ x. IsClock ((x + 1) * 1000) rest) time kk);
            }
          ]
      | no other ↦
          let value = bit_or ((cur - s.epoch) * 2 ^ 22) (bit_and s.machine 0x3ff * 2 ^ 12) in
          let call : id value c.clock (record s { last_ms = cur - s.epoch; sequence = 0 })
              ≡ id v rest s' =
            ground arith in
          let state : record s { last_ms = cur - s.epoch; sequence = 0 } ≡ s' =
            ground (arith, call) in
          let left : c.clock ≡ rest = ground (arith, call) in
          let number : v ≡ id_of (cur - s.epoch) s.machine 0 =
            ground (arith, call, head_lem (cur - s.epoch) s.machine) in
          let time : cur ≡ cur - s.epoch + s.epoch = omega arith in
          subst (λ x. Issued s c.microsecs v rest x) state
            (record {
              epoch_kept = refl;
              machine_kept = refl;
              in_range = omega arith;
              time = time;
              step = fresh (omega arith) refl number (
                  subst (λ x. IsClock (x * 1000) rest) time (subst (IsClock (cur * 1000)) left k'));
            })
    ]

same_step :
    (s c s' : Snowflake) (v : ℕ) (rest : List ℕ)
    → SameFields s c
    → Step c v rest s'
    → Step s v rest s'
same_step s c s' v rest (a, b, m, q) (again l n e k) =
    again (l ∙ b) (n ∙ ap (λ x. x + 1) q) (e ∙ ground (arith, b, m, q))
      (subst (λ x. IsClock (x * 1000) rest) (omega arith) k)
same_step s c s' v rest (a, b, m, q) (wrapped l n e k) =
    wrapped (l ∙ b) n (e ∙ ground (arith, b, m, q))
      (subst (λ x. IsClock ((x + 1) * 1000) rest) (omega arith) k)
same_step s c s' v rest (a, b, m, q) (fresh l n e k) =
    fresh (omega arith) n (e ∙ ap (λ x. id_of s'.last_ms x 0) m)
      (subst (λ x. IsClock (x * 1000) rest) (omega arith) k)

same_fields :
    (s c s' : Snowflake) (us v : ℕ) (rest : List ℕ)
    → SameFields s c
    → Issued c us v rest s'
    → Issued s us v rest s'
same_fields s c s' us v rest (a, b, m, q) i = record {
  epoch_kept = i.epoch_kept ∙ a;
  machine_kept = i.machine_kept ∙ m;
  in_range = i.in_range;
  time = i.time ∙ ap (λ x. s'.last_ms + x) a;
  step = same_step s c s' v rest (a, b, m, q) i.step;
}

-- One of the readings of a clock
abbrev pub Among : ℕ → List ℕ → Type 0
Among us [] = ⊥
Among us (reading ∷ clock) = (us ≡ reading) ⊎ Among us clock

catch_up-Among :
    (clock : List ℕ) (s : Snowflake) (c : Caught)
    → catch_up clock s ≡ some c
    → Among c.microsecs clock
unfolding catch_up
catch_up-Among [] s c e = absurd (cc)
catch_up-Among (us ∷ clock) s c e = elim (dec_lt (us / 1000) (s.last_ms + s.epoch)) [
  | yes behind ↦ inr (
      catch_up-Among clock (record s { exception_counter = s.exception_counter + 1 }) c
        (ground arith))
  | no caught ↦
      let now : record { microsecs = us; clock = clock; state = s } ≡ c = ground arith in
      inl (sym (ap (λ x. x.microsecs) now))
]

-- `generate` on a sorted clock, when it returns, at the reading that it goes on with
generate_reading :
    (t v : ℕ) (clock rest : List ℕ) (s s' : Snowflake)
    → s.sequence < 4096
    → IsClock t clock
    → generate clock s ≡ id v rest s'
    → (us : ℕ) × (t ≤ us) × Among us clock × Issued s us v rest s'
unfolding generate
generate_reading t v clock rest s s' h k e = elim (Option-cases (catch_up clock s)) [
  | inl stuck ↦ absurd (ground arith)
  | inr (c, caught) ↦
      let (late, after, kk, same) = catch_up_lem t clock s c k caught in
      let (a, b, m, q) = same in
      (
        c.microsecs,
        after,
        catch_up-Among clock s c caught,
        same_fields s c.state s' c.microsecs v rest same
            (issue_lem v c s' rest (omega arith) (omega arith) kk (ground (arith, e, caught))),
      )
]

-- The time of the id is not before the last one, the number is the state's in the same millisecond and 0
-- in a new one, and the clock is past it.
pub generate_lem :
    (t v : ℕ) (clock rest : List ℕ) (s s' : Snowflake)
    → s.sequence < 4096
    → IsClock t clock
    → generate clock s ≡ id v rest s'
    → (us : ℕ) × (t ≤ us) × Issued s us v rest s'
generate_lem t v clock rest s s' h k e =
    let (us, late, among, i) = generate_reading t v clock rest s s' h k e in (us, late, i)

-- On a sorted clock and from a state whose number is below 4096, an id that `generate` returns has three
-- fields that division reads back: above 22 bits the millisecond of one of the readings of the clock,
-- counted from the epoch, which is the new `last_ms_` and not before the old one; in ten bits the
-- machine's lowest ten; and in the lowest twelve the number of the state where the millisecond is the
-- last one again, and 0 where it is new.
pub generate_decode :
    (t v : ℕ) (clock rest : List ℕ) (s s' : Snowflake)
    → s.sequence < 4096
    → IsClock t clock
    → generate clock s ≡ id v rest s'
    → (us : ℕ) × Among us clock
      × (v / 2 ^ 22 + s.epoch ≡ us / 1000)
      × (v / 2 ^ 22 ≡ s'.last_ms)
      × (s.last_ms ≤ s'.last_ms)
      × (v / 2 ^ 12 % 1024 ≡ s.machine % 1024)
      × (v % 4096 ≡ (if s'.last_ms == s.last_ms then s.sequence else 0))
generate_decode t v clock rest s s' h k e =
    let (us, late, among, i) = generate_reading t v clock rest s s' h k e in
    let time = i.time in
    elim i.step [
      | again l n is c ↦
          let top : v / 2 ^ 22 ≡ s'.last_ms = omega arith in
          let low : v % 4096 ≡ s.sequence = omega arith in
          (us, among, omega arith, top, omega arith, omega arith, ground (arith, l, low))
      | wrapped l n is c ↦
          let top : v / 2 ^ 22 ≡ s'.last_ms = omega arith in
          let low : v % 4096 ≡ s.sequence = omega arith in
          (us, among, omega arith, top, omega arith, omega arith, ground (arith, l, low))
      | fresh l n is c ↦
          let top : v / 2 ^ 22 ≡ s'.last_ms = omega arith in
          let low : v % 4096 ≡ 0 = omega arith in
          (us, among, omega arith, top, omega arith, omega arith, ground (arith, l, low))
    ]
