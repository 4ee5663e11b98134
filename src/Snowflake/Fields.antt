-- ===== src/Snowflake/Fields.antt =====
-- The fields of the ids.
use Prim.Native.Nat.{bit_and, bit_or}
use tools_demo.Base.{
  subst, ℕ, ◌+◌, ◌*◌, ◌/◌, ◌%◌, ◌^◌, ◌≤◌, ◌<◌, ◌≡◌, refl, sym, ap, ◌∙◌, ◌⊎◌, inl, inr, Option, none,
  some, List, [], ◌∷◌, arith, ◌==◌, if◌then◌else◌, dec_lt, dec_le, ℕ_discrete,
}
use tools_demo.Base.Bits.{bit_and_low, bit_or_disjoint}
use tools_demo.Snowflake.Defs.{
  Snowflake, Caught, catch_up, sleep_until, id, after_sleep, issue_next,
}

-- what the code makes of the time, the machine and the number
abbrev pub id_of : ℕ → ℕ → ℕ → ℕ
id_of ms machine number = ms * 2 ^ 22 + machine % 1024 * 2 ^ 12 + number

pub head_lem :
    (ms machine : ℕ) → bit_or (ms * 2 ^ 22) (bit_and machine 0x3ff * 2 ^ 12) ≡ id_of ms machine 0
head_lem ms machine =
    let low = bit_and_low 10 0x3ff machine refl in
    ap (λ x. bit_or (ms * 2 ^ 22) (x * 2 ^ 12)) low
    ∙ bit_or_disjoint 22 ms (machine % 1024 * 2 ^ 12) (omega arith)
    ∙ omega arith

pub full_lem :
    (ms machine number : ℕ)
    → number < 4096
    → bit_or (bit_or (ms * 2 ^ 22) (bit_and machine 0x3ff * 2 ^ 12)) (bit_and number 0xfff)
      ≡ id_of ms machine number
full_lem ms machine number h =
    let low = bit_and_low 12 0xfff number refl in
    let small : number % 2 ^ 12 ≡ number = omega arith in
    let e : id_of ms machine 0 ≡ (ms * 2 ^ 10 + machine % 1024) * 2 ^ 12 = omega arith in
    ap (λ x. bit_or x (bit_and number 0xfff)) (head_lem ms machine ∙ e)
    ∙ ap (bit_or ((ms * 2 ^ 10 + machine % 1024) * 2 ^ 12)) (low ∙ small)
    ∙ bit_or_disjoint 12 (ms * 2 ^ 10 + machine % 1024) number (omega arith)
    ∙ omega arith

-- The readings are sorted and none is before `t`.
abbrev pub IsClock : ℕ → List ℕ → Type 0
IsClock t [] = Unit
IsClock t (us ∷ clock) = (t ≤ us) × IsClock us clock

pub IsClock-mono : (t u : ℕ) (clock : List ℕ) → u ≤ t → IsClock t clock → IsClock u clock
IsClock-mono t u [] h c = tt
IsClock-mono t u (us ∷ clock) h (p, c) = (omega arith, c)

-- the state that the loop leaves alone
abbrev pub SameFields : Snowflake → Snowflake → Type 0
SameFields s s' =
    (s'.epoch ≡ s.epoch)
    × (s'.last_ms ≡ s.last_ms)
    × (s'.machine ≡ s.machine)
    × (s'.sequence ≡ s.sequence)

pub catch_up_lem :
    (t : ℕ) (clock : List ℕ) (s : Snowflake) (c : Caught)
    → IsClock t clock
    → catch_up clock s ≡ some c
    → (s.last_ms + s.epoch ≤ c.microsecs / 1000)
      × (t ≤ c.microsecs)
      × IsClock c.microsecs c.clock
      × SameFields s c.state
unfolding catch_up
catch_up_lem t [] s c k e = absurd (cc)
catch_up_lem t (us ∷ clock) s c (p, k) e = elim (dec_lt (us / 1000) (s.last_ms + s.epoch)) [
  | yes behind ↦
      let (a, b, d, f) =
        catch_up_lem us clock (record s { exception_counter = s.exception_counter + 1 }) c k
          (ground arith) in
      (a, omega arith, d, f)
  | no caught ↦
      let now : record { microsecs = us; clock = clock; state = s } ≡ c = ground arith in
      subst
        (λ x.
          (s.last_ms + s.epoch ≤ x.microsecs / 1000)
          × (t ≤ x.microsecs)
          × IsClock x.microsecs x.clock
          × SameFields s x.state)
        now (omega arith, p, k, (refl, refl, refl, refl))
]

pub sleep_lem :
    (t to : ℕ) (clock rest : List ℕ)
    → IsClock t clock
    → sleep_until to clock ≡ some rest
    → IsClock (to + 1) rest × IsClock t rest
unfolding sleep_until
sleep_lem t to [] rest k e = absurd (cc)
sleep_lem t to (us ∷ clock) rest (p, k) e = elim (dec_le us to) [
  | yes early ↦
      let (a, b) = sleep_lem us to clock rest k (ground arith) in (a, IsClock-mono us t rest p b)
  | no late ↦
      let now : clock ≡ rest = ground arith in
      subst (λ x. IsClock (to + 1) x × IsClock t x) now
        (IsClock-mono us (to + 1) clock (omega arith) k, IsClock-mono us t clock p k)
]

-- What a call does: the time of the id, its number, and the next number.
pub data Step (s : Snowflake) (v : ℕ) (clock : List ℕ) (s' : Snowflake) : Type 0 where
  again :
      s'.last_ms ≡ s.last_ms
      → s'.sequence ≡ s.sequence + 1
      → v ≡ id_of s.last_ms s.machine s.sequence
      → IsClock ((s.last_ms + s.epoch) * 1000) clock
      → Step s v clock s'
  wrapped :
      s'.last_ms ≡ s.last_ms
      → s'.sequence ≡ 0
      → v ≡ id_of s.last_ms s.machine s.sequence
      → IsClock ((s.last_ms + s.epoch + 1) * 1000) clock
      → Step s v clock s'
  fresh :
      s.last_ms < s'.last_ms
      → s'.sequence ≡ 0
      → v ≡ id_of s'.last_ms s.machine 0
      → IsClock ((s'.last_ms + s.epoch) * 1000) clock
      → Step s v clock s'

-- The facts of a call that reads the time `us` last before it goes on
pub record Issued (s : Snowflake) (us v : ℕ) (clock : List ℕ) (s' : Snowflake) : Type 0 where
  pub epoch_kept : s'.epoch ≡ s.epoch
  pub machine_kept : s'.machine ≡ s.machine
  pub in_range : s'.sequence < 4096
  pub time : us / 1000 ≡ s'.last_ms + s.epoch
  pub step : Step s v clock s'

after_sleep_lem :
    (value v : ℕ) (s s' : Snowflake) (o : Option (List ℕ)) (rest : List ℕ)
    → after_sleep value s o ≡ id v rest s'
    → (o ≡ some rest) × (value ≡ v) × (s ≡ s')
unfolding after_sleep
after_sleep_lem value v s s' none rest e = absurd (cc)
after_sleep_lem value v s s' (some clock) rest e = (ground arith, ground arith, ground arith)

pub next_lem :
    (value cur v : ℕ) (s s' : Snowflake) (clock rest : List ℕ)
    → s.sequence < 4096
    → IsClock (cur * 1000) clock
    → issue_next value cur s clock ≡ id v rest s'
    → (v ≡ value)
      × (s'.epoch ≡ s.epoch)
      × (s'.last_ms ≡ s.last_ms)
      × (s'.machine ≡ s.machine)
      × (((s'.sequence ≡ s.sequence + 1) × (s.sequence + 1 < 4096) × IsClock (cur * 1000) rest)
          ⊎ ((s'.sequence ≡ 0) × IsClock ((cur + 1) * 1000) rest))
unfolding issue_next
next_lem value cur v s s' clock rest h k e = elim (ℕ_discrete s.sequence 4095) [
  | yes last ↦
      let wrap : (if (s.sequence + 1) % 2 ^ 32 == 0x1000 then 0 else (s.sequence + 1) % 2 ^ 32)
          ≡ 0 =
        ground arith in
      let (a, b, c) = after_sleep_lem value v _ s' _ rest e in
      let slept : sleep_until ((cur + 1) * 1000) clock ≡ some rest = ground (arith, a, wrap) in
      let (later, _) = sleep_lem (cur * 1000) ((cur + 1) * 1000) clock rest k slept in
      subst
        (λ x.
          (v ≡ value)
          × (x.epoch ≡ s.epoch)
          × (x.last_ms ≡ s.last_ms)
          × (x.machine ≡ s.machine)
          × (((x.sequence ≡ s.sequence + 1) × (s.sequence + 1 < 4096) × IsClock (cur * 1000) rest)
              ⊎ ((x.sequence ≡ 0) × IsClock ((cur + 1) * 1000) rest)))
        c
        (
          sym b,
          refl,
          refl,
          refl,
          inr (
            wrap,
            IsClock-mono ((cur + 1) * 1000 + 1) ((cur + 1) * 1000) rest (omega arith) later,
          ),
        )
  | no more ↦
      let keep : (if (s.sequence + 1) % 2 ^ 32 == 0x1000 then 0 else (s.sequence + 1) % 2 ^ 32)
          ≡ s.sequence + 1 =
        ground arith in
      let (a, b, c) = after_sleep_lem value v _ s' _ rest e in
      let same : clock ≡ rest = ground (arith, a, keep) in
      subst
        (λ x.
          (v ≡ value)
          × (x.epoch ≡ s.epoch)
          × (x.last_ms ≡ s.last_ms)
          × (x.machine ≡ s.machine)
          × (((x.sequence ≡ s.sequence + 1) × (s.sequence + 1 < 4096) × IsClock (cur * 1000) rest)
              ⊎ ((x.sequence ≡ 0) × IsClock ((cur + 1) * 1000) rest)))
        c (sym b, refl, refl, refl, inl (keep, omega arith, subst (IsClock (cur * 1000)) same k))
]
