-- ===== src/TimeInterval/Backoff.antt =====
-- How the interval grows.
use tools_demo.Base.{
  ℕ, zero, suc, ◌+◌, ◌*◌, ◌^◌, ◌≤◌, ◌<◌, ◌≡◌, refl, sym, ap, ◌∙◌, ◌⊎◌, inl, inr, arith, dec_le,
}
use native.Mathlib.Nat.{two-pow-succ}
use tools_demo.TimeInterval.Defs.{Timeval, TimeInterval, reset, doubled, increment}

abbrev pub micros : Timeval → ℕ
micros t = t.tv_sec * 1000000 + t.tv_usec

abbrev pub IsNormal : Timeval → Type 0
IsNormal t = t.tv_usec < 1000000

doubled_lem : (t : Timeval) → (micros (doubled t) ≡ 2 * micros t) × IsNormal (doubled t)
unfolding doubled
doubled_lem t = (omega arith, omega arith)

increment_le :
    (s : TimeInterval)
    → (doubled s.timeval_current).tv_sec ≤ s.timeval_max.tv_sec
    → increment s ≡ record s { timeval_current = doubled s.timeval_current }
unfolding increment
increment_le s h = ground arith

increment_gt :
    (s : TimeInterval)
    → s.timeval_max.tv_sec < (doubled s.timeval_current).tv_sec
    → increment s ≡ record s { timeval_current = s.timeval_max }
unfolding increment
increment_gt s h = ground arith

-- `++` doubles the interval or sets it to the maximum, and the seconds stay within those of the maximum.
pub increment_lem :
    (s : TimeInterval)
    → ((micros (increment s).timeval_current ≡ 2 * micros s.timeval_current)
        ⊎ ((increment s).timeval_current ≡ s.timeval_max))
      × ((increment s).timeval_current.tv_sec ≤ s.timeval_max.tv_sec)
      × ((increment s).timeval_max ≡ s.timeval_max)
increment_lem s = elim (dec_le (doubled s.timeval_current).tv_sec s.timeval_max.tv_sec) [
  | yes fits ↦
      let e = increment_le s fits in
      (
        inl (ap (λ x. micros x.timeval_current) e ∙ (doubled_lem s.timeval_current).0),
        omega (arith, fits, ap (λ x. x.timeval_current.tv_sec) e),
        ap (λ x. x.timeval_max) e,
      )
  | no over ↦
      let e = increment_gt s (omega arith) in
      (
        inr (ap TimeInterval.timeval_current e),
        omega (arith, ap (λ x. x.timeval_current.tv_sec) e),
        ap (λ x. x.timeval_max) e,
      )
]

unfoldable pub increments : ℕ → TimeInterval → TimeInterval
increments zero s = s
increments (suc n) s = increment (increments n s)

-- At a maximum of a second at least the interval stays.
increment_max :
    (s : TimeInterval)
    → s.timeval_current ≡ s.timeval_max
    → 0 < s.timeval_max.tv_sec
    → (increment s).timeval_current ≡ s.timeval_max
unfolding doubled
increment_max s e h =
    let more : s.timeval_max.tv_sec < (doubled s.timeval_current).tv_sec =
      omega (arith, ap Timeval.tv_sec e) in
    ap TimeInterval.timeval_current (increment_gt s more)

two-pow-succ_times : (n m : ℕ) → 2 ^ suc n * m ≡ 2 * (2 ^ n * m)
two-pow-succ_times n m = ap (λ k. k * m) (two-pow-succ n) ∙ omega arith

-- After `Reset` and `n` times `++`, with a maximum of a second at least, the interval is `2 ^ n` times the
-- minimum or it is the maximum.
pub increments_lem :
    (n : ℕ) (s : TimeInterval)
    → 0 < s.timeval_max.tv_sec
    → ((micros (increments n (reset s)).timeval_current ≡ 2 ^ n * micros s.timeval_min)
        ⊎ ((increments n (reset s)).timeval_current ≡ s.timeval_max))
      × ((increments n (reset s)).timeval_max ≡ s.timeval_max)
unfolding increments reset
increments_lem zero s h = (inl (omega arith), refl)
increments_lem (suc n) s h =
    let (before, same) = increments_lem n s h in
    let t = increments n (reset s) in
    let (now, _, same') = increment_lem t in
    (
      elim before [
        | inl grows ↦ elim now [
          | inl twice ↦
              inl (omega (arith, grows, twice, two-pow-succ_times n (micros s.timeval_min)))
          | inr top ↦ inr (top ∙ same)
        ]
        | inr top ↦
            inr (increment_max t (top ∙ sym same) (omega (arith, ap Timeval.tv_sec same)) ∙ same)
      ],
      same' ∙ same,
    )

-- `++` can go past the maximum: where the double has the seconds of the maximum and more microseconds, it
-- is taken.
pub increment_over :
    (s : TimeInterval)
    → (doubled s.timeval_current).tv_sec ≡ s.timeval_max.tv_sec
    → s.timeval_max.tv_usec < (doubled s.timeval_current).tv_usec
    → micros s.timeval_max < micros (increment s).timeval_current
increment_over s e h =
    omega (arith, e, h, ap (λ x. micros x.timeval_current) (increment_le s (omega arith)))
