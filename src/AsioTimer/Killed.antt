-- ===== src/AsioTimer/Killed.antt =====
-- What becomes of a timer of timer_demo/asio_timer_base.cpp after kill_timer.
use tools_demo.Base.{
  ℕ, ◌+◌, ◌≡◌, ◌≢◌, sym, ap, subst, inl, inr, Bool, false, none, List, [], ◌∷◌, ℕ_discrete, arith,
  Option-cases, ite,
}
use tools_demo.Base.Dict.{find, find-erase_self}
use tools_demo.AsioTimer.Asio.{Asio, Completion, posted, expired, aborted}
use tools_demo.AsioTimer.Defs.{
  AsioTimer, set_timer, kill_timer, ontimer_internal, handle, init, on_timer, at_once, Call,
}
use tools_demo.AsioTimer.Invariant.{
  at, Inv, init-Inv, kill-Inv, killed, kill_timer-none, kill_timer-some, erased_ne,
}
use tools_demo.AsioTimer.Setting.{set_timer-none, set_timer-some, added, at_added}
use tools_demo.AsioTimer.Scheduled.{Steps-Inv, ontimer-none, ontimer-some}
use tools_demo.AsioTimer.Steps.{Step, sets, kills, completes, Steps, here, next, Reach}

-- How often a wait of an id has called back; the call that set_timer posts at once is not one of these.
abbrev pub call_of : ℕ → Call → ℕ
call_of i (at_once callback) = 0
call_of i (on_timer j callback) = ite (ℕ_discrete i j) 1 0

unfoldable pub timer_calls : ℕ → List Call → ℕ
timer_calls i [] = 0
timer_calls i (c ∷ calls) = call_of i c + timer_calls i calls

module _ (asio : Asio) where
  -- The timer is not in the map and has called back so often.
  record Silent (i n : ℕ) (a : AsioTimer asio) : Type 0 where
    absent : at asio i a ≡ none
    count : timer_calls i a.called ≡ n

  killed_absent :
      (i : ℕ) (a : AsioTimer asio) → Inv asio a → at asio i (kill_timer asio i a).1 ≡ none
  killed_absent i a h = elim (Option-cases (at asio i a)) [
    | inl e ↦ subst (λ r. at asio i r.1 ≡ none) (sym (kill_timer-none asio i a e)) e
    | inr (info, e) ↦
        subst (λ r. at asio i r.1 ≡ none) (sym (kill_timer-some asio i info a e))
          (find-erase_self ℕ_discrete i a.map_timer h.distinct)
  ]

  killed_called : (i : ℕ) (a : AsioTimer asio) → (kill_timer asio i a).1.called ≡ a.called
  killed_called i a = elim (Option-cases (at asio i a)) [
    | inl e ↦ ap (λ r. r.1.called) (kill_timer-none asio i a e)
    | inr (info, e) ↦ ap (λ r. r.1.called) (kill_timer-some asio i info a e)
  ]

  set-Silent :
      (i j elapse callback n : ℕ) (run_once : Bool) (a : AsioTimer asio)
      → j ≢ i
      → Silent i n a
      → Silent i n (set_timer asio j elapse callback run_once a).1
  set-Silent i j elapse callback n run_once a other k = elim (Option-cases (at asio j a)) [
    | inl e ↦
        subst (λ r. Silent i n r.1) (sym (set_timer-none asio j elapse callback run_once a e))
          (record {
            absent = elim (Option-cases (at asio i (added asio j elapse callback run_once a))) [
              | inl none_there ↦ none_there
              | inr (p, f) ↦ elim (at_added asio j i elapse callback run_once a p e f) [
                | inl g ↦ absurd (ground (arith, g, k.absent))
                | inr (same, new) ↦ absurd (other same)
              ]
            ];
            count = k.count;
          })
    | inr (info, e) ↦
        subst (λ r. Silent i n r.1) (sym (set_timer-some asio j elapse callback run_once a info e))
          k
  ]

  kill-Silent :
      (i j n : ℕ) (a : AsioTimer asio)
      → Inv asio a
      → Silent i n a
      → Silent i n (kill_timer asio j a).1
  kill-Silent i j n a h k = elim (Option-cases (at asio j a)) [
    | inl e ↦ subst (λ r. Silent i n r.1) (sym (kill_timer-none asio j a e)) k
    | inr (info, e) ↦
        subst (λ r. Silent i n r.1) (sym (kill_timer-some asio j info a e))
          (record {
            absent = elim (Option-cases (at asio i (killed asio j info a))) [
              | inl none_there ↦ none_there
              | inr (p, f) ↦ absurd (ground (arith, (erased_ne asio j i info p a h f).1, k.absent))
            ];
            count = k.count;
          })
  ]

  expired-Silent :
      (i j n : ℕ) (a : AsioTimer asio) → Silent i n a → Silent i n (ontimer_internal asio j false a)
  unfolding timer_calls
  expired-Silent i j n a k = elim (Option-cases (at asio j a)) [
    | inl e ↦ subst (Silent i n) (sym (ontimer-none asio j a e)) k
    | inr (info, e) ↦
        let other : i ≢ j = λ same. absurd (ground (arith, e, k.absent, same)) in
        subst (Silent i n) (sym (ontimer-some asio j info a e))
          (record { absent = k.absent; count = ground (arith, k.count, other) })
  ]

  handle-Silent :
      (i n : ℕ) (c : Completion) (a : AsioTimer asio) → Silent i n a → Silent i n (handle asio c a)
  unfolding handle ontimer_internal timer_calls
  handle-Silent i n (posted callback) a k = record {
    absent = k.absent;
    count = ground (arith, k.count);
  }
  handle-Silent i n (expired t j) a k = expired-Silent i j n a k
  handle-Silent i n (aborted t j) a k = k

  step-Silent :
      (i n : ℕ) (a b : AsioTimer asio)
      → Step asio (λ j. j ≢ i) a b
      → Inv asio a
      → Silent i n a
      → Silent i n b
  step-Silent i n a b (sets j elapse callback run_once other) h k =
      set-Silent i j elapse callback n run_once a other k
  step-Silent i n a b (kills j) h k = kill-Silent i j n a h k
  step-Silent i n a b (completes c service done) h k =
      handle-Silent i n c (record a { io_service = service })
        (record { absent = k.absent; count = k.count })

  Steps-Silent :
      (i n : ℕ) (a b : AsioTimer asio)
      → Steps asio (λ j. j ≢ i) a b
      → Inv asio a
      → Silent i n a
      → Silent i n b
  Steps-Silent i n a b here h k = k
  Steps-Silent i n a b (next {b = m} steps step) h k =
      step-Silent i n m b step (Steps-Inv asio a m steps h) (Steps-Silent i n a m steps h k)

  -- After kill_timer of an id in a state that is reached from the start, and until that id is set again,
  -- whatever calls and handlers follow: the id stays out of the map, and no handler of its waits calls
  -- back, whether it is given up or was ready before the kill. A call that set_timer posted with run_once
  -- is not a wait, and may still come.
  pub kill_silences :
      (i : ℕ) (a b : AsioTimer asio)
      → Reach asio a
      → Steps asio (λ j. j ≢ i) (kill_timer asio i a).1 b
      → (find ℕ_discrete i b.map_timer ≡ none) × (timer_calls i b.called ≡ timer_calls i a.called)
  kill_silences i a b r steps =
      let h = Steps-Inv asio (init asio) a r (init-Inv asio) in
      let k =
        Steps-Silent i (timer_calls i a.called) (kill_timer asio i a).1 b steps
          (kill-Inv asio i a h)
          (record {
            absent = killed_absent i a h;
            count = ap (timer_calls i) (killed_called i a);
          }) in
      (k.absent, k.count)
