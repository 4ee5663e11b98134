-- ===== src/AsioTimer/Scheduled.antt =====
-- The timers of timer_demo/asio_timer_base.cpp go on for as long as they are in the map.
use tools_demo.Base.{
  ℕ, ◌≤◌, ◌≡◌, ◌≢◌, sym, subst, ◌∙◌, ◌⊎◌, inl, inr, false, none, some, List, ◌∷◌, ℕ_discrete, arith,
  Option-cases,
}
use tools_demo.Base.Dict.{find}
use tools_demo.AsioTimer.Asio.{Asio, Completion, posted, expired, aborted}
use tools_demo.AsioTimer.Defs.{
  TimerInfo, AsioTimer, ontimer_internal, handle, init, on_timer, at_once, Call,
}
use tools_demo.AsioTimer.Invariant.{at, Inv, service-Inv, init-Inv, kill-Inv}
use tools_demo.AsioTimer.Setting.{set-Inv}
use tools_demo.AsioTimer.Steps.{Step, sets, kills, completes, Steps, here, next, Reach}

module _ (asio : Asio) where
  abbrev pub rearm : TimerInfo → asio.Service → asio.Service
  rearm info s =
      asio.async_wait info.timer info.timer_id
        (asio.expires_from_now info.timer info.timer_elapse s)

  abbrev pub called_back : ℕ → TimerInfo → AsioTimer asio → AsioTimer asio
  called_back i info a = record a {
    io_service = rearm info a.io_service;
    called = on_timer i info.call_back ∷ a.called;
  }

  pub ontimer-none :
      (i : ℕ) (a : AsioTimer asio) → at asio i a ≡ none → ontimer_internal asio i false a ≡ a
  unfolding ontimer_internal
  ontimer-none i a e = ground (arith, e)

  pub ontimer-some :
      (i : ℕ) (info : TimerInfo) (a : AsioTimer asio)
      → at asio i a ≡ some info
      → ontimer_internal asio i false a ≡ called_back i info a
  unfolding ontimer_internal
  ontimer-some i info a e = ground (arith, e)

  -- A completion that leaves the waits of every entry
  kept-Inv :
      (a : AsioTimer asio) (c : Completion) (r : asio.Service)
      → asio.Completes a.io_service c r
      → Inv asio a
      → ((i : ℕ) (info : TimerInfo)
          → at asio i a ≡ some info
          → asio.waits info.timer r ≡ asio.waits info.timer a.io_service)
      → Inv asio (record a { io_service = r })
  kept-Inv a c r done h same =
      service-Inv asio a r h
        (λ i info e. subst (λ w. 1 ≤ w) (sym (same i info e)) (h.entries i info e).waiting)
        (λ t j b. inl (asio.bound_completes t j done b))

  -- An entry of another id does not have the steady_timer whose wait completed.
  other_timer :
      (a : AsioTimer asio) (t i j : ℕ) (p : TimerInfo) (r : asio.Service)
      → asio.Completes a.io_service (expired t i) r
      → Inv asio a
      → at asio j a ≡ some p
      → i ≢ j
      → p.timer ≢ t
  other_timer a t i j p r done h e other same = other (
      (h.entries j p e).keyed i
        (subst (λ u. asio.Bound u i a.io_service) (sym same) (asio.expired_bound t i done)))

  waits_rearmed :
      (a : AsioTimer asio) (t i j : ℕ) (info p : TimerInfo) (r : asio.Service)
      → asio.Completes a.io_service (expired t i) r
      → Inv asio a
      → at asio i a ≡ some info
      → at asio j a ≡ some p
      → 1 ≤ asio.waits p.timer (rearm info r)
  waits_rearmed a t i j info p r done h e f = elim (ℕ_discrete i j) [
    | yes same ↦
        let one : p ≡ info = ground (arith, e, f, same) in
        let w =
          asio.waits_async_wait info.timer info.timer_id
            (asio.expires_from_now info.timer info.timer_elapse r) in
        subst (λ q. 1 ≤ asio.waits q.timer (rearm info r)) (sym one) (omega (arith, w))
    | no other ↦
        let apart : p.timer ≢ info.timer = λ same. other (sym (h.own j i p info f e same)) in
        let w =
          asio.waits_others p.timer info.timer info.timer_id
            (asio.expires_from_now info.timer info.timer_elapse r) apart
          ∙ asio.waits_expires p.timer info.timer info.timer_elapse r apart
          ∙ asio.waits_expired p.timer t i done (other_timer a t i j p r done h f other) in
        subst (λ n. 1 ≤ n) (sym w) (h.entries j p f).waiting
  ]

  bound_rearmed :
      (a : AsioTimer asio) (c : Completion) (i t j : ℕ) (info : TimerInfo) (r : asio.Service)
      → asio.Completes a.io_service c r
      → asio.Bound t j (rearm info r)
      → asio.Bound t j a.io_service ⊎ (t ≡ info.timer) × (j ≡ info.timer_id)
  bound_rearmed a c i t j info r done b =
      elim (asio.bound_async_wait t j info.timer info.timer_id
        (asio.expires_from_now info.timer info.timer_elapse r) b) [
          | inl b' ↦ inl (
              asio.bound_completes t j done
                (asio.bound_expires t j info.timer info.timer_elapse r b'))
          | inr same ↦ inr same
        ]

  called-Inv :
      (a : AsioTimer asio) (calls : List Call) → Inv asio a → Inv asio (record a { called = calls })
  called-Inv a calls h = record {
    distinct = h.distinct;
    entries = h.entries;
    own = h.own;
    owned = h.owned;
  }

  rearmed-Inv :
      (a : AsioTimer asio) (t i : ℕ) (info : TimerInfo) (r : asio.Service)
      → asio.Completes a.io_service (expired t i) r
      → Inv asio a
      → at asio i a ≡ some info
      → Inv asio (record a { io_service = rearm info r })
  rearmed-Inv a t i info r done h e =
      service-Inv asio a (rearm info r) h (λ j p f. waits_rearmed a t i j info p r done h e f)
        (λ u j b. elim (bound_rearmed a (expired t i) i u j info r done b) [
          | inl b' ↦ inl b'
          | inr (same, id) ↦
              let key = id ∙ (h.entries i info e).id in
              inr (info, subst (λ k. at asio k a ≡ some info) (sym key) e, same)
        ])

  expired-Inv :
      (a : AsioTimer asio) (t i : ℕ) (r : asio.Service)
      → asio.Completes a.io_service (expired t i) r
      → Inv asio a
      → Inv asio (ontimer_internal asio i false (record a { io_service = r }))
  expired-Inv a t i r done h = elim (Option-cases (at asio i a)) [
    | inl e ↦ subst (Inv asio) (sym (ontimer-none i (record a { io_service = r }) e)) (
        kept-Inv a (expired t i) r done h (λ j p f.
          let other : i ≢ j = λ same. absurd (ground (arith, e, f, same)) in
          asio.waits_expired p.timer t i done (other_timer a t i j p r done h f other)))
    | inr (info, e) ↦ subst (Inv asio) (sym (ontimer-some i info (record a { io_service = r }) e)) (
        called-Inv (record a { io_service = rearm info r }) (on_timer i info.call_back ∷ a.called)
          (rearmed-Inv a t i info r done h e))
  ]

  handle-Inv :
      (a : AsioTimer asio) (c : Completion) (r : asio.Service)
      → asio.Completes a.io_service c r
      → Inv asio a
      → Inv asio (handle asio c (record a { io_service = r }))
  unfolding handle ontimer_internal
  handle-Inv a (posted callback) r done h =
      called-Inv (record a { io_service = r }) (at_once callback ∷ a.called)
        (kept-Inv a (posted callback) r done h (λ i p e. asio.waits_posted p.timer callback done))
  handle-Inv a (expired t i) r done h = expired-Inv a t i r done h
  handle-Inv a (aborted t i) r done h =
      kept-Inv a (aborted t i) r done h (λ j p e. asio.waits_aborted p.timer t i done)

  step-Inv :
      {Sets : ℕ → Type 0} (a b : AsioTimer asio) → Step asio Sets a b → Inv asio a → Inv asio b
  step-Inv a b (sets i elapse callback run_once allowed) h =
      set-Inv asio i elapse callback run_once a h
  step-Inv a b (kills i) h = kill-Inv asio i a h
  step-Inv a b (completes c service done) h = handle-Inv a c service done h

  pub Steps-Inv :
      {Sets : ℕ → Type 0} (a b : AsioTimer asio) → Steps asio Sets a b → Inv asio a → Inv asio b
  Steps-Inv a b here h = h
  Steps-Inv a b (next {b = m} steps step) h = step-Inv m b step (Steps-Inv a m steps h)

  -- In every state that is reached from the start by calls of set_timer and kill_timer and by handlers, in
  -- any order, each timer in the map has a wait that is not given up, on a steady_timer of its own.
  pub scheduled :
      (a : AsioTimer asio) (i : ℕ) (info : TimerInfo)
      → Reach asio a
      → find ℕ_discrete i a.map_timer ≡ some info
      → (1 ≤ asio.waits info.timer a.io_service)
        × ((j : ℕ) (other : TimerInfo)
            → find ℕ_discrete j a.map_timer ≡ some other
            → info.timer ≡ other.timer
            → i ≡ j)
  scheduled a i info r e =
      let h = Steps-Inv (init asio) a r (init-Inv asio) in
      ((h.entries i info e).waiting, λ j other f same. h.own i j info other e f same)
