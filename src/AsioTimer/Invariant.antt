-- ===== src/AsioTimer/Invariant.antt =====
-- What every step of timer_demo/asio_timer_base.cpp keeps.
use tools_demo.Base.{
  ℕ, ◌≤◌, ◌<◌, ◌≡◌, ◌≢◌, sym, subst, ◌⊎◌, inl, inr, true, false, Option, none, some, ℕ_discrete,
  arith, Option-cases,
}
use tools_demo.Base.Dict.{find, erase, IsDistinct, find-erase, erase-IsDistinct}
use tools_demo.AsioTimer.Asio.{Asio}
use tools_demo.AsioTimer.Defs.{TimerInfo, AsioTimer, kill_timer, init}

module _ (asio : Asio) where
  abbrev pub at : ℕ → AsioTimer asio → Option TimerInfo
  at timer_id a = find ℕ_discrete timer_id a.map_timer

  pub record Entry (i : ℕ) (info : TimerInfo) (made : ℕ) (s : asio.Service) : Type 0 where
    pub id : info.timer_id ≡ i
    pub old : info.timer < made
    pub waiting : 1 ≤ asio.waits info.timer s
    pub keyed : (j : ℕ) → asio.Bound info.timer j s → j ≡ i

  pub record Inv (a : AsioTimer asio) : Type 0 where
    pub distinct : IsDistinct ℕ_discrete a.map_timer
    pub entries : (i : ℕ) (info : TimerInfo) → at i a ≡ some info → Entry i info a.made a.io_service
    pub own :
        (i j : ℕ) (p q : TimerInfo) → at i a ≡ some p → at j a ≡ some q → p.timer ≡ q.timer → i ≡ j
    pub owned : (t j : ℕ) → asio.Bound t j a.io_service → t < a.made

  -- A wait of the timer of an entry, bound to its id
  abbrev pub Rearmed : ℕ → ℕ → AsioTimer asio → Type 0
  Rearmed t j a = (info : TimerInfo) × (at j a ≡ some info) × (t ≡ info.timer)

  -- The service may change where each entry waits, and a new wait is of an entry.
  pub service-Inv :
      (a : AsioTimer asio) (s : asio.Service)
      → Inv a
      → ((i : ℕ) (info : TimerInfo) → at i a ≡ some info → 1 ≤ asio.waits info.timer s)
      → ((t j : ℕ) → asio.Bound t j s → asio.Bound t j a.io_service ⊎ Rearmed t j a)
      → Inv (record a { io_service = s })
  service-Inv a s h waits bound = record {
    distinct = h.distinct;
    entries = λ i info e.
        let k = h.entries i info e in
        record {
          id = k.id;
          old = k.old;
          waiting = waits i info e;
          keyed = λ j b. elim (bound info.timer j b) [
            | inl b ↦ k.keyed j b
            | inr (p, f, g) ↦ h.own j i p info f e (sym g)
          ];
        };
    own = h.own;
    owned = λ t j b. elim (bound t j b) [
      | inl b ↦ h.owned t j b
      | inr (p, f, g) ↦ subst (λ u. u < a.made) (sym g) (h.entries j p f).old
    ];
  }

  pub init-Inv : Inv (init asio)
  unfolding init find
  init-Inv = record {
    distinct = tt;
    entries = λ i info e. absurd (ground (arith, e));
    own = λ i j p q e f g. absurd (ground (arith, e));
    owned = λ t j b. absurd (asio.bound_init t j b);
  }

  abbrev pub killed : ℕ → TimerInfo → AsioTimer asio → AsioTimer asio
  killed i info a = record a {
    io_service = asio.cancel info.timer a.io_service;
    map_timer = erase ℕ_discrete i a.map_timer;
  }

  pub kill_timer-none :
      (i : ℕ) (a : AsioTimer asio) → at i a ≡ none → kill_timer asio i a ≡ (false, a)
  unfolding kill_timer
  kill_timer-none i a e = ground (arith, e)

  pub kill_timer-some :
      (i : ℕ) (info : TimerInfo) (a : AsioTimer asio)
      → at i a ≡ some info
      → kill_timer asio i a ≡ (true, killed i info a)
  unfolding kill_timer
  kill_timer-some i info a e = ground (arith, e)

  pub erased_ne :
      (i j : ℕ) (info p : TimerInfo) (a : AsioTimer asio)
      → Inv a
      → at j (killed i info a) ≡ some p
      → (i ≢ j) × (at j a ≡ some p)
  erased_ne i j info p a h e =
      let f = find-erase ℕ_discrete j i a.map_timer h.distinct in
      elim (ℕ_discrete i j) [
        | yes same ↦ absurd (ground (arith, e, f, same))
        | no other ↦ (other, ground (arith, e, f, other))
      ]

  killed-Inv :
      (i : ℕ) (info : TimerInfo) (a : AsioTimer asio)
      → at i a ≡ some info
      → Inv a
      → Inv (killed i info a)
  killed-Inv i info a e h = record {
    distinct = erase-IsDistinct ℕ_discrete i a.map_timer h.distinct;
    entries = λ j p f.
        let g = erased_ne i j info p a h f in
        let k = h.entries j p g.1 in
        record {
          id = k.id;
          old = k.old;
          waiting =
              subst (λ w. 1 ≤ w)
                (sym (
                  asio.waits_cancel p.timer info.timer a.io_service
                    (λ same. g.0 (h.own i j info p e g.1 (sym same)))))
                k.waiting;
          keyed = λ l b. k.keyed l (asio.bound_cancel p.timer l info.timer a.io_service b);
        };
    own = λ j l p q f g same.
        h.own j l p q (erased_ne i j info p a h f).1 (erased_ne i l info q a h g).1 same;
    owned = λ t j b. h.owned t j (asio.bound_cancel t j info.timer a.io_service b);
  }

  pub kill-Inv : (i : ℕ) (a : AsioTimer asio) → Inv a → Inv (kill_timer asio i a).1
  kill-Inv i a h = elim (Option-cases (at i a)) [
    | inl e ↦ subst (λ r. Inv r.1) (sym (kill_timer-none i a e)) h
    | inr (info, e) ↦
        subst (λ r. Inv r.1) (sym (kill_timer-some i info a e)) (killed-Inv i info a e h)
  ]
