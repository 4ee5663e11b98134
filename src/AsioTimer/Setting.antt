-- ===== src/AsioTimer/Setting.antt =====
-- `set_timer` of timer_demo/asio_timer_base.cpp keeps the invariant.
use tools_demo.Base.{
  ℕ, ◌+◌, ◌≤◌, ◌≡◌, ◌≢◌, refl, sym, ap, subst, ◌∙◌, ◌⊎◌, inl, inr, Bool, true, false, none, some,
  [], ◌∷◌, ◌++◌, ℕ_discrete, arith, Option-cases, if◌then◌else◌,
}
use tools_demo.Base.Dict.{find-append_one, append-IsDistinct}
use tools_demo.AsioTimer.Asio.{Asio}
use tools_demo.AsioTimer.Defs.{TimerInfo, AsioTimer, set_timer}
use tools_demo.AsioTimer.Invariant.{at, Entry, Inv}

module _ (asio : Asio) where
  abbrev pub posting : Bool → ℕ → asio.Service → asio.Service
  posting run_once callback s = if run_once then asio.post callback s else s

  abbrev pub entry : ℕ → ℕ → ℕ → ℕ → TimerInfo
  entry i elapse callback t = record {
    timer_id = i;
    timer_elapse = elapse;
    call_back = callback;
    timer = t;
  }

  abbrev pub armed : ℕ → ℕ → ℕ → Bool → AsioTimer asio → asio.Service
  armed i elapse callback run_once a =
      asio.async_wait a.made i
        (asio.expires_from_now a.made elapse (posting run_once callback a.io_service))

  abbrev pub added : ℕ → ℕ → ℕ → Bool → AsioTimer asio → AsioTimer asio
  added i elapse callback run_once a = record a {
    io_service = armed i elapse callback run_once a;
    map_timer = a.map_timer ++ (i, entry i elapse callback a.made) ∷ [];
    made = a.made + 1;
  }

  pub set_timer-some :
      (i elapse callback : ℕ) (run_once : Bool) (a : AsioTimer asio) (info : TimerInfo)
      → at asio i a ≡ some info
      → set_timer asio i elapse callback run_once a ≡ (true, a)
  unfolding set_timer
  set_timer-some i elapse callback run_once a info e = ground (arith, e)

  pub set_timer-none :
      (i elapse callback : ℕ) (run_once : Bool) (a : AsioTimer asio)
      → at asio i a ≡ none
      → set_timer asio i elapse callback run_once a ≡ (true, added i elapse callback run_once a)
  unfolding set_timer
  set_timer-none i elapse callback run_once a e = ground (arith, e)

  waits_posting :
      (t callback : ℕ) (run_once : Bool) (s : asio.Service)
      → asio.waits t (posting run_once callback s) ≡ asio.waits t s
  waits_posting t callback true s = asio.waits_post t callback s
  waits_posting t callback false s = refl

  bound_posting :
      (t i callback : ℕ) (run_once : Bool) (s : asio.Service)
      → asio.Bound t i (posting run_once callback s)
      → asio.Bound t i s
  bound_posting t i callback true s b = asio.bound_post t i callback s b
  bound_posting t i callback false s b = b

  waits_armed :
      (t i elapse callback : ℕ) (run_once : Bool) (a : AsioTimer asio)
      → t ≢ a.made
      → asio.waits t (armed i elapse callback run_once a) ≡ asio.waits t a.io_service
  waits_armed t i elapse callback run_once a other =
      let s = posting run_once callback a.io_service in
      asio.waits_others t a.made i (asio.expires_from_now a.made elapse s) other
      ∙ asio.waits_expires t a.made elapse s other
      ∙ waits_posting t callback run_once a.io_service

  bound_armed :
      (t j i elapse callback : ℕ) (run_once : Bool) (a : AsioTimer asio)
      → asio.Bound t j (armed i elapse callback run_once a)
      → asio.Bound t j a.io_service ⊎ (t ≡ a.made) × (j ≡ i)
  bound_armed t j i elapse callback run_once a b =
      let s = posting run_once callback a.io_service in
      elim (asio.bound_async_wait t j a.made i (asio.expires_from_now a.made elapse s) b) [
        | inl c ↦ inl (
            bound_posting t j callback run_once a.io_service
              (asio.bound_expires t j a.made elapse s c))
        | inr same ↦ inr same
      ]

  -- An entry of the map after it was added
  pub at_added :
      (i j elapse callback : ℕ) (run_once : Bool) (a : AsioTimer asio) (p : TimerInfo)
      → at asio i a ≡ none
      → at asio j (added i elapse callback run_once a) ≡ some p
      → (at asio j a ≡ some p) ⊎ (i ≡ j) × (p ≡ entry i elapse callback a.made)
  at_added i j elapse callback run_once a p e f =
      let g = find-append_one ℕ_discrete j i (entry i elapse callback a.made) a.map_timer in
      elim (Option-cases (at asio j a)) [
        | inr (q, found) ↦ inl (ground (arith, f, g, found))
        | inl absent ↦ elim (ℕ_discrete i j) [
          | yes same ↦ inr (same, ground (arith, f, g, absent, same))
          | no other ↦ absurd (ground (arith, f, g, absent, other))
        ]
      ]

  entry-Entry :
      (i elapse callback : ℕ) (run_once : Bool) (a : AsioTimer asio)
      → Inv asio a
      → Entry asio i
          (entry i elapse callback a.made)
          (a.made + 1)
          (armed i elapse callback run_once a)
  entry-Entry i elapse callback run_once a h = record {
    id = refl;
    old = omega arith;
    waiting =
        let s = posting run_once callback a.io_service in
        let w = asio.waits_async_wait a.made i (asio.expires_from_now a.made elapse s) in
        omega (arith, w);
    keyed = λ j b. elim (bound_armed a.made j i elapse callback run_once a b) [
      | inl c ↦ let older = h.owned a.made j c in absurd (omega (arith, older))
      | inr same ↦ same.1
    ];
  }

  kept-Entry :
      (i j elapse callback : ℕ) (run_once : Bool) (a : AsioTimer asio) (p : TimerInfo)
      → Entry asio j p a.made a.io_service
      → Entry asio j p (a.made + 1) (armed i elapse callback run_once a)
  kept-Entry i j elapse callback run_once a p k =
      let older = k.old in
      let other : p.timer ≢ a.made = λ same. absurd (omega (arith, older, same)) in
      record {
        id = k.id;
        old = omega (arith, older);
        waiting =
            subst (λ w. 1 ≤ w) (sym (waits_armed p.timer i elapse callback run_once a other))
              k.waiting;
        keyed = λ l b. elim (bound_armed p.timer l i elapse callback run_once a b) [
          | inl c ↦ k.keyed l c
          | inr same ↦ absurd (other same.0)
        ];
      }

  -- No entry had the new steady_timer.
  new_own :
      (j : ℕ) (p : TimerInfo) (a : AsioTimer asio)
      → Inv asio a
      → at asio j a ≡ some p
      → p.timer ≢ a.made
  new_own j p a h e same = let older = (h.entries j p e).old in absurd (omega (arith, older, same))

  added-Inv :
      (i elapse callback : ℕ) (run_once : Bool) (a : AsioTimer asio)
      → at asio i a ≡ none
      → Inv asio a
      → Inv asio (added i elapse callback run_once a)
  added-Inv i elapse callback run_once a e h = record {
    distinct =
        append-IsDistinct ℕ_discrete i (entry i elapse callback a.made) a.map_timer e h.distinct;
    entries = λ j p f. elim (at_added i j elapse callback run_once a p e f) [
      | inl g ↦ kept-Entry i j elapse callback run_once a p (h.entries j p g)
      | inr (same, new) ↦
          subst (λ k. Entry asio k p (a.made + 1) (armed i elapse callback run_once a)) same
            (subst (λ q. Entry asio i q (a.made + 1) (armed i elapse callback run_once a)) (sym new)
              (entry-Entry i elapse callback run_once a h))
    ];
    own = λ j l p q f g same. elim (at_added i j elapse callback run_once a p e f) [
      | inl f' ↦ elim (at_added i l elapse callback run_once a q e g) [
        | inl g' ↦ h.own j l p q f' g' same
        | inr (there, new) ↦ absurd (new_own j p a h f' (same ∙ ap (λ r. r.timer) new))
      ]
      | inr (here, new) ↦ elim (at_added i l elapse callback run_once a q e g) [
        | inl g' ↦ absurd (new_own l q a h g' (sym same ∙ ap (λ r. r.timer) new))
        | inr (there, new') ↦ sym here ∙ there
      ]
    ];
    owned = λ t j b. elim (bound_armed t j i elapse callback run_once a b) [
      | inl c ↦ let older = h.owned t j c in omega (arith, older)
      | inr (same, _) ↦ omega (arith, same)
    ];
  }

  pub set-Inv :
      (i elapse callback : ℕ) (run_once : Bool) (a : AsioTimer asio)
      → Inv asio a
      → Inv asio (set_timer asio i elapse callback run_once a).1
  set-Inv i elapse callback run_once a h = elim (Option-cases (at asio i a)) [
    | inl e ↦
        subst (λ r. Inv asio r.1) (sym (set_timer-none i elapse callback run_once a e))
          (added-Inv i elapse callback run_once a e h)
    | inr (info, e) ↦
        subst (λ r. Inv asio r.1) (sym (set_timer-some i elapse callback run_once a info e)) h
  ]
