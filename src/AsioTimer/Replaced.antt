-- ===== src/AsioTimer/Replaced.antt =====
-- A timer of timer_demo/asio_timer_base.cpp that is killed and set again while a handler of it is ready.
use tools_demo.Base.{ℕ, ◌≡◌, ◌≢◌, ap, ◌∙◌, Bool, some, ◌∷◌, ℕ_discrete, arith}
use tools_demo.Base.Dict.{find, erase, find-erase_self, find-append_self}
use tools_demo.AsioTimer.Asio.{Asio, expired}
use tools_demo.AsioTimer.Defs.{TimerInfo, AsioTimer, set_timer, kill_timer, handle, init, on_timer}
use tools_demo.AsioTimer.Invariant.{at, Inv, init-Inv, killed, kill_timer-some}
use tools_demo.AsioTimer.Setting.{set_timer-none, added, entry}
use tools_demo.AsioTimer.Scheduled.{Steps-Inv, ontimer-some}
use tools_demo.AsioTimer.Steps.{Reach}

module _ (asio : Asio) where
  -- `kill_timer`, and `set_timer` for the same id
  abbrev pub replaced : ℕ → ℕ → ℕ → Bool → AsioTimer asio → AsioTimer asio
  replaced i elapse callback run_once a =
      (set_timer asio i elapse callback run_once (kill_timer asio i a).1).1

  replaced_lem :
      (i elapse callback : ℕ) (run_once : Bool) (info : TimerInfo) (a : AsioTimer asio)
      → Inv asio a
      → at asio i a ≡ some info
      → replaced i elapse callback run_once a
        ≡ added asio i elapse callback run_once (killed asio i info a)
  replaced_lem i elapse callback run_once info a h e =
      ap (λ r. (set_timer asio i elapse callback run_once r.1).1) (kill_timer-some asio i info a e)
      ∙ ap (λ r. r.1)
          (set_timer-none asio i elapse callback run_once (killed asio i info a)
            (find-erase_self ℕ_discrete i a.map_timer h.distinct))

  at_replaced :
      (i elapse callback : ℕ) (run_once : Bool) (info : TimerInfo) (a : AsioTimer asio)
      → Inv asio a
      → at asio i a ≡ some info
      → at asio i (replaced i elapse callback run_once a)
        ≡ some (entry asio i elapse callback a.made)
  at_replaced i elapse callback run_once info a h e =
      ap (at asio i) (replaced_lem i elapse callback run_once info a h e)
      ∙ find-append_self ℕ_discrete i (entry asio i elapse callback a.made)
          (erase ℕ_discrete i a.map_timer) (find-erase_self ℕ_discrete i a.map_timer h.distinct)

  -- If a timer in a reached state is killed and its id set again when a wait of the old steady_timer is ready, its handler
  -- calls the new callback, though the steady_timer of the new entry is another.
  pub replaced_early :
      (i elapse callback : ℕ) (run_once : Bool) (info : TimerInfo) (a : AsioTimer asio)
      (r : asio.Service)
      → Reach asio a
      → find ℕ_discrete i a.map_timer ≡ some info
      → asio.Completes (replaced i elapse callback run_once a).io_service (expired info.timer i) r
      → (new : TimerInfo) × (find ℕ_discrete i (replaced i elapse callback run_once a).map_timer
          ≡ some new)
        × (new.timer ≢ info.timer)
        × ((handle asio
              (expired info.timer i)
              (record (replaced i elapse callback run_once a) { io_service = r })).called
            ≡ on_timer i callback ∷ a.called)
  unfolding handle
  replaced_early i elapse callback run_once info a r reach e done =
      let h = Steps-Inv asio (init asio) a reach (init-Inv asio) in
      let there = at_replaced i elapse callback run_once info a h e in
      let older = (h.entries i info e).old in
      let b = replaced i elapse callback run_once a in
      (
        entry asio i elapse callback a.made,
        there,
        λ same. absurd (omega (arith, older, same)),
        ap (λ q. q.called)
              (ontimer-some asio i (entry asio i elapse callback a.made)
                (record b { io_service = r }) there)
            ∙ ap (λ q. on_timer i callback ∷ q.called)
                (replaced_lem i elapse callback run_once info a h e),
      )
