-- ===== src/TimeInterval/Watchdog.antt =====
-- The watchdog of workerprocess/main.cpp: its loop over the results of `fork`, and its signal handler.
use tools_demo.Base.{
  ℕ, zero, suc, ◌≡◌, refl, ap, ◌∙◌, Option, none, some, List, [], ◌∷◌, map, arith,
}
use tools_demo.Base.Int.{ℤ, pos, negsuc}
use tools_demo.TimeInterval.Defs.{TimeInterval, reset, increment, post_increment, get_current}
use tools_demo.TimeInterval.Backoff.{micros}

pub data Signal : Type 0 where
  sig_alrm : Signal
  sig_usr1 : Signal
  sig_usr2 : Signal
  sig_other : Signal

-- A process that is there is killed.
unfoldable pub kill_worker : ℤ → Option ℤ
kill_worker (pos zero) = none
kill_worker (pos (suc n)) = some (pos (suc n))
kill_worker (negsuc n) = none

-- `CallBackSignal`: which process it kills
unfoldable pub callback_signal : Signal → ℤ → Option ℤ
callback_signal sig_alrm pid = none
callback_signal sig_usr1 pid = none
callback_signal sig_usr2 pid = none
callback_signal sig_other pid = kill_worker pid

-- The loop: how long it sleeps after each `fork`. A result of 0 ends it; after a worker, whose end it
-- waits for, the interval starts again.
unfoldable pub watch : List ℤ → TimeInterval → List ℕ
watch [] s = []
watch (pos zero ∷ pids) s = []
watch (pos (suc n) ∷ pids) s =
    let (old, next) = post_increment (reset s) in micros (get_current old) ∷ watch pids next
watch (negsuc n ∷ pids) s =
    let (old, next) = post_increment s in micros (get_current old) ∷ watch pids next

post_increment-timeval_min : (s : TimeInterval) → (post_increment s).1.timeval_min ≡ s.timeval_min
unfolding post_increment increment
post_increment-timeval_min s = ground arith

-- While every `fork` makes a worker, each sleep is the shortest one.
pub watch-workers :
    (pids : List ℕ) (s : TimeInterval)
    → watch (map (λ n. pos (suc n)) pids) s ≡ map (λ n. micros s.timeval_min) pids
unfolding watch post_increment reset
watch-workers [] s = refl
watch-workers (n ∷ pids) s =
    let next = (post_increment (reset s)).1 in
    ap (λ l. micros s.timeval_min ∷ l)
      (watch-workers pids next
        ∙ ap (λ t. map (λ n. micros t) pids) (post_increment-timeval_min (reset s)))
