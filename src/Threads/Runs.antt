-- ===== src/Threads/Runs.antt =====
-- Any calls of a pool and steps of its threads, and what becomes of the tasks.
use mathlib.Core.List.{append_assoc, append-nil}
use tools_demo.Base.{
  ℕ, ◌+◌, ◌≡◌, refl, sym, ap, subst, ◌∙◌, true, false, List, [], ◌∷◌, ◌++◌, get_elem?, Option-cases,
  Bool-cases, inl, inr, arith, min,
}
use tools_demo.Threads.Defs.{
  Worker, at_head, in_wait, holding, executing, finished, ThreadPool, init, commit, stop, step,
  advance,
}
use tools_demo.Threads.Order.{Tracks, advance-Tracks, add_thread-Tracks}

pub data Event : Type 0 where
  commits : ℕ → Event
  advances : ℕ → Event
  stops : Event

unfoldable pub run : List Event → ThreadPool → ThreadPool
run [] s = s
run (commits t ∷ es) s = run es (commit t s)
run (advances i ∷ es) s = run es (advance i s)
run (stops ∷ es) s = run es (stop s)

-- The tasks that are committed before the pool stops
abbrev pub accepted : List Event → List ℕ
accepted [] = []
accepted (commits t ∷ es) = t ∷ accepted es
accepted (advances i ∷ es) = accepted es
accepted (stops ∷ es) = []

step-running : (w : Worker) (i : ℕ) (s : ThreadPool) → (step w i s).running ≡ s.running
unfolding step
step-running at_head i s = refl
step-running in_wait i s = go s.tasks refl
  where
    go : (ts : List ℕ) → s.tasks ≡ ts → (step in_wait i s).running ≡ s.running
    go [] e = elim (Bool-cases s.running) [
      | inl on ↦ ground (arith, e, on)
      | inr off ↦ ground (arith, e, off)
    ]
    go (t ∷ ts) e = ground (arith, e)
step-running (holding t) i s = refl
step-running (executing t) i s = refl
step-running finished i s = refl

advance-running : (i : ℕ) (s : ThreadPool) → (advance i s).running ≡ s.running
unfolding advance
advance-running i s = elim (Option-cases (get_elem? s.pool i)) [
  | inl e ↦ ground (arith, e)
  | inr (w, e) ↦ ground (arith, e, step-running w i s)
]

stopped-Tracks :
    (es : List Event) (s : ThreadPool) (l : List ℕ) (n : ℕ)
    → s.running ≡ false
    → Tracks s l n
    → Tracks (run es s) l n
unfolding run commit stop
stopped-Tracks [] s l n off h = h
stopped-Tracks (commits t ∷ es) s l n off h =
    let same : s ≡ commit t s = ground (arith, off) in
    subst (λ x. Tracks (run es x) l n) same (stopped-Tracks es s l n off h)
stopped-Tracks (advances i ∷ es) s l n off h =
    stopped-Tracks es (advance i s) l n (advance-running i s ∙ off) (advance-Tracks i s l n h)
stopped-Tracks (stops ∷ es) s l n off h =
    stopped-Tracks es (stop s) l n refl
      (record { order = h.order; idle = h.idle; threads = h.threads })

run-Tracks :
    (es : List Event) (s : ThreadPool) (l : List ℕ) (n : ℕ)
    → s.running ≡ true
    → Tracks s l n
    → Tracks (run es s) (l ++ accepted es) n
unfolding run commit stop
run-Tracks [] s l n on h = subst (λ m. Tracks s m n) (sym (append-nil l)) h
run-Tracks (commits t ∷ es) s l n on h =
    let more = record s { tasks = s.tasks ++ t ∷ [] } in
    let same : more ≡ commit t s = ground (arith, on) in
    let grown : Tracks more (l ++ t ∷ []) n = record {
      order = sym (append_assoc s.taken s.tasks (t ∷ [])) ∙ ap (λ q. q ++ t ∷ []) h.order;
      idle = h.idle;
      threads = h.threads;
    } in
    subst (λ x. Tracks (run es x) (l ++ t ∷ accepted es) n) same
      (subst (λ m. Tracks (run es more) m n) (append_assoc l (t ∷ []) (accepted es))
        (run-Tracks es more (l ++ t ∷ []) n on grown))
run-Tracks (advances i ∷ es) s l n on h =
    run-Tracks es (advance i s) l n (advance-running i s ∙ on) (advance-Tracks i s l n h)
run-Tracks (stops ∷ es) s l n on h =
    subst (λ m. Tracks (run es (stop s)) m n) (sym (append-nil l))
      (stopped-Tracks es (stop s) l n refl
        (record { order = h.order; idle = h.idle; threads = h.threads }))

-- Whatever is committed to a new pool, however its threads advance, and whenever it stops: the tasks that
-- threads have taken and then those in the queue are the tasks that were committed before it stopped, in
-- their order; the pool has the threads it was asked for, 16 at most; and the idle ones it counts are
-- those that execute no task, ended ones too.
pub run-init :
    (size : ℕ) (es : List Event) → Tracks (run es (init size)) (accepted es) (min size 16)
unfolding init
run-init size es =
    let empty : ThreadPool = record {
      pool = [];
      tasks = [];
      running = true;
      idl_thr_num = 0;
      taken = [];
    } in
    let (h, on) =
      add_thread-Tracks size empty 0 refl (record { order = refl; idle = refl; threads = refl })
        (omega arith) in
    let k : min (0 + size) 16 ≡ min size 16 = omega arith in
    run-Tracks es (init size) [] (min size 16) on (subst (Tracks (init size) []) k h)
