-- ===== src/Threads/Order.antt =====
-- What the numbers and the queue of a pool count, through a step of a thread.
use mathlib.Core.List.{append_assoc}
use tools_demo.Base.{
  ℕ, zero, suc, ◌+◌, ◌≤◌, ◌≡◌, refl, sym, ap, subst, ◌∙◌, true, List, [], ◌∷◌, ◌++◌, length,
  length-append, length-set, set, get_elem?, if◌then◌else◌, some, Option-cases, Bool-cases, inl,
  inr, arith, min, dec_lt,
}
use tools_demo.Threads.Defs.{
  Worker, at_head, in_wait, holding, executing, finished, ThreadPool, add_thread, step, advance,
}

-- 1 for a thread that executes a task
abbrev pub weight : Worker → ℕ
weight at_head = 0
weight in_wait = 0
weight (holding t) = 0
weight (executing t) = 1
weight finished = 0

abbrev pub busy : List Worker → ℕ
busy [] = 0
busy (w ∷ ws) = weight w + busy ws

weight-le : (w : Worker) → weight w ≤ 1
weight-le at_head = omega arith
weight-le in_wait = omega arith
weight-le (holding t) = omega arith
weight-le (executing t) = omega arith
weight-le finished = omega arith

busy-le : (ws : List Worker) → busy ws ≤ length ws
busy-le [] = omega arith
busy-le (w ∷ ws) = omega (arith, weight-le w, busy-le ws)

busy-append : (ws : List Worker) (v : Worker) → busy (ws ++ v ∷ []) ≡ busy ws + weight v
busy-append [] v = omega arith
busy-append (w ∷ ws) v = omega (arith, busy-append ws v)

busy-set :
    (ws : List Worker) (i : ℕ) (w v : Worker)
    → get_elem? ws i ≡ some w
    → busy (set ws i v) + weight w ≡ busy ws + weight v
busy-set [] i w v e = absurd (ground (arith, e))
busy-set (x ∷ ws) zero w v e = let same : x ≡ w = ground (arith, e) in omega (arith, ap weight same)
busy-set (x ∷ ws) (suc i) w v e = omega (arith, busy-set ws i w v e)

-- The tasks that were taken and those in the queue are `l`, and the idle threads are those that execute
-- no task, of `n`.
pub record Tracks (s : ThreadPool) (l : List ℕ) (n : ℕ) : Type 0 where
  pub order : s.taken ++ s.tasks ≡ l
  pub idle : s.idl_thr_num + busy s.pool ≡ n
  pub threads : length s.pool ≡ n

step-Tracks :
    (w : Worker) (i : ℕ) (s : ThreadPool) (l : List ℕ) (n : ℕ)
    → get_elem? s.pool i ≡ some w
    → Tracks s l n
    → Tracks (step w i s) l n
unfolding step
step-Tracks at_head i s l n e h =
    let v = if s.running then in_wait else finished in
    let none_busy : weight v ≡ 0 = ground arith in
    record {
      order = h.order;
      idle = omega (arith, h.idle, busy-set s.pool i at_head v e, none_busy);
      threads = length-set s.pool i v ∙ h.threads;
    }
step-Tracks in_wait i s l n e h = go s.tasks refl
  where
    go : (ts : List ℕ) → s.tasks ≡ ts → Tracks (step in_wait i s) l n
    go [] e0 = elim (Bool-cases s.running) [
      | inl on ↦
          let stays : step in_wait i s ≡ s = ground (arith, e0, on) in
          subst (λ x. Tracks x l n) (sym stays) h
      | inr off ↦
          let ends : step in_wait i s ≡ record s { pool = set s.pool i finished } =
            ground (arith, e0, off) in
          subst (λ x. Tracks x l n) (sym ends)
            (record {
              order = h.order;
              idle = omega (arith, h.idle, busy-set s.pool i in_wait finished e);
              threads = length-set s.pool i finished ∙ h.threads;
            })
    ]
    go (t ∷ ts) e0 =
        let takes : step in_wait i s
            ≡ record s { pool = set s.pool i (holding t); tasks = ts; taken = s.taken ++ t ∷ [] } =
          ground (arith, e0) in
        subst (λ x. Tracks x l n) (sym takes)
          (record {
            order = append_assoc s.taken (t ∷ []) ts ∙ ap (λ q. s.taken ++ q) (sym e0) ∙ h.order;
            idle = omega (arith, h.idle, busy-set s.pool i in_wait (holding t) e);
            threads = length-set s.pool i (holding t) ∙ h.threads;
          })
step-Tracks (holding t) i s l n e h =
    let changed = busy-set s.pool i (holding t) (executing t) e in
    let top = busy-le (set s.pool i (executing t)) in
    let size = length-set s.pool i (executing t) in
    record {
      order = h.order;
      idle = omega (arith, h.idle, h.threads, changed, top, size);
      threads = size ∙ h.threads;
    }
step-Tracks (executing t) i s l n e h = record {
  order = h.order;
  idle = omega (arith, h.idle, busy-set s.pool i (executing t) at_head e);
  threads = length-set s.pool i at_head ∙ h.threads;
}
step-Tracks finished i s l n e h = h

pub advance-Tracks :
    (i : ℕ) (s : ThreadPool) (l : List ℕ) (n : ℕ) → Tracks s l n → Tracks (advance i s) l n
unfolding advance
advance-Tracks i s l n h = elim (Option-cases (get_elem? s.pool i)) [
  | inl e ↦ subst (λ x. Tracks x l n) {x = s} (ground (arith, e)) h
  | inr (w, e) ↦
      subst (λ x. Tracks x l n) {x = step w i s} (ground (arith, e)) (step-Tracks w i s l n e h)
]

pub add_thread-Tracks :
    (size : ℕ) (s : ThreadPool) (n : ℕ)
    → s.running ≡ true
    → Tracks s [] n
    → n ≤ 16
    → Tracks (add_thread size s) [] (min (n + size) 16) × ((add_thread size s).running ≡ true)
unfolding add_thread
add_thread-Tracks zero s n on h small =
    let k : n ≡ min (n + 0) 16 = omega arith in (subst (Tracks s []) k h, on)
add_thread-Tracks (suc size) s n on h small = elim (dec_lt n 16) [
  | no full ↦
      let k : n ≡ min (n + suc size) 16 = omega arith in
      let same : s ≡ add_thread (suc size) s = ground (arith, h.threads) in
      subst (λ x. Tracks x [] (min (n + suc size) 16) × (x.running ≡ true)) same
        (subst (Tracks s []) k h, on)
  | yes room ↦
      let grown = record s { pool = s.pool ++ at_head ∷ []; idl_thr_num = s.idl_thr_num + 1 } in
      let more : Tracks grown [] (n + 1) = record {
        order = h.order;
        idle = omega (arith, h.idle, busy-append s.pool at_head);
        threads = omega (arith, h.threads, length-append s.pool (at_head ∷ []));
      } in
      let k : min (n + 1 + size) 16 ≡ min (n + suc size) 16 = omega arith in
      let same : add_thread size grown ≡ add_thread (suc size) s = ground (arith, h.threads) in
      subst (λ x. Tracks x [] (min (n + suc size) 16) × (x.running ≡ true)) same
        (subst (λ m. Tracks (add_thread size grown) [] m × ((add_thread size grown).running ≡ true))
          k (add_thread-Tracks size grown (n + 1) on more (omega arith)))
]
