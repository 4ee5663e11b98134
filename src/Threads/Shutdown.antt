-- ===== src/Threads/Shutdown.antt =====
-- What becomes of the queue of a pool that has stopped.
use tools_demo.Base.{
  ℕ, zero, suc, ◌≡◌, refl, sym, subst, false, List, [], ◌∷◌, set, get_elem?, if◌then◌else◌, some,
  Option-cases, inl, inr, arith,
}
use tools_demo.Threads.Defs.{
  Worker, at_head, in_wait, holding, executing, finished, ThreadPool, commit, stop, step, advance,
}
use tools_demo.Threads.Runs.{Event, commits, advances, stops, run}

-- No thread waits for a task.
abbrev pub NoneWaits : List Worker → Type 0
NoneWaits [] = Unit
NoneWaits (in_wait ∷ ws) = ⊥
NoneWaits (at_head ∷ ws) = NoneWaits ws
NoneWaits (holding t ∷ ws) = NoneWaits ws
NoneWaits (executing t ∷ ws) = NoneWaits ws
NoneWaits (finished ∷ ws) = NoneWaits ws

abbrev pub Awake : Worker → Type 0
Awake w = NoneWaits (w ∷ [])

NoneWaits-cons : (v : Worker) (ws : List Worker) → Awake v → NoneWaits ws → NoneWaits (v ∷ ws)
NoneWaits-cons in_wait ws a h = a
NoneWaits-cons at_head ws a h = h
NoneWaits-cons (holding t) ws a h = h
NoneWaits-cons (executing t) ws a h = h
NoneWaits-cons finished ws a h = h

NoneWaits-uncons : (v : Worker) (ws : List Worker) → NoneWaits (v ∷ ws) → Awake v × NoneWaits ws
NoneWaits-uncons in_wait ws h = (h, absurd h)
NoneWaits-uncons at_head ws h = (tt, h)
NoneWaits-uncons (holding t) ws h = (tt, h)
NoneWaits-uncons (executing t) ws h = (tt, h)
NoneWaits-uncons finished ws h = (tt, h)

NoneWaits-set :
    (ws : List Worker) (i : ℕ) (v : Worker) → Awake v → NoneWaits ws → NoneWaits (set ws i v)
NoneWaits-set [] i v a h = h
NoneWaits-set (w ∷ ws) zero v a h = NoneWaits-cons v ws a (NoneWaits-uncons w ws h).1
NoneWaits-set (w ∷ ws) (suc i) v a h =
    let (b, t) = NoneWaits-uncons w ws h in
    NoneWaits-cons w (set ws i v) b (NoneWaits-set ws i v a t)

NoneWaits-get_elem? :
    (ws : List Worker) (i : ℕ) (w : Worker) → get_elem? ws i ≡ some w → NoneWaits ws → Awake w
NoneWaits-get_elem? [] i w e h = absurd (ground (arith, e))
NoneWaits-get_elem? (x ∷ ws) zero w e h =
    let same : x ≡ w = ground (arith, e) in subst Awake same (NoneWaits-uncons x ws h).0
NoneWaits-get_elem? (x ∷ ws) (suc i) w e h =
    NoneWaits-get_elem? ws i w e (NoneWaits-uncons x ws h).1

-- The pool has stopped, no thread waits, and the queue and what was taken are `q` and `k`.
pub record Abandons (s : ThreadPool) (q k : List ℕ) : Type 0 where
  pub off : s.running ≡ false
  pub awake : NoneWaits s.pool
  pub queue : s.tasks ≡ q
  pub taken_so_far : s.taken ≡ k

step-Abandons :
    (w : Worker) (i : ℕ) (s : ThreadPool) (q k : List ℕ)
    → Awake w
    → Abandons s q k
    → Abandons (step w i s) q k
unfolding step
step-Abandons in_wait i s q k a h = absurd a
step-Abandons at_head i s q k a h =
    let next : (if s.running then in_wait else finished) ≡ finished = ground (arith, h.off) in
    record {
      off = h.off;
      awake =
          subst (λ v. NoneWaits (set s.pool i v)) (sym next)
            (NoneWaits-set s.pool i finished tt h.awake);
      queue = h.queue;
      taken_so_far = h.taken_so_far;
    }
step-Abandons (holding t) i s q k a h = record {
  off = h.off;
  awake = NoneWaits-set s.pool i (executing t) tt h.awake;
  queue = h.queue;
  taken_so_far = h.taken_so_far;
}
step-Abandons (executing t) i s q k a h = record {
  off = h.off;
  awake = NoneWaits-set s.pool i at_head tt h.awake;
  queue = h.queue;
  taken_so_far = h.taken_so_far;
}
step-Abandons finished i s q k a h = h

run-Abandons :
    (es : List Event) (s : ThreadPool) (q k : List ℕ) → Abandons s q k → Abandons (run es s) q k
unfolding run commit stop advance
run-Abandons [] s q k h = h
run-Abandons (commits t ∷ es) s q k h =
    let same : s ≡ commit t s = ground (arith, h.off) in
    subst (λ x. Abandons (run es x) q k) same (run-Abandons es s q k h)
run-Abandons (advances i ∷ es) s q k h =
    run-Abandons es (advance i s) q k (elim (Option-cases (get_elem? s.pool i)) [
      | inl e ↦ subst (λ x. Abandons x q k) {x = s} (ground (arith, e)) h
      | inr (w, e) ↦
          subst (λ x. Abandons x q k) {x = step w i s} (ground (arith, e))
            (step-Abandons w i s q k (NoneWaits-get_elem? s.pool i w e h.awake) h)
    ])
run-Abandons (stops ∷ es) s q k h =
    run-Abandons es (stop s) q k
      (record { off = refl; awake = h.awake; queue = h.queue; taken_so_far = h.taken_so_far })

-- Once the pool has stopped and no thread waits for a task, the tasks in the queue stay there, however
-- the threads advance: they never run.
pub stop_drops :
    (es : List Event) (s : ThreadPool)
    → s.running ≡ false
    → NoneWaits s.pool
    → ((run es s).tasks ≡ s.tasks) × ((run es s).taken ≡ s.taken)
stop_drops es s off awake =
    let h =
      run-Abandons es s s.tasks s.taken
        (record { off = off; awake = awake; queue = refl; taken_so_far = refl }) in
    (h.queue, h.taken_so_far)
