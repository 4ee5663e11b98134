-- ===== src/Timer/Cancel.antt =====
-- What `cancel` promises.
use tools_demo.Base.{
  subst, ℕ, ◌+◌, ◌^◌, ◌<◌, ◌≡◌, ◌≢◌, refl, sym, ap, ◌∙◌, inl, inr, none, some, List, [], ◌∷◌, arith,
  ℕ_discrete, Option-cases,
}
use tools_demo.Base.Dict.{find, find-assign, find-erase_self, find-erase-none, IsDistinct}
use tools_demo.Timer.Defs.{
  TimerNode, running_state, Timer, top, push_new, node_after, node_at, node_repeated, run_after,
  run_at, run_repeated, cancel, fire, tick, stop, Call, afters, ats, repeats, cancels, ticks, stops,
  step, run, erase_key, commit, takes, all_take,
}
use tools_demo.Timer.Queue.{fired, fired-append, held, still, commits, fires, tick-Ticked}

-- The id was given out and is cancelled.
abbrev IsDead : ℕ → Timer → Type 0
IsDead i s = (i < s.next_id) × (find ℕ_discrete i s.id_states ≡ none)

-- The commits of the id, with the one that the thread is about to make
abbrev pub brought : ℕ → Timer → ℕ
brought i s = held i s.unlocked + fired i s.committed

-- A step that keeps the id dead, takes ids that are not given out, and brings it to no commit
abbrev Quiet : ℕ → ℕ → Timer → Timer → Type 0
Quiet taken i s t = IsDead i t × (t.next_id ≡ s.next_id + taken) × (brought i t ≡ brought i s)

push_new-Quiet :
    (i : ℕ) (node : ℕ → TimerNode) (s : Timer)
    → s.next_id + 1 < 2 ^ 32
    → IsDead i s
    → Quiet 1 i s (push_new node s).1
unfolding push_new
push_new-Quiet i node s n (l, f) = (
  (omega arith, ground (arith, find-assign ℕ_discrete i s.next_id running_state s.id_states)),
  omega arith,
  refl,
)

-- Only a node whose id is there is brought to a commit.
fire-Quiet :
    (i now : ℕ) (n : TimerNode) (rest : List TimerNode) (s : Timer)
    → s.unlocked ≡ none
    → IsDead i s
    → Quiet 0 i s (fire now n rest s)
unfolding fire
fire-Quiet i now n rest s u (l, f) = elim (Option-cases (find ℕ_discrete n.node_id s.id_states)) [
  | inl gone ↦ ((ground arith, ground (arith, f)), ground arith, ground arith)
  | inr (st, there) ↦
      let other : n.node_id ≢ i =
        λ e. ground (arith, f, there, ap (λ j. find ℕ_discrete j s.id_states) e) in
      ((ground arith, ground (arith, f, there)), ground arith, ground (arith, there, u, other))
]

commit-brought :
    (i : ℕ) (p : ℕ × ℕ) (s : Timer) → s.unlocked ≡ some p → brought i (commit p s) ≡ brought i s
unfolding commit
commit-brought i (j, f) s e =
    let more = fired-append i s.committed ((j, f) ∷ []) in
    let h = ap (held i) e in omega (arith, more, h)

tick-Quiet : (i now now' : ℕ) (s : Timer) → IsDead i s → Quiet 0 i s (tick now now' s)
unfolding commit
tick-Quiet i now now' s d = elim (tick-Ticked now now' s) [
  | still e ↦ subst (Quiet 0 i s) (sym e) (d, omega arith, refl)
  | commits p e f ↦ subst (Quiet 0 i s) (sym f) (d, omega arith, commit-brought i p s e)
  | fires m ns q u e ↦
      subst (Quiet 0 i s) (sym e) (fire-Quiet i now' (top m ns).0 (top m ns).1 s u d)
]

step-Quiet :
    (i : ℕ) (c : Call) (s : Timer)
    → s.next_id + takes c < 2 ^ 32
    → IsDead i s
    → Quiet (takes c) i s (step c s)
unfolding step run_after run_at run_repeated cancel stop
step-Quiet i (afters now ms p f) s n d = push_new-Quiet i (node_after now ms p f) s n d
step-Quiet i (ats point f) s n d = push_new-Quiet i (node_at point f) s n d
step-Quiet i (repeats now ms k f) s n d = push_new-Quiet i (node_repeated now ms k f) s n d
step-Quiet i (cancels j) s n (l, f) =
    let gone = find-erase-none ℕ_discrete i j s.id_states f in
    ((l, ground (arith, gone)), omega arith, refl)
step-Quiet i (ticks now now') s n d = tick-Quiet i now now' s d
step-Quiet i stops s n d = (d, omega arith, refl)

run-dead :
    (i : ℕ) (cs : List Call) (s : Timer)
    → s.next_id + all_take cs < 2 ^ 32
    → IsDead i s
    → brought i (run cs s) ≡ brought i s
unfolding run
run-dead i [] s n d = refl
run-dead i (c ∷ cs) s n d =
    let (d', k, e) = step-Quiet i c s (omega arith) d in
    run-dead i cs (step c s) (omega (arith, k, n)) d' ∙ e

-- After `cancel` of an id that was given out, from a state that has each id once, and whatever calls and
-- steps of the thread follow, as long as those that take an id do not wrap the ids around: the thread
-- commits the callback of the id no more, other than once where it had tested the id before the `cancel`
-- and had not committed yet.
pub cancel_stops :
    (i : ℕ) (cs : List Call) (s : Timer)
    → i < s.next_id
    → s.next_id + all_take cs < 2 ^ 32
    → IsDistinct ℕ_discrete s.id_states
    → let t = run cs (cancel i s) in
      held i t.unlocked + fired i t.committed ≡ held i s.unlocked + fired i s.committed
unfolding cancel
cancel_stops i cs s l n d =
    let gone = find-erase_self ℕ_discrete i s.id_states d in
    run-dead i cs (record s { id_states = erase_key i s.id_states }) n (l, ground (arith, gone))
