-- ===== src/Timer/Counting.antt =====
-- How often a callback is committed.
use tools_demo.Base.{
  subst, ℕ, ◌+◌, ◌%◌, ◌^◌, ◌≤◌, ◌<◌, ◌≡◌, ◌≢◌, refl, sym, ap, ◌∙◌, inl, inr, none, some, true,
  false, List, [], ◌∷◌, arith, ◌==◌, if◌then◌else◌, ℕ_discrete, dec_lt, Bool-cases,
}
use tools_demo.Base.Dict.{find-assign, find-erase_ne}
use tools_demo.Timer.Defs.{
  TimerNode, running_state, Timer, top, push_new, node_after, node_at, node_repeated, run_after,
  run_at, run_repeated, cancel, again, push, fire, tick, stop, Call, afters, ats, repeats, cancels,
  ticks, stops, step, run, is_key_exist, commit, takes, all_take,
}
use tools_demo.Timer.Queue.{
  fired, fired-append, held, still, commits, fires, tick-Ticked, worth, periodic, above, total,
  top-total, none_above, above_mono,
}

-- The id is live, no node has an id that is not given out, and no node of the id is periodic.
abbrev IsLive : ℕ → Timer → Type 0
IsLive i s =
    (i < s.next_id)
    × (is_key_exist i s.id_states ≡ true)
    × (total (above s.next_id) s.queue ≡ 0)
    × (total (periodic i) s.queue ≡ 0)

-- The callbacks of `i` that were committed, that the thread is about to commit, and that are to come
abbrev due : ℕ → Timer → ℕ
due i s = total (worth i) s.queue + held i s.unlocked + fired i s.committed

-- A step that keeps both, and takes so many ids
abbrev Keeps : ℕ → ℕ → Timer → Timer → Type 0
Keeps taken i s t = IsLive i t × (t.next_id ≡ s.next_id + taken) × (due i t ≡ due i s)

push_new-Keeps :
    (i : ℕ) (node : ℕ → TimerNode) (s : Timer)
    → (node s.next_id).node_id ≡ s.next_id
    → s.next_id + 1 < 2 ^ 32
    → IsLive i s
    → Keeps 1 i s (push_new node s).1
unfolding push_new
push_new-Keeps i node s e n (l, k, a, p) =
    let up = above_mono s.next_id ((s.next_id + 1) % 2 ^ 32) s.queue (omega arith) a in
    let seen = find-assign ℕ_discrete i s.next_id running_state s.id_states in
    (
      (omega arith, ground (arith, seen, k), ground (arith, up, e), ground (arith, p, e)),
      omega arith,
      ground (arith, e),
    )

-- A node that is pushed again has one less to come.
again_lem :
    (i k now : ℕ) (n : TimerNode) (rest : List TimerNode)
    → periodic i n ≡ 0
    → (total (above k) (push (again now n) rest) ≤ above k n + total (above k) rest)
      × (total (periodic i) (push (again now n) rest) ≡ total (periodic i) rest)
      × (total (worth i) (push (again now n) rest) + (if n.node_id == i then 1 else 0)
          ≡ worth i n + total (worth i) rest)
unfolding again
again_lem i k now n rest p = elim (Bool-cases n.is_period) [
  | inl cyc ↦ (ground (arith, cyc), ground (arith, cyc, p), ground (arith, cyc, p))
  | inr once ↦ elim (Bool-cases n.is_repeated) [
    | inl rep ↦ elim (dec_lt 0 n.repeated_num) [
      | yes more ↦ (ground (arith, once, rep), ground (arith, once, rep), ground (arith, once, rep))
      | no last ↦ (ground (arith, once, rep), ground (arith, once, rep), ground (arith, once, rep))
    ]
    | inr single ↦
        (ground (arith, once, single), ground (arith, once, single), ground (arith, once, single))
  ]
]

fire_there :
    (now : ℕ) (n : TimerNode) (rest : List TimerNode) (s : Timer)
    → is_key_exist n.node_id s.id_states ≡ true
    → fire now n rest s
      ≡ record s { queue = push (again now n) rest; unlocked = some (n.node_id, n.callback) }
unfolding fire
fire_there now n rest s e = ground (arith, e)

fire_gone :
    (now : ℕ) (n : TimerNode) (rest : List TimerNode) (s : Timer)
    → is_key_exist n.node_id s.id_states ≡ false
    → fire now n rest s ≡ record s { queue = rest }
unfolding fire
fire_gone now n rest s e = ground (arith, e)

-- A node that is popped is brought to a commit, where its id is there.
fire-Keeps :
    (i now : ℕ) (n : TimerNode) (rest : List TimerNode) (s : Timer)
    → above s.next_id n + total (above s.next_id) rest ≡ total (above s.next_id) s.queue
    → periodic i n + total (periodic i) rest ≡ total (periodic i) s.queue
    → worth i n + total (worth i) rest ≡ total (worth i) s.queue
    → s.unlocked ≡ none
    → IsLive i s
    → Keeps 0 i s (fire now n rest s)
unfolding fire
fire-Keeps i now n rest s a p w u (l, k, a0, p0) =
    elim (Bool-cases (is_key_exist n.node_id s.id_states)) [
      | inl there ↦
          let (a', p', w') = again_lem i s.next_id now n rest (omega arith) in
          let h = ap (held i) u in
          subst (Keeps 0 i s) (sym (fire_there now n rest s there))
            ((l, k, omega arith, omega arith), omega arith, omega (arith, h, w'))
      | inr gone ↦
          let other : n.node_id ≢ i =
            λ e. ground (arith, gone, k, ap (λ j. is_key_exist j s.id_states) e) in
          subst (Keeps 0 i s) (sym (fire_gone now n rest s gone))
            ((l, k, omega arith, omega arith), omega arith, ground (arith, other, w))
    ]

commit-due : (i : ℕ) (p : ℕ × ℕ) (s : Timer) → s.unlocked ≡ some p → due i (commit p s) ≡ due i s
unfolding commit
commit-due i (j, f) s e =
    let more = fired-append i s.committed ((j, f) ∷ []) in
    let h = ap (held i) e in omega (arith, more, h)

tick-Keeps : (i now now' : ℕ) (s : Timer) → IsLive i s → Keeps 0 i s (tick now now' s)
unfolding commit
tick-Keeps i now now' s v = elim (tick-Ticked now now' s) [
  | still e ↦ subst (Keeps 0 i s) (sym e) (v, omega arith, refl)
  | commits p e f ↦ subst (Keeps 0 i s) (sym f) (v, omega arith, commit-due i p s e)
  | fires m ns q u e ↦
      let on_top : (w : TimerNode → ℕ) → w (top m ns).0 + total w (top m ns).1 ≡ total w s.queue =
        λ w. top-total w m ns ∙ ap (total w) (sym q) in
      subst (Keeps 0 i s) (sym e) (
        fire-Keeps i now' (top m ns).0 (top m ns).1 s (on_top (above s.next_id))
          (on_top (periodic i)) (on_top (worth i)) u v)
]

-- No call of the list cancels the id.
abbrev pub Spares : ℕ → List Call → Type 0
Spares i [] = Unit
Spares i (cancels j ∷ cs) = (j ≢ i) × Spares i cs
Spares i (_ ∷ cs) = Spares i cs

step-Keeps :
    (i : ℕ) (c : Call) (s : Timer)
    → Spares i (c ∷ [])
    → s.next_id + takes c < 2 ^ 32
    → IsLive i s
    → Keeps (takes c) i s (step c s)
unfolding step run_after run_at run_repeated cancel stop
step-Keeps i (afters now ms p f) s o n v = push_new-Keeps i (node_after now ms p f) s refl n v
step-Keeps i (ats point f) s o n v = push_new-Keeps i (node_at point f) s refl n v
step-Keeps i (repeats now ms k f) s o n v = push_new-Keeps i (node_repeated now ms k f) s refl n v
step-Keeps i (cancels j) s (o, _) n (l, k, a, p) =
    let same = find-erase_ne ℕ_discrete i j s.id_states o in
    ((l, ground (arith, same, k), a, p), omega arith, refl)
step-Keeps i (ticks now now') s o n v = tick-Keeps i now now' s v
step-Keeps i stops s o n v = (v, omega arith, refl)

Spares-split :
    (i : ℕ) (c : Call) (cs : List Call) → Spares i (c ∷ cs) → Spares i (c ∷ []) × Spares i cs
Spares-split i (afters now ms p f) cs o = (tt, o)
Spares-split i (ats point f) cs o = (tt, o)
Spares-split i (repeats now ms k f) cs o = (tt, o)
Spares-split i (cancels j) cs (o, os) = ((o, tt), os)
Spares-split i (ticks now now') cs o = (tt, o)
Spares-split i stops cs o = (tt, o)

run-due :
    (i : ℕ) (cs : List Call) (s : Timer)
    → Spares i cs
    → s.next_id + all_take cs < 2 ^ 32
    → IsLive i s
    → due i (run cs s) ≡ due i s
unfolding run
run-due i [] s o n v = refl
run-due i (c ∷ cs) s o n v =
    let (now, later) = Spares-split i c cs o in
    let (v', k, e) = step-Keeps i c s now (omega arith) v in
    run-due i cs (step c s) later (omega (arith, k, n)) v' ∙ e

-- After `run_repeated` with the number `n`, from a state that has no node and no commit of an id that is
-- still to be given out, and whatever other calls and steps of the thread follow that do not cancel its
-- id, as long as those that take an id do not wrap the ids around: the commits of its callback, the one
-- that the thread is about to make and those that the queue stands for are `n + 1` together. It runs once
-- more often than its number says, and never more.
pub run_repeated_count :
    (now ms n f : ℕ) (cs : List Call) (s : Timer)
    → total (above s.next_id) s.queue ≡ 0
    → held s.next_id s.unlocked + fired s.next_id s.committed ≡ 0
    → Spares s.next_id cs
    → s.next_id + 1 + all_take cs < 2 ^ 32
    → let t = run cs (run_repeated now ms n f s).1 in
      total (worth s.next_id) t.queue + held s.next_id t.unlocked + fired s.next_id t.committed
      ≡ n + 1
unfolding run_repeated push_new
run_repeated_count now ms n f cs s a none_yet o bound =
    let i = s.next_id in
    let (w0, p0) = none_above i s.queue a in
    let up = above_mono i ((i + 1) % 2 ^ 32) s.queue (omega arith) a in
    let seen = find-assign ℕ_discrete i i running_state s.id_states in
    run-due i cs (run_repeated now ms n f s).1 o (omega arith)
      (omega arith, ground (arith, seen), ground (arith, up), ground (arith, p0))
    ∙ ground (arith, w0, none_yet)
