-- ===== src/Timer/Defs.antt =====
-- `Timer` of timerloop/priority_queue/timer.h, with `hash_map` of timerloop/priority_queue/hash_map.h.
-- Times are nanoseconds. A call that reads the clock takes what it reads. The calls that hold `tm_mutex`
-- are steps of their own. A round of `run_local` is two: the one up to where it gives up `tm_mutex`, and
-- the commit after that, since `cancel` does not take that mutex and may come between.
use tools_demo.Base.{
  ℕ, ◌+◌, ◌-◌, ◌*◌, ◌%◌, ◌^◌, Bool, true, false, not, ◌&&◌, Option, none, some, List, [], ◌∷◌, ◌++◌,
  ltb, leb, if◌then◌else◌, ℕ_discrete,
}
use tools_demo.Base.Dict.{find, assign, erase}

pub record TimerNode : Type 0 where
  pub tm_point : ℕ
  pub callback : ℕ
  pub node_id : ℕ
  pub repeated_num : ℕ
  pub is_period : Bool
  pub is_repeated : Bool
  pub period : ℕ

pub data IdState : Type 0 where
  running_state : IdState

pub record Timer : Type 0 where
  pub queue : List TimerNode
  pub running : Bool
  pub next_id : ℕ
  pub id_states : List (ℕ × IdState)
  -- the id and the callback with which the thread stands between `lock.unlock()` and `commit`
  pub unlocked : Option (ℕ × ℕ)
  -- the calls of `commit` of the thread pool, with the id of the node
  pub committed : List (ℕ × ℕ)

-- `hash_map`
abbrev pub emplace : ℕ → IdState → List (ℕ × IdState) → List (ℕ × IdState)
emplace key v hm = assign ℕ_discrete key v hm

abbrev pub is_key_exist : ℕ → List (ℕ × IdState) → Bool
is_key_exist key hm = elim (find ℕ_discrete key hm) [ none ↦ false | some _ ↦ true ]

abbrev pub erase_key : ℕ → List (ℕ × IdState) → List (ℕ × IdState)
erase_key key hm = if is_key_exist key hm then erase ℕ_discrete key hm else hm

unfoldable pub init : Timer
init = record {
  queue = [];
  running = true;
  next_id = 0;
  id_states = [];
  unlocked = none;
  committed = [];
}

-- `tm_queue.top()`, the first of the earliest nodes, beside the rest
unfoldable pub top : TimerNode → List TimerNode → TimerNode × List TimerNode
top n [] = (n, [])
top n (m ∷ ns) =
    let rest = top m ns in
    if ltb rest.0.tm_point n.tm_point then (rest.0, n ∷ rest.1) else (n, m ∷ ns)

-- The start of `run_after`, `run_at` and `run_repeated`: an id, its state and the push of the node
unfoldable pub push_new : (ℕ → TimerNode) → Timer → ℕ × Timer
push_new node s = (
  s.next_id,
  record s {
    next_id = (s.next_id + 1) % 2 ^ 32;
    id_states = emplace s.next_id running_state s.id_states;
    queue = node s.next_id ∷ s.queue;
  },
)

-- The nodes that the three calls make
abbrev pub node_after : ℕ → ℕ → Bool → ℕ → ℕ → TimerNode
node_after now ms_time is_period f i = record {
  tm_point = now + ms_time * 1000000;
  callback = f;
  node_id = i;
  repeated_num = 0;
  is_period = is_period;
  is_repeated = false;
  period = ms_time * 1000000;
}

abbrev pub node_at : ℕ → ℕ → ℕ → TimerNode
node_at time_point f i = record {
  tm_point = time_point;
  callback = f;
  node_id = i;
  repeated_num = 0;
  is_period = false;
  is_repeated = false;
  period = 0;
}

-- A number below 0 is as good as 0.
abbrev pub node_repeated : ℕ → ℕ → ℕ → ℕ → ℕ → TimerNode
node_repeated now ms_time repeated_num f i = record {
  tm_point = now + ms_time * 1000000;
  callback = f;
  node_id = i;
  repeated_num = repeated_num;
  is_period = false;
  is_repeated = true;
  period = ms_time * 1000000;
}

unfoldable pub run_after : ℕ → ℕ → Bool → ℕ → Timer → ℕ × Timer
run_after now ms_time is_period f s = push_new (node_after now ms_time is_period f) s

unfoldable pub run_at : ℕ → ℕ → Timer → ℕ × Timer
run_at time_point f s = push_new (node_at time_point f) s

unfoldable pub run_repeated : ℕ → ℕ → ℕ → ℕ → Timer → ℕ × Timer
run_repeated now ms_time repeated_num f s = push_new (node_repeated now ms_time repeated_num f) s

unfoldable pub cancel : ℕ → Timer → Timer
cancel i s = record s { id_states = erase_key i s.id_states }

-- `run_local` with the node that was popped: the node that it pushes again, if it does
unfoldable pub again : ℕ → TimerNode → Option TimerNode
again now n =
    if n.is_period
    then some (record n { tm_point = now + n.period })
    else if n.is_repeated && ltb 0 n.repeated_num
    then some (record n { tm_point = now + n.period; repeated_num = n.repeated_num - 1 })
    else none

abbrev pub push : Option TimerNode → List TimerNode → List TimerNode
push none ns = ns
push (some n) ns = n ∷ ns

-- from `tm_queue.pop()` to `lock.unlock()`
unfoldable pub fire : ℕ → TimerNode → List TimerNode → Timer → Timer
unfolding again
fire now n rest s =
    if is_key_exist n.node_id s.id_states
    then record s { queue = push (again now n) rest; unlocked = some (n.node_id, n.callback) }
    else record s { queue = rest }

-- A round of `run_local` to where it gives up the mutex, which reads `now` for the difference and `now'`
-- to push the node again
unfoldable pub round : ℕ → ℕ → Timer → Timer
unfolding fire
round now now' s = elim s.queue [
  | [] ↦ s
  | m ∷ ns ↦
      let (n, rest) = top m ns in
      if not s.running then s else if leb (now + 1000000) n.tm_point then s else fire now' n rest s
]

-- `tm_thread_pool.commit`
unfoldable pub commit : ℕ × ℕ → Timer → Timer
commit p s = record s { unlocked = none; committed = s.committed ++ p ∷ [] }

-- The next step of `run_local`
unfoldable pub tick : ℕ → ℕ → Timer → Timer
unfolding round commit
tick now now' s = elim s.unlocked [ none ↦ round now now' s | some p ↦ commit p s ]

-- `~Timer`, as far as the thread sees it
unfoldable pub stop : Timer → Timer
stop s = record s { running = false }

pub data Call : Type 0 where
  afters : ℕ → ℕ → Bool → ℕ → Call
  ats : ℕ → ℕ → Call
  repeats : ℕ → ℕ → ℕ → ℕ → Call
  cancels : ℕ → Call
  ticks : ℕ → ℕ → Call
  stops : Call

unfoldable pub step : Call → Timer → Timer
step (afters now ms p f) s = (run_after now ms p f s).1
step (ats point f) s = (run_at point f s).1
step (repeats now ms n f) s = (run_repeated now ms n f s).1
step (cancels i) s = cancel i s
step (ticks now now') s = tick now now' s
step stops s = stop s

-- How many ids the calls take
abbrev pub takes : Call → ℕ
takes (afters now ms p f) = 1
takes (ats point f) = 1
takes (repeats now ms n f) = 1
takes (cancels i) = 0
takes (ticks now now') = 0
takes stops = 0

abbrev pub all_take : List Call → ℕ
all_take [] = 0
all_take (c ∷ cs) = takes c + all_take cs

unfoldable pub run : List Call → Timer → Timer
run [] s = s
run (c ∷ cs) s = run cs (step c s)
