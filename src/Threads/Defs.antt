-- ===== src/Threads/Defs.antt =====
-- `threadpool` of timerloop/priority_queue/threadpool.h, without THREADPOOL_AUTO_GROW. A task is a number.
-- Its threads advance in any order, each from one access of what they share to the next; a thread that is
-- blocked does not change the state.
use tools_demo.Base.{
  ℕ, zero, suc, ◌+◌, ◌-◌, Bool, true, false, List, [], ◌∷◌, ◌++◌, length, set, get_elem?, ltb,
  if◌then◌else◌, some, none,
}

-- Where a thread stands: before the test of the loop, in `wait`, with a task that it has taken, in the
-- task, or at its end
pub data Worker : Type 0 where
  at_head : Worker
  in_wait : Worker
  holding : ℕ → Worker
  executing : ℕ → Worker
  finished : Worker

pub record ThreadPool : Type 0 where
  pub pool : List Worker
  pub tasks : List ℕ
  pub running : Bool
  pub idl_thr_num : ℕ
  -- the tasks that threads have taken, in order
  pub taken : List ℕ

-- THREADPOOL_MAX_NUM
abbrev pub max_num : ℕ
max_num = 16

unfoldable pub add_thread : ℕ → ThreadPool → ThreadPool
add_thread zero s = s
add_thread (suc size) s =
    let rest =
      add_thread size
        (record s { pool = s.pool ++ at_head ∷ []; idl_thr_num = s.idl_thr_num + 1 }) in
    if ltb (length s.pool) max_num then rest else s

unfoldable pub init : ℕ → ThreadPool
init size =
    add_thread size (record { pool = []; tasks = []; running = true; idl_thr_num = 0; taken = [] })

-- A commit to a pool that is stopped throws.
unfoldable pub commit : ℕ → ThreadPool → ThreadPool
commit t s = if s.running then record s { tasks = s.tasks ++ t ∷ [] } else s

-- The first step of the destructor, which then waits for each thread
unfoldable pub stop : ThreadPool → ThreadPool
stop s = record s { running = false }

-- The next step of the thread `i`, from where it stands
unfoldable pub step : Worker → ℕ → ThreadPool → ThreadPool
step at_head i s = record s { pool = set s.pool i (if s.running then in_wait else finished) }
step in_wait i s = elim s.tasks [
  | [] ↦ if s.running then s else record s { pool = set s.pool i finished }
  | t ∷ ts ↦ record s { pool = set s.pool i (holding t); tasks = ts; taken = s.taken ++ t ∷ [] }
]
step (holding t) i s = record s {
  pool = set s.pool i (executing t);
  idl_thr_num = s.idl_thr_num - 1;
}
step (executing t) i s = record s { pool = set s.pool i at_head; idl_thr_num = s.idl_thr_num + 1 }
step finished i s = s

unfoldable pub advance : ℕ → ThreadPool → ThreadPool
advance i s = elim (get_elem? s.pool i) [ none ↦ s | some w ↦ step w i s ]
