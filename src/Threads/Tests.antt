-- ===== src/Threads/Tests.antt =====
-- The theorems on `threadpool` at a pool of two threads.
use tools_demo.Base.{◌≡◌, refl, false, [], ◌∷◌, List}
use tools_demo.Threads.Defs.{ThreadPool, executing, at_head, init}
use tools_demo.Threads.Order.{Tracks}
use tools_demo.Threads.Runs.{Event, commits, advances, stops, run, run-init}
use tools_demo.Threads.Shutdown.{stop_drops}

-- The first thread takes a task and runs it, and the pool stops before the third commit.
abbrev events : List Event
events =
    commits 5
    ∷ advances 0
    ∷ advances 0
    ∷ advances 0
    ∷ commits 6
    ∷ stops
    ∷ commits 7
    ∷ advances 1
    ∷ []

run-init_example : Tracks (run events (init 2)) (5 ∷ 6 ∷ []) 2
run-init_example = run-init 2 events

abbrev stopped : ThreadPool
stopped = record {
  pool = executing 5 ∷ at_head ∷ [];
  tasks = 6 ∷ [];
  running = false;
  idl_thr_num = 1;
  taken = 5 ∷ [];
}

abbrev ends : List Event
ends = advances 0 ∷ advances 1 ∷ advances 0 ∷ []

stop_drops_example : ((run ends stopped).tasks ≡ 6 ∷ []) × ((run ends stopped).taken ≡ 5 ∷ [])
stop_drops_example = stop_drops ends stopped refl tt
