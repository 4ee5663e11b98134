-- ===== src/Timer/Tests.antt =====
-- The theorems on `Timer` at a timer with one node.
use tools_demo.Base.{◌+◌, ◌≡◌, refl, true, false, some, List, [], ◌∷◌, arith}
use tools_demo.Base.Dict.{find}
use tools_demo.Timer.Defs.{Timer, running_state, cancel, run, run_repeated, Call, afters, ticks}
use tools_demo.Timer.Queue.{fired, held, worth, total}
use tools_demo.Timer.Cancel.{cancel_stops}
use tools_demo.Timer.Counting.{run_repeated_count}

-- A timer whose first node was committed once, is about to be committed, and is to come again
abbrev once : Timer
once = record {
  queue =
      record {
        tm_point = 2000000;
        callback = 5;
        node_id = 0;
        repeated_num = 0;
        is_period = true;
        is_repeated = false;
        period = 1000000;
      }
      ∷ [];
  running = true;
  next_id = 1;
  id_states = (0, running_state) ∷ [];
  unlocked = some (0, 5);
  committed = (0, 5) ∷ [];
}

abbrev calls : List Call
calls = ticks 3000000 3000000 ∷ afters 3000000 1 false 6 ∷ ticks 9000000 9000000 ∷ []

cancel_stops_example :
    held 0 (run calls (cancel 0 once)).unlocked + fired 0 (run calls (cancel 0 once)).committed ≡ 2
unfolding find
cancel_stops_example = cancel_stops 0 calls once (omega arith) (omega arith) (refl, tt)

run_repeated_count_example :
    total (worth 1) (run calls (run_repeated 100 1 2 7 once).1).queue
      + held 1 (run calls (run_repeated 100 1 2 7 once).1).unlocked
      + fired 1 (run calls (run_repeated 100 1 2 7 once).1).committed
    ≡ 3
run_repeated_count_example = run_repeated_count 100 1 2 7 calls once refl refl tt (omega arith)
