-- ===== src/AsioTimer/Defs.antt =====
-- `asio_timer` of timer_demo/asio_timer_base.h and asio_timer_base.cpp. An id and a callback are numbers,
-- and the steady_timers are numbered as they are made.
use tools_demo.Base.{
  ℕ, ◌+◌, Bool, true, false, Option, none, some, List, [], ◌∷◌, ◌++◌, ℕ_discrete, if◌then◌else◌,
}
use tools_demo.Base.Dict.{find, erase}
use tools_demo.AsioTimer.Asio.{Asio, Completion, posted, expired, aborted}

pub record TimerInfo : Type 0 where
  pub timer_id : ℕ
  pub timer_elapse : ℕ
  pub call_back : ℕ
  pub timer : ℕ

-- A call of a callback: posted by `set_timer`, or by the timer of an id
pub data Call : Type 0 where
  at_once : (call_back : ℕ) → Call
  on_timer : (timer_id call_back : ℕ) → Call

module _ (asio : Asio) where
  pub record AsioTimer : Type 0 where
    pub io_service : asio.Service
    pub map_timer : List (ℕ × TimerInfo)
    -- how many steady_timers have been made
    pub made : ℕ
    -- the calls of callbacks, the latest first
    pub called : List Call

  unfoldable pub init : AsioTimer
  init = record { io_service = asio.init; map_timer = []; made = 0; called = [] }

  unfoldable pub set_timer : ℕ → ℕ → ℕ → Bool → AsioTimer → Bool × AsioTimer
  set_timer timer_id elapse callback run_once a = elim (find ℕ_discrete timer_id a.map_timer) [
    | some info ↦ (true, a)
    | none ↦
        let timer = a.made in
        let info : TimerInfo = record {
          timer_id = timer_id;
          timer_elapse = elapse;
          call_back = callback;
          timer = timer;
        } in
        let service = if run_once then asio.post callback a.io_service else a.io_service in
        (
          true,
          record a {
            io_service =
                asio.async_wait timer timer_id (asio.expires_from_now timer elapse service);
            map_timer = a.map_timer ++ (timer_id, info) ∷ [];
            made = timer + 1;
          },
        )
  ]

  unfoldable pub kill_timer : ℕ → AsioTimer → Bool × AsioTimer
  kill_timer timer_id a = elim (find ℕ_discrete timer_id a.map_timer) [
    | none ↦ (false, a)
    | some info ↦ (
      true,
      record a {
        io_service = asio.cancel info.timer a.io_service;
        map_timer = erase ℕ_discrete timer_id a.map_timer;
      },
    )
  ]

  -- A success calls the callback after the next wait is set up, so that it may kill its timer.
  unfoldable pub ontimer_internal : ℕ → (error : Bool) → AsioTimer → AsioTimer
  ontimer_internal timer_id true a = a
  ontimer_internal timer_id false a = elim (find ℕ_discrete timer_id a.map_timer) [
    | none ↦ a
    | some info ↦ record a {
      io_service =
          asio.async_wait info.timer info.timer_id
            (asio.expires_from_now info.timer info.timer_elapse a.io_service);
      called = on_timer timer_id info.call_back ∷ a.called;
    }
  ]

  -- The handler of a completion
  unfoldable pub handle : Completion → AsioTimer → AsioTimer
  handle (posted callback) a = record a { called = at_once callback ∷ a.called }
  handle (expired timer timer_id) a = ontimer_internal timer_id false a
  handle (aborted timer timer_id) a = ontimer_internal timer_id true a

-- How `run` ends: on its own, or by an exception of a handler, with its text where it has one
pub data RunEnd : Type 0 where
  returned : RunEnd
  threw : (what : List ℕ) → RunEnd
  threw_other : RunEnd

-- `io_main_thread` over the ends of its calls of `run`: the last error, once one of them returned
unfoldable pub io_main_thread : List RunEnd → (error : List ℕ) → Option (List ℕ)
io_main_thread [] error = none
io_main_thread (returned ∷ ends) error = some error
io_main_thread (threw what ∷ ends) error = io_main_thread ends what
io_main_thread (threw_other ∷ ends) error = io_main_thread ends error
