-- ===== src/AsioTimer/Steps.antt =====
-- The calls of timer_demo/asio_timer_base.cpp and the handlers that its thread takes up, in any order. What
-- a callback calls are steps after the one that called it, which ends with that call.
use tools_demo.Base.{ℕ, Bool}
use tools_demo.AsioTimer.Asio.{Asio, Completion}
use tools_demo.AsioTimer.Defs.{AsioTimer, set_timer, kill_timer, handle, init}

module _ (asio : Asio) where
  -- A step that sets only timers with these ids
  pub data Step (Sets : ℕ → Type 0) (a : AsioTimer asio) : AsioTimer asio → Type 0 where
    sets :
        (timer_id elapse callback : ℕ) (run_once : Bool)
        → Sets timer_id
        → Step Sets a (set_timer asio timer_id elapse callback run_once a).1
    kills : (timer_id : ℕ) → Step Sets a (kill_timer asio timer_id a).1
    completes :
        (c : Completion) (service : asio.Service)
        → asio.Completes a.io_service c service
        → Step Sets a (handle asio c (record a { io_service = service }))

  pub data Steps (Sets : ℕ → Type 0) (a : AsioTimer asio) : AsioTimer asio → Type 0 where
    here : Steps Sets a a
    next : {b c : AsioTimer asio} → Steps Sets a b → Step Sets b c → Steps Sets a c

  abbrev pub Any : ℕ → Type 0
  Any timer_id = Unit

  abbrev pub Reach : AsioTimer asio → Type 0
  Reach a = Steps Any (init asio) a
