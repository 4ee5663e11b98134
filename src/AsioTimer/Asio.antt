-- ===== src/AsioTimer/Asio.antt =====
-- What timer_demo/asio_timer_base.cpp uses of Boost.Asio: an io_service with handlers that wait for a
-- steady_timer or are posted. A steady_timer is a number.
use tools_demo.Base.{ℕ, suc, ◌≡◌, ◌≢◌, ◌⊎◌}

-- A handler that `run` takes up: a posted call of a callback, or `ontimer_internal` bound to an id, whose
-- steady_timer expired or gave up the wait
pub data Completion : Type 0 where
  posted : (call_back : ℕ) → Completion
  expired : (timer timer_id : ℕ) → Completion
  aborted : (timer timer_id : ℕ) → Completion

-- The calls as their documentation describes them. To set the expiry or to cancel gives up the waits of
-- that steady_timer alone, and those that have expired already complete without an error.
pub record Asio : Type 1 where
  pub Service : Type 0
  pub init : Service
  pub post : (call_back : ℕ) → Service → Service
  pub expires_from_now : (timer elapse : ℕ) → Service → Service
  pub async_wait : (timer timer_id : ℕ) → Service → Service
  pub cancel : (timer : ℕ) → Service → Service
  -- `run` takes up a handler.
  pub Completes : Service → Completion → Service → Type 0
  -- How many waits of a steady_timer have neither completed nor been given up
  pub waits : (timer : ℕ) → Service → ℕ
  -- A handler bound to this id has waited for this steady_timer.
  pub Bound : (timer timer_id : ℕ) → Service → Type 0
  pub waits_post : (t c : ℕ) (s : Service) → waits t (post c s) ≡ waits t s
  pub waits_expires :
      (t u ms : ℕ) (s : Service) → t ≢ u → waits t (expires_from_now u ms s) ≡ waits t s
  pub waits_cancel : (t u : ℕ) (s : Service) → t ≢ u → waits t (cancel u s) ≡ waits t s
  pub waits_async_wait : (t i : ℕ) (s : Service) → waits t (async_wait t i s) ≡ suc (waits t s)
  pub waits_others : (t u i : ℕ) (s : Service) → t ≢ u → waits t (async_wait u i s) ≡ waits t s
  pub waits_posted : {s r : Service} (t c : ℕ) → Completes s (posted c) r → waits t r ≡ waits t s
  pub waits_aborted :
      {s r : Service} (t u i : ℕ) → Completes s (aborted u i) r → waits t r ≡ waits t s
  pub waits_expired :
      {s r : Service} (t u i : ℕ) → Completes s (expired u i) r → t ≢ u → waits t r ≡ waits t s
  pub bound_init : (t i : ℕ) → ¬ Bound t i init
  pub bound_post : (t i c : ℕ) (s : Service) → Bound t i (post c s) → Bound t i s
  pub bound_expires :
      (t i u ms : ℕ) (s : Service) → Bound t i (expires_from_now u ms s) → Bound t i s
  pub bound_cancel : (t i u : ℕ) (s : Service) → Bound t i (cancel u s) → Bound t i s
  pub bound_async_wait :
      (t i u j : ℕ) (s : Service) → Bound t i (async_wait u j s) → Bound t i s ⊎ (t ≡ u) × (i ≡ j)
  pub bound_completes :
      {s r : Service} {c : Completion} (t i : ℕ) → Completes s c r → Bound t i r → Bound t i s
  pub expired_bound : {s r : Service} (t i : ℕ) → Completes s (expired t i) r → Bound t i s
