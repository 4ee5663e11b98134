-- ===== src/ObjectPool/Guard.antt =====
-- `LockGuard` of objectpool/mutex.h over what its mutex returns.
use tools_demo.Base.{
  ℕ, ◌+◌, ◌-◌, ◌≤◌, ◌≡◌, refl, Bool, true, false, List, [], ◌∷◌, arith, if◌then◌else◌, ◌==◌,
}

-- A guard, and how often its thread holds the mutex: once more after an `Acquire` that returns 0, and once
-- less after a `Release` that returns 0
pub record LockGuard : Type 0 where
  pub acquired : Bool
  pub held : ℕ

-- The constructor, on a mutex that is not held
abbrev pub guard : LockGuard
guard = record { acquired = false; held = 0 }

-- `Lock`, where `Acquire` returns `result` if it is called: whether it returns 0
unfoldable pub lock : ℕ → LockGuard → Bool × LockGuard
lock result g =
    if g.acquired
    then (false, g)
    else if result == 0
    then (true, record { acquired = true; held = g.held + 1 })
    else (false, g)

-- `Unlock`, where `Release` returns `result` if it is called
unfoldable pub unlock : ℕ → LockGuard → Bool × LockGuard
unlock result g =
    if g.acquired
    then if result == 0 then (true, record { acquired = false; held = g.held - 1 }) else (false, g)
    else (false, g)

-- The destructor: how often the mutex is held after it
unfoldable pub leave : ℕ → LockGuard → ℕ
leave result g = if g.acquired then if result == 0 then g.held - 1 else g.held else g.held

pub data Use : Type 0 where
  locks : (result : ℕ) → Use
  unlocks : (result : ℕ) → Use

unfoldable pub uses : List Use → LockGuard → LockGuard
uses [] g = g
uses (locks result ∷ us) g = uses us (lock result g).1
uses (unlocks result ∷ us) g = uses us (unlock result g).1

-- The guard knows whether its thread holds the mutex.
abbrev pub Knows : LockGuard → Type 0
Knows g = g.held ≡ (if g.acquired then 1 else 0)

lock-Knows : (result : ℕ) (g : LockGuard) → Knows g → Knows (lock result g).1
unfolding lock
lock-Knows result g k = ground (arith, k)

unlock-Knows : (result : ℕ) (g : LockGuard) → Knows g → Knows (unlock result g).1
unfolding unlock
unlock-Knows result g k = ground (arith, k)

uses-Knows : (us : List Use) (g : LockGuard) → Knows g → Knows (uses us g)
unfolding uses
uses-Knows [] g k = k
uses-Knows (locks result ∷ us) g k = uses-Knows us (lock result g).1 (lock-Knows result g k)
uses-Knows (unlocks result ∷ us) g k = uses-Knows us (unlock result g).1 (unlock-Knows result g k)

-- Whatever calls of Lock and Unlock came before, with any results of the mutex, the guard holds the mutex
-- at most once, and not after its destructor if the last Release returns 0.
pub guard_balanced : (us : List Use) → ((uses us guard).held ≤ 1) × (leave 0 (uses us guard) ≡ 0)
unfolding leave
guard_balanced us = let k = uses-Knows us guard refl in (ground (arith, k), ground (arith, k))
