-- ===== src/Snowflake/Lock.antt =====
-- The lock of snowflake_demo/snowflake.h, and threads that call `generate` of one object, one access of
-- what they share to a step.
use tools_demo.Base.{ℕ, Bool, true, false, List, [], ◌∷◌, ◌++◌, ℕ_discrete, ite}
use tools_demo.Snowflake.Defs.{Snowflake, generate, Generated, id, waiting, overflow}

-- `compare_exchange_strong(expected, true)` where `expected` is false: whether it stored, and the lock
unfoldable pub compare_exchange : Bool → Bool × Bool
compare_exchange false = (true, true)
compare_exchange true = (false, true)

-- `unlock`
abbrev pub unlock : Bool → Bool
unlock locked = false

-- Where a thread stands: outside `generate`; in the loop of `lock`; past it; in the body, with what it has
-- read of the object; before `unlock`; or in undefined behaviour
pub data Pc : Type 0 where
  idle : Pc
  spinning : Pc
  entered : Pc
  computing : Snowflake → Pc
  unlocking : Pc
  broken : Pc

pub record Shared : Type 0 where
  pub locked : Bool
  pub object : Snowflake
  -- the clock readings of each call that has an id, and the id, in the order of their stores
  pub log : List (List ℕ × ℕ)

-- What the body comes to: the object is stored, or the loops in it still wait for the clock.
unfoldable pub finish : Snowflake → List ℕ → Generated → Shared → Pc × Shared
finish read clock (id v rest s) m =
    (unlocking, record m { object = s; log = m.log ++ (clock, v) ∷ [] })
finish read clock waiting m = (computing read, m)
finish read clock overflow m = (broken, m)

-- The next step of a thread, whose body finds these clock readings
unfoldable pub move : Pc → List ℕ → Shared → Pc × Shared
move idle clock m = (spinning, m)
move spinning clock m =
    let r = compare_exchange m.locked in
    (elim r.0 [ true ↦ entered | false ↦ spinning ], record m { locked = r.1 })
move entered clock m = (computing m.object, m)
move (computing read) clock m = finish read clock (generate clock read) m
move unlocking clock m = (idle, record m { locked = unlock m.locked })
move broken clock m = (broken, m)

pub record System : Type 0 where
  pub pc : ℕ → Pc
  pub shared : Shared

abbrev pub start : Snowflake → System
start s = record { pc = λ _. idle; shared = record { locked = false; object = s; log = [] } }

abbrev pub update : (ℕ → Pc) → ℕ → Pc → ℕ → Pc
update f i p j = ite (ℕ_discrete i j) p (f j)

-- A thread moves.
unfoldable pub turn : ℕ → List ℕ → System → System
turn i clock s =
    let r = move (s.pc i) clock s.shared in record { pc = update s.pc i r.0; shared = r.1 }

-- Threads move in any order.
unfoldable pub run : List (ℕ × List ℕ) → System → System
run [] s = s
run ((i, clock) ∷ turns) s = run turns (turn i clock s)
