-- ===== src/ObjectPool/Manager.antt =====
-- `LockGuard` of objectpool/mutex.h, `Destroyable` of objectpool/destroyable.h and `ObjectManager` of
-- objectpool/objectmanager.h, and the destructor of the pool.
use tools_demo.Base.{ℕ, Bool, true, Option, some, List, ite, ℕ_discrete, if◌then◌else◌}
use tools_demo.ObjectPool.Defs.{Pool, Created, null, object, undefined, create, destroy}

-- `~ObjectPoolAllocator`: the objects that it destroys, and the chunks that it frees after them
unfoldable pub destructor : Pool → List ℕ × List ℕ
destructor s = (s.objects, s.chunks)

-- A manager, and for each object whether its callback is this manager
pub record Manager : Type 0 where
  pub pool : Pool
  pub callback : ℕ → Bool

-- As `Created`
pub data Managed : Type 0 where
  no_object : Manager → Managed
  one_object : ℕ → Manager → Managed
  breaks : Managed

-- `SetDestroyCallback`
abbrev pub set_destroy_callback : ℕ → (ℕ → Bool) → ℕ → Bool
set_destroy_callback p callback q = ite (ℕ_discrete p q) true (callback q)

-- What `ObjectManager::Create` makes of what its pool returned
unfoldable pub manage : Manager → Created → Managed
manage m (null s) = no_object (record m { pool = s })
manage m (object p s) =
    one_object p (record { pool = s; callback = set_destroy_callback p m.callback })
manage m undefined = breaks

-- `ObjectManager::Create`
unfoldable pub create_by : Bool → ℕ → Option ℕ → Manager → Managed
create_by locked size chunk m = manage m (create locked size chunk m.pool)

-- `ObjectManager::call`
unfoldable pub call : Bool → ℕ → Manager → Manager
call locked p m = record m { pool = destroy locked (some p) m.pool }

-- `Destroyable::Destroy`
unfoldable pub destroy_by : Bool → ℕ → Manager → Manager
destroy_by locked p m = if m.callback p then call locked p m else m
