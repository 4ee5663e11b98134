-- ===== src/ObjectPool/Tests.antt =====
-- The theorems on `ObjectPoolAllocator` at pools of two objects and of none.
use tools_demo.Base.{ℕ, ◌+◌, ◌-◌, ◌≤◌, ◌≡◌, refl, true, false, none, some, [], ◌∷◌, arith}
use tools_demo.ObjectPool.Defs.{Pool, undefined, create, pop_front}
use tools_demo.ObjectPool.Manager.{destructor, destroy_by, set_destroy_callback, create_by, manage}
use tools_demo.ObjectPool.History.{
  count, World, creates, destroys, Steps, here, next, start, constructed,
}
use tools_demo.ObjectPool.Lending.{lent_once, destructor_lem}
use tools_demo.ObjectPool.Counts.{Counts, create_nothing}

-- One object is lent, one is free, and one more may come.
abbrev two : Pool
two = record { curr_num = 2; max_num = 3; inc_num = 1; objects = 1008 ∷ []; chunks = 1000 ∷ [] }

abbrev bare : Pool
bare = record { curr_num = 2; max_num = 3; inc_num = 0; objects = []; chunks = 1000 ∷ [] }

two-Counts : Counts two 1
two-Counts = record { all = refl; bounded = omega arith }

create_nothing_example : create true 8 (some 2000) bare ≡ undefined
create_nothing_example = create_nothing 8 2000 bare refl refl (omega arith) (omega arith)

-- Of two free objects one is lent, and then destroyed while the mutex is not taken.
abbrev fresh : Pool
fresh = record {
  curr_num = 2;
  max_num = 3;
  inc_num = 1;
  objects = 1000 ∷ 1008 ∷ [];
  chunks = 1000 ∷ [];
}

abbrev lending : World
lending = record {
  manager = record {
    pool = record fresh { objects = 1008 ∷ [] };
    callback = set_destroy_callback 1000 (λ p. false);
  };
  lent = 1000 ∷ [];
  lost = [];
  made = 1000 ∷ 1008 ∷ [];
}

abbrev losing : World
losing = record lending {
  manager = destroy_by false 1000 lending.manager;
  lent = [];
  lost = 1000 ∷ [];
}

lent-Steps : Steps 8 (start fresh) lending
unfolding create_by create manage pop_front constructed
lent-Steps = next here (creates true none 1000 lending.manager refl)

lost-Steps : Steps 8 (start fresh) losing
lost-Steps = next lent-Steps (destroys false 1000 [] [] refl)

fresh_own : (q : ℕ) → count q lending.made ≤ 1
unfolding count
fresh_own q = ground arith

lent_once_example :
    count 1000 lending.manager.pool.objects + count 1000 lending.lent + count 1000 lending.lost ≤ 1
lent_once_example = lent_once 8 fresh lending lent-Steps fresh_own 1000

destructor_lem_example :
    count 1000 (destructor losing.manager.pool).0
    ≡ count 1000 losing.made - (count 1000 losing.lent + count 1000 losing.lost)
destructor_lem_example = destructor_lem 8 fresh losing lost-Steps 1000
