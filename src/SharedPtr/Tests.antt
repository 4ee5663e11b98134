-- ===== src/SharedPtr/Tests.antt =====
-- The theorems on `AtomicSharedPtr` at one object, and what `test` prints.
use tools_demo.Base.{
  ◌+◌, ◌-◌, ◌≤◌, ◌≡◌, refl, some, [], ◌∷◌, if◌then◌else◌, ◌==◌, arith, ℕ_discrete,
}
use tools_demo.SharedPtr.Defs.{
  set_count, use_count, acquire, release, print, exchange, load, store, make_new, leave, test,
}
use tools_demo.SharedPtr.Counting.{one_to, count}
use tools_demo.SharedPtr.Clients.{
  Clients, empty, Reach, here, next, makes, stores, destroyed_once, store_lem,
}

-- The latest print first
test_prints : (test 5 empty.world).printed ≡ 2 ∷ 2 ∷ 3 ∷ 2 ∷ 3 ∷ 3 ∷ 2 ∷ 1 ∷ []
unfolding test leave make_new store load exchange print release acquire use_count set_count
    ℕ_discrete
test_prints = refl

abbrev made_one : Clients
made_one = record { world = make_new 5 empty.world; held = 5 ∷ []; made = 5 ∷ [] }

abbrev stored_one : Clients
stored_one = record made_one { world = store (some 5) made_one.world }

one_held : 1 ≤ count 5 made_one.held
unfolding count ℕ_discrete
one_held = omega arith

made-Reach : Reach made_one
unfolding count
made-Reach = next here (makes 5 refl)

stored-Reach : Reach stored_one
stored-Reach = next made-Reach (stores 5 one_held)

destroyed_once_example :
    (stored_one.world.use_counts 5 ≡ count 5 stored_one.held + one_to 5 stored_one.world.storage)
    × (count 5 stored_one.world.destroyed
        ≡ count 5 stored_one.made
          - (if count 5 stored_one.held + one_to 5 stored_one.world.storage == 0 then 0 else 1))
destroyed_once_example = destroyed_once stored_one 5 stored-Reach

store_lem_example :
    ((store (some 5) made_one.world).storage ≡ some 5)
    × ((store (some 5) made_one.world).use_counts 5 + one_to 5 made_one.world.storage
        ≡ made_one.world.use_counts 5 + one_to 5 (some 5))
store_lem_example = store_lem made_one 5 5 made-Reach one_held
