-- ===== src/LruCache/Tests.antt =====
-- The theorems on `lru_cache` at a cache of two entries.
use tools_demo.Base.{
  ℕ, ◌≤◌, ◌<◌, ◌≡◌, refl, none, some, Option, List, [], ◌∷◌, true, false, arith, ℕ_discrete,
}
use tools_demo.Base.Dict.{find, erase}
use tools_demo.LruCache.Defs.{LruCache, init, insert, evict, push_front}
use tools_demo.LruCache.Models.{Models, places}
use tools_demo.LruCache.Methods.{Shows, evict_lem}
use tools_demo.LruCache.Program.{
  Call, inserts, gets, run, ideal_run, run_from_new, run-size-le, contains_lem, insert_zero,
}
use tools_demo.LruCache.Spec

abbrev two : LruCache ℕ ℕ
two = record {
  map = (7, (70, 0)) ∷ (8, (80, 1)) ∷ [];
  list = (1, 8) ∷ (0, 7) ∷ [];
  capacity = 2;
  fresh = 2;
}

abbrev entries_two : List (ℕ × ℕ)
entries_two = (8, 80) ∷ (7, 70) ∷ []

abbrev nodes_two : List (ℕ × (ℕ × ℕ))
nodes_two = (1, (8, 80)) ∷ (0, (7, 70)) ∷ []

swap : (k : ℕ) → find ℕ_discrete k two.map ≡ find ℕ_discrete k (places ℕ_discrete nodes_two)
unfolding find
swap k = ground arith

two-Models : Models ℕ_discrete two nodes_two
unfolding find ℕ_discrete
two-Models = record {
  listed = refl;
  mapped = λ k. swap k;
  map_distinct = (refl, (refl, tt));
  distinct = (refl, (refl, tt));
  addresses = (refl, (refl, tt));
  below = (omega arith, (omega arith, tt));
  sized = refl;
}

two-Shows : Shows ℕ_discrete two 2 entries_two
two-Shows = record { nodes = nodes_two; models = two-Models; capped = refl; viewed = refl }

evict_lem_example :
    (t : LruCache ℕ ℕ) × (evict ℕ_discrete two ≡ some t) × Shows ℕ_discrete t 2 ((8, 80) ∷ [])
evict_lem_example = evict_lem ℕ_discrete two 2 entries_two two-Shows (omega arith)

abbrev calls : List (Call ℕ ℕ)
calls = inserts 7 70 ∷ inserts 8 80 ∷ gets 7 ∷ inserts 9 90 ∷ gets 8 ∷ []

run_from_new_example :
    (t : LruCache ℕ ℕ) × (run ℕ_discrete calls (init ℕ_discrete 2)
      ≡ some (t, none ∷ none ∷ some 70 ∷ none ∷ none ∷ []))
    × Shows ℕ_discrete t 2 ((9, 90) ∷ (7, 70) ∷ [])
unfolding ideal_run Spec.insert Spec.get find erase ℕ_discrete
    tools_demo.LruCache.Program.ideal_step
run_from_new_example = run_from_new ℕ_discrete 2 calls (omega arith)

abbrev ended : LruCache ℕ ℕ
ended = record { map = (7, (70, 0)) ∷ []; list = (0, 7) ∷ []; capacity = 1; fresh = 1 }

run_one : run ℕ_discrete (inserts 7 70 ∷ []) (init ℕ_discrete 1) ≡ some (ended, none ∷ [])
unfolding run insert push_front init ℕ_discrete tools_demo.LruCache.Program.step find
    tools_demo.Base.Dict.assign
run_one = refl

abbrev nothing : LruCache ℕ ℕ
nothing = record { map = []; list = []; capacity = 0; fresh = 0 }

nothing-Shows : Shows ℕ_discrete nothing 0 []
unfolding find ℕ_discrete
nothing-Shows = record {
  nodes = [];
  models = record {
    listed = refl;
    mapped = λ k. refl;
    map_distinct = tt;
    distinct = tt;
    addresses = tt;
    below = tt;
    sized = refl;
  };
  capped = refl;
  viewed = refl;
}

insert_zero_example : insert ℕ_discrete 7 70 nothing ≡ none
insert_zero_example = insert_zero ℕ_discrete 7 70 nothing nothing-Shows
