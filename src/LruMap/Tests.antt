-- ===== src/LruMap/Tests.antt =====
-- The theorems on `LruMap` at a map of two entries.
use tools_demo.Base.{
  ℕ, ◌+◌, ◌≤◌, ◌<◌, ◌≡◌, refl, max, none, some, List, [], ◌∷◌, true, arith, ℕ_discrete, inl,
  if◌then◌else◌, length,
}
use tools_demo.Base.Int.{ℤ, pos, ◌+ℤ◌}
use tools_demo.Base.Dict.{find, erase}
use tools_demo.LruMap.Defs.{LruMap, init, put}
use tools_demo.LruMap.Invariant.{IsCoherent}
use tools_demo.LruMap.Program.{Call, gets, puts, takes, Finishes, ideal_run, run_from_init}

abbrev two : LruMap ℕ ℕ
two = record {
  capacity = 2;
  index = (7, 0) ∷ (8, 1) ∷ [];
  nodelist =
      (0, record { key = 7; value = 70; expiration = pos 5 })
      ∷ (1, record { key = 8; value = 80; expiration = pos 9 })
      ∷ [];
  fresh = 2;
}

two-Coherent : IsCoherent ℕ_discrete two
unfolding find ℕ_discrete
two-Coherent = record {
  indexed = λ k. refl;
  distinct = (refl, (refl, tt));
  addresses = (refl, (refl, tt));
  below = (omega arith, (omega arith, tt));
  sized = refl;
  index_distinct = (refl, (refl, tt));
}

abbrev touched : List (ℕ × (ℕ × ℤ))
touched = (8, (80, pos 9)) ∷ (7, (70, pos 5)) ∷ []

abbrev seven_again : LruMap ℕ ℕ
seven_again = record two {
  nodelist =
      (1, record { key = 8; value = 80; expiration = pos 9 })
      ∷ (0, record { key = 7; value = 71; expiration = pos 4 })
      ∷ [];
}

put_again : put ℕ_discrete (pos 1) 7 71 (pos 3) two ≡ some (seven_again, some 0)
unfolding put ℕ_discrete find tools_demo.Base.Linked.splice_back tools_demo.Base.Dict.assign erase
    ◌+ℤ◌
put_again = refl

abbrev calls : List (Call ℕ ℕ)
calls =
    puts (pos 1) 7 70 (pos 4)
    ∷ puts (pos 1) 8 80 (pos 8)
    ∷ gets (pos 2) 7 true
    ∷ takes (pos 3) 8 true
    ∷ []

run_from_init_example :
    let (cap, m, rs) = ideal_run ℕ_discrete calls (2, []) in
    Finishes ℕ_discrete calls (init ℕ_discrete 2) cap m rs
run_from_init_example = run_from_init ℕ_discrete 2 calls
