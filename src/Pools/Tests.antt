-- ===== src/Pools/Tests.antt =====
-- The theorems on `ObjectMemPool` at a pool of three slots.
use tools_demo.Base.{refl, [], ◌∷◌, arith}
use tools_demo.Pools.Ring.{Ring, init, get, release, Holds, get-Holds, release-Holds}

abbrev three : Ring
three = init 3

three-Holds : Holds three 0 (1 ∷ 2 ∷ [])
unfolding init tools_demo.Pools.Ring.fill
three-Holds = record {
  sized = refl;
  in_range = omega arith;
  ends = refl;
  fits = omega arith;
  runs = (refl, (refl, (refl, tt)));
}
