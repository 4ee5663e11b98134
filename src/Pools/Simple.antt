-- ===== src/Pools/Simple.antt =====
-- `SimpleObjectPool<T>` of objectpool2/objectpool.h. An object is its address, and a pointer that is handed
-- out comes back through its deleter, which is the step `give_back`.
use tools_demo.Base.{
  ℕ, ◌≡◌, refl, ap, Bool, Option, some, List, [], ◌∷◌, ◌++◌, ◌==◌, arith, length, last?, drop_last,
  ◌>>=◌,
}

abbrev pub Pool : Type 0
Pool = List ℕ

unfoldable pub add : ℕ → Pool → Pool
add t pool = pool ++ t ∷ []

-- `init`, with the addresses that `make_unique` returns
unfoldable pub init : List ℕ → Pool → Pool
init [] pool = pool
init (t ∷ ts) pool = init ts (add t pool)

-- `get`: the object and the new pool, or the exception that there is none
unfoldable pub get : Pool → Option (ℕ × Pool)
get pool = last? pool >>= λ t. some (t, drop_last pool)

-- `get_shared`
unfoldable pub get_shared : Pool → Option (ℕ × Pool)
get_shared pool = last? pool >>= λ t. some (t, drop_last pool)

unfoldable pub give_back : ℕ → Pool → Pool
give_back t pool = pool ++ t ∷ []

drop_last-append :
    (pool : Pool) (t : ℕ) → (last? (pool ++ t ∷ []) ≡ some t) × (drop_last (pool ++ t ∷ []) ≡ pool)
drop_last-append [] t = (refl, refl)
drop_last-append (x ∷ []) t = (refl, refl)
drop_last-append (x ∷ y ∷ pool) t =
    let (a, b) = drop_last-append (y ∷ pool) t in (a, ap (λ l. x ∷ l) b)

-- An object that is given back is the next that `get` and `get_shared` hand out, and the pool is then as
-- before.
pub get-give_back :
    (t : ℕ) (pool : Pool)
    → (get (give_back t pool) ≡ some (t, pool)) × (get_shared (give_back t pool) ≡ some (t, pool))
unfolding get get_shared give_back
get-give_back t pool =
    let (a, b) = drop_last-append pool t in (ground (arith, a, b), ground (arith, a, b))

abbrev pub empty : Pool → Bool
empty pool = length pool == 0

abbrev pub size : Pool → ℕ
size pool = length pool
