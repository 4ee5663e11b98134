-- ===== src/LruCache/Defs.antt =====
-- The class `lru_cache` of lru_cache/lrucache.h, method by method. A call that has no result follows
-- an iterator to no node.
use tools_demo.Base.{
  ℕ, ◌+◌, Bool, true, false, Option, none, some, List, [], ◌∷◌, ℕ_discrete, length, leb, ◌==◌,
  if◌then◌else◌, ◌>>=◌, last?,
}
use tools_demo.Base.Dict.{find, assign, erase}

pub record LruCache (K V : Type 0) : Type 0 where
  pub map : List (K × (V × ℕ))
  pub list : List (ℕ × K)
  pub capacity : ℕ
  -- the address that the next node gets
  pub fresh : ℕ

-- `m_list.begin() == j`
abbrev pub is_begin : {K : Type 0} → ℕ → List (ℕ × K) → Bool
is_begin j [] = false
is_begin j ((i, k) ∷ l) = j == i

module _ {K V : Type 0} (dec : Discrete K) where
  unfoldable pub init : ℕ → LruCache K V
  init capacity = record { map = []; list = []; capacity = capacity; fresh = 0 }

  unfoldable pub size : LruCache K V → ℕ
  size s = length s.map

  unfoldable pub contains : K → LruCache K V → Bool
  contains key s = elim (find dec key s.map) [ none ↦ false | some _ ↦ true ]

  unfoldable pub evict : LruCache K V → Option (LruCache K V)
  evict s = last? s.list >>= λ i.
      some (record s { map = erase dec i.1 s.map; list = erase ℕ_discrete i.0 s.list })

  -- `m_list.push_front(key); m_map[key] = std::make_pair(value, m_list.begin());`
  unfoldable pub push_front : K → V → LruCache K V → LruCache K V
  push_front key value s = record s {
    list = (s.fresh, key) ∷ s.list;
    map = assign dec key (value, s.fresh) s.map;
    fresh = s.fresh + 1;
  }

  unfoldable pub insert : K → V → LruCache K V → Option (LruCache K V)
  unfolding push_front size
  insert key value s = elim (find dec key s.map) [
    | none ↦
        ((if leb s.capacity (size s) then evict s else some s) >>= λ t.
        some (push_front key value t))
    | some _ ↦ some s
  ]

  unfoldable pub get : K → LruCache K V → Option (LruCache K V × Option V)
  unfolding push_front
  get key s = elim (find dec key s.map) [
    | none ↦ some (s, none)
    | some (value, j) ↦
        if is_begin j s.list
        then some (s, some value)
        else (find ℕ_discrete j s.list >>= λ _.
            some (push_front key value (record s { list = erase ℕ_discrete j s.list }), some value))
  ]

  unfoldable pub clear : LruCache K V → LruCache K V
  clear s = record s { map = []; list = [] }
