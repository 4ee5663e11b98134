-- ===== src/LruCache/Spec.antt =====
-- What an `lru_cache` promises: one list of entries, the latest used first.
use tools_demo.Base.{ℕ, Option, none, some, List, ◌∷◌, length, leb, if◌then◌else◌, drop_last}
use tools_demo.Base.Dict.{find, erase}

module _ {K V : Type 0} (dec : Discrete K) where
  -- A key that is there keeps its value and its place; a new one goes first, and in a full cache the
  -- last entry goes.
  unfoldable pub insert : ℕ → K → V → List (K × V) → List (K × V)
  insert capacity k v m = elim (find dec k m) [
    | none ↦ (k, v) ∷ (if leb capacity (length m) then drop_last m else m)
    | some _ ↦ m
  ]

  unfoldable pub get : K → List (K × V) → List (K × V) × Option V
  get k m = elim (find dec k m) [ none ↦ (m, none) | some v ↦ ((k, v) ∷ erase dec k m, some v) ]
