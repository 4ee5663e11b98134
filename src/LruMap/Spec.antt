-- ===== src/LruMap/Spec.antt =====
-- What an `LruMap` promises: one list of entries by key, the least recently used first.
use tools_demo.Base.{
  ℕ, Bool, ◌&&◌, Option, none, some, List, [], ◌∷◌, ◌++◌, length, drop, leb, if◌then◌else◌,
}
use tools_demo.Base.Int.{ℤ, ◌+ℤ◌, ltb_ℤ}
use tools_demo.Base.Dict.{find, erase}

abbrev pub Entries : Type 0 → Type 0 → Type 0
Entries K V = List (K × (V × ℤ))

module _ {K V : Type 0} (dec : Discrete K) where
  unfoldable pub touch : K → V × ℤ → Entries K V → Entries K V
  touch k entry m = erase dec k m ++ (k, entry) ∷ []

  unfoldable pub get : ℤ → K → Bool → Entries K V → Entries K V × Option (V × ℤ)
  get now k erasing_expired m = elim (find dec k m) [
    | none ↦ (m, none)
    | some entry ↦
        if erasing_expired && ltb_ℤ entry.1 now
        then (erase dec k m, none)
        else (touch k entry m, some entry)
  ]

  -- A new key in a full map first drops the sixteen oldest entries.
  unfoldable pub put : ℕ → ℤ → K → V → ℤ → Entries K V → Entries K V
  put capacity now k v seconds m = elim (find dec k m) [
    | some _ ↦ touch k (v, seconds +ℤ now) m
    | none ↦ (if leb capacity (length m) then drop 16 m else m) ++ (k, (v, seconds +ℤ now)) ∷ []
  ]

  -- The entry that `get` finds goes.
  unfoldable pub take : ℤ → K → Bool → Entries K V → Entries K V
  take now k erasing_expired m =
      let (m', r) = get now k erasing_expired m in elim r [ none ↦ m' | some _ ↦ erase dec k m' ]
