-- ===== src/Base/Dict.antt =====
-- The standard containers that hold keyed entries, as association lists: `std::map` and
-- `std::unordered_map` by their key, and `std::list` by the address of a node, which is what an
-- iterator is. The order of the entries of a map is never observed.
use mathlib.Core.List.{List, [], ◌∷◌, ◌++◌}
use mathlib.Core.Logic.{ite, ◌≢◌}
use mathlib.Core.Option.{Option, none, some}
use mathlib.Core.Path.{◌≡◌, refl}
use Prim.Native.Nat.{ℕ, zero, suc, ◌+◌}
use native.Mathlib.Omega.{arith}
use tools_demo.Base.Lists.{length, drop, drop_last, length-append}

module _ {ℓ} {K V : Type ℓ} (dec : Discrete K) where
  unfoldable pub find : K → List (K × V) → Option V
  find k [] = none
  find k ((j, v) ∷ m) = ite (dec j k) (some v) (find k m)

  -- `m[k] = v`
  unfoldable pub assign : K → V → List (K × V) → List (K × V)
  assign k v [] = (k, v) ∷ []
  assign k v ((j, w) ∷ m) = ite (dec j k) ((k, v) ∷ m) ((j, w) ∷ assign k v m)

  -- `m.emplace(k, v)` and `m.insert({k, v})`: an entry that is there stays as it is.
  unfoldable pub emplace : K → V → List (K × V) → List (K × V)
  emplace k v m = elim (find k m) [ none ↦ m ++ (k, v) ∷ [] | some _ ↦ m ]

  unfoldable pub erase : K → List (K × V) → List (K × V)
  erase k [] = []
  erase k ((j, w) ∷ m) = ite (dec j k) m ((j, w) ∷ erase k m)

  -- No key stands twice.
  abbrev pub IsDistinct : List (K × V) → Type ℓ
  IsDistinct [] = Unit
  IsDistinct ((k, v) ∷ m) = (find k m ≡ none) × IsDistinct m

  pub find-cons : (k : K) (v : V) (m : List (K × V)) → find k ((k, v) ∷ m) ≡ some v
  unfolding find
  find-cons k v m = ground arith

  pub find-cons_if :
      (j k : K) (v : V) (m : List (K × V)) → find j ((k, v) ∷ m) ≡ ite (dec k j) (some v) (find j m)
  unfolding find
  find-cons_if j k v m = refl

  pub erase-cons : (k : K) (v : V) (m : List (K × V)) → erase k ((k, v) ∷ m) ≡ m
  unfolding erase
  erase-cons k v m = ground arith

  pub find-assign :
      (j k : K) (v : V) (m : List (K × V))
      → find j (assign k v m) ≡ ite (dec k j) (some v) (find j m)
  unfolding find assign
  find-assign j k v [] = refl
  find-assign j k v ((i, w) ∷ m) = ground (arith, find-assign j k v m)

  pub find-append :
      (j : K) (m n : List (K × V))
      → find j (m ++ n) ≡ elim (find j m) [ none ↦ find j n | some v ↦ some v ]
  unfolding find
  find-append j [] n = refl
  find-append j ((i, w) ∷ m) n = ground (arith, find-append j m n)

  pub find-append_one :
      (j k : K) (v : V) (m : List (K × V))
      → find j (m ++ (k, v) ∷ [])
        ≡ elim (find j m) [ none ↦ ite (dec k j) (some v) none | some w ↦ some w ]
  unfolding find
  find-append_one j k v m = find-append j m ((k, v) ∷ [])

  pub find-emplace :
      (j k : K) (v : V) (m : List (K × V))
      → find j (emplace k v m)
        ≡ elim (find j m) [ none ↦ ite (dec k j) (some v) none | some w ↦ some w ]
  unfolding find emplace
  find-emplace j k v m = ground (arith, find-append j m ((k, v) ∷ []))

  pub find-erase :
      (j k : K) (m : List (K × V))
      → IsDistinct m
      → find j (erase k m) ≡ ite (dec k j) none (find j m)
  unfolding find erase
  find-erase j k [] d = ground arith
  find-erase j k ((i, w) ∷ m) d = ground (arith, find-erase j k m d.1)

  pub erase_absent : (k : K) (m : List (K × V)) → find k m ≡ none → erase k m ≡ m
  unfolding find erase
  erase_absent k [] h = refl
  erase_absent k ((i, w) ∷ m) h = ground (arith, erase_absent k m)

  pub find-erase-none : (j k : K) (m : List (K × V)) → find j m ≡ none → find j (erase k m) ≡ none
  unfolding find erase
  find-erase-none j k [] h = refl
  find-erase-none j k ((i, w) ∷ m) h = ground (arith, find-erase-none j k m)

  pub erase-IsDistinct : (k : K) (m : List (K × V)) → IsDistinct m → IsDistinct (erase k m)
  unfolding find erase
  erase-IsDistinct k [] d = tt
  erase-IsDistinct k ((i, w) ∷ m) d =
      ground (arith, erase-IsDistinct k m d.1, find-erase-none i k m)

  pub append-IsDistinct :
      (k : K) (v : V) (m : List (K × V))
      → find k m ≡ none
      → IsDistinct m
      → IsDistinct (m ++ (k, v) ∷ [])
  unfolding find
  append-IsDistinct k v [] h d = (refl, tt)
  append-IsDistinct k v ((i, w) ∷ m) h d =
      ground (arith, append-IsDistinct k v m, find-append i m ((k, v) ∷ []))

  pub assign-IsDistinct :
      (k : K) (v : V) (m : List (K × V)) → IsDistinct m → IsDistinct (assign k v m)
  unfolding find assign
  assign-IsDistinct k v [] d = (refl, tt)
  assign-IsDistinct k v ((i, w) ∷ m) d =
      ground (arith, assign-IsDistinct k v m d.1, find-assign i k v m)

  pub emplace-IsDistinct :
      (k : K) (v : V) (m : List (K × V)) → IsDistinct m → IsDistinct (emplace k v m)
  unfolding emplace
  emplace-IsDistinct k v m d = ground (arith, append-IsDistinct k v m)

  pub length-erase :
      (k : K) (m : List (K × V)) {v : V} → find k m ≡ some v → length (erase k m) + 1 ≡ length m
  unfolding find erase
  length-erase k [] h = cc
  length-erase k ((i, w) ∷ m) {v} h = ground (arith, length-erase k m {v = v})

  pub length-emplace_new :
      (k : K) (v : V) (m : List (K × V)) → find k m ≡ none → length (emplace k v m) ≡ length m + 1
  unfolding emplace
  length-emplace_new k v m h = ground (arith, length-append m ((k, v) ∷ []))

  pub length-assign_hit :
      (k : K) (v : V) (m : List (K × V)) {w : V}
      → find k m ≡ some w
      → length (assign k v m) ≡ length m
  unfolding find assign
  length-assign_hit k v [] h = cc
  length-assign_hit k v ((i, w) ∷ m) {w = w'} h = ground (arith, length-assign_hit k v m {w = w'})

  pub length-assign_new :
      (k : K) (v : V) (m : List (K × V)) → find k m ≡ none → length (assign k v m) ≡ length m + 1
  unfolding find assign
  length-assign_new k v [] h = omega arith
  length-assign_new k v ((i, w) ∷ m) h = ground (arith, length-assign_new k v m)

  pub erase-assign :
      (k : K) (v : V) (m : List (K × V)) {w : V}
      → find k m ≡ some w
      → erase k (assign k v m) ≡ erase k m
  unfolding find assign erase
  erase-assign k v [] h = cc
  erase-assign k v ((i, w) ∷ m) {w = w'} h = ground (arith, erase-assign k v m {w = w'})

  pub find-drop-none :
      (k : K) (n : ℕ) (m : List (K × V)) → find k m ≡ none → find k (drop n m) ≡ none
  unfolding find
  find-drop-none k zero m h = h
  find-drop-none k (suc n) [] h = refl
  find-drop-none k (suc n) ((i, w) ∷ m) h = find-drop-none k n m (ground arith)

  pub find-append_self :
      (k : K) (v : V) (m : List (K × V)) → find k m ≡ none → find k (m ++ (k, v) ∷ []) ≡ some v
  unfolding find
  find-append_self k v [] h = ground arith
  find-append_self k v ((i, w) ∷ m) h = ground (arith, find-append_self k v m)

  pub find-erase_self : (k : K) (m : List (K × V)) → IsDistinct m → find k (erase k m) ≡ none
  unfolding find erase
  find-erase_self k [] d = refl
  find-erase_self k ((i, w) ∷ m) d = ground (arith, find-erase_self k m d.1)

  pub find-erase_ne : (j k : K) (m : List (K × V)) → k ≢ j → find j (erase k m) ≡ find j m
  unfolding find erase
  find-erase_ne j k [] h = refl
  find-erase_ne j k ((i, w) ∷ m) h = ground (arith, find-erase_ne j k m h)

  pub find-drop_last-none :
      (k : K) (m : List (K × V)) → find k m ≡ none → find k (drop_last m) ≡ none
  unfolding find
  find-drop_last-none k [] h = refl
  find-drop_last-none k (x ∷ []) h = refl
  find-drop_last-none k ((i, w) ∷ y ∷ m) h = ground (arith, find-drop_last-none k (y ∷ m))
