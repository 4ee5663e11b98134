-- ===== src/Base/Linked.antt =====
-- `std::list`: the nodes in order, each behind the address that an iterator to it holds, and the
-- table that an owner keeps from the key of a node to its address.
use mathlib.Core.List.{List, [], ◌∷◌, ◌++◌}
use mathlib.Core.Logic.{◌≢◌}
use mathlib.Core.Option
use mathlib.Core.Option.{Option, none, some}
use mathlib.Core.Path.{◌≡◌, refl}
use Prim.Native.Nat.{ℕ, ◌≤◌, ◌<◌}
use native.Mathlib.Decide.{ℕ_discrete}
use native.Mathlib.Omega.{arith}
use tools_demo.Base.Lists.{last?, drop_last}
use tools_demo.Base.Dict.{find, erase, IsDistinct}

module _ {A : Type 0} where
  -- `l.splice(l.end(), l, it)`: the node moves to the end and keeps its address. An iterator to no
  -- node is a fault.
  unfoldable pub splice_back : ℕ → List (ℕ × A) → Option (List (ℕ × A))
  splice_back it l = Option.map (λ a. erase ℕ_discrete it l ++ (it, a) ∷ []) (find ℕ_discrete it l)

  -- Every address is below the one that the next node gets.
  abbrev pub AllBelow : ℕ → List (ℕ × A) → Type 0
  AllBelow n [] = Unit
  AllBelow n ((i, a) ∷ l) = (i < n) × AllBelow n l

  pub AllBelow-append :
      (n : ℕ) (l m : List (ℕ × A)) → AllBelow n l → AllBelow n m → AllBelow n (l ++ m)
  AllBelow-append n [] m h k = k
  AllBelow-append n ((i, a) ∷ l) m h k = (h.0, AllBelow-append n l m h.1 k)

  pub AllBelow-erase :
      (n i : ℕ) (l : List (ℕ × A)) → AllBelow n l → AllBelow n (erase ℕ_discrete i l)
  unfolding erase
  AllBelow-erase n i [] h = tt
  AllBelow-erase n i ((j, a) ∷ l) h = ground (arith, AllBelow-erase n i l h.1)

  pub AllBelow-mono : (n m : ℕ) (l : List (ℕ × A)) → n ≤ m → AllBelow n l → AllBelow m l
  AllBelow-mono n m [] h k = tt
  AllBelow-mono n m ((i, a) ∷ l) h k = (omega arith, AllBelow-mono n m l h k.1)

  pub find_above : (n i : ℕ) (l : List (ℕ × A)) → AllBelow n l → n ≤ i → find ℕ_discrete i l ≡ none
  unfolding find
  find_above n i [] h k = refl
  find_above n i ((j, a) ∷ l) h k = ground (arith, find_above n i l h.1)

  pub below_of_find :
      (n i : ℕ) (l : List (ℕ × A)) {a : A} → AllBelow n l → find ℕ_discrete i l ≡ some a → i < n
  unfolding find
  below_of_find n i [] h k = absurd (cc)
  below_of_find n i ((j, b) ∷ l) {a} h k = ground (arith, below_of_find n i l {a = a} h.1)

module _ {K A B : Type 0} (dec : Discrete K) (key : A → K) (f : ℕ → A → B) where
  -- The nodes in order, by key.
  abbrev pub keyed : List (ℕ × A) → List (K × B)
  keyed [] = []
  keyed ((i, a) ∷ l) = (key a, f i a) ∷ keyed l

  pub keyed-append : (l m : List (ℕ × A)) → keyed (l ++ m) ≡ keyed l ++ keyed m
  keyed-append [] m = refl
  keyed-append ((i, a) ∷ l) m = rw (keyed-append l m)

module _ {K A : Type 0} (dec : Discrete K) (key : A → K) where
  -- From the key of a node to its address.
  abbrev pub table : List (ℕ × A) → List (K × ℕ)
  table l = keyed dec key (λ i _. i) l

  -- The table leads to the node that has the key.
  pub node_of_table :
      (k : K) (i : ℕ) (l : List (ℕ × A))
      → IsDistinct ℕ_discrete l
      → find dec k (table l) ≡ some i
      → (a : A) × (find ℕ_discrete i l ≡ some a) × (key a ≡ k)
  unfolding find
  node_of_table k i [] d h = absurd (cc)
  node_of_table k i ((j, a) ∷ l) d h = elim (dec (key a) k) [
    | yes p ↦ (a, ground arith, p)
    | no p ↦
        let (b, found, same) = node_of_table k i l d.1 (ground arith) in
        (b, ground (arith, found, d.0), same)
  ]

module _ {K A B : Type 0} (dec : Discrete K) (key : A → K) (f : ℕ → A → B) where
  -- To erase the node of a key is to erase the key.
  pub keyed-erase :
      (k : K) (i : ℕ) (l : List (ℕ × A))
      → IsDistinct ℕ_discrete l
      → find dec k (table dec key l) ≡ some i
      → keyed dec key f (erase ℕ_discrete i l) ≡ erase dec k (keyed dec key f l)
  unfolding find erase
  keyed-erase k i [] d h = refl
  keyed-erase k i ((j, a) ∷ l) d h =
      ground (arith, keyed-erase k i l d.1, node_of_table dec key k i l d.1)

  pub find-keyed-none :
      (k : K) (l : List (ℕ × A))
      → find dec k (table dec key l) ≡ none
      → find dec k (keyed dec key f l) ≡ none
  unfolding find
  find-keyed-none k [] h = refl
  find-keyed-none k ((j, a) ∷ l) h = ground (arith, find-keyed-none k l)

  pub find-keyed :
      (k : K) (i : ℕ) (a : A) (l : List (ℕ × A))
      → IsDistinct ℕ_discrete l
      → find dec k (table dec key l) ≡ some i
      → find ℕ_discrete i l ≡ some a
      → find dec k (keyed dec key f l) ≡ some (f i a)
  unfolding find
  find-keyed k i a [] d h e = absurd (cc)
  find-keyed k i a ((j, b) ∷ l) d h e =
      ground (arith, find-keyed k i a l d.1, node_of_table dec key k i l d.1)

  pub keyed-IsDistinct :
      (l : List (ℕ × A)) → IsDistinct dec (table dec key l) → IsDistinct dec (keyed dec key f l)
  keyed-IsDistinct [] d = tt
  keyed-IsDistinct ((j, a) ∷ l) d = (find-keyed-none (key a) l d.0, keyed-IsDistinct l d.1)

module _ {K A : Type 0} (dec : Discrete K) (key : A → K) where
  in_table :
      (i : ℕ) (a : A) (l : List (ℕ × A))
      → last? l ≡ some (i, a)
      → find dec (key a) (table dec key l) ≢ none
  unfolding find
  in_table i a [] e = cc
  in_table i a ((j, b) ∷ []) e = ground arith
  in_table i a ((j, b) ∷ y ∷ l) e = ground (arith, in_table i a (y ∷ l) e)

  -- The table leads to the last node by its key.
  pub table_last :
      (i : ℕ) (a : A) (l : List (ℕ × A))
      → IsDistinct dec (table dec key l)
      → last? l ≡ some (i, a)
      → find dec (key a) (table dec key l) ≡ some i
  unfolding find
  table_last i a [] d e = absurd (cc)
  table_last i a ((j, b) ∷ []) d e = ground arith
  table_last i a ((j, b) ∷ y ∷ l) d e =
      ground (arith, table_last i a (y ∷ l) d.1 e, in_table i a (y ∷ l) e)

module _ {A : Type 0} where
  last-mem : (i : ℕ) (a : A) (l : List (ℕ × A)) → last? l ≡ some (i, a) → find ℕ_discrete i l ≢ none
  unfolding find
  last-mem i a [] e = cc
  last-mem i a ((j, b) ∷ []) e = ground arith
  last-mem i a ((j, b) ∷ y ∷ l) e = ground (arith, last-mem i a (y ∷ l) e)

  -- To erase the last node is to drop it.
  pub erase_last :
      (i : ℕ) (a : A) (l : List (ℕ × A))
      → IsDistinct ℕ_discrete l
      → last? l ≡ some (i, a)
      → erase ℕ_discrete i l ≡ drop_last l
  unfolding erase find
  erase_last i a [] d e = refl
  erase_last i a ((j, b) ∷ []) d e = ground arith
  erase_last i a ((j, b) ∷ y ∷ l) d e =
      ground (arith, erase_last i a (y ∷ l) d.1 e, last-mem i a (y ∷ l) e)
