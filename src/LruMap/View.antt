-- ===== src/LruMap/View.antt =====
-- An `LruMap` seen as the list of its entries, and what a call on it yields.
use mathlib.Core.Option
use tools_demo.Base.{
  ℕ, zero, suc, ◌≡◌, refl, List, [], ◌∷◌, Option, none, some, arith, length, drop, ℕ_discrete,
}
use tools_demo.Base.Int.{ℤ}
use tools_demo.Base.Dict.{find, erase}
use tools_demo.Base.Linked.{keyed, keyed-erase, find-keyed, find-keyed-none}
use tools_demo.LruMap.Defs.{Node, LruMap, Iterator, Outcome}
use tools_demo.LruMap.Invariant.{IsCoherent}
use tools_demo.LruMap.Spec.{Entries}

abbrev pub payload : {K V : Type 0} → ℕ → Node K V → V × ℤ
payload _ node = (node.value, node.expiration)

module _ {K V : Type 0} (dec : Discrete K) where
  abbrev pub entries : List (ℕ × Node K V) → Entries K V
  entries = keyed dec Node.key payload

  abbrev pub view : LruMap K V → Entries K V
  view s = entries s.nodelist

  -- the entry that an iterator shows
  abbrev pub shown : LruMap K V → Iterator → Option (V × ℤ)
  shown s none = none
  shown s (some it) = Option.map (payload it) (find ℕ_discrete it s.nodelist)

  -- The call has a result: a coherent map of capacity `cap` that shows `m`, and an iterator to `r`.
  pub record Yields (o : Outcome K V) (cap : ℕ) (m : Entries K V) (r : Option (V × ℤ))
      : Type 0 where
    pub state : LruMap K V
    pub iterator : Iterator
    pub returned : o ≡ some (state, iterator)
    pub coherent : IsCoherent dec state
    pub capped : state.capacity ≡ cap
    pub viewed : view state ≡ m
    pub reads : shown state iterator ≡ r

  pub length-entries : (nodes : List (ℕ × Node K V)) → length (entries nodes) ≡ length nodes
  length-entries [] = refl
  length-entries (x ∷ nodes) = omega (arith, length-entries nodes)

  pub entries-drop :
      (n : ℕ) (nodes : List (ℕ × Node K V)) → entries (drop n nodes) ≡ drop n (entries nodes)
  entries-drop zero nodes = refl
  entries-drop (suc n) [] = refl
  entries-drop (suc n) (x ∷ nodes) = entries-drop n nodes

  pub find-entries_none :
      (k : K) (s : LruMap K V)
      → IsCoherent dec s
      → find dec k s.index ≡ none
      → find dec k (view s) ≡ none
  find-entries_none k s c h =
      find-keyed-none dec Node.key payload k s.nodelist (ground (arith, c.indexed k))

  pub find-entries :
      (k : K) (it : ℕ) (node : Node K V) (s : LruMap K V)
      → IsCoherent dec s
      → find dec k s.index ≡ some it
      → find ℕ_discrete it s.nodelist ≡ some node
      → find dec k (view s) ≡ some (payload it node)
  find-entries k it node s c h e =
      find-keyed dec Node.key payload k it node s.nodelist c.addresses (ground (arith, c.indexed k))
        e

  pub entries-erase :
      (k : K) (it : ℕ) (s : LruMap K V)
      → IsCoherent dec s
      → find dec k s.index ≡ some it
      → entries (erase ℕ_discrete it s.nodelist) ≡ erase dec k (view s)
  entries-erase k it s c h =
      keyed-erase dec Node.key payload k it s.nodelist c.addresses (ground (arith, c.indexed k))
