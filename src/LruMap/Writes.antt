-- ===== src/LruMap/Writes.antt =====
-- `vacate` and `put`, LruMap/lurmap.h.

use tools_demo.Base.{
  ℕ, zero, suc, ◌≡◌, refl, subst, ◌∙◌, inl, inr, List, [], ◌∷◌, ◌++◌, none, some, arith, length,
  drop, Bool-cases, Option-cases, leb, if◌then◌else◌, ℕ_discrete,
}
use tools_demo.Base.Int.{ℤ, ◌+ℤ◌}
use tools_demo.Base.Dict.{
  find, erase, find-cons, erase-cons, find-erase-none, find-assign, find-erase, erase-assign,
  find-append_one,
}
use tools_demo.Base.Linked.{table, keyed-append, splice_back, find_above}
use tools_demo.LruMap.Defs.{Node, LruMap, size, put, vacate, vacate_loop, push_back}
use tools_demo.LruMap.Invariant.{
  Coherent, IsCoherent, node_at, erase-Coherent, push-Coherent, splice-Coherent,
}
use tools_demo.LruMap.Spec
use tools_demo.LruMap.Spec.{Entries}
use tools_demo.LruMap.View.{
  payload, view, Yields, length-entries, entries-drop, find-entries_none, find-entries,
  entries-erase,
}

module _ {K V : Type 0} (dec : Discrete K) where
  pub vacate_loop-Coherent :
      (n fresh : ℕ) (index : List (K × ℕ)) (nodes : List (ℕ × Node K V))
      → Coherent dec fresh index nodes
      → Coherent dec fresh (vacate_loop dec n index nodes).0 (vacate_loop dec n index nodes).1
        × ((vacate_loop dec n index nodes).1 ≡ drop n nodes)
  unfolding vacate_loop find erase
  vacate_loop-Coherent zero fresh index nodes c = (c, refl)
  vacate_loop-Coherent (suc n) fresh index [] c = (c, refl)
  vacate_loop-Coherent (suc n) fresh index ((it, node) ∷ nodes) c =
      vacate_loop-Coherent n fresh (erase dec node.key index) nodes (
        subst (Coherent dec fresh (erase dec node.key index)) (erase-cons ℕ_discrete it node nodes)
          (erase-Coherent dec c node.key it
            (c.indexed node.key ∙ find-cons dec node.key it (table dec Node.key nodes))))

  vacate_loop_absent :
      (n : ℕ) (k : K) (index : List (K × ℕ)) (nodes : List (ℕ × Node K V))
      → find dec k index ≡ none
      → find dec k (vacate_loop dec n index nodes).0 ≡ none
  unfolding vacate_loop
  vacate_loop_absent zero k index nodes h = h
  vacate_loop_absent (suc n) k index [] h = h
  vacate_loop_absent (suc n) k index ((it, node) ∷ nodes) h =
      vacate_loop_absent n k (erase dec node.key index) nodes
        (find-erase-none dec k node.key index h)

  -- Room is made before a new key is put in.
  abbrev roomy : LruMap K V → LruMap K V
  roomy s = if leb s.capacity (size dec s) then vacate dec 16 s else s

  roomy-Coherent :
      (s : LruMap K V)
      → IsCoherent dec s
      → IsCoherent dec (roomy s)
        × (view dec (roomy s)
            ≡ (if leb s.capacity (length (view dec s)) then drop 16 (view dec s) else view dec s))
        × ((k : K) → find dec k s.index ≡ none → find dec k (roomy s).index ≡ none)
  unfolding size vacate
  roomy-Coherent s c =
      let (kept, dropped) = vacate_loop-Coherent 16 s.fresh s.index s.nodelist c in
      let n = length-entries dec s.nodelist in
      elim (Bool-cases (leb s.capacity (length s.index))) [
        | inl full ↦ (
          rw full kept,
          ground (arith, full, dropped, c.sized, n, entries-drop dec 16 s.nodelist),
          λ k h. rw full (vacate_loop_absent 16 k s.index s.nodelist h),
        )
        | inr free ↦ (rw free c, ground (arith, free, c.sized, n), λ k h. rw free h)
      ]

  -- The new node of `put`.
  push_back-Yields :
      (now : ℤ) (k : K) (v : V) (seconds : ℤ) (s : LruMap K V)
      → IsCoherent dec s
      → find dec k s.index ≡ none
      → Yields dec
          (some (push_back dec now k v seconds s))
          s.capacity
          (view dec s ++ (k, (v, seconds +ℤ now)) ∷ [])
          (some (v, seconds +ℤ now))
  unfolding push_back
  push_back-Yields now k v seconds s c h =
      let node : Node K V = record { key = k; value = v; expiration = seconds +ℤ now } in
      record {
        state = (push_back dec now k v seconds s).0;
        iterator = some s.fresh;
        returned = refl;
        coherent = push-Coherent dec c node h;
        capped = refl;
        viewed = keyed-append dec Node.key payload s.nodelist ((s.fresh, node) ∷ []);
        reads = ground (
          arith,
          find-append_one ℕ_discrete s.fresh s.fresh node s.nodelist,
          find_above s.fresh s.fresh s.nodelist c.below,
        );
      }

  -- `put` of a coherent map stores the value under the key, to expire `seconds` after `now`, at the
  -- end of the list of entries; for a new key in a full map it first drops the sixteen oldest
  -- entries. It returns an iterator to the entry.
  pub put-Yields :
      (now : ℤ) (k : K) (v : V) (seconds : ℤ) (s : LruMap K V)
      → IsCoherent dec s
      → Yields dec
          (put dec now k v seconds s)
          s.capacity
          (Spec.put dec s.capacity now k v seconds (view dec s))
          (some (v, seconds +ℤ now))
  unfolding put splice_back Spec.put Spec.touch
  put-Yields now k v seconds s c = elim (Option-cases (find dec k s.index)) [
    | inl miss ↦
        let (kept, seen, absent) = roomy-Coherent s c in
        let y = push_back-Yields now k v seconds (roomy s) kept (absent k miss) in
        record {
          state = y.state;
          iterator = y.iterator;
          returned = ground (arith, miss, y.returned);
          coherent = y.coherent;
          capped = ground (arith, y.capped);
          viewed = ground (arith, y.viewed, seen, find-entries_none dec k s c miss);
          reads = y.reads;
        }
    | inr (it, hit) ↦
        let (node, found, same) = node_at dec c k it hit in
        let node' : Node K V = record node { value = v; expiration = seconds +ℤ now } in
        let seen = find-entries dec k it node s c hit found in
        let less = entries-erase dec k it s c hit in
        let nodes = erase ℕ_discrete it s.nodelist in
        record {
          state = record s { nodelist = nodes ++ (it, node') ∷ [] };
          iterator = some it;
          returned = ground (
            arith,
            hit,
            found,
            find-assign ℕ_discrete it it node' s.nodelist,
            erase-assign ℕ_discrete it node' s.nodelist {w = node},
          );
          coherent = splice-Coherent dec c k it node' hit same;
          capped = refl;
          viewed =
              ground (
                arith,
                seen,
                less,
                same,
                keyed-append dec Node.key payload nodes ((it, node') ∷ []),
              );
          reads = ground (
            arith,
            find-append_one ℕ_discrete it it node' nodes,
            find-erase ℕ_discrete it it s.nodelist c.addresses,
          );
        }
  ]
