-- ===== src/LruMap/Taking.antt =====
-- `erase(iterator)` of LruMap/lurmap.h, through the iterator that `get` has returned.
use tools_demo.Base.{
  ℕ, ◌≡◌, refl, Bool, ◌&&◌, inl, inr, none, some, arith, Bool-cases, Option-cases, ◌>>=◌,
}
use tools_demo.Base.Int.{ℤ, ltb_ℤ}
use tools_demo.Base.Dict.{find}
use tools_demo.Base.Linked.{splice_back}
use tools_demo.LruMap.Defs.{LruMap, Outcome, get, erase_key, erase_at}
use tools_demo.LruMap.Invariant.{IsCoherent, node_at}
use tools_demo.LruMap.Reads.{get-Yields, erase_key_lem, erase_at_lem}
use tools_demo.LruMap.Spec
use tools_demo.LruMap.View.{view, Yields}

module _ {K V : Type 0} (dec : Discrete K) where
  -- a caller's `it = map.get(key, erasing_expired)`, then `map.erase(it)` unless it is `end()`
  unfoldable pub take : ℤ → K → Bool → LruMap K V → Outcome K V
  take now k erasing_expired s = get dec now k erasing_expired s >>= λ r. elim r.1 [
    | none ↦ some (r.0, none)
    | some it ↦ erase_at dec it r.0 >>= λ t. some (t, none)
  ]

  -- The iterator that `get` returns is the one that the index has for the key.
  get-indexed :
      (now : ℤ) (k : K) (erasing_expired : Bool) (s t : LruMap K V) (it : ℕ)
      → IsCoherent dec s
      → get dec now k erasing_expired s ≡ some (t, some it)
      → find dec k t.index ≡ some it
  unfolding get erase_key splice_back
  get-indexed now k exp s t it c h = elim (Option-cases (find dec k s.index)) [
    | inl miss ↦ ground (arith, miss)
    | inr (at, hit) ↦
        let (node, found, _) = node_at dec c k at hit in
        elim (Bool-cases (exp && ltb_ℤ node.expiration now)) [
          | inl old ↦ ground (arith, hit, found, old)
          | inr young ↦ ground (arith, hit, found, young)
        ]
  ]

  -- Erasing what `get` of a coherent map has found leaves a coherent map without the entry.
  pub take-Yields :
      (now : ℤ) (k : K) (erasing_expired : Bool) (s : LruMap K V)
      → IsCoherent dec s
      → Yields dec
          (take now k erasing_expired s)
          s.capacity
          (Spec.take dec now k erasing_expired (view dec s))
          none
  unfolding take Spec.take
  take-Yields now k exp s c =
      let y = get-Yields dec now k exp s c in
      elim (Option-cases y.iterator) [
        | inl e ↦ record {
          state = y.state;
          iterator = none;
          returned = ground (arith, e, y.returned);
          coherent = y.coherent;
          capped = y.capped;
          viewed = ground (arith, e, y.viewed, y.reads);
          reads = refl;
        }
        | inr (it, e) ↦
            let hit : find dec k y.state.index ≡ some it =
              get-indexed now k exp s y.state it c (ground (arith, e, y.returned)) in
            let (node, found, _) = node_at dec y.coherent k it hit in
            let (t, done, kept, same, seen) = erase_key_lem dec k y.state y.coherent in
            record {
              state = t;
              iterator = none;
              returned =
                  ground (arith, e, y.returned, done, erase_at_lem dec it k y.state y.coherent hit);
              coherent = kept;
              capped = ground (arith, same, y.capped);
              viewed = ground (arith, e, found, y.viewed, y.reads, seen);
              reads = refl;
            }
      ]
