-- ===== src/LruMap/Reads.antt =====
-- `get` and `erase`, LruMap/lurmap.h.

use tools_demo.Base.{
  ℕ, ◌≡◌, refl, Bool, ◌&&◌, inl, inr, [], ◌∷◌, ◌++◌, none, some, arith, Bool-cases, Option-cases,
  ℕ_discrete,
}
use tools_demo.Base.Int.{ℤ, ltb_ℤ}
use tools_demo.Base.Dict.{find, erase, erase_absent, find-erase, find-append_one}
use tools_demo.Base.Linked.{keyed-append, splice_back}
use tools_demo.LruMap.Defs.{Node, LruMap, get, erase_key, erase_at}
use tools_demo.LruMap.Invariant.{IsCoherent, node_at, erase-Coherent, splice-Coherent}
use tools_demo.LruMap.Spec
use tools_demo.LruMap.Spec.{Entries}
use tools_demo.LruMap.View.{payload, view, Yields, find-entries_none, find-entries, entries-erase}

module _ {K V : Type 0} (dec : Discrete K) where
  -- `get` of a coherent map returns what the list of entries has for the key, moves it to the
  -- end, and drops it instead if it has expired and `erasing_expired` is set.
  pub get-Yields :
      (now : ℤ) (k : K) (erasing_expired : Bool) (s : LruMap K V)
      → IsCoherent dec s
      → Yields dec
          (get dec now k erasing_expired s)
          s.capacity
          (Spec.get dec now k erasing_expired (view dec s)).0
          (Spec.get dec now k erasing_expired (view dec s)).1
  unfolding get erase_key splice_back Spec.get Spec.touch
  get-Yields now k exp s c = elim (Option-cases (find dec k s.index)) [
    | inl miss ↦ record {
      state = s;
      iterator = none;
      returned = ground (arith, miss);
      coherent = c;
      capped = refl;
      viewed = ground (arith, find-entries_none dec k s c miss);
      reads = ground (arith, find-entries_none dec k s c miss);
    }
    | inr (it, hit) ↦
        let (node, found, same) = node_at dec c k it hit in
        let seen = find-entries dec k it node s c hit found in
        let less = entries-erase dec k it s c hit in
        elim (Bool-cases (exp && ltb_ℤ node.expiration now)) [
          | inl old ↦ record {
            state = record s {
              nodelist = erase ℕ_discrete it s.nodelist;
              index = erase dec k s.index;
            };
            iterator = none;
            returned = ground (arith, hit, found, old);
            coherent = erase-Coherent dec c k it hit;
            capped = refl;
            viewed = ground (arith, seen, old, less);
            reads = ground (arith, seen, old);
          }
          | inr young ↦ record {
            state = record s { nodelist = erase ℕ_discrete it s.nodelist ++ (it, node) ∷ [] };
            iterator = some it;
            returned = ground (arith, hit, found, young);
            coherent = splice-Coherent dec c k it node hit same;
            capped = refl;
            viewed = ground (
              arith,
              seen,
              young,
              less,
              same,
              keyed-append dec Node.key payload (erase ℕ_discrete it s.nodelist) ((it, node) ∷ []),
            );
            reads = ground (
              arith,
              seen,
              young,
              find-append_one ℕ_discrete it it node (erase ℕ_discrete it s.nodelist),
              find-erase ℕ_discrete it it s.nodelist c.addresses,
            );
          }
        ]
  ]

  -- Erasing a key of a coherent map has a result, which is coherent and shows every entry but that
  -- of the key.
  pub erase_key_lem :
      (k : K) (s : LruMap K V)
      → IsCoherent dec s
      → (t : LruMap K V) × (erase_key dec k s ≡ some t)
        × IsCoherent dec t
        × (t.capacity ≡ s.capacity)
        × (view dec t ≡ erase dec k (view dec s))
  unfolding erase_key
  erase_key_lem k s c = elim (Option-cases (find dec k s.index)) [
    | inl miss ↦ (
      s,
      ground (arith, miss),
      c,
      refl,
      ground (arith, erase_absent dec k (view dec s) (find-entries_none dec k s c miss)),
    )
    | inr (it, hit) ↦
        let (node, found, same) = node_at dec c k it hit in
        (
          record s { nodelist = erase ℕ_discrete it s.nodelist; index = erase dec k s.index },
          ground (arith, hit, found),
          erase-Coherent dec c k it hit,
          refl,
          entries-erase dec k it s c hit,
        )
  ]

  -- Erasing through an iterator that `get` or `put` may have returned does the same for its key.
  pub erase_at_lem :
      (it : ℕ) (k : K) (s : LruMap K V)
      → IsCoherent dec s
      → find dec k s.index ≡ some it
      → erase_at dec it s ≡ erase_key dec k s
  unfolding erase_key erase_at
  erase_at_lem it k s c hit =
      let (node, found, same) = node_at dec c k it hit in ground (arith, hit, found, same)
