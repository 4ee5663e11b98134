-- ===== src/LruMap/Invariant.antt =====
-- The index and the list of an `LruMap` hold the same keys, and stay so.
use tools_demo.Base.{
  ℕ, ◌+◌, ◌≡◌, List, [], ◌∷◌, ◌++◌, none, some, arith, length, length-append, ℕ_discrete,
}
use tools_demo.Base.Dict.{
  find, emplace, erase, IsDistinct, find-append_one, find-emplace, find-erase, append-IsDistinct,
  emplace-IsDistinct, erase-IsDistinct, length-erase, length-emplace_new,
}
use tools_demo.Base.Linked.{
  AllBelow, AllBelow-append, AllBelow-erase, AllBelow-mono, below_of_find, find_above, table,
  keyed-append, keyed-erase, node_of_table,
}
use tools_demo.LruMap.Defs.{Node, LruMap}

module _ {K V : Type 0} (dec : Discrete K) where
  -- over the fields, for the loops
  pub record Coherent (fresh : ℕ) (index : List (K × ℕ)) (nodes : List (ℕ × Node K V))
      : Type 0 where
    pub indexed : (k : K) → find dec k index ≡ find dec k (table dec Node.key nodes)
    pub distinct : IsDistinct dec (table dec Node.key nodes)
    pub addresses : IsDistinct ℕ_discrete nodes
    pub below : AllBelow fresh nodes
    pub sized : length index ≡ length nodes
    pub index_distinct : IsDistinct dec index

  abbrev pub IsCoherent : LruMap K V → Type 0
  IsCoherent s = Coherent s.fresh s.index s.nodelist

  module _ {fresh : ℕ} {index : List (K × ℕ)} {nodes : List (ℕ × Node K V)}
      (c : Coherent fresh index nodes) where
    pub node_at :
        (k : K) (it : ℕ)
        → find dec k index ≡ some it
        → (node : Node K V) × (find ℕ_discrete it nodes ≡ some node) × (node.key ≡ k)
    node_at k it h = node_of_table dec Node.key k it nodes c.addresses (ground (arith, c.indexed k))

    pub erase-Coherent :
        (k : K) (it : ℕ)
        → find dec k index ≡ some it
        → Coherent fresh (erase dec k index) (erase ℕ_discrete it nodes)
    erase-Coherent k it h =
        let at : find dec k (table dec Node.key nodes) ≡ some it = ground (arith, c.indexed k) in
        let same = keyed-erase dec Node.key (λ i _. i) k it nodes c.addresses at in
        let (node, found, _) = node_at k it h in
        record {
          indexed = λ j. ground (
            arith,
            same,
            c.indexed j,
            find-erase dec j k index c.index_distinct,
            find-erase dec j k (table dec Node.key nodes) c.distinct,
          );
          distinct = rw same (erase-IsDistinct dec k _ c.distinct);
          addresses = erase-IsDistinct ℕ_discrete it nodes c.addresses;
          below = AllBelow-erase fresh it nodes c.below;
          sized =
              omega (
                arith,
                c.sized,
                length-erase dec k index h,
                length-erase ℕ_discrete it nodes found,
              );
          index_distinct = erase-IsDistinct dec k index c.index_distinct;
        }

    pub push-Coherent :
        (node : Node K V)
        → find dec node.key index ≡ none
        → Coherent (fresh + 1) (emplace dec node.key fresh index) (nodes ++ (fresh, node) ∷ [])
    push-Coherent node h =
        let grown = keyed-append dec Node.key (λ i _. i) nodes ((fresh, node) ∷ []) in
        record {
          indexed = λ j. ground (
            arith,
            grown,
            c.indexed j,
            find-emplace dec j node.key fresh index,
            find-append_one dec j node.key fresh (table dec Node.key nodes),
          );
          distinct = rw grown (
              append-IsDistinct dec node.key fresh _ (ground (arith, c.indexed node.key))
                c.distinct);
          addresses =
              append-IsDistinct ℕ_discrete fresh node nodes
                (find_above fresh fresh nodes c.below (omega arith)) c.addresses;
          below =
              AllBelow-append (fresh + 1) nodes ((fresh, node) ∷ [])
                (AllBelow-mono fresh (fresh + 1) nodes (omega arith) c.below) (omega arith, tt);
          sized = omega (
            arith,
            c.sized,
            length-emplace_new dec node.key fresh index h,
            length-append nodes ((fresh, node) ∷ []),
          );
          index_distinct = emplace-IsDistinct dec node.key fresh index c.index_distinct;
        }

    -- A node that moves to the end, its value changed or not.
    pub splice-Coherent :
        (k : K) (it : ℕ) (node : Node K V)
        → find dec k index ≡ some it
        → node.key ≡ k
        → Coherent fresh index (erase ℕ_discrete it nodes ++ (it, node) ∷ [])
    splice-Coherent k it node h same =
        let at : find dec k (table dec Node.key nodes) ≡ some it = ground (arith, c.indexed k) in
        let less = keyed-erase dec Node.key (λ i _. i) k it nodes c.addresses at in
        let grown =
          keyed-append dec Node.key (λ i _. i) (erase ℕ_discrete it nodes) ((it, node) ∷ []) in
        let (old, found, _) = node_at k it h in
        let moved : IsDistinct dec (erase dec k (table dec Node.key nodes) ++ (k, it) ∷ []) =
          append-IsDistinct dec k it _ (ground (arith, find-erase dec k k _ c.distinct))
            (erase-IsDistinct dec k _ c.distinct) in
        record {
          indexed = λ j. ground (
            arith,
            less,
            grown,
            c.indexed j,
            find-erase dec j k (table dec Node.key nodes) c.distinct,
            find-append_one dec j k it (erase dec k (table dec Node.key nodes)),
          );
          distinct = rw (grown, less, same) moved;
          addresses =
              append-IsDistinct ℕ_discrete it node _
                (ground (arith, find-erase ℕ_discrete it it nodes c.addresses))
                (erase-IsDistinct ℕ_discrete it nodes c.addresses);
          below =
              AllBelow-append fresh _ ((it, node) ∷ []) (AllBelow-erase fresh it nodes c.below)
                (below_of_find fresh it nodes c.below found, tt);
          sized = omega (
            arith,
            c.sized,
            length-erase ℕ_discrete it nodes found,
            length-append (erase ℕ_discrete it nodes) ((it, node) ∷ []),
          );
          index_distinct = c.index_distinct;
        }
