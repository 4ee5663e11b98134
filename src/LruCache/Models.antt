-- ===== src/LruCache/Models.antt =====
-- The map and the list of an `lru_cache` stand for one list of nodes that hold key and value.
use mathlib.Core.Option
use tools_demo.Base.{
  ℕ, ◌+◌, ◌≡◌, refl, ap, ◌∙◌, List, [], ◌∷◌, none, some, arith, length, ℕ_discrete, last?,
}
use tools_demo.Base.Dict.{
  find, find-cons_if, erase, IsDistinct, find-assign, find-erase, find-erase_self, find-erase-none,
  find-erase_ne, assign-IsDistinct, erase-IsDistinct, length-erase, length-assign_hit,
  length-assign_new,
}
use tools_demo.Base.Linked.{
  AllBelow, AllBelow-erase, AllBelow-mono, find_above, keyed, table, keyed-erase, node_of_table,
  table_last, keyed-IsDistinct,
}
use tools_demo.LruCache.Defs.{LruCache, push_front}

module _ {K V : Type 0} where
  -- the nodes of `m_list`, which do not hold the value
  abbrev pub stripped : List (ℕ × (K × V)) → List (ℕ × K)
  stripped [] = []
  stripped ((i, a) ∷ l) = (i, a.0) ∷ stripped l

  pub find-stripped :
      (i : ℕ) (l : List (ℕ × (K × V)))
      → find ℕ_discrete i (stripped l) ≡ Option.map (λ a. a.0) (find ℕ_discrete i l)
  unfolding find
  find-stripped i [] = refl
  find-stripped i ((j, a) ∷ l) = ground (arith, find-stripped i l)

  pub erase-stripped :
      (i : ℕ) (l : List (ℕ × (K × V)))
      → erase ℕ_discrete i (stripped l) ≡ stripped (erase ℕ_discrete i l)
  unfolding erase
  erase-stripped i [] = refl
  erase-stripped i ((j, a) ∷ l) = ground (arith, erase-stripped i l)

module _ {K V : Type 0} (dec : Discrete K) where
  abbrev pub key_of : K × V → K
  key_of a = a.0

  abbrev pub place_of : ℕ → K × V → V × ℕ
  place_of i a = (a.1, i)

  abbrev pub value_of : ℕ → K × V → V
  value_of i a = a.1

  -- what `m_map` holds for each key
  abbrev pub places : List (ℕ × (K × V)) → List (K × (V × ℕ))
  places = keyed dec key_of place_of

  abbrev pub entries : List (ℕ × (K × V)) → List (K × V)
  entries = keyed dec key_of value_of

  pub record Models (s : LruCache K V) (l : List (ℕ × (K × V))) : Type 0 where
    pub listed : s.list ≡ stripped l
    pub mapped : (k : K) → find dec k s.map ≡ find dec k (places l)
    pub map_distinct : IsDistinct dec s.map
    pub distinct : IsDistinct dec (table dec key_of l)
    pub addresses : IsDistinct ℕ_discrete l
    pub below : AllBelow s.fresh l
    pub sized : length s.map ≡ length l

  pub place_found :
      (k : K) (v : V) (i : ℕ) (l : List (ℕ × (K × V)))
      → find dec k (places l) ≡ some (v, i)
      → (find dec k (table dec key_of l) ≡ some i) × (find dec k (entries l) ≡ some v)
  unfolding find
  place_found k v i [] h = absurd (cc)
  place_found k v i ((j, a) ∷ l) h = ground (arith, place_found k v i l)

  place_of_table :
      (k : K) (i : ℕ) (l : List (ℕ × (K × V)))
      → find dec k (table dec key_of l) ≡ some i
      → (v : V) × (find dec k (places l) ≡ some (v, i))
  unfolding find
  place_of_table k i [] h = absurd (cc)
  place_of_table k i ((j, a) ∷ l) h = elim (dec a.0 k) [
    | yes p ↦ (a.1, ground arith)
    | no p ↦ let (v, e) = place_of_table k i l (ground arith) in (v, ground (arith, e))
  ]

  pub place_none :
      (k : K) (l : List (ℕ × (K × V)))
      → find dec k (places l) ≡ none
      → (find dec k (table dec key_of l) ≡ none) × (find dec k (entries l) ≡ none)
  unfolding find
  place_none k [] h = (refl, refl)
  place_none k ((j, a) ∷ l) h = ground (arith, place_none k l)

  pub length-entries : (l : List (ℕ × (K × V))) → length (entries l) ≡ length l
  length-entries [] = refl
  length-entries (a ∷ l) = omega (arith, length-entries l)

  module _ (s : LruCache K V) (l : List (ℕ × (K × V))) (m : Models s l) where
    pub push_front-Models :
        (k : K) (v : V)
        → find dec k s.map ≡ none
        → Models (push_front dec k v s) ((s.fresh, (k, v)) ∷ l)
    unfolding push_front
    push_front-Models k v h =
        let (untabled, _) = place_none k l (ground (arith, m.mapped k)) in
        record {
          listed = ap (◌∷◌ (s.fresh, k)) m.listed;
          mapped = λ j. ground (
            arith,
            m.mapped j,
            find-assign dec j k (v, s.fresh) s.map,
            find-cons_if dec j k (v, s.fresh) (places l),
          );
          map_distinct = assign-IsDistinct dec k (v, s.fresh) s.map m.map_distinct;
          distinct = (untabled, m.distinct);
          addresses = (find_above s.fresh s.fresh l m.below (omega arith), m.addresses);
          below = (omega arith, AllBelow-mono s.fresh (s.fresh + 1) l (omega arith) m.below);
          sized = omega (arith, m.sized, length-assign_new dec k (v, s.fresh) s.map h);
        }

    module _ (k : K) (v : V) (i : ℕ) (hit : find dec k s.map ≡ some (v, i)) where
      pub node_at : (a : K × V) × (find ℕ_discrete i l ≡ some a) × (a.0 ≡ k)
      node_at =
          node_of_table dec key_of k i l m.addresses
            (place_found k v i l (ground (arith, m.mapped k))).0

      -- The node of a key that is used again goes, and a new one comes at the front.
      pub renew-Models :
          Models
            (push_front dec k v (record s { list = erase ℕ_discrete i s.list }))
            ((s.fresh, (k, v)) ∷ erase ℕ_discrete i l)
      unfolding push_front
      renew-Models =
          let (tabled, _) = place_found k v i l (ground (arith, m.mapped k)) in
          let less = keyed-erase dec key_of place_of k i l m.addresses tabled in
          let untabled = keyed-erase dec key_of (λ i _. i) k i l m.addresses tabled in
          let (a, found, _) = node_at in
          record {
            listed = ground (arith, m.listed, erase-stripped i l);
            mapped = λ j. ground (
              arith,
              m.mapped j,
              less,
              find-assign dec j k (v, s.fresh) s.map,
              find-cons_if dec j k (v, s.fresh) (erase dec k (places l)),
              find-erase_ne dec j k (places l),
            );
            map_distinct = assign-IsDistinct dec k (v, s.fresh) s.map m.map_distinct;
            distinct = (
              rw untabled (find-erase_self dec k (table dec key_of l) m.distinct),
              rw untabled (erase-IsDistinct dec k (table dec key_of l) m.distinct),
            );
            addresses = (
              find-erase-none ℕ_discrete s.fresh i l
                  (find_above s.fresh s.fresh l m.below (omega arith)),
              erase-IsDistinct ℕ_discrete i l m.addresses,
            );
            below = (
              omega arith,
              AllBelow-mono s.fresh (s.fresh + 1) (erase ℕ_discrete i l) (omega arith)
                  (AllBelow-erase s.fresh i l m.below),
            );
            sized = omega (
              arith,
              m.sized,
              length-assign_hit dec k (v, s.fresh) s.map hit,
              length-erase ℕ_discrete i l found,
            );
          }

    -- The last node goes.
    pub evict-Models :
        (i : ℕ) (a : K × V)
        → last? l ≡ some (i, a)
        → Models
            (record s { map = erase dec a.0 s.map; list = erase ℕ_discrete i s.list })
            (erase ℕ_discrete i l)
    evict-Models i a e =
        let tabled = table_last dec key_of i a l m.distinct e in
        let less = keyed-erase dec key_of place_of a.0 i l m.addresses tabled in
        let untabled = keyed-erase dec key_of (λ i _. i) a.0 i l m.addresses tabled in
        let (b, found, _) = node_of_table dec key_of a.0 i l m.addresses tabled in
        let (v, placed) = place_of_table a.0 i l tabled in
        record {
          listed = ground (arith, m.listed, erase-stripped i l);
          mapped = λ j. ground (
            arith,
            m.mapped j,
            less,
            find-erase dec j a.0 s.map m.map_distinct,
            find-erase_ne dec j a.0 (places l),
            find-erase dec j a.0 (places l) (keyed-IsDistinct dec key_of place_of l m.distinct),
          );
          map_distinct = erase-IsDistinct dec a.0 s.map m.map_distinct;
          distinct = rw untabled (erase-IsDistinct dec a.0 (table dec key_of l) m.distinct);
          addresses = erase-IsDistinct ℕ_discrete i l m.addresses;
          below = AllBelow-erase s.fresh i l m.below;
          sized = omega (
            arith,
            m.sized,
            length-erase dec a.0 s.map (m.mapped a.0 ∙ placed),
            length-erase ℕ_discrete i l found,
          );
        }
