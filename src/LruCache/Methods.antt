-- ===== src/LruCache/Methods.antt =====
-- Each method of `lru_cache` does to its nodes what the specification does to the entries.
use tools_demo.Base.{
  ℕ, ◌<◌, ◌≡◌, refl, sym, ap, ◌∙◌, inl, inr, List, [], ◌∷◌, none, some, arith, length, last?,
  drop_last, ℕ_discrete, Bool-cases, Option-cases, leb, true,
}
use tools_demo.Base.Dict.{find, erase, IsDistinct, find-drop_last-none}
use tools_demo.Base.Linked.{keyed-erase, erase_last, node_of_table}
use tools_demo.LruCache.Defs.{LruCache, is_begin, size, evict, push_front, insert, get}
use tools_demo.LruCache.Models.{
  stripped, find-stripped, key_of, value_of, places, entries, Models, place_found, place_none,
  length-entries, push_front-Models, node_at, renew-Models, evict-Models,
}
use tools_demo.LruCache.Spec

module _ {K V : Type 0} (dec : Discrete K) where
  -- The cache has capacity `cap` and stands for the entries `m`.
  pub record Shows (s : LruCache K V) (cap : ℕ) (m : List (K × V)) : Type 0 where
    pub nodes : List (ℕ × (K × V))
    pub models : Models dec s nodes
    pub capped : s.capacity ≡ cap
    pub viewed : entries dec nodes ≡ m

  entries-drop_last :
      (l : List (ℕ × (K × V))) → entries dec (drop_last l) ≡ drop_last (entries dec l)
  entries-drop_last [] = refl
  entries-drop_last (a ∷ []) = refl
  entries-drop_last (a ∷ b ∷ l) = ap (◌∷◌ (a.1.0, a.1.1)) (entries-drop_last (b ∷ l))

  last_of_pos :
      (l : List (ℕ × (K × V)))
      → 0 < length l
      → (i : ℕ) × (a : K × V) × (last? l ≡ some (i, a)) × (last? (stripped l) ≡ some (i, a.0))
  last_of_pos [] h = absurd (omega arith)
  last_of_pos ((i, a) ∷ []) h = (i, a, refl, refl)
  last_of_pos (x ∷ y ∷ l) h = last_of_pos (y ∷ l) (omega arith)

  -- `evict` of a cache that is not empty drops the last entry.
  pub evict_lem :
      (s : LruCache K V) (cap : ℕ) (m : List (K × V))
      → Shows s cap m
      → 0 < length m
      → (t : LruCache K V) × (evict dec s ≡ some t) × Shows t cap (drop_last m)
  unfolding evict
  evict_lem s cap m v h =
      let l = v.nodes in
      let n : 0 < length l = ground (arith, length-entries dec l, v.viewed) in
      let (i, a, e, e') = last_of_pos l n in
      (
        record s { map = erase dec a.0 s.map; list = erase ℕ_discrete i s.list },
        ground (arith, v.models.listed, e'),
        record {
          nodes = erase ℕ_discrete i l;
          models = evict-Models dec s l v.models i a e;
          capped = v.capped;
          viewed =
              rw (erase_last i a l v.models.addresses e)
                (entries-drop_last l ∙ ap drop_last v.viewed);
        },
      )

  absent :
      (k : K) (s : LruCache K V) (cap : ℕ) (m : List (K × V))
      → Shows s cap m
      → find dec k m ≡ none
      → find dec k s.map ≡ none
  absent k s cap m v h = elim (Option-cases (find dec k (places dec v.nodes))) [
    | inl e ↦ v.models.mapped k ∙ e
    | inr (p, e) ↦ absurd (ground (arith, v.viewed, (place_found dec k p.0 p.1 v.nodes e).1))
  ]

  push_front-Shows :
      (k : K) (x : V) (s : LruCache K V) (cap : ℕ) (m : List (K × V))
      → Shows s cap m
      → find dec k s.map ≡ none
      → Shows (push_front dec k x s) cap ((k, x) ∷ m)
  unfolding push_front
  push_front-Shows k x s cap m v h = record {
    nodes = (s.fresh, (k, x)) ∷ v.nodes;
    models = push_front-Models dec s v.nodes v.models k x h;
    capped = v.capped;
    viewed = ap (◌∷◌ (k, x)) v.viewed;
  }

  -- `insert` into a cache of positive capacity has a result, and does what the specification does.
  pub insert-Shows :
      (k : K) (x : V) (s : LruCache K V) (cap : ℕ) (m : List (K × V))
      → Shows s cap m
      → 0 < cap
      → (t : LruCache K V) × (insert dec k x s ≡ some t) × Shows t cap (Spec.insert dec cap k x m)
  unfolding insert size Spec.insert
  insert-Shows k x s cap m v h = elim (Option-cases (find dec k s.map)) [
    | inl new ↦
        let unseen : find dec k m ≡ none =
          ap (find dec k) (sym v.viewed)
          ∙ (place_none dec k v.nodes (sym (v.models.mapped k) ∙ new)).1 in
        let n : length s.map ≡ length m =
          v.models.sized ∙ sym (length-entries dec v.nodes) ∙ ap length v.viewed in
        elim (Bool-cases (leb cap (length m))) [
          | inl full ↦
              let (t, gone, u) = evict_lem s cap m v (ground arith) in
              let w =
                push_front-Shows k x t cap (drop_last m) u
                  (absent k t cap (drop_last m) u (find-drop_last-none dec k m unseen)) in
              (
                push_front dec k x t,
                ground (arith, new, v.capped, n, full, gone),
                ground (arith, unseen, full, w),
              )
          | inr free ↦
              let w = push_front-Shows k x s cap m v new in
              (
                push_front dec k x s,
                ground (arith, new, v.capped, n, free),
                ground (arith, unseen, free, w),
              )
        ]
    | inr ((y, i), old) ↦
        let seen : find dec k m ≡ some y =
          ap (find dec k) (sym v.viewed)
          ∙ (place_found dec k y i v.nodes (sym (v.models.mapped k) ∙ old)).1 in
        (s, ground (arith, old), ground (arith, seen, v))
  ]

  -- The entry that stands first comes first again.
  begin_first :
      (k : K) (x : V) (j : ℕ) (l : List (ℕ × (K × V)))
      → IsDistinct ℕ_discrete l
      → find dec k (places dec l) ≡ some (x, j)
      → is_begin j (stripped l) ≡ true
      → (k, x) ∷ erase dec k (entries dec l) ≡ entries dec l
  unfolding find erase
  begin_first k x j [] d h b = absurd (cc)
  begin_first k x j ((i, a) ∷ l) d h b = elim (dec a.0 k) [
    | yes p ↦ ground arith
    | no p ↦
        let e : find dec k (places dec l) ≡ some (x, j) = ground arith in
        let (_, found, _) =
          node_of_table dec (key_of dec) k j l d.1 (place_found dec k x j l e).0 in
        absurd (ground (arith, found))
  ]

  -- `get` has a result: the value that the entries have for the key, which comes first in them.
  pub get-Shows :
      (k : K) (s : LruCache K V) (cap : ℕ) (m : List (K × V))
      → Shows s cap m
      → (t : LruCache K V) × (get dec k s ≡ some (t, (Spec.get dec k m).1))
        × Shows t cap (Spec.get dec k m).0
  unfolding get Spec.get
  get-Shows k s cap m v = elim (Option-cases (find dec k s.map)) [
    | inl miss ↦
        let unseen : find dec k m ≡ none =
          ap (find dec k) (sym v.viewed)
          ∙ (place_none dec k v.nodes (sym (v.models.mapped k) ∙ miss)).1 in
        (s, ground (arith, miss, unseen), ground (arith, unseen, v))
    | inr ((x, j), hit) ↦
        let l = v.nodes in
        let placed : find dec k (places dec l) ≡ some (x, j) = sym (v.models.mapped k) ∙ hit in
        let (tabled, entered) = place_found dec k x j l placed in
        let seen : find dec k m ≡ some x = ap (find dec k) (sym v.viewed) ∙ entered in
        elim (Bool-cases (is_begin j s.list)) [
          | inl first ↦
              let first' : is_begin j (stripped l) ≡ true =
                ap (is_begin j) (sym v.models.listed) ∙ first in
              let same = begin_first k x j l v.models.addresses placed first' in
              (
                s,
                ground (arith, hit, first, seen),
                record {
                  nodes = l;
                  models = v.models;
                  capped = v.capped;
                  viewed = ground (arith, seen, same, v.viewed);
                },
              )
          | inr later ↦
              let (a, found, _) = node_at dec s l v.models k x j hit in
              (
                push_front dec k x (record s { list = erase ℕ_discrete j s.list }),
                ground (arith, hit, later, seen, v.models.listed, find-stripped j l, found),
                record {
                  nodes = (s.fresh, (k, x)) ∷ erase ℕ_discrete j l;
                  models = renew-Models dec s l v.models k x j hit;
                  capped = v.capped;
                  viewed = ground (
                    arith,
                    seen,
                    keyed-erase dec (key_of dec) (value_of dec) k j l v.models.addresses tabled,
                    v.viewed,
                  );
                },
              )
        ]
  ]
