-- ===== src/LruMap/Limits.antt =====
-- How large an `LruMap` grows, and what a `get` sees of a `put`.
use tools_demo.Base.{
  ℕ, ◌≤◌, ◌<◌, ◌≡◌, ap, ◌∙◌, max, Bool, none, some, [], ◌∷◌, ◌++◌, arith, length, drop,
  length-append, length-drop, Option-cases, Bool-cases, inl, inr, leb, true, false, if◌then◌else◌,
}
use tools_demo.Base.Int.{ℤ, ◌+ℤ◌, ltb_ℤ}
use tools_demo.Base.Dict.{
  find, erase, IsDistinct, find-drop-none, find-append_self, find-erase_self, length-erase,
}
use tools_demo.Base.Linked.{keyed-IsDistinct}
use tools_demo.LruMap.Defs.{Node, LruMap, Iterator, get, put, size}
use tools_demo.LruMap.Invariant.{IsCoherent}
use tools_demo.LruMap.View.{payload, view, shown, length-entries}
use tools_demo.LruMap.Reads.{get-Yields}
use tools_demo.LruMap.Writes.{put-Yields}
use tools_demo.LruMap.Spec
use tools_demo.LruMap.Spec.{Entries}

module _ {K V : Type 0} (dec : Discrete K) where
  ideal_put-length :
      (cap : ℕ) (now : ℤ) (k : K) (v : V) (seconds : ℤ) (m : Entries K V)
      → length m ≤ max 1 cap
      → (0 < length (Spec.put dec cap now k v seconds m))
        × (length (Spec.put dec cap now k v seconds m) ≤ max 1 cap)
  unfolding Spec.put Spec.touch
  ideal_put-length cap now k v seconds m h = elim (Option-cases (find dec k m)) [
    | inl new ↦ ground (
      arith,
      new,
      length-append m ((k, (v, seconds +ℤ now)) ∷ []),
      length-append (drop 16 m) ((k, (v, seconds +ℤ now)) ∷ []),
      length-drop 16 m,
    )
    | inr (entry, old) ↦ ground (
      arith,
      old,
      length-erase dec k m old,
      length-append (erase dec k m) ((k, (v, seconds +ℤ now)) ∷ []),
    )
  ]

  -- A coherent map of at most `max 1 capacity` entries has at least one entry and at most
  -- `max 1 capacity` after a `put`. So a map of capacity 0 holds one entry.
  pub put-size :
      (now : ℤ) (k : K) (v : V) (seconds : ℤ) (s t : LruMap K V) (it : Iterator)
      → IsCoherent dec s
      → size dec s ≤ max 1 s.capacity
      → put dec now k v seconds s ≡ some (t, it)
      → (0 < size dec t) × (size dec t ≤ max 1 s.capacity)
  unfolding size
  put-size now k v seconds s t it c h e =
      let y = put-Yields dec now k v seconds s c in
      let n : length (view dec s) ≤ max 1 s.capacity =
        omega (arith, c.sized, length-entries dec s.nodelist) in
      ground (
        arith,
        y.returned,
        y.viewed,
        y.coherent.sized,
        length-entries dec y.state.nodelist,
        ideal_put-length s.capacity now k v seconds (view dec s) n,
      )

  find-push_back :
      (full : Bool) (n : ℕ) (k : K) (e : V × ℤ) (m : Entries K V)
      → find dec k m ≡ none
      → find dec k ((if full then drop n m else m) ++ (k, e) ∷ []) ≡ some e
  find-push_back true n k e m h = find-append_self dec k e (drop n m) (find-drop-none dec k n m h)
  find-push_back false n k e m h = find-append_self dec k e m h

  find-ideal_put :
      (cap : ℕ) (now : ℤ) (k : K) (v : V) (seconds : ℤ) (m : Entries K V)
      → IsDistinct dec m
      → find dec k (Spec.put dec cap now k v seconds m) ≡ some (v, seconds +ℤ now)
  unfolding Spec.put Spec.touch
  find-ideal_put cap now k v seconds m d =
      let e : V × ℤ = (v, seconds +ℤ now) in
      elim (Option-cases (find dec k m)) [
        | inl new ↦ rw (new, Spec.put) (find-push_back (leb cap (length m)) 16 k e m new)
        | inr (old, hit) ↦
            rw (hit, Spec.put)
              (find-append_self dec k e (erase dec k m) (find-erase_self dec k m d))
      ]

  ideal_get_of_found :
      (later : ℤ) (k : K) (e : V × ℤ) (m : Entries K V)
      → find dec k m ≡ some e
      → (Spec.get dec later k true m).1 ≡ (if ltb_ℤ e.1 later then none else some e)
  unfolding Spec.get
  ideal_get_of_found later k e m h =
      rw (h, Spec.get)
        (elim (Bool-cases (ltb_ℤ e.1 later)) [ inl old ↦ rw old | inr young ↦ rw young ])

  -- A `get` of the key right after a `put` to a coherent map returns an iterator to the value, unless
  -- `seconds` have gone by since the `put`; then it returns `end()`.
  pub get-put :
      (now later : ℤ) (k : K) (v : V) (seconds : ℤ) (s t : LruMap K V) (it : Iterator)
      → IsCoherent dec s
      → put dec now k v seconds s ≡ some (t, it)
      → (u : LruMap K V) × (j : Iterator) × (get dec later k true t ≡ some (u, j))
        × (shown dec u j
            ≡ (if ltb_ℤ (seconds +ℤ now) later then none else some (v, seconds +ℤ now)))
  get-put now later k v seconds s t it c e =
      let y = put-Yields dec now k v seconds s c in
      let z = get-Yields dec later k true y.state y.coherent in
      let d : IsDistinct dec (view dec s) =
        keyed-IsDistinct dec Node.key payload s.nodelist c.distinct in
      (
        z.state,
        z.iterator,
        ground (arith, z.returned, y.returned),
        z.reads
            ∙ ideal_get_of_found later k (v, seconds +ℤ now) (view dec y.state)
                (ap (find dec k) y.viewed
                  ∙ find-ideal_put s.capacity now k v seconds (view dec s) d),
      )
