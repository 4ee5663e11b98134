-- ===== src/LruCache/Program.antt =====
-- Any sequence of calls on an `lru_cache`, beside the same calls on the list of entries.
use tools_demo.Base.{
  ℕ, ◌≤◌, ◌<◌, ◌≡◌, refl, sym, ap, ◌∙◌, inl, inr, Option, none, some, List, [], ◌∷◌, length,
  length-drop_last, nil_of_length, arith, ◌>>=◌, Option-cases, true, false,
}
use tools_demo.Base.Dict.{find, length-erase}
use tools_demo.LruCache.Defs.{LruCache, init, size, contains, insert, get, clear, evict}
use tools_demo.LruCache.Models.{stripped, place_found, place_none, length-entries}
use tools_demo.LruCache.Methods.{Shows, insert-Shows, get-Shows}
use tools_demo.LruCache.Spec

pub data Call (K V : Type 0) : Type 0 where
  inserts : K → V → Call K V
  gets : K → Call K V
  clears : Call K V

module _ {K V : Type 0} (dec : Discrete K) where
  unfoldable pub step : Call K V → LruCache K V → Option (LruCache K V × Option V)
  step (inserts k v) s = insert dec k v s >>= λ t. some (t, none)
  step (gets k) s = get dec k s
  step clears s = some (clear dec s, none)

  -- the cache at the end, and what each call returned
  unfoldable pub run : List (Call K V) → LruCache K V → Option (LruCache K V × List (Option V))
  run [] s = some (s, [])
  run (c ∷ cs) s = step c s >>= λ r. run cs r.0 >>= λ q. some (q.0, r.1 ∷ q.1)

  unfoldable pub ideal_step : ℕ → Call K V → List (K × V) → List (K × V) × Option V
  ideal_step cap (inserts k v) m = (Spec.insert dec cap k v m, none)
  ideal_step cap (gets k) m = Spec.get dec k m
  ideal_step cap clears m = ([], none)

  unfoldable pub ideal_run : ℕ → List (Call K V) → List (K × V) → List (K × V) × List (Option V)
  ideal_run cap [] m = (m, [])
  ideal_run cap (c ∷ cs) m =
      let (m', r) = ideal_step cap c m in let (m'', rs) = ideal_run cap cs m' in (m'', r ∷ rs)

  empty-Shows : (s : LruCache K V) (cap : ℕ) → s.capacity ≡ cap → Shows dec (clear dec s) cap []
  unfolding clear find
  empty-Shows s cap e = record {
    nodes = [];
    models = record {
      listed = refl;
      mapped = λ k. refl;
      map_distinct = tt;
      distinct = tt;
      addresses = tt;
      below = tt;
      sized = refl;
    };
    capped = e;
    viewed = refl;
  }

  step-Shows :
      (c : Call K V) (s : LruCache K V) (cap : ℕ) (m : List (K × V))
      → Shows dec s cap m
      → 0 < cap
      → (t : LruCache K V) × (step c s ≡ some (t, (ideal_step cap c m).1))
        × Shows dec t cap (ideal_step cap c m).0
  unfolding step ideal_step
  step-Shows (inserts k x) s cap m v h =
      let (t, done, u) = insert-Shows dec k x s cap m v h in (t, rw done, u)
  step-Shows (gets k) s cap m v h = get-Shows dec k s cap m v
  step-Shows clears s cap m v h = (clear dec s, refl, empty-Shows s cap v.capped)

  run-Shows :
      (cs : List (Call K V)) (s : LruCache K V) (cap : ℕ) (m : List (K × V))
      → Shows dec s cap m
      → 0 < cap
      → (t : LruCache K V) × (run cs s ≡ some (t, (ideal_run cap cs m).1))
        × Shows dec t cap (ideal_run cap cs m).0
  unfolding run ideal_run
  run-Shows [] s cap m v h = (s, refl, v)
  run-Shows (c ∷ cs) s cap m v h =
      let (t, done, u) = step-Shows c s cap m v h in
      let (t', done', u') = run-Shows cs t cap (ideal_step cap c m).0 u h in
      (t', ground (arith, done, done'), u')

  -- From a new cache of positive capacity, any sequence of calls follows live iterators only, returns
  -- what the list of entries by last use returns for the same calls, and ends in a cache that shows
  -- that list.
  pub run_from_new :
      (cap : ℕ) (cs : List (Call K V))
      → 0 < cap
      → (t : LruCache K V) × (run cs (init dec cap) ≡ some (t, (ideal_run cap cs []).1))
        × Shows dec t cap (ideal_run cap cs []).0
  unfolding init clear
  run_from_new cap cs h = run-Shows cs (init dec cap) cap [] (empty-Shows (init dec cap) cap refl) h

  -- A cache that shows `m` has the size of `m`.
  size_lem :
      (s : LruCache K V) (cap : ℕ) (m : List (K × V)) → Shows dec s cap m → size dec s ≡ length m
  unfolding size
  size_lem s cap m v = v.models.sized ∙ sym (length-entries dec v.nodes) ∙ ap length v.viewed

  -- It contains the keys of `m`.
  pub contains_lem :
      (s : LruCache K V) (cap : ℕ) (m : List (K × V)) (k : K)
      → Shows dec s cap m
      → contains dec k s ≡ elim (find dec k m) [ none ↦ false | some _ ↦ true ]
  unfolding contains
  contains_lem s cap m k v =
      let l = v.nodes in
      elim (Option-cases (find dec k s.map)) [
        | inl e ↦ ground (arith, e, v.viewed, place_none dec k l (sym (v.models.mapped k) ∙ e))
        | inr ((x, j), e) ↦
            ground (arith, e, v.viewed, place_found dec k x j l (sym (v.models.mapped k) ∙ e))
      ]

  ideal_step-length :
      (cap : ℕ) (c : Call K V) (m : List (K × V))
      → 0 < cap
      → length m ≤ cap
      → length (ideal_step cap c m).0 ≤ cap
  unfolding ideal_step Spec.insert Spec.get
  ideal_step-length cap (inserts k v) m h n = ground (arith, length-drop_last m)
  ideal_step-length cap (gets k) m h n = elim (Option-cases (find dec k m)) [
    | inl e ↦ ground (arith, e)
    | inr (x, e) ↦ ground (arith, e, length-erase dec k m e)
  ]
  ideal_step-length cap clears m h n = omega arith

  ideal_run-length :
      (cap : ℕ) (cs : List (Call K V)) (m : List (K × V))
      → 0 < cap
      → length m ≤ cap
      → length (ideal_run cap cs m).0 ≤ cap
  unfolding ideal_run
  ideal_run-length cap [] m h n = n
  ideal_run-length cap (c ∷ cs) m h n =
      ideal_run-length cap cs (ideal_step cap c m).0 h (ideal_step-length cap c m h n)

  -- After any sequence of calls on a new cache of positive capacity, its size is at most the capacity.
  pub run-size-le :
      (cap : ℕ) (cs : List (Call K V)) (t : LruCache K V) (rs : List (Option V))
      → 0 < cap
      → run cs (init dec cap) ≡ some (t, rs)
      → size dec t ≤ cap
  run-size-le cap cs t rs h e =
      let (u, done, shows) = run_from_new cap cs h in
      let n = size_lem u cap _ shows in
      ground (arith, done, n, ideal_run-length cap cs [] h (omega arith))

  -- An `insert` into an empty cache of capacity 0 goes wrong: it evicts through the iterator before
  -- the first node.
  pub insert_zero : (k : K) (x : V) (s : LruCache K V) → Shows dec s 0 [] → insert dec k x s ≡ none
  unfolding insert size evict find
  insert_zero k x s v =
      let nodeless =
        nil_of_length v.nodes (sym (length-entries dec v.nodes) ∙ ap length v.viewed) in
      let unlisted : s.list ≡ [] = v.models.listed ∙ ap stripped nodeless in
      let unmapped : s.map ≡ [] = nil_of_length s.map (v.models.sized ∙ ap length nodeless) in
      ground (arith, unlisted, unmapped, v.capped)
