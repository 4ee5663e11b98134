-- ===== src/LruMap/Program.antt =====
-- Any sequence of calls on an `LruMap`, beside the same calls on the list of entries.
use tools_demo.Base.{
  ℕ, ◌≡◌, refl, Bool, Option, none, some, List, [], ◌∷◌, drop, Bool-cases, inl, inr, arith, ◌==◌,
  if◌then◌else◌, ◌>>=◌,
}
use tools_demo.Base.Int.{ℤ, ◌+ℤ◌}
use tools_demo.Base.Dict.{find, erase}
use tools_demo.LruMap.Defs.{LruMap, Outcome, init, clear, set_capacity, get, put, erase_key, vacate}
use tools_demo.LruMap.Invariant.{IsCoherent, Coherent}
use tools_demo.LruMap.View.{view, shown, Yields, entries-drop}
use tools_demo.LruMap.Reads.{get-Yields, erase_key_lem}
use tools_demo.LruMap.Taking.{take, take-Yields}
use tools_demo.LruMap.Writes.{put-Yields, vacate_loop-Coherent}
use tools_demo.LruMap.Spec
use tools_demo.LruMap.Spec.{Entries}

pub data Call (K V : Type 0) : Type 0 where
  gets : ℤ → K → Bool → Call K V
  puts : ℤ → K → V → ℤ → Call K V
  erases : K → Call K V
  takes : ℤ → K → Bool → Call K V
  vacates : ℕ → Call K V
  clears : Call K V
  resizes : ℕ → Call K V

-- what the caller reads through the iterator of each call
abbrev pub Replies : Type 0 → Type 0
Replies V = List (Option (V × ℤ))

module _ {K V : Type 0} (dec : Discrete K) where
  unfoldable pub step : Call K V → LruMap K V → Outcome K V
  step (gets now k exp) s = get dec now k exp s
  step (puts now k v seconds) s = put dec now k v seconds s
  step (erases k) s = erase_key dec k s >>= λ t. some (t, none)
  step (takes now k exp) s = take dec now k exp s
  step (vacates n) s = some (vacate dec n s, none)
  step clears s = some (clear dec s, none)
  step (resizes n) s = some (set_capacity dec n s, none)

  unfoldable pub run : List (Call K V) → LruMap K V → Option (LruMap K V × Replies V)
  run [] s = some (s, [])
  run (c ∷ cs) s = step c s >>= λ r. run cs r.0 >>= λ q. some (q.0, shown dec r.0 r.1 ∷ q.1)

  -- The calls on the capacity and the entries.
  unfoldable pub ideal_step : Call K V → ℕ × Entries K V → ℕ × Entries K V × Option (V × ℤ)
  ideal_step (gets now k exp) (cap, m) = let (m', r) = Spec.get dec now k exp m in (cap, m', r)
  ideal_step (puts now k v seconds) (cap, m) =
      (cap, Spec.put dec cap now k v seconds m, some (v, seconds +ℤ now))
  ideal_step (erases k) (cap, m) = (cap, erase dec k m, none)
  ideal_step (takes now k exp) (cap, m) = (cap, Spec.take dec now k exp m, none)
  ideal_step (vacates n) (cap, m) = (cap, drop n m, none)
  ideal_step clears (cap, m) = (cap, [], none)
  ideal_step (resizes n) (cap, m) = (n, (if n == 0 then [] else m), none)

  unfoldable pub ideal_run : List (Call K V) → ℕ × Entries K V → ℕ × Entries K V × Replies V
  ideal_run [] (cap, m) = (cap, m, [])
  ideal_run (c ∷ cs) (cap, m) =
      let (cap', m', r) = ideal_step c (cap, m) in
      let (cap'', m'', rs) = ideal_run cs (cap', m') in (cap'', m'', r ∷ rs)

  empty-Coherent : (fresh : ℕ) → Coherent {V = V} dec fresh [] []
  unfolding find
  empty-Coherent fresh = record {
    indexed = λ k. refl;
    distinct = tt;
    addresses = tt;
    below = tt;
    sized = refl;
    index_distinct = tt;
  }

  -- Each call does to a coherent map what it does to the list of entries.
  step-Yields :
      (c : Call K V) (s : LruMap K V)
      → IsCoherent dec s
      → let (cap, m, r) = ideal_step c (s.capacity, view dec s) in Yields dec (step c s) cap m r
  unfolding step ideal_step vacate set_capacity clear
  step-Yields (gets now k exp) s v = get-Yields dec now k exp s v
  step-Yields (puts now k x seconds) s v = put-Yields dec now k x seconds s v
  step-Yields (erases k) s v =
      let (t, done, kept, same, seen) = erase_key_lem dec k s v in
      record {
        state = t;
        iterator = none;
        returned = rw done;
        coherent = kept;
        capped = same;
        viewed = seen;
        reads = refl;
      }
  step-Yields (takes now k exp) s v = take-Yields dec now k exp s v
  step-Yields (vacates n) s v =
      let (kept, dropped) = vacate_loop-Coherent dec n s.fresh s.index s.nodelist v in
      record {
        state = vacate dec n s;
        iterator = none;
        returned = refl;
        coherent = kept;
        capped = refl;
        viewed = ground (arith, dropped, entries-drop dec n s.nodelist);
        reads = refl;
      }
  step-Yields clears s v = record {
    state = clear dec s;
    iterator = none;
    returned = refl;
    coherent = empty-Coherent s.fresh;
    capped = refl;
    viewed = refl;
    reads = refl;
  }
  step-Yields (resizes n) s v = elim (Bool-cases (n == 0)) [
    | inl e ↦ record {
      state = clear dec (record s { capacity = n });
      iterator = none;
      returned = ground (arith, e);
      coherent = empty-Coherent s.fresh;
      capped = refl;
      viewed = ground (arith, e);
      reads = refl;
    }
    | inr e ↦ record {
      state = record s { capacity = n };
      iterator = none;
      returned = ground (arith, e);
      coherent = v;
      capped = refl;
      viewed = ground (arith, e);
      reads = refl;
    }
  ]

  -- What a sequence of calls from a coherent map comes to: it follows no dead iterator, the caller
  -- reads what the list of entries gives, and the map shows those entries in the end.
  pub record Finishes (cs : List (Call K V)) (s : LruMap K V) (cap : ℕ) (m : Entries K V)
      (rs : Replies V) : Type 0 where
    pub state : LruMap K V
    pub returned : run cs s ≡ some (state, rs)
    pub coherent : IsCoherent dec state
    pub capped : state.capacity ≡ cap
    pub viewed : view dec state ≡ m

  run-Finishes :
      (cs : List (Call K V)) (s : LruMap K V)
      → IsCoherent dec s
      → let (cap, m, rs) = ideal_run cs (s.capacity, view dec s) in Finishes cs s cap m rs
  unfolding run ideal_run
  run-Finishes [] s v = record {
    state = s;
    returned = refl;
    coherent = v;
    capped = refl;
    viewed = refl;
  }
  run-Finishes (c ∷ cs) s v =
      let y = step-Yields c s v in
      let rest = run-Finishes cs y.state y.coherent in
      record {
        state = rest.state;
        returned = ground (arith, y.returned, y.capped, y.viewed, y.reads, rest.returned);
        coherent = rest.coherent;
        capped = ground (arith, y.capped, y.viewed, rest.capped);
        viewed = ground (arith, y.capped, y.viewed, rest.viewed);
      }

  -- From a new `LruMap`, any sequence of calls follows live iterators only, returns what the list of
  -- entries by last use returns for the same calls, and leaves a map that shows that list.
  pub run_from_init :
      (cap : ℕ) (cs : List (Call K V))
      → let (cap', m, rs) = ideal_run cs (cap, []) in Finishes cs (init dec cap) cap' m rs
  unfolding init
  run_from_init cap cs = run-Finishes cs (init dec cap) (empty-Coherent 0)
