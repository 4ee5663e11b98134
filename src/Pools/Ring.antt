-- ===== src/Pools/Ring.antt =====
-- `ObjectMemPool` of objectpool2/object_pool.cpp, without the objects: the ring of the indices of its slots
-- that are free. The deleter of an object from a slot is the step `release`.
use native.Mathlib.Nat.{mod-eq_of_lt, mod_self}
use tools_demo.Base.{
  ℕ, zero, suc, ◌+◌, ◌-◌, ◌%◌, ◌^◌, ◌<◌, ◌≡◌, ◌≢◌, sym, ap, subst, ◌∙◌, Option, none, some, List,
  [], ◌∷◌, ◌++◌, ◌==◌, arith, length, get_or, set, get_or-set_self, get_or-set_ne, length-set,
  length-append, ltb, if◌then◌else◌, dec_lt,
}

pub record Ring : Type 0 where
  -- `_PoolSize`
  pub size : ℕ
  pub ring_buffer : List ℕ
  pub ring_start : ℕ
  pub ring_end : ℕ
  pub allocate_counter : ℕ
  pub object_counter : ℕ

unfoldable pub fill : ℕ → ℕ → List ℕ
fill i zero = []
fill i (suc n) = i ∷ fill (i + 1) n

unfoldable pub init : ℕ → Ring
init n = record {
  size = n;
  ring_buffer = fill 0 n;
  ring_start = 0;
  ring_end = n - 1;
  allocate_counter = 0;
  object_counter = 0;
}

-- `Get`: the index of the slot of the object, or none for one from the heap, and the new state
unfoldable pub get : Ring → Option ℕ × Ring
get s =
    if s.ring_start == s.ring_end
    then (
      none,
      record s {
        allocate_counter = (s.allocate_counter + 1) % 2 ^ 32;
        object_counter = (s.object_counter + 1) % 2 ^ 32;
      },
    )
    else (
      some (get_or s.ring_buffer s.ring_start 0),
      record s {
        ring_start = (s.ring_start + 1) % s.size;
        object_counter = (s.object_counter + 1) % 2 ^ 32;
      },
    )

-- The deleter
unfoldable pub release : ℕ → Ring → Ring
release index s =
    let next = (s.ring_end + 1) % s.size in
    record s { ring_end = next; ring_buffer = set s.ring_buffer next index }

abbrev pub wrap : ℕ → ℕ → ℕ
wrap n x = if ltb x n then x else x - n

next_wrap : (n x : ℕ) → x < n → (x + 1) % n ≡ wrap n (x + 1)
next_wrap n x h = elim (dec_lt (x + 1) n) [
  | yes l ↦ mod-eq_of_lt l ∙ ground arith
  | no e ↦ let whole : x + 1 ≡ n = omega arith in ap (λ k. k % n) whole ∙ mod_self n ∙ ground arith
]

-- The slots from `a` on hold the indices of the list.
abbrev pub Runs : ℕ → List ℕ → ℕ → List ℕ → Type 0
Runs n buf a [] = Unit
Runs n buf a (x ∷ xs) = (get_or buf a 0 ≡ x) × Runs n buf (wrap n (a + 1)) xs

-- The ring holds the free slots `x ∷ xs`, the first one to lend first.
pub record Holds (s : Ring) (x : ℕ) (xs : List ℕ) : Type 0 where
  pub sized : length s.ring_buffer ≡ s.size
  pub in_range : s.ring_start < s.size
  pub ends : s.ring_end ≡ wrap s.size (s.ring_start + length xs)
  pub fits : length xs < s.size
  pub runs : Runs s.size s.ring_buffer s.ring_start (x ∷ xs)

-- `Get` with two free slots at least lends the one that is free for the longest time.
pub get-Holds :
    (s : Ring) (x y : ℕ) (ys : List ℕ)
    → Holds s x (y ∷ ys)
    → ((get s).0 ≡ some x) × Holds (get s).1 y ys
unfolding get
get-Holds s x y ys h =
    let differ : s.ring_start ≢ s.ring_end = λ e. ground (arith, h.ends, h.fits, h.in_range) in
    let next = next_wrap s.size s.ring_start h.in_range in
    let (first, more) = h.runs in
    let taken : (get s).1 ≡ record s {
      ring_start = wrap s.size (s.ring_start + 1);
      object_counter = (s.object_counter + 1) % 2 ^ 32;
    } =
      ground (arith, differ, next) in
    (
      ground (arith, differ, first),
      record {
        sized = ground (arith, differ, h.sized);
        in_range = ground (arith, differ, next, h.in_range, h.fits);
        ends = ground (arith, differ, next, h.ends, h.in_range, h.fits);
        fits = ground (arith, differ, h.fits);
        runs = subst (λ t. Runs t.size t.ring_buffer t.ring_start (y ∷ ys)) (sym taken) more;
      },
    )

-- With a single free slot `Get` takes the heap: one slot is never lent.
pub get-last : (s : Ring) (x : ℕ) → Holds s x [] → (get s).0 ≡ none
unfolding get
get-last s x h = ground (arith, h.ends, h.in_range)

Runs-set :
    (n : ℕ) (buf : List ℕ) (a i : ℕ) (free : List ℕ)
    → length buf ≡ n
    → a < n
    → length free < n
    → Runs n buf a free
    → Runs n (set buf (wrap n (a + length free)) i) a (free ++ i ∷ [])
Runs-set n buf a i [] e lo hi r =
    let here : wrap n (a + 0) ≡ a = ground arith in
    (ap (λ k. get_or (set buf k i) a 0) here ∙ get_or-set_self buf a i 0 (omega arith), tt)
Runs-set n buf a i (x ∷ xs) e lo hi (first, r) =
    let same : wrap n (a + suc (length xs)) ≡ wrap n (wrap n (a + 1) + length xs) = ground arith in
    let other : wrap n (a + suc (length xs)) ≢ a = λ z. ground arith in
    let more = Runs-set n buf (wrap n (a + 1)) i xs e (ground arith) (omega arith) r in
    (
      get_or-set_ne buf i 0 other ∙ first,
      subst (λ k. Runs n (set buf k i) (wrap n (a + 1)) (xs ++ i ∷ [])) (sym same) more,
    )

-- A slot that is given back while fewer than all are free becomes the last of the free ones.
pub release-Holds :
    (i : ℕ) (s : Ring) (x : ℕ) (xs : List ℕ)
    → Holds s x xs
    → length xs + 1 < s.size
    → Holds (release i s) x (xs ++ i ∷ [])
unfolding release
release-Holds i s x xs h room =
    let inside : s.ring_end < s.size = ground (arith, h.ends, h.in_range, h.fits) in
    let next = next_wrap s.size s.ring_end inside in
    let at : (s.ring_end + 1) % s.size ≡ wrap s.size (s.ring_start + suc (length xs)) =
      next ∙ ground (arith, h.ends, h.in_range, h.fits) in
    let n = length-append xs (i ∷ []) in
    record {
      sized = length-set s.ring_buffer ((s.ring_end + 1) % s.size) i ∙ h.sized;
      in_range = h.in_range;
      ends = at ∙ ap (λ k. wrap s.size (s.ring_start + k)) (omega (arith, n));
      fits = omega (arith, n);
      runs =
          subst (λ k. Runs s.size (set s.ring_buffer k i) s.ring_start (x ∷ (xs ++ i ∷ [])))
            (sym at)
            (Runs-set s.size s.ring_buffer s.ring_start i (x ∷ xs) h.sized h.in_range (omega arith)
              h.runs);
    }
