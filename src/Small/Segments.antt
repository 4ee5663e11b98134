-- ===== src/Small/Segments.antt =====
-- `IpSegment` of findInTheInterval/main.cpp, without its attribute.
use tools_demo.Base.{
  ℕ, ◌≤◌, ◌<◌, ◌≡◌, ◌↔◌, Bool, true, not, ◌||◌, Option, none, some, List, [], ◌∷◌, arith, ltb,
  if◌then◌else◌, min, max, dec_lt, inl, inr, ◌⊎◌,
}

pub record Segment : Type 0 where
  pub begin_ : ℕ
  pub end_ : ℕ

abbrev pub segment : ℕ → ℕ → Segment
segment b e = record { begin_ = b; end_ = e }

-- `operator<(unsigned int)`
unfoldable pub before_ip : Segment → ℕ → Bool
before_ip s ip = ltb s.end_ ip

-- `operator<(const IpSegment &)`
unfoldable pub before : Segment → Segment → Bool
before s o = ltb s.end_ o.begin_

unfoldable pub overlap : Segment → Segment → Bool
unfolding before
overlap s o = not (before s o || before o s)

unfoldable pub intersect : Segment → Segment → Segment
unfolding overlap
intersect s o =
    if overlap s o then segment (max s.begin_ o.begin_) (min s.end_ o.end_) else segment 0 0

-- `lower_bound` of a sorted vector: the first segment that is not before the address
unfoldable pub lower_bound : ℕ → List Segment → Option Segment
unfolding before_ip
lower_bound ip [] = none
lower_bound ip (s ∷ ss) = let rest = lower_bound ip ss in if before_ip s ip then rest else some s

abbrev pub Contains : Segment → ℕ → Type 0
Contains s ip = (s.begin_ ≤ ip) × (ip ≤ s.end_)

-- Where two segments overlap, an address is in their intersection exactly where it is in both.
pub intersect_lem :
    (s o : Segment) (ip : ℕ)
    → overlap s o ≡ true
    → (Contains (intersect s o) ip) ↔ (Contains s ip × Contains o ip)
unfolding intersect overlap before
intersect_lem s o ip h = (
  λ (a, b).
      ((ground (arith, h, a), ground (arith, h, b)), (ground (arith, h, a), ground (arith, h, b))),
  λ ((a, b), (c, d)). (ground (arith, h), ground (arith, h)),
)

-- Two segments that have an address in common overlap.
pub overlap_common : (s o : Segment) (ip : ℕ) → Contains s ip → Contains o ip → overlap s o ≡ true
unfolding overlap before
overlap_common s o ip (a, b) (c, d) = ground arith

-- Each segment ends before the next begins, and no segment is empty.
abbrev pub IsSorted : List Segment → Type 0
IsSorted [] = Unit
IsSorted (s ∷ []) = s.begin_ ≤ s.end_
IsSorted (s ∷ o ∷ ss) = (s.begin_ ≤ s.end_) × (s.end_ < o.begin_) × IsSorted (o ∷ ss)

-- Some segment of the list contains the address.
abbrev pub Holds : ℕ → List Segment → Type 0
Holds ip [] = ⊥
Holds ip (s ∷ ss) = Contains s ip ⊎ Holds ip ss

above_all :
    (ip : ℕ) (s : Segment) (ss : List Segment)
    → IsSorted (s ∷ ss)
    → ip < s.begin_
    → Holds ip (s ∷ ss)
    → ⊥
above_all ip s [] o h (inl (a, b)) = omega arith
above_all ip s [] o h (inr x) = x
above_all ip s (t ∷ ss) o h (inl (a, b)) = omega arith
above_all ip s (t ∷ ss) (x, y, z) h (inr r) = above_all ip t ss z (omega arith) r

-- In sorted segments, an address that some segment contains is in the one that the lookup returns.
pub lower_bound_lem :
    (ip : ℕ) (ss : List Segment)
    → IsSorted ss
    → Holds ip ss
    → (s : Segment) × (lower_bound ip ss ≡ some s) × Contains s ip
unfolding lower_bound before_ip
lower_bound_lem ip [] o h = absurd h
lower_bound_lem ip (s ∷ []) o (inl (a, b)) = (s, ground arith, (a, b))
lower_bound_lem ip (s ∷ []) o (inr x) = absurd x
lower_bound_lem ip (s ∷ t ∷ ss) o (inl (a, b)) = (s, ground arith, (a, b))
lower_bound_lem ip (s ∷ t ∷ ss) (x, y, z) (inr r) = elim (dec_lt s.end_ ip) [
  | yes past ↦ let (u, e, c) = lower_bound_lem ip (t ∷ ss) z r in (u, ground (arith, e), c)
  | no here ↦ absurd (above_all ip t ss z (omega arith) r)
]
