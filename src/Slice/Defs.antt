-- ===== src/Slice/Defs.antt =====
-- `Slice` of statusandslice/slice.h. A pointer is the bytes from it to the end of its array, and a read
-- past them has no result.
use tools_demo.Base.{
  ℕ, zero, suc, ◌-◌, ◌≤◌, Bool, false, not, ◌==◌, Option, none, some, List, [], ◌∷◌, length, take,
  drop, get_elem?, ltb, leb, if◌then◌else◌, ◌>>=◌,
}
use tools_demo.Base.Int.{ℤ, pos, negsuc}

pub record Slice : Type 0 where
  pub data_ : List ℕ
  pub size_ : ℕ

-- The slice refers to bytes of its array.
abbrev pub IsValid : Slice → Type 0
IsValid s = s.size_ ≤ length s.data_

-- `memcmp` of the language's library, whose result is -1, 0 or 1 here
unfoldable pub memcmp : ℕ → List ℕ → List ℕ → Option ℤ
memcmp zero x y = some (pos 0)
memcmp (suc n) [] y = none
memcmp (suc n) (a ∷ x) [] = none
memcmp (suc n) (a ∷ x) (b ∷ y) =
    let rest = memcmp n x y in
    if ltb a b then some (negsuc 0) else if ltb b a then some (pos 1) else rest

abbrev pub is_zero : ℤ → Bool
is_zero (pos n) = n == 0
is_zero (negsuc n) = false

-- `Slice(d, n)`, and of a string
abbrev pub slice : List ℕ → ℕ → Slice
slice d n = record { data_ = d; size_ = n }

unfoldable pub of_string : List ℕ → Slice
of_string s = slice s (length s)

abbrev pub empty : Slice → Bool
empty s = s.size_ == 0

-- An assertion that fails has no result.
unfoldable pub at : Slice → ℕ → Option ℕ
at s n = if ltb n s.size_ then get_elem? s.data_ n else none

unfoldable pub clear : Slice → Slice
clear s = slice [] 0

unfoldable pub remove_prefix : ℕ → Slice → Option Slice
remove_prefix n s = if leb n s.size_ then some (slice (drop n s.data_) (s.size_ - n)) else none

unfoldable pub to_string : Slice → List ℕ
to_string s = take s.size_ s.data_

unfoldable pub starts_with : Slice → Slice → Option Bool
starts_with s x =
    if leb x.size_ s.size_
    then memcmp x.size_ s.data_ x.data_ >>= (λ r. some (is_zero r))
    else some false

unfoldable pub equals : Slice → Slice → Option Bool
equals x y =
    if x.size_ == y.size_
    then memcmp x.size_ x.data_ y.data_ >>= (λ r. some (is_zero r))
    else some false

unfoldable pub differs : Slice → Slice → Option Bool
differs x y = equals x y >>= (λ e. some (not e))

unfoldable pub compare : Slice → Slice → Option ℤ
compare a b =
    let min_len = if ltb a.size_ b.size_ then a.size_ else b.size_ in
    memcmp min_len a.data_ b.data_ >>= λ r. some (
      if is_zero r
      then if ltb a.size_ b.size_ then negsuc 0 else if ltb b.size_ a.size_ then pos 1 else r
      else r)
