-- ===== src/Pipe/Memory.antt =====
-- Arrays of bytes of a fixed size, and `memcpy` and `memset` on them. A copy that leaves the array has
-- no result.
use tools_demo.Base.{
  ℕ, zero, suc, ◌+◌, ◌≤◌, ◌≡◌, refl, subst, ap, Option, none, some, List, ◌++◌, arith, length, take,
  drop, replicate, leb, if◌then◌else◌, length-append, length-take, length-drop, take-append,
}

-- `memcpy(buf + off, src, n)` where `src` holds `n` bytes.
unfoldable pub memcpy_to : ℕ → List ℕ → List ℕ → Option (List ℕ)
memcpy_to off src buf =
    if leb (off + length src) (length buf)
    then some (take off buf ++ src ++ drop (off + length src) buf)
    else none

-- The `n` bytes from `buf + off`.
unfoldable pub copy_from : ℕ → ℕ → List ℕ → Option (List ℕ)
copy_from off n buf = if leb (off + n) (length buf) then some (take n (drop off buf)) else none

-- `memset(buf, 0, n)` of an array of `n` bytes
unfoldable pub zeros : ℕ → List ℕ
zeros n = replicate n 0

pub length-zeros : (n : ℕ) → length (zeros n) ≡ n
unfolding zeros
length-zeros zero = refl
length-zeros (suc n) = ap suc (length-zeros n)

-- A copy that fits.
pub memcpy_to_lem :
    (off : ℕ) (src buf : List ℕ)
    → off + length src ≤ length buf
    → (out : List ℕ) × (memcpy_to off src buf ≡ some out)
      × (length out ≡ length buf)
      × (take (off + length src) out ≡ take off buf ++ src)
unfolding memcpy_to
memcpy_to_lem off src buf h =
    let rest = drop (off + length src) buf in
    let n : length (take off buf ++ src) ≡ off + length src =
      omega (arith, length-append (take off buf) src, length-take off buf) in
    (
      take off buf ++ src ++ rest,
      ground arith,
      omega
          (arith, n, length-append (take off buf ++ src) rest, length-drop (off + length src) buf),
      subst (λ k. take k (take off buf ++ src ++ rest) ≡ take off buf ++ src) n
          (take-append (take off buf ++ src) rest),
    )

pub copy_from_lem :
    (off n : ℕ) (buf : List ℕ)
    → off + n ≤ length buf
    → copy_from off n buf ≡ some (take n (drop off buf))
unfolding copy_from
copy_from_lem off n buf h = ground arith
