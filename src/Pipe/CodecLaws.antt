-- ===== src/Pipe/CodecLaws.antt =====
-- The two conversions of `CChannelUtils` undo one another.
use Prim.Native.Nat.{bit_and}
use tools_demo.Base.{
  ℕ, ◌+◌, ◌*◌, ◌/◌, ◌%◌, ◌^◌, ◌<◌, ◌≡◌, refl, ap, ◌∙◌, some, List, [], ◌∷◌, ◌++◌, arith,
}
use mathlib.Core.Option
use native.Mathlib.Nat.{mul-div_cancel}
use tools_demo.Base.Bits.{pow_pos, bit_or_disjoint_right, bit_and_low, bit_and_high}
use tools_demo.Pipe.Codec.{int_to_bytes, bytes_to_int}

int_to_bytes_lem :
    (v : ℕ) → int_to_bytes v ≡ v % 256 ∷ v / 2 ^ 8 % 256 ∷ v / 2 ^ 16 % 256 ∷ v / 2 ^ 24 % 256 ∷ []
unfolding int_to_bytes
int_to_bytes_lem v =
    let e0 : bit_and v 0xFF % 256 ≡ v % 256 = omega (arith, bit_and_low 8 255 v refl) in
    let e1 : bit_and v 0xFF00 / 2 ^ 8 % 256 ≡ v / 2 ^ 8 % 256 =
      omega (arith, bit_and_high 8 255 v, bit_and_low 8 255 (v / 2 ^ 8) refl) in
    let e2 : bit_and v 0xFF0000 / 2 ^ 16 % 256 ≡ v / 2 ^ 16 % 256 =
      omega (arith, bit_and_high 16 255 v, bit_and_low 8 255 (v / 2 ^ 16) refl) in
    let e3 : bit_and v 0xFF000000 / 2 ^ 24 % 256 ≡ v / 2 ^ 24 % 256 =
      omega (arith, bit_and_high 24 255 v, bit_and_low 8 255 (v / 2 ^ 24) refl) in
    rw (e0, e1, e2, e3)

-- A byte that is shifted and masked.
masked : (k b : ℕ) → b < 256 → bit_and (b * 2 ^ k) (255 * 2 ^ k) ≡ b * 2 ^ k
masked k b h =
    let e : b * 2 ^ k / 2 ^ k ≡ b = mul-div_cancel b (pow_pos k) in
    bit_and_high k 255 (b * 2 ^ k)
    ∙ rw (e, bit_and_low 8 255 b refl) (let m : b % 2 ^ 8 ≡ b = omega arith in rw m)

bytes_to_int_lem :
    (b0 b1 b2 b3 : ℕ) (rest : List ℕ)
    → b0 < 256
    → b1 < 256
    → b2 < 256
    → b3 < 256
    → bytes_to_int (b0 ∷ b1 ∷ b2 ∷ b3 ∷ rest) 0 ≡ some (b0 + b1 * 2 ^ 8 + b2 * 2 ^ 16 + b3 * 2 ^ 24)
unfolding bytes_to_int
bytes_to_int_lem b0 b1 b2 b3 rest h0 h1 h2 h3 =
    let e0 : bit_and b0 0xFF ≡ b0 = omega (arith, bit_and_low 8 255 b0 refl) in
    rw (
      e0,
      masked 8 b1 h1,
      masked 16 b2 h2,
      masked 24 b3 h3,
      bit_or_disjoint_right 8 b0 b1 h0,
      bit_or_disjoint_right 16 (b0 + b1 * 2 ^ 8) b2 (omega arith),
      bit_or_disjoint_right 24 (b0 + b1 * 2 ^ 8 + b2 * 2 ^ 16) b3 (omega arith),
    )

-- Whatever follows the four bytes of an `int`, `BytesToInt` reads the `int` back.
pub bytes_to_int-int_to_bytes :
    (v : ℕ) (rest : List ℕ) → v < 2 ^ 32 → bytes_to_int (int_to_bytes v ++ rest) 0 ≡ some v
bytes_to_int-int_to_bytes v rest h =
    rw
      (
        int_to_bytes_lem v,
        bytes_to_int_lem (v % 256) (v / 2 ^ 8 % 256) (v / 2 ^ 16 % 256) (v / 2 ^ 24 % 256) rest
            (omega arith) (omega arith) (omega arith) (omega arith),
      )
      (ap some (omega arith))

-- Four bytes are the bytes of the `int` that `BytesToInt` reads from them.
pub int_to_bytes-bytes_to_int :
    (b0 b1 b2 b3 : ℕ)
    → b0 < 256
    → b1 < 256
    → b2 < 256
    → b3 < 256
    → Option.map int_to_bytes (bytes_to_int (b0 ∷ b1 ∷ b2 ∷ b3 ∷ []) 0)
      ≡ some (b0 ∷ b1 ∷ b2 ∷ b3 ∷ [])
int_to_bytes-bytes_to_int b0 b1 b2 b3 h0 h1 h2 h3 =
    rw (bytes_to_int_lem b0 b1 b2 b3 [] h0 h1 h2 h3, int_to_bytes_lem) (ground arith)
