-- ===== src/Base/Bits.antt =====
-- Masks and disjoint bit fields: the laws of `bit_and` and `bit_or` that the packed values need.
use Prim.Native.Nat.{
  ℕ, zero, suc, ◌+◌, ◌*◌, ◌/◌, ◌%◌, ◌^◌, ◌≤◌, ◌<◌, min, max, bit_and, bit_or, digits,
  bit_and-bitwise, bit_or-bitwise, bit_xor, bit_xor-bitwise, differ,
}
use mathlib.Core.Path.{◌≡◌, refl, ◌∙◌, ap}
use native.Mathlib.Omega.{arith}
use native.Mathlib.Nat.{two-pow-succ}

-- An operation digit by digit whose result `z b` on no digits fits its digit `f 0 _`.
module _ (z : ℕ → ℕ) (f : ℕ → ℕ → ℕ) (fits : (b : ℕ) → z b ≡ z (b / 2) * 2 + f 0 (b % 2)) where
  fuel_irrelevant : (n m a b : ℕ) → a ≤ n → a ≤ m → digits z f n a b ≡ digits z f m a b
  fuel_irrelevant zero zero a b p q = refl
  fuel_irrelevant zero (suc m) zero b p q = refl
  fuel_irrelevant zero (suc m) (suc a) b p q = absurd (omega arith)
  fuel_irrelevant (suc n) zero zero b p q = refl
  fuel_irrelevant (suc n) zero (suc a) b p q = absurd (omega arith)
  fuel_irrelevant (suc n) (suc m) zero b p q = refl
  fuel_irrelevant (suc n) (suc m) (suc a) b p q =
      ap (λ r. r * 2 + f (suc a % 2) (b % 2))
        (fuel_irrelevant n m (suc a / 2) (b / 2) (omega arith) (omega arith))

  lowest_digit :
      (a b : ℕ) → digits z f a a b ≡ digits z f (a / 2) (a / 2) (b / 2) * 2 + f (a % 2) (b % 2)
  lowest_digit zero b = fits b
  lowest_digit (suc a) b =
      ap (λ r. r * 2 + f (suc a % 2) (b % 2))
        (fuel_irrelevant a (suc a / 2) (suc a / 2) (b / 2) (omega arith) (omega arith))

pub bit_and-div-mod : (a b : ℕ) → bit_and a b ≡ bit_and (a / 2) (b / 2) * 2 + min (a % 2) (b % 2)
bit_and-div-mod a b = omega (
  arith,
  lowest_digit (λ b. zero) min (λ b. omega arith) a b,
  bit_and-bitwise a b,
  bit_and-bitwise (a / 2) (b / 2),
)

pub bit_or-div-mod : (a b : ℕ) → bit_or a b ≡ bit_or (a / 2) (b / 2) * 2 + max (a % 2) (b % 2)
bit_or-div-mod a b = omega (
  arith,
  lowest_digit (λ b. b) max (λ b. omega arith) a b,
  bit_or-bitwise a b,
  bit_or-bitwise (a / 2) (b / 2),
)

zero-bit_and : (b : ℕ) → bit_and 0 b ≡ 0
zero-bit_and b = bit_and-bitwise 0 b

bit_and-zero_below : (n a : ℕ) → a ≤ n → bit_and a 0 ≡ 0
bit_and-zero_below n zero h = refl
bit_and-zero_below zero (suc a) h = absurd (omega arith)
bit_and-zero_below (suc n) (suc a) h =
    omega (arith, bit_and-div-mod (suc a) 0, bit_and-zero_below n (suc a / 2) (omega arith))

bit_and-zero : (a : ℕ) → bit_and a 0 ≡ 0
bit_and-zero a = bit_and-zero_below a a (omega arith)

pub bit_or-zero : (b : ℕ) → bit_or 0 b ≡ b
bit_or-zero b = bit_or-bitwise 0 b

or-zero_below : (n a : ℕ) → a ≤ n → bit_or a 0 ≡ a
or-zero_below n zero h = refl
or-zero_below zero (suc a) h = absurd (omega arith)
or-zero_below (suc n) (suc a) h =
    omega (arith, bit_or-div-mod (suc a) 0, or-zero_below n (suc a / 2) (omega arith))

or-zero : (a : ℕ) → bit_or a 0 ≡ a
or-zero a = or-zero_below a a (omega arith)

bit_and_double : (a q : ℕ) → bit_and a (q + q) ≡ bit_and (a / 2) q * 2
bit_and_double a q =
    let e : (q + q) / 2 ≡ q = omega arith in bit_and-div-mod a (q + q) ∙ rw e (omega arith)

bit_or_double : (q b : ℕ) → bit_or (q + q) b ≡ bit_or q (b / 2) * 2 + b % 2
bit_or_double q b =
    let e : (q + q) / 2 ≡ q = omega arith in bit_or-div-mod (q + q) b ∙ rw e (omega arith)

mod_double : (p a : ℕ) → 0 < p → a % (p + p) ≡ a / 2 % p * 2 + a % 2
mod_double p a h = grind arith

div_double : (p a : ℕ) → 0 < p → a / (p + p) ≡ a / 2 / p
div_double p a h = grind arith

pub pow_pos : (k : ℕ) → 0 < 2 ^ k
pow_pos zero = omega arith
pow_pos (suc k) = omega (arith, two-pow-succ k, pow_pos k)

-- A mask of the `k` lowest bits, written `m`.
pub bit_and_low : (k m a : ℕ) → m + 1 ≡ 2 ^ k → bit_and a m ≡ a % 2 ^ k
bit_and_low zero m a h = let e : m ≡ 0 = omega arith in rw (e, bit_and-zero a) (omega arith)
bit_and_low (suc k) m a h =
    rw (two-pow-succ k, mod_double (2 ^ k) a (pow_pos k))
      (omega (
        arith,
        two-pow-succ k,
        pow_pos k,
        bit_and-div-mod a m,
        bit_and_low k (m / 2) (a / 2) (omega (arith, two-pow-succ k)),
      ))

-- A mask of bits from the `k`th on.
pub bit_and_high : (k m a : ℕ) → bit_and a (m * 2 ^ k) ≡ bit_and (a / 2 ^ k) m * 2 ^ k
bit_and_high zero m a =
    let e : m * 1 ≡ m = omega arith in let e' : a / 1 ≡ a = omega arith in rw (e, e') (omega arith)
bit_and_high (suc k) m a =
    let e : m * (2 ^ k + 2 ^ k) ≡ m * 2 ^ k + m * 2 ^ k = omega arith in
    rw (two-pow-succ k, div_double (2 ^ k) a (pow_pos k), e)
      (omega (arith, bit_and_double a (m * 2 ^ k), bit_and_high k m (a / 2)))

-- Fields that do not overlap.
pub bit_or_disjoint : (k a b : ℕ) → b < 2 ^ k → bit_or (a * 2 ^ k) b ≡ a * 2 ^ k + b
bit_or_disjoint zero a b h =
    let e : b ≡ 0 = omega arith in
    let e' : a * 1 ≡ a = omega arith in rw (e, e', or-zero a) (omega arith)
bit_or_disjoint (suc k) a b h =
    let e : a * (2 ^ k + 2 ^ k) ≡ a * 2 ^ k + a * 2 ^ k = omega arith in
    rw (two-pow-succ k, e)
      (omega (
        arith,
        two-pow-succ k,
        bit_or_double (a * 2 ^ k) b,
        bit_or_disjoint k a (b / 2) (omega (arith, two-pow-succ k)),
      ))

or_double_right : (b q : ℕ) → bit_or b (q + q) ≡ bit_or (b / 2) q * 2 + b % 2
or_double_right b q =
    let e : (q + q) / 2 ≡ q = omega arith in bit_or-div-mod b (q + q) ∙ rw e (omega arith)

pub bit_or_disjoint_right : (k b a : ℕ) → b < 2 ^ k → bit_or b (a * 2 ^ k) ≡ b + a * 2 ^ k
bit_or_disjoint_right zero b a h = let e : b ≡ 0 = omega arith in rw (e, bit_or-zero) (omega arith)
bit_or_disjoint_right (suc k) b a h =
    let e : a * (2 ^ k + 2 ^ k) ≡ a * 2 ^ k + a * 2 ^ k = omega arith in
    rw (two-pow-succ k, e)
      (omega (
        arith,
        two-pow-succ k,
        or_double_right b (a * 2 ^ k),
        bit_or_disjoint_right k (b / 2) a (omega (arith, two-pow-succ k)),
      ))

pub bit_xor-div-mod : (a b : ℕ) → bit_xor a b ≡ bit_xor (a / 2) (b / 2) * 2 + differ (a % 2) (b % 2)
bit_xor-div-mod a b = omega (
  arith,
  lowest_digit (λ b. b) differ (λ b. omega arith) a b,
  bit_xor-bitwise a b,
  bit_xor-bitwise (a / 2) (b / 2),
)

differ_comm : (x y : ℕ) → differ x y ≡ differ y x
differ_comm zero zero = refl
differ_comm zero (suc y) = refl
differ_comm (suc x) zero = refl
differ_comm (suc x) (suc y) = differ_comm x y

xor_comm_below : (n a b : ℕ) → a ≤ n → b ≤ n → bit_xor a b ≡ bit_xor b a
xor_comm_below zero zero zero p q = refl
xor_comm_below zero (suc a) b p q = absurd (omega arith)
xor_comm_below zero zero (suc b) p q = absurd (omega arith)
xor_comm_below (suc n) a b p q = omega (
  arith,
  bit_xor-div-mod a b,
  bit_xor-div-mod b a,
  differ_comm (a % 2) (b % 2),
  xor_comm_below n (a / 2) (b / 2) (omega arith) (omega arith),
)

pub bit_xor_comm : (a b : ℕ) → bit_xor a b ≡ bit_xor b a
bit_xor_comm a b = xor_comm_below (a + b) a b (omega arith) (omega arith)
