-- ===== src/Base/Text.antt =====
-- Texts as lists of bytes: spaces and words, and the decimal numbers of `printf` and `scanf`.
use Prim.Native.Nat.{ℕ, zero, suc, ◌+◌, ◌-◌, ◌*◌, ◌/◌, ◌%◌, ◌^◌, ◌≤◌, ◌<◌}
use mathlib.Core.Path.{◌≡◌, refl}
use mathlib.Core.Bool.{Bool, ◌&&◌, ◌||◌}
use mathlib.Core.List.{List, [], ◌∷◌}
use native.Mathlib.Omega.{arith}
use tools_demo.Base.Tests.{ltb, leb, ◌==◌, if◌then◌else◌}
use tools_demo.Base.Lists.{length}
use native.Mathlib.Decide.{dec_lt}

-- `isspace`
abbrev pub is_space : ℕ → Bool
is_space c = c == 32 || (leb 9 c && leb c 13)

abbrev pub is_digit : ℕ → Bool
is_digit c = leb 48 c && leb c 57

unfoldable pub skip_spaces : List ℕ → List ℕ
skip_spaces [] = []
skip_spaces (c ∷ cs) = let rest = skip_spaces cs in if is_space c then rest else c ∷ cs

-- The decimal digits of a number in front of a text, with fuel
unfoldable pub digits_onto : ℕ → ℕ → List ℕ → List ℕ
digits_onto zero n text = (48 + n) ∷ text
digits_onto (suc f) n text =
    let more = digits_onto f (n / 10) ((48 + n % 10) ∷ text) in
    if ltb n 10 then (48 + n) ∷ text else more

-- The number of the digits at the front, after `acc`
unfoldable pub digits_value : ℕ → List ℕ → ℕ
digits_value acc [] = acc
digits_value acc (c ∷ cs) =
    let rest = digits_value (acc * 10 + (c - 48)) cs in if is_digit c then rest else acc

pub digits_value-digits_onto :
    (f n : ℕ) (text : List ℕ)
    → n < 10 ^ suc f
    → digits_value 0 (digits_onto f n text) ≡ digits_value n text
unfolding digits_value digits_onto
digits_value-digits_onto zero n text lt = ground arith
digits_value-digits_onto (suc f) n text lt = elim (dec_lt n 10) [
  | yes small ↦ ground arith
  | no large ↦
      let rest = digits_value-digits_onto f (n / 10) ((48 + n % 10) ∷ text) (omega arith) in
      let whole : n / 10 * 10 + n % 10 ≡ n = omega arith in ground (arith, rest, whole)
]

pub length-digits_onto :
    (f n : ℕ) (text : List ℕ) → length (digits_onto f n text) ≤ f + 1 + length text
unfolding digits_onto
length-digits_onto zero n text = omega arith
length-digits_onto (suc f) n text =
    ground (arith, length-digits_onto f (n / 10) ((48 + n % 10) ∷ text))

-- The text starts with a digit.
pub digits_onto-cons :
    (f n : ℕ) (text : List ℕ)
    → n < 10 ^ suc f
    → (c : ℕ) × (cs : List ℕ) × (digits_onto f n text ≡ c ∷ cs) × (48 ≤ c) × (c ≤ 57)
unfolding digits_onto
digits_onto-cons zero n text lt = (48 + n, text, refl, omega arith, omega arith)
digits_onto-cons (suc f) n text lt = elim (dec_lt n 10) [
  | yes small ↦ (48 + n, text, ground arith, omega arith, omega arith)
  | no large ↦
      let (c, cs, e, lo, hi) = digits_onto-cons f (n / 10) ((48 + n % 10) ∷ text) (omega arith) in
      (c, cs, ground (arith, e), lo, hi)
]
