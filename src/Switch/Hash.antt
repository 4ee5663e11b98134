-- ===== src/Switch/Hash.antt =====
-- `hash_` and `hash_compile_time` of switch/switch.cpp, and the switch on them. A string is the list of
-- its bytes with the zero at its end, and a `char` is signed. A read past the list has no result.
use Prim.Native.Nat.{bit_xor}
use tools_demo.Base.{
  ℕ, ◌+◌, ◌-◌, ◌*◌, ◌%◌, ◌^◌, ◌≡◌, refl, ap, ◌∙◌, Option, none, some, List, [], ◌∷◌, arith, ◌==◌,
  ltb, if◌then◌else◌, ◌>>=◌,
}
use tools_demo.Base.Bits.{bit_xor_comm}

-- `prime` and `basis`
abbrev pub prime : ℕ
prime = 0x100000001B3

abbrev pub basis : ℕ
basis = 0xCBF29CE484222325

-- A `char` as a `hash_t`
abbrev pub extended : ℕ → ℕ
extended c = if ltb c 128 then c else c + (2 ^ 64 - 256)

unfoldable pub hash_loop : List ℕ → ℕ → Option ℕ
hash_loop [] ret = none
hash_loop (c ∷ str) ret =
    let rest = hash_loop str (bit_xor ret (extended c) * prime % 2 ^ 64) in
    if c == 0 then some ret else rest

-- `hash_`
unfoldable pub hash : List ℕ → Option ℕ
hash str = hash_loop str basis

unfoldable pub hash_compile_time : List ℕ → ℕ → Option ℕ
hash_compile_time [] last_value = none
hash_compile_time (c ∷ str) last_value =
    let rest = hash_compile_time str (bit_xor (extended c) last_value * prime % 2 ^ 64) in
    if c == 0 then some last_value else rest

-- The switch of `simple_switch`: which of its four branches runs, for the strings of its three cases
unfoldable pub simple_switch : List ℕ → List ℕ → List ℕ → List ℕ → Option ℕ
simple_switch first second third str = do
  h ← hash str
  h1 ← hash_compile_time first basis
  h2 ← hash_compile_time second basis
  h3 ← hash_compile_time third basis
  some (if h == h1 then 1 else if h == h2 then 2 else if h == h3 then 3 else 0)

-- The loop and the constant expression hash alike from any value.
loop_compile : (str : List ℕ) (v : ℕ) → hash_loop str v ≡ hash_compile_time str v
unfolding hash_loop hash_compile_time
loop_compile [] v = refl
loop_compile (c ∷ str) v =
    let same = loop_compile str (bit_xor v (extended c) * prime % 2 ^ 64) in
    let turn = ap (λ k. hash_compile_time str (k * prime % 2 ^ 64)) (bit_xor_comm v (extended c)) in
    ground (arith, same ∙ turn)

-- `hash_` of a string is what the literal operator computes of it, from any value at the start of the
-- loop, also for bytes that are negative as a `char`.
pub hash_lem :
    (str : List ℕ) (v : ℕ)
    → (hash_loop str v ≡ hash_compile_time str v) × (hash str ≡ hash_compile_time str basis)
unfolding hash
hash_lem str v = (loop_compile str v, loop_compile str basis)
