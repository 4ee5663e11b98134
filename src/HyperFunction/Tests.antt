-- ===== src/HyperFunction/Tests.antt =====
-- The theorems on `hyper_function` at two function objects.
use tools_demo.Base.{ℕ, ◌≡◌, ◌≢◌, ◌<◌, refl, none, some, [], ◌∷◌, ℕ_discrete, arith}
use tools_demo.Base.Dict.{find}
use tools_demo.HyperFunction.Defs.{Store, ptr, assign_to, call}
use tools_demo.HyperFunction.Values.{Owns, assign_self, assign_lem}

abbrev two : Store ℕ
two = record {
  ptrs = (0, some 10) ∷ (1, some 11) ∷ [];
  states = (10, 70) ∷ (11, 80) ∷ [];
  fresh = 12;
}

second-Owns : Owns 1 11 80 two
unfolding ptr tools_demo.Base.Dict.find ℕ_discrete
second-Owns = record { points = refl; state = refl; below = omega arith }

first_apart : ptr 0 two ≢ some 11
unfolding ptr find ℕ_discrete
first_apart e = absurd (ground (arith, e))

assign_self_example : (t : Store ℕ) × (assign_to 0 0 two ≡ some t) × (ptr 0 t ≡ none)
assign_self_example = assign_self 0 two

assign_lem_example :
    (t : Store ℕ) × (assign_to 0 1 two ≡ some t) × (call 0 t ≡ some 80) × Owns 1 11 80 t
assign_lem_example = assign_lem 0 1 11 80 two (λ e. omega (arith, e)) first_apart second-Owns
