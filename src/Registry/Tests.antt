-- ===== src/Registry/Tests.antt =====
-- The theorem on `ObjectRegistry` at a name that is registered twice.
use tools_demo.Base.{ℕ, refl, List, [], ◌∷◌, ℕ_discrete, arith, length, ap, ◌∙◌, drop, get_or}
use tools_demo.Registry.Defs.{Registry}

unfoldable bytes_discrete : Discrete (List ℕ)
bytes_discrete [] [] = yes refl
bytes_discrete [] (y ∷ ys) = no (λ e. absurd (omega (arith, ap length e)))
bytes_discrete (x ∷ xs) [] = no (λ e. absurd (omega (arith, ap length e)))
bytes_discrete (x ∷ xs) (y ∷ ys) =
    let rest = bytes_discrete xs ys in
    elim (ℕ_discrete x y) [
      | no ne ↦ no (λ e. ne (ap (λ l. get_or l 0 0) e))
      | yes h ↦ elim rest [
        | no ne ↦ no (λ e. ne (ap (drop 1) e))
        | yes t ↦ yes (ap (λ z. z ∷ xs) h ∙ ap (λ l. y ∷ l) t)
      ]
    ]

abbrev name : List ℕ
name = 97 ∷ []

abbrev calls : Registry ℕ
calls = ([], 1) ∷ (name, 2) ∷ (name, 3) ∷ []
