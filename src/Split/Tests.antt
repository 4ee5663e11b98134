-- ===== src/Split/Tests.antt =====
-- The theorem on `split2vector` at a list in brackets.
use tools_demo.Base.{ℕ, ◌≡◌, refl, true, arith, some, List, [], ◌∷◌, ◌++◌}
use tools_demo.Split.Defs.{split2vector, table}
use tools_demo.Split.Words.{split2vector_lem, text, words, IsSplit, AllAre}

-- `ab","c d]`
abbrev pieces : List (List ℕ × List ℕ)
pieces = (b'a' ∷ b'b' ∷ [], b'"' ∷ b',' ∷ b'"' ∷ []) ∷ (b'c' ∷ b' ' ∷ b'd' ∷ [], b']' ∷ []) ∷ []

pieces-IsSplit : IsSplit pieces
unfolding table
pieces-IsSplit = (
  (refl, (refl, tt)),
  (refl, (refl, (refl, tt))),
  λ e. absurd (ground (arith, e)),
  ((refl, (refl, (refl, tt))), (refl, tt)),
)

bracket-AllAre : AllAre true (b'[' ∷ [])
unfolding table
bracket-AllAre = (refl, tt)

split2vector_lem_example :
    split2vector ((b'[' ∷ []) ++ text pieces) []
    ≡ some ((b'a' ∷ b'b' ∷ []) ∷ (b'c' ∷ b' ' ∷ b'd' ∷ []) ∷ [])
unfolding words
split2vector_lem_example = split2vector_lem (b'[' ∷ []) pieces [] bracket-AllAre pieces-IsSplit
