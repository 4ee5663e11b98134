-- ===== src/Split/Defs.antt =====
-- `Delimiter` and `split2vector<std::string, Delimiter>` of splite2vector/test.h. A character is its code,
-- and a stream is what is left of its string.
use tools_demo.Base.{
  ℕ, zero, suc, ◌+◌, Bool, true, false, Option, none, some, List, [], ◌∷◌, ◌++◌, ◌==◌,
  if◌then◌else◌, length,
}

-- `table_vec[c] = std::ctype_base::space`
abbrev pub set_space : ℕ → (ℕ → Bool) → ℕ → Bool
set_space c table d = if c == d then true else table d

-- `init_table`: whether the mask of a character is space
unfoldable pub table : ℕ → Bool
table = set_space b'}' (
    set_space b'{' (set_space b']' (set_space b'[' (set_space b'"' (set_space b',' (λ c. false))))))

-- `operator>>` for a string skips spaces, and then takes what is up to the next space.
unfoldable pub skip : List ℕ → List ℕ
skip [] = []
skip (c ∷ cs) = let rest = skip cs in if table c then rest else c ∷ cs

unfoldable pub take_word : List ℕ → List ℕ × List ℕ
take_word [] = ([], [])
take_word (c ∷ cs) = let r = take_word cs in if table c then ([], c ∷ cs) else (c ∷ r.0, r.1)

-- A word that is taken; none where it is empty, which is a failure of the stream
abbrev pub taken : List ℕ × List ℕ → Option (List ℕ × List ℕ)
taken ([], rest) = none
taken (c ∷ w, rest) = some (c ∷ w, rest)

unfoldable pub extract : List ℕ → Option (List ℕ × List ℕ)
extract stream = taken (take_word (skip stream))

-- `std::copy` from the stream to the end of the vector, on fuel
unfoldable pub copy : ℕ → List ℕ → List (List ℕ) → Option (List (List ℕ))
copy zero stream output = none
copy (suc fuel) stream output = elim (extract stream) [
  | none ↦ some output
  | some (word, rest) ↦ copy fuel rest (output ++ word ∷ [])
]

unfoldable pub split2vector : List ℕ → List (List ℕ) → Option (List (List ℕ))
split2vector [] output = some output
split2vector (c ∷ input) output = copy (length (c ∷ input) + 1) (c ∷ input) output
