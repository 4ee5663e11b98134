-- ===== src/Small/Tests.antt =====
-- The theorems on the small programs at concrete inputs.
use tools_demo.Base.{ℕ, ◌≡◌, some, List, [], ◌∷◌, arith, inl, inr}
use tools_demo.Small.Segments.{Segment, segment, lower_bound, Contains, lower_bound_lem}

abbrev segments : List Segment
segments = segment 10 19 ∷ segment 30 39 ∷ []

lower_bound_lem_example : (s : Segment) × (lower_bound 35 segments ≡ some s) × Contains s 35
lower_bound_lem_example =
    lower_bound_lem 35 segments (omega arith, omega arith, omega arith)
      (inr (inl (omega arith, omega arith)))

abbrev key : List ℕ
key = 107 ∷ []

abbrev script : List ℕ
script = 115 ∷ []
