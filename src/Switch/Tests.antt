-- ===== src/Switch/Tests.antt =====
-- The theorems on the switches at short strings and two cases.
use tools_demo.Base.{ℕ, false, none, List, [], ◌∷◌}
use tools_demo.Switch.Cases.{Switch}

-- The bytes of a string that ends with 0, one of them negative as a `char`
abbrev text : List ℕ
text = 97 ∷ 228 ∷ 0 ∷ []

abbrev first_switch : Switch ℕ ℕ
first_switch = record {
  target = 1;
  has_others_scope = false;
  others_scope = none;
  reflections = (1, 10) ∷ [];
}

abbrev second_switch : Switch ℕ ℕ
second_switch = record first_switch { reflections = (1, 11) ∷ (2, 20) ∷ [] }
