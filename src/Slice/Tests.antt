-- ===== src/Slice/Tests.antt =====
-- The theorems on `Slice` at short strings.
use tools_demo.Base.{◌≡◌, some, [], ◌∷◌, arith}
use tools_demo.Base.Int.{negsuc}
use tools_demo.Slice.Defs.{Slice, slice, to_string, compare}
use tools_demo.Slice.Order.{lex, compare_lem}

-- "hello" of a longer array, "help" and "hel"
abbrev hello : Slice
hello = slice (104 ∷ 101 ∷ 108 ∷ 108 ∷ 111 ∷ 33 ∷ []) 5

abbrev help : Slice
help = slice (104 ∷ 101 ∷ 108 ∷ 112 ∷ []) 4

abbrev hel : Slice
hel = slice (104 ∷ 101 ∷ 108 ∷ []) 3

compare_lem_example : compare hello help ≡ some (negsuc 0)
unfolding lex to_string
compare_lem_example = compare_lem hello help (omega arith) (omega arith)
