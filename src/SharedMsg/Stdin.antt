-- ===== src/SharedMsg/Stdin.antt =====
-- The standard input of SharedMemoryMsgClient.c as the characters that are left, and the reads of it.
use tools_demo.Base.{ℕ, ◌||◌, List, [], ◌∷◌, ◌==◌, if◌then◌else◌}
use tools_demo.Base.Text.{is_space, skip_spaces}

abbrev pub newline : ℕ
newline = 10

-- The characters up to the next space, and what is left
unfoldable pub word : List ℕ → List ℕ × List ℕ
word [] = ([], [])
word (c ∷ cs) = let (w, rest) = word cs in if is_space c then ([], c ∷ cs) else (c ∷ w, rest)

-- `scanf("%s")`: what it stores, nothing at the end of the input
unfoldable pub scan_word : List ℕ → List ℕ × List ℕ
scan_word cs = word (skip_spaces cs)

-- The loop of `getchar` up to the end of the line or of the input. Its `c` is a `char`, where the byte 255
-- is EOF.
unfoldable pub flush : List ℕ → List ℕ
flush [] = []
flush (c ∷ cs) = let rest = flush cs in if c == newline || c == 255 then cs else rest
