-- ===== src/Arena/Tests.antt =====
-- The theorems on `Arena` at a new one.
use tools_demo.Base.{ℕ, ◌≡◌, ◌%◌, refl, inl, inr, some, [], ◌∷◌, arith}
use tools_demo.Arena.Defs.{Arena, allocate_aligned}
use tools_demo.Arena.Safety.{Owns, allocate_aligned-Owns}

-- An arena that gave out five bytes of its first block
abbrev used : Arena
used = record {
  alloc_ptr = 8197;
  alloc_bytes_remaining = 4091;
  blocks = (8192, 4096) ∷ [];
  memory_usage = 4104;
}

used-Owns : Owns used ((8192, 5) ∷ [])
used-Owns = record {
  apart = (tt, tt);
  within = (inl (omega arith, omega arith), tt);
  free_apart = (inr (omega arith), tt);
  free_within = inr (inl (omega arith, omega arith));
  usage = refl;
}

allocate_aligned-Owns_example :
    (p : ℕ) × (t : Arena) × (allocate_aligned 20480 10 used ≡ some (p, t))
    × (p % 8 ≡ 0)
    × Owns t ((p, 10) ∷ (8192, 5) ∷ [])
allocate_aligned-Owns_example =
    allocate_aligned-Owns 20480 10 used ((8192, 5) ∷ []) used-Owns (inr (omega arith), tt) refl
      (omega arith) (omega arith)
