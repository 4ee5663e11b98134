-- ===== src/Arena/Regions.antt =====
-- Regions of memory that do not overlap.
use tools_demo.Base.{ℕ, ◌+◌, ◌≤◌, ◌⊎◌, inl, inr, List, [], ◌∷◌, arith}

abbrev pub Apart : ℕ → ℕ → ℕ → ℕ → Type 0
Apart a n b m = (a + n ≤ b) ⊎ (b + m ≤ a)

-- The region overlaps none of the list.
abbrev pub AllApart : ℕ → ℕ → List (ℕ × ℕ) → Type 0
AllApart a n [] = Unit
AllApart a n ((b, m) ∷ rs) = Apart a n b m × AllApart a n rs

-- No two overlap.
abbrev pub IsApart : List (ℕ × ℕ) → Type 0
IsApart [] = Unit
IsApart ((a, n) ∷ rs) = AllApart a n rs × IsApart rs

-- The region lies in one of the blocks.
abbrev pub Within : ℕ → ℕ → List (ℕ × ℕ) → Type 0
Within a n [] = ⊥
Within a n ((b, m) ∷ bs) = ((b ≤ a) × (a + n ≤ b + m)) ⊎ Within a n bs

abbrev pub AllWithin : List (ℕ × ℕ) → List (ℕ × ℕ) → Type 0
AllWithin [] bs = Unit
AllWithin ((a, n) ∷ rs) bs = Within a n bs × AllWithin rs bs

sub_one : (a n a' n' b m : ℕ) → a ≤ a' → a' + n' ≤ a + n → Apart a n b m → Apart a' n' b m
sub_one a n a' n' b m p q (inl h) = inl (omega arith)
sub_one a n a' n' b m p q (inr h) = inr (omega arith)

-- A part of a region that is apart is apart.
pub sub_AllApart :
    (a n a' n' : ℕ) (rs : List (ℕ × ℕ))
    → a ≤ a'
    → a' + n' ≤ a + n
    → AllApart a n rs
    → AllApart a' n' rs
sub_AllApart a n a' n' [] p q h = tt
sub_AllApart a n a' n' ((b, m) ∷ rs) p q (h, hs) =
    (sub_one a n a' n' b m p q h, sub_AllApart a n a' n' rs p q hs)

pub sub_Within :
    (a n a' n' : ℕ) (bs : List (ℕ × ℕ)) → a ≤ a' → a' + n' ≤ a + n → Within a n bs → Within a' n' bs
sub_Within a n a' n' [] p q h = absurd h
sub_Within a n a' n' ((b, m) ∷ bs) p q (inl (u, v)) = inl (omega arith, omega arith)
sub_Within a n a' n' ((b, m) ∷ bs) p q (inr h) = inr (sub_Within a n a' n' bs p q h)

Apart-Within : (a n b m : ℕ) (bs : List (ℕ × ℕ)) → AllApart a n bs → Within b m bs → Apart a n b m
Apart-Within a n b m [] h w = absurd w
Apart-Within a n b m ((c, k) ∷ bs) (inl h, hs) (inl (u, v)) = inl (omega arith)
Apart-Within a n b m ((c, k) ∷ bs) (inr h, hs) (inl (u, v)) = inr (omega arith)
Apart-Within a n b m ((c, k) ∷ bs) (h, hs) (inr w) = Apart-Within a n b m bs hs w

-- What is apart from the blocks is apart from what lies in them.
pub apart_AllWithin :
    (a n : ℕ) (rs bs : List (ℕ × ℕ)) → AllApart a n bs → AllWithin rs bs → AllApart a n rs
apart_AllWithin a n [] bs h w = tt
apart_AllWithin a n ((b, m) ∷ rs) bs h (w, ws) =
    (Apart-Within a n b m bs h w, apart_AllWithin a n rs bs h ws)

pub grow_AllWithin :
    (block : ℕ × ℕ) (rs bs : List (ℕ × ℕ)) → AllWithin rs bs → AllWithin rs (block ∷ bs)
grow_AllWithin block [] bs w = tt
grow_AllWithin block ((b, m) ∷ rs) bs (w, ws) = (inr w, grow_AllWithin block rs bs ws)
