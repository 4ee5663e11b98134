-- ===== src/SharedMsg/Memory.antt =====
-- What the shared memory of linux-sharedMsg holds while a word is stored.
use tools_demo.Base.{
  ℕ, suc, ◌<◌, ◌≡◌, refl, ap, some, List, [], ◌∷◌, ◌++◌, ◌==◌, if◌then◌else◌, length, set,
  replicate, arith,
}
use tools_demo.SharedMsg.Server.{c_string}

-- A word as `printf` shows it: up to a zero in it
abbrev pub cut : List ℕ → List ℕ
cut [] = []
cut (c ∷ cs) = let rest = cut cs in if c == 0 then [] else c ∷ rest

pub c_string-cut : (w rest : List ℕ) → c_string (w ++ 0 ∷ rest) ≡ some (cut w)
unfolding c_string
c_string-cut [] rest = refl
c_string-cut (c ∷ w) rest = ground (arith, c_string-cut w rest)

pub c_string-replicate : (n : ℕ) → c_string (replicate (suc n) 0) ≡ some []
unfolding c_string
c_string-replicate n = refl

-- The first characters of the memory are `w`.
abbrev pub StartsWith : List ℕ → List ℕ → Type 0
StartsWith shm w = (rest : List ℕ) × (shm ≡ w ++ rest)

pub set_next :
    (shm w : List ℕ) (c : ℕ)
    → StartsWith shm w
    → length w < length shm
    → (rest : List ℕ) × (set shm (length w) c ≡ w ++ c ∷ rest)
set_next shm [] c ([], e) lt = absurd (omega (arith, ap length e))
set_next shm [] c (r ∷ rest, e) lt = (rest, ap (λ m. set m 0 c) e)
set_next [] (x ∷ w) c (rest, e) lt = absurd (ground (arith, e))
set_next (y ∷ shm) (x ∷ w) c (rest, e) lt =
    let same : y ≡ x = ground (arith, e) in
    let tail : shm ≡ w ++ rest = ground (arith, e) in
    let (more, f) = set_next shm w c (rest, tail) (omega arith) in (more, ground (arith, same, f))
