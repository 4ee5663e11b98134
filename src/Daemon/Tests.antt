-- ===== src/Daemon/Tests.antt =====
-- The theorems on `Daemon` at the process 4711, and at a kernel that searches its table.
use tools_demo.Base.{
  ℕ, zero, suc, ◌+◌, ◌≤◌, ◌≡◌, refl, true, false, none, some, [], ◌∷◌, arith, get_elem?, length, ap,
  ◌∙◌,
}
use tools_demo.Base.Int.{pos}
use tools_demo.Daemon.PidFile.{PidFile, get_pid, pid_text, already_running}
use tools_demo.Daemon.Running.{get_pid-already_running}
use tools_demo.Daemon.Descriptors.{Table, TakesLowest}

abbrev unlocked : PidFile
unlocked = record { content = []; lock = none }

abbrev held : PidFile
held = record { content = []; lock = some 4711 }

get_pid-already_running_example :
    let r = already_running 4711 true false true (length (pid_text 4711)) unlocked in
    (r.0 ≡ false) × (r.1.lock ≡ some 4711) × (get_pid true (some r.1.content) ≡ pos 4711)
get_pid-already_running_example =
    get_pid-already_running 4711 unlocked (omega arith) (omega arith) refl

-- The first descriptor that is free, after `n` that are not
unfoldable free_from : ℕ → Table → ℕ
free_from n [] = n
free_from n (none ∷ t) = n
free_from n (some f ∷ t) = free_from (n + 1) t

free_from_lem :
    (n i : ℕ) (t : Table)
    → get_elem? t i ≡ some none
    → (k : ℕ) × (free_from n t ≡ n + k) × (get_elem? t k ≡ some none) × (k ≤ i)
unfolding free_from
free_from_lem n i [] e = absurd (ground (arith, e))
free_from_lem n i (none ∷ t) e = (0, omega arith, refl, omega arith)
free_from_lem n zero (some f ∷ t) e = absurd (ground (arith, e))
free_from_lem n (suc i) (some f ∷ t) e =
    let (k, a, b, c) = free_from_lem (n + 1) i t e in (suc k, omega (arith, a), b, omega (arith, c))

free_from-TakesLowest : TakesLowest (free_from 0)
free_from-TakesLowest t i e =
    let (k, a, b, c) = free_from_lem 0 i t e in
    let same : free_from 0 t ≡ k = omega (arith, a) in
    (ap (get_elem? t) same ∙ b, omega (arith, same, c))
