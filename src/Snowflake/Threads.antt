-- ===== src/Snowflake/Threads.antt =====
-- The calls of `generate` of snowflake_demo/snowflake.h by several threads, against calls one after another.
use tools_demo.Base.{
  ℕ, ◌≡◌, ◌≢◌, refl, ap, subst, Bool, true, false, some, List, [], ◌∷◌, arith, Bool-cases, inl, inr,
}
use tools_demo.Snowflake.Defs.{Snowflake, generate, id, waiting, overflow}
use tools_demo.Snowflake.Lock.{
  compare_exchange, Pc, idle, spinning, entered, computing, unlocking, broken, finish, move, System,
  start, turn, run,
}
use tools_demo.Snowflake.Exclusion.{holds, replay, IsFresh, Inv, Moved, replay-append, becomes-Inv}

-- Moves that leave the object and the log as they are
keeps :
    (first : Snowflake) (i : ℕ) (p p' : Pc) (s : System) (locked : Bool)
    → Inv first s
    → (holds p' ≡ true → locked ≡ true)
    → (holds p ≡ false → holds p' ≡ true → s.shared.locked ≡ false)
    → ((j : ℕ) → i ≢ j → holds (s.pc j) ≡ true → locked ≡ true)
    → IsFresh p' s.shared.object
    → Moved first i p p' s (record s.shared { locked = locked })
keeps first i p p' s locked h a b c d = record {
  locks = a;
  acquires = b;
  others = c;
  reads = d;
  others_read = λ j other. h.fresh j;
  replays = h.replayed;
}

outside-IsFresh : (p : Pc) (s : Snowflake) → holds p ≡ false → IsFresh p s
outside-IsFresh idle s out = tt
outside-IsFresh spinning s out = tt
outside-IsFresh entered s out = tt
outside-IsFresh (computing read) s out = absurd (ground (arith, out))
outside-IsFresh unlocking s out = tt
outside-IsFresh broken s out = tt

-- While a thread holds the lock, the others do not.
outside :
    (first : Snowflake) (i j : ℕ) (s : System)
    → Inv first s
    → holds (s.pc i) ≡ true
    → i ≢ j
    → holds (s.pc j) ≡ false
outside first i j s h held other = elim (Bool-cases (holds (s.pc j))) [
  | inl both ↦ absurd (other (h.unique i j held both))
  | inr out ↦ out
]

-- A turn of a thread that stands at `p`
After : (first : Snowflake) (i : ℕ) (p : Pc) (clock : List ℕ) (s : System) → Type 0
After first i p clock s = let r = move p clock s.shared in Moved first i p r.0 s r.1

finished :
    (first : Snowflake) (i : ℕ) (read : Snowflake) (clock : List ℕ) (s : System)
    → s.pc i ≡ computing read
    → Inv first s
    → After first i (computing read) clock s
unfolding move finish After
finished first i read clock s e h =
    let held : holds (s.pc i) ≡ true = ap holds e in
    let locked = h.covered i held in
    let same : read ≡ s.shared.object = subst (λ p. IsFresh p s.shared.object) e (h.fresh i) in
    elim (generate clock read)
        as (λ r.
          generate clock read ≡ r
          → (let q = finish read clock r s.shared in Moved first i (computing read) q.0 s q.1)) [
            | id v rest t ↦ λ g. record {
              locks = λ a. locked;
              acquires = λ a b. absurd (ground (arith, a));
              others = λ j other a. locked;
              reads = tt;
              others_read =
                  λ j other. outside-IsFresh (s.pc j) t (outside first i j s h held other);
              replays =
                  replay-append s.shared.log first s.shared.object t clock v h.replayed
                    (ground (arith, g, same));
            }
            | waiting ↦ λ g.
                keeps first i (computing read) (computing read) s s.shared.locked h (λ a. locked)
                  (λ a b. absurd (ground (arith, a))) (λ j other a. locked) same
            | overflow ↦ λ g.
                keeps first i (computing read) broken s s.shared.locked h (λ a. locked)
                  (λ a b. absurd (ground (arith, a))) (λ j other a. locked) tt
          ]
      refl

moves :
    (first : Snowflake) (i : ℕ) (p : Pc) (clock : List ℕ) (s : System)
    → s.pc i ≡ p
    → Inv first s
    → After first i p clock s
unfolding move compare_exchange After
moves first i idle clock s e h =
    keeps first i idle spinning s s.shared.locked h (λ a. absurd (ground (arith, a)))
      (λ a b. absurd (ground (arith, b))) (λ j other. h.covered j) tt
moves first i spinning clock s e h =
    elim s.shared.locked
        as (λ b.
          s.shared.locked ≡ b
          → (let r = compare_exchange b in
              Moved first i spinning (elim r.0 [ true ↦ entered | false ↦ spinning ]) s
                (record s.shared { locked = r.1 }))) [
                  | true ↦ λ taken.
                      keeps first i spinning spinning s true h (λ a. refl)
                        (λ a b. absurd (ground (arith, b))) (λ j other a. refl) tt
                  | false ↦ λ free.
                      keeps first i spinning entered s true h (λ a. refl) (λ a b. free)
                        (λ j other a. refl) tt
                ]
      refl
moves first i entered clock s e h =
    let locked = h.covered i (ap holds e) in
    keeps first i entered (computing s.shared.object) s s.shared.locked h (λ a. locked)
      (λ a b. absurd (ground (arith, a))) (λ j other a. locked) refl
moves first i (computing read) clock s e h = finished first i read clock s e h
moves first i unlocking clock s e h =
    keeps first i unlocking idle s false h (λ a. absurd (ground (arith, a)))
      (λ a b. absurd (ground (arith, a)))
      (λ j other a. absurd (other (h.unique i j (ap holds e) a))) tt
moves first i broken clock s e h =
    let locked = h.covered i (ap holds e) in
    keeps first i broken broken s s.shared.locked h (λ a. locked)
      (λ a b. absurd (ground (arith, a))) (λ j other a. locked) tt

turn-Inv :
    (first : Snowflake) (i : ℕ) (clock : List ℕ) (s : System)
    → Inv first s
    → Inv first (turn i clock s)
unfolding turn After
turn-Inv first i clock s h =
    let r = move (s.pc i) clock s.shared in
    becomes-Inv first i (s.pc i) r.0 s r.1 refl h (moves first i (s.pc i) clock s refl h)

run-Inv :
    (first : Snowflake) (turns : List (ℕ × List ℕ)) (s : System)
    → Inv first s
    → Inv first (run turns s)
unfolding run
run-Inv first [] s h = h
run-Inv first ((i, clock) ∷ turns) s h =
    run-Inv first turns (turn i clock s) (turn-Inv first i clock s h)

start-Inv : (s : Snowflake) → Inv s (start s)
unfolding replay
start-Inv s = record {
  covered = λ i a. absurd (ground (arith, a));
  unique = λ i j a b. absurd (ground (arith, a));
  fresh = λ i. tt;
  replayed = refl;
}

-- In whatever order threads move, while one of them is between the end of `lock` and `unlock` no other is.
pub lock_excludes :
    (s : Snowflake) (turns : List (ℕ × List ℕ)) (i j : ℕ)
    → i ≢ j
    → holds ((run turns (start s)).pc i) ≡ true
    → holds ((run turns (start s)).pc j) ≡ false
lock_excludes s turns i j other held =
    outside s i j (run turns (start s)) (run-Inv s turns (start s) (start-Inv s)) held other

-- In whatever order threads move, the ids are those of `generate` called one after another from the
-- first object in the order of the stores, and the object is the one after these calls.
pub linearizable :
    (s : Snowflake) (turns : List (ℕ × List ℕ))
    → replay (run turns (start s)).shared.log s ≡ some (run turns (start s)).shared.object
linearizable s turns = (run-Inv s turns (start s) (start-Inv s)).replayed
