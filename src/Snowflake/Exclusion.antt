-- ===== src/Snowflake/Exclusion.antt =====
-- The threads of snowflake_demo/snowflake.h call `generate` one after another.
use tools_demo.Base.{
  ℕ, ◌≡◌, ◌≢◌, sym, ap, subst, ◌∙◌, Bool, true, false, Option, none, some, List, [], ◌∷◌, ◌++◌,
  ℕ_discrete, arith, if◌then◌else◌, Bool-cases, ◌==◌, Option-cases, inl, inr,
}
use tools_demo.Snowflake.Defs.{Snowflake, generate, Generated, id, waiting, overflow}
use tools_demo.Snowflake.Lock.{
  Pc, idle, spinning, entered, computing, unlocking, broken, Shared, System, update,
}

-- Between the end of `lock` and the store of `unlock`
abbrev pub holds : Pc → Bool
holds idle = false
holds spinning = false
holds entered = true
holds (computing s) = true
holds unlocking = true
holds broken = true

abbrev pub returned : Generated → ℕ → Option Snowflake
returned (id v rest s) w = if v == w then some s else none
returned waiting w = none
returned overflow w = none

-- `generate` called one after another with the clock readings of a log, as long as the ids are those of
-- the log: the object after it
unfoldable pub replay : List (List ℕ × ℕ) → Snowflake → Option Snowflake
replay [] s = some s
replay ((clock, v) ∷ log) s = elim (returned (generate clock s) v) [
  | none ↦ none
  | some t ↦ replay log t
]

-- A thread in the body has read the object as it is.
abbrev pub IsFresh : Pc → Snowflake → Type 0
IsFresh (computing read) s = read ≡ s
IsFresh idle s = Unit
IsFresh spinning s = Unit
IsFresh entered s = Unit
IsFresh unlocking s = Unit
IsFresh broken s = Unit

pub record Inv (first : Snowflake) (s : System) : Type 0 where
  pub covered : (i : ℕ) → holds (s.pc i) ≡ true → s.shared.locked ≡ true
  pub unique : (i j : ℕ) → holds (s.pc i) ≡ true → holds (s.pc j) ≡ true → i ≡ j
  pub fresh : (i : ℕ) → IsFresh (s.pc i) s.shared.object
  pub replayed : replay s.shared.log first ≡ some s.shared.object

pub replay-append :
    (log : List (List ℕ × ℕ)) (s t u : Snowflake) (clock : List ℕ) (v : ℕ)
    → replay log s ≡ some t
    → returned (generate clock t) v ≡ some u
    → replay (log ++ (clock, v) ∷ []) s ≡ some u
unfolding replay
replay-append [] s t u clock v e f = ground (arith, e, f)
replay-append ((c, w) ∷ log) s t u clock v e f = elim (Option-cases (returned (generate c s) w)) [
  | inl stuck ↦ absurd (ground (arith, e, stuck))
  | inr (r, g) ↦
      let rest : replay log r ≡ some t = ground (arith, e, g) in
      ground (arith, g, replay-append log r t u clock v rest f)
]

-- What a move of the thread `i` from `p` to `p'` must keep
pub record Moved (first : Snowflake) (i : ℕ) (p p' : Pc) (s : System) (m : Shared) : Type 0 where
  pub locks : holds p' ≡ true → m.locked ≡ true
  pub acquires : holds p ≡ false → holds p' ≡ true → s.shared.locked ≡ false
  pub others : (j : ℕ) → i ≢ j → holds (s.pc j) ≡ true → m.locked ≡ true
  pub reads : IsFresh p' m.object
  pub others_read : (j : ℕ) → i ≢ j → IsFresh (s.pc j) m.object
  pub replays : replay m.log first ≡ some m.object

update-other : (f : ℕ → Pc) (i j : ℕ) (p : Pc) → i ≢ j → update f i p j ≡ f j
update-other f i j p other = ground (arith, other)

update-same : (f : ℕ → Pc) (i j : ℕ) (p : Pc) → i ≡ j → update f i p j ≡ p
update-same f i j p same = ground (arith, same)

-- No other thread holds the lock after a move of a thread that holds it then.
alone :
    (first : Snowflake) (i j : ℕ) (p p' : Pc) (s : System) (m : Shared)
    → s.pc i ≡ p
    → Inv first s
    → Moved first i p p' s m
    → i ≢ j
    → holds p' ≡ true
    → ¬ holds (s.pc j) ≡ true
alone first i j p p' s m e h k other a b = elim (Bool-cases (holds p)) [
  | inl held ↦ other (h.unique i j (ap holds e ∙ held) b)
  | inr free ↦ absurd (ground (arith, h.covered j b, k.acquires free a))
]

pub becomes-Inv :
    (first : Snowflake) (i : ℕ) (p p' : Pc) (s : System) (m : Shared)
    → s.pc i ≡ p
    → Inv first s
    → Moved first i p p' s m
    → Inv first (record { pc = update s.pc i p'; shared = m })
becomes-Inv first i p p' s m e h k = record {
  covered = λ j held. elim (ℕ_discrete i j) [
    | yes same ↦ k.locks (ap holds (sym (update-same s.pc i j p' same)) ∙ held)
    | no other ↦ k.others j other (ap holds (sym (update-other s.pc i j p' other)) ∙ held)
  ];
  unique = λ j l a b. elim (ℕ_discrete i j) [
    | yes same ↦ elim (ℕ_discrete i l) [
      | yes same' ↦ sym same ∙ same'
      | no other ↦ absurd (
          alone first i l p p' s m e h k other (ap holds (sym (update-same s.pc i j p' same)) ∙ a)
            (ap holds (sym (update-other s.pc i l p' other)) ∙ b))
    ]
    | no other ↦ elim (ℕ_discrete i l) [
      | yes same ↦ absurd (
          alone first i j p p' s m e h k other (ap holds (sym (update-same s.pc i l p' same)) ∙ b)
            (ap holds (sym (update-other s.pc i j p' other)) ∙ a))
      | no other' ↦
          h.unique j l (ap holds (sym (update-other s.pc i j p' other)) ∙ a)
            (ap holds (sym (update-other s.pc i l p' other')) ∙ b)
    ]
  ];
  fresh = λ j. elim (ℕ_discrete i j) [
    | yes same ↦ subst (λ q. IsFresh q m.object) (sym (update-same s.pc i j p' same)) k.reads
    | no other ↦
        subst (λ q. IsFresh q m.object) (sym (update-other s.pc i j p' other))
          (k.others_read j other)
  ];
  replayed = k.replays;
}
