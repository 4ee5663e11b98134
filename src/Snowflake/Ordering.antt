-- ===== src/Snowflake/Ordering.antt =====
-- The order of the ids that `generate` returns one after another.
use tools_demo.Base.{
  ◌≢◌, subst, ℕ, zero, suc, ◌+◌, ◌*◌, ◌≤◌, ◌<◌, ◌≡◌, refl, sym, ◌⊎◌, inl, inr, List, [], ◌∷◌, arith,
}
use tools_demo.Snowflake.Defs.{Snowflake, Generated, id, waiting, overflow, generate}
use tools_demo.Snowflake.Fields.{id_of, IsClock, again, wrapped, fresh, Issued}
use tools_demo.Snowflake.Calls.{generate_lem}

-- The ids of `n` calls, up to one that waits
unfoldable pub ids : ℕ → List ℕ → Snowflake → List ℕ
ids zero clock s = []
ids (suc n) clock s = elim (generate clock s) [
  | id v rest s' ↦ v ∷ ids n rest s'
  | waiting ↦ []
  | overflow ↦ []
]

-- None is below the one before it, and the first is not below `v`.
abbrev pub IsSorted : ℕ → List ℕ → Type 0
IsSorted v [] = Unit
IsSorted v (w ∷ ws) = (v ≤ w) × IsSorted w ws

-- The next id is not below `v`.
abbrev Floor : ℕ → Snowflake → List ℕ → Type 0
Floor v s clock =
    (v ≤ id_of s.last_ms s.machine 4095)
    × ((v ≤ id_of s.last_ms s.machine s.sequence)
        ⊎ IsClock ((s.last_ms + s.epoch + 1) * 1000) clock)

Floor-after :
    (s s' : Snowflake) (us v : ℕ) (rest : List ℕ)
    → s.sequence < 4096
    → Issued s us v rest s'
    → Floor v s' rest × ((t : ℕ) × IsClock t rest)
Floor-after s s' us v rest h i = elim i.step [
  | again l n e k ↦ (
    (omega (arith, i.machine_kept), inl (omega (arith, i.machine_kept))),
    ((s.last_ms + s.epoch) * 1000, k),
  )
  | wrapped l n e k ↦ (
    (
      omega (arith, i.machine_kept),
      inr (subst (λ x. IsClock x rest) (omega (arith, i.epoch_kept)) k),
    ),
    ((s.last_ms + s.epoch + 1) * 1000, k),
  )
  | fresh l n e k ↦ (
    (omega (arith, i.machine_kept), inl (omega (arith, i.machine_kept))),
    ((s'.last_ms + s.epoch) * 1000, k),
  )
]

-- The next id is not below the floor.
floor_next :
    (s s' : Snowflake) (t us v w : ℕ) (rest : List ℕ)
    → (w ≤ id_of s.last_ms s.machine 4095)
    → ((w ≤ id_of s.last_ms s.machine s.sequence) ⊎ ((s.last_ms + s.epoch + 1) * 1000 ≤ t))
    → t ≤ us
    → Issued s us v rest s'
    → w ≤ v
floor_next s s' t us v w rest top low late i = elim i.step [
  | again l n e k ↦ ground (arith, i.time)
  | wrapped l n e k ↦ ground (arith, i.time)
  | fresh l n e k ↦ omega arith
]

-- What `n` more calls of a state count on
abbrev Ready : ℕ → Snowflake → List ℕ → Type 0
Ready v s clock = (s.sequence < 4096) × ((t : ℕ) × IsClock t clock) × Floor v s clock

next-Ready :
    (v w : ℕ) (clock rest : List ℕ) (s s' : Snowflake)
    → Ready v s clock
    → generate clock s ≡ id w rest s'
    → (v ≤ w) × Ready w s' rest
next-Ready v w clock rest s s' (h, (t, k), (top, inl low)) e =
    let (us, late, i) = generate_lem t w clock rest s s' h k e in
    let (f, c) = Floor-after s s' us w rest h i in
    (floor_next s s' t us w v rest top (inl low) late i, (i.in_range, c, f))
next-Ready v w clock rest s s' (h, k, (top, inr c)) e =
    let t = (s.last_ms + s.epoch + 1) * 1000 in
    let (us, late, i) = generate_lem t w clock rest s s' h c e in
    let (f, c') = Floor-after s s' us w rest h i in
    (floor_next s s' t us w v rest top (inr (omega arith)) late i, (i.in_range, c', f))

Generated-cases :
    (g : Generated)
    → (g ≡ waiting)
      ⊎ ((g ≡ overflow) ⊎ ((w : ℕ) × (rest : List ℕ) × (s : Snowflake) × (g ≡ id w rest s)))
Generated-cases waiting = inl refl
Generated-cases overflow = inr (inl refl)
Generated-cases (id w rest s) = inr (inr (w, rest, s, refl))

ids_from : (n v : ℕ) (clock : List ℕ) (s : Snowflake) → Ready v s clock → IsSorted v (ids n clock s)
unfolding ids
ids_from zero v clock s ready = tt
ids_from (suc n) v clock s ready = elim (Generated-cases (generate clock s)) [
  | inl e ↦ ground (arith, e)
  | inr (inl e) ↦ ground (arith, e)
  | inr (inr (w, rest, s', e)) ↦
      let (le, more) = next-Ready v w clock rest s s' ready e in
      let step : ids (suc n) clock s ≡ w ∷ ids n rest s' = ground (arith, e) in
      subst (IsSorted v) (sym step) (le, ids_from n w rest s' more)
]

-- The ids that any number of calls return one after another never go down, on a clock that never goes
-- back, from any state whose number is below 4096.
pub ids-IsSorted :
    (n t : ℕ) (clock : List ℕ) (s : Snowflake)
    → s.sequence < 4096
    → IsClock t clock
    → IsSorted 0 (ids n clock s)
ids-IsSorted n t clock s h k = ids_from n 0 clock s (h, (t, k), (omega arith, inl (omega arith)))

-- Two calls of which the first begins a new millisecond and the second falls in the same one return the
-- same id.
pub generate_twice :
    (t v w : ℕ) (clock rest last : List ℕ) (s s' s'' : Snowflake)
    → s.sequence < 4096
    → IsClock t clock
    → generate clock s ≡ id v rest s'
    → generate rest s' ≡ id w last s''
    → s'.last_ms ≢ s.last_ms
    → s''.last_ms ≡ s'.last_ms
    → w ≡ v
generate_twice t v w clock rest last s s' s'' h k e e' new same =
    let (us, _, i) = generate_lem t v clock rest s s' h k e in
    elim i.step [
      | again l n _ _ ↦ absurd (new l)
      | wrapped l n _ _ ↦ absurd (new l)
      | fresh l n is c ↦
          let (_, _, i') = generate_lem _ w rest last s' s'' i.in_range c e' in
          elim i'.step [
            | again _ _ is' _ ↦ ground (arith, i.machine_kept)
            | wrapped _ _ is' _ ↦ ground (arith, i.machine_kept)
            | fresh l' _ _ _ ↦ absurd (omega arith)
          ]
    ]
