-- ===== src/HyperFunction/Values.antt =====
-- What a function object calls after an assignment.
use tools_demo.Base.{
  ℕ, ◌+◌, ◌≡◌, ◌≢◌, ◌<◌, refl, ap, subst, ◌∙◌, Option, none, some, ℕ_discrete, Option-cases, inl,
  inr, arith,
}
use tools_demo.Base.Dict.{find, assign, erase, find-assign, find-erase_ne}
use tools_demo.HyperFunction.Defs.{
  Store, ptr, set_ptr, new_state, clone, copy, destroy, assign_to, call,
}

module _ {C : Type 0} where
  ptr-set_ptr :
      (x y : ℕ) (p : Option ℕ) (s : Store C)
      → (x ≡ y → ptr y (set_ptr x p s) ≡ p) × (x ≢ y → ptr y (set_ptr x p s) ≡ ptr y s)
  unfolding ptr set_ptr
  ptr-set_ptr x y p s =
      let e = find-assign ℕ_discrete y x p s.ptrs in
      (λ same. ground (arith, e, same), λ differ. ground (arith, e, differ))

  ptr-destroy : (x : ℕ) (s : Store C) → ptr x (destroy x s) ≡ none
  unfolding destroy
  ptr-destroy x s = elim (Option-cases (ptr x s)) [
    | inl e ↦ subst (λ t. ptr x t ≡ none) {x = s} (ground (arith, e)) e
    | inr (p, e) ↦
        let left = record s { states = erase ℕ_discrete p s.states } in
        subst (λ t. ptr x t ≡ none) {x = set_ptr x none left} (ground (arith, e))
          ((ptr-set_ptr x x none left).0 refl)
  ]

  copy_null : (x y : ℕ) (s : Store C) → ptr y s ≡ none → copy x y s ≡ some (set_ptr x none s)
  unfolding copy clone
  copy_null x y s e = ground (arith, e)

  -- An assignment of a function object to itself leaves it empty.
  pub assign_self :
      (x : ℕ) (s : Store C) → (t : Store C) × (assign_to x x s ≡ some t) × (ptr x t ≡ none)
  unfolding assign_to
  assign_self x s =
      let left = destroy x s in
      (
        set_ptr x none left,
        copy_null x x left (ptr-destroy x s),
        (ptr-set_ptr x x none left).0 refl,
      )

  -- `y` owns the state `q`, which calls `c`.
  pub record Owns (y q : ℕ) (c : C) (s : Store C) : Type 0 where
    pub points : ptr y s ≡ some q
    pub state : find ℕ_discrete q s.states ≡ some c
    pub below : q < s.fresh

  destroy-Owns :
      (x y q : ℕ) (c : C) (s : Store C)
      → x ≢ y
      → ptr x s ≢ some q
      → Owns y q c s
      → Owns y q c (destroy x s)
  unfolding destroy ptr set_ptr
  destroy-Owns x y q c s differ apart h = elim (Option-cases (ptr x s)) [
    | inl e ↦ subst (Owns y q c) {x = s} (ground (arith, e)) h
    | inr (p, e) ↦
        let left = record s { states = erase ℕ_discrete p s.states } in
        let other : p ≢ q = λ same. apart (e ∙ ap some same) in
        subst (Owns y q c) {x = set_ptr x none left} (ground (arith, e)) (record {
          points = (ptr-set_ptr x y none left).1 differ ∙ h.points;
          state = find-erase_ne ℕ_discrete q p s.states other ∙ h.state;
          below = h.below;
        })
  ]

  copy_lem :
      (x y q : ℕ) (c : C) (s : Store C)
      → x ≢ y
      → Owns y q c s
      → (t : Store C) × (copy x y s ≡ some t) × (call x t ≡ some c) × Owns y q c t
  unfolding copy clone new_state call ptr set_ptr
  copy_lem x y q c s differ h =
      let grown = record s { states = assign ℕ_discrete s.fresh c s.states; fresh = s.fresh + 1 } in
      let t = set_ptr x (some s.fresh) grown in
      let at_x = (ptr-set_ptr x x (some s.fresh) grown).0 refl in
      let at_y = (ptr-set_ptr x y (some s.fresh) grown).1 differ in
      let made = find-assign ℕ_discrete s.fresh s.fresh c s.states in
      let kept = find-assign ℕ_discrete q s.fresh c s.states in
      let far : s.fresh ≢ q = λ e. omega (arith, h.below, e) in
      (
        t,
        ground (arith, h.points, h.state),
        ground (arith, at_x, made),
        record {
          points = at_y ∙ h.points;
          state = ground (arith, kept, far, h.state);
          below = omega (arith, h.below);
        },
      )

  -- An assignment from another function object that owns a state of its own: both then call what it
  -- called, and it owns its state as before.
  pub assign_lem :
      (x y q : ℕ) (c : C) (s : Store C)
      → x ≢ y
      → ptr x s ≢ some q
      → Owns y q c s
      → (t : Store C) × (assign_to x y s ≡ some t) × (call x t ≡ some c) × Owns y q c t
  unfolding assign_to
  assign_lem x y q c s differ apart h =
      copy_lem x y q c (destroy x s) differ (destroy-Owns x y q c s differ apart h)
