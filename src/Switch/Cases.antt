-- ===== src/Switch/Cases.antt =====
-- `Switch` of switch/switch_deep.h. A callback is the label of what it does.
use tools_demo.Base.{
  or_else, ◌≡◌, refl, sym, ap, ◌∙◌, Bool, true, false, Option, none, some, List, [], ◌∷◌, arith,
  if◌then◌else◌, Option-cases, inl, inr, ite,
}
use tools_demo.Base.Dict.{find, assign, find-assign, IsDistinct}

pub record Switch (K C : Type 0) : Type 0 where
  pub target : K
  pub has_others_scope : Bool
  pub others_scope : Option C
  pub reflections : List (K × C)

-- `select`
abbrev pub select : {K C : Type 0} → K → Switch K C
select t = record { target = t; has_others_scope = false; others_scope = none; reflections = [] }

or_else-ite :
    {C P : Type 0} (a : Option C) (d : Dec P) (c : C) (e : Option C)
    → or_else a (ite d (some c) e) ≡ or_else (or_else a (ite d (some c) none)) e
or_else-ite none (yes p) c e = refl
or_else-ite none (no p) c e = refl
or_else-ite (some x) d c e = refl

module _ {K C : Type 0} (dec : Discrete K) where
  unfoldable pub found : K → C → Switch K C → Switch K C
  found k c s = record s { reflections = assign dec k c s.reflections }

  -- The callback that runs, if one does
  unfoldable pub done : Switch K C → Option C
  done s = elim (find dec s.target s.reflections) [
    | some scope ↦ some scope
    | none ↦ if s.has_others_scope then s.others_scope else none
  ]

  -- It sets the default and calls `done`.
  unfoldable pub others : C → Switch K C → Option C
  others c s = done (record s { has_others_scope = true; others_scope = some c })

  -- the loop over the pairs of another switch
  unfoldable pub combine_loop : List (K × C) → Switch K C → Switch K C
  combine_loop [] s = s
  combine_loop ((k, c) ∷ kvs) s =
      combine_loop kvs (record s { reflections = assign dec k c s.reflections })

  unfoldable pub combine : Switch K C → Switch K C → Switch K C
  combine s other = combine_loop other.reflections s

  -- Any cases, one after another
  unfoldable pub cases : List (K × C) → Switch K C → Switch K C
  cases [] s = s
  cases ((k, c) ∷ fs) s = cases fs (found k c s)

  -- The last case of a list that is for `t`
  unfoldable pub last_for : K → List (K × C) → Option C
  last_for t [] = none
  last_for t ((k, c) ∷ fs) = or_else (last_for t fs) (ite (dec k t) (some c) none)

  cases_lem :
      (fs : List (K × C)) (s : Switch K C) (t : K)
      → (find dec t (cases fs s).reflections ≡ or_else (last_for t fs) (find dec t s.reflections))
        × ((cases fs s).target ≡ s.target)
        × ((cases fs s).has_others_scope ≡ s.has_others_scope)
        × ((cases fs s).others_scope ≡ s.others_scope)
  unfolding cases last_for found
  cases_lem [] s t = (refl, refl, refl, refl)
  cases_lem ((k, c) ∷ fs) s t =
      let (a, b, d, o) = cases_lem fs (found k c s) t in
      (
        a
            ∙ ap (or_else (last_for t fs)) (find-assign dec t k c s.reflections)
            ∙ or_else-ite (last_for t fs) (dec k t) c (find dec t s.reflections),
        b,
        d,
        o,
      )

  -- After any cases for a target and a default, the callback that runs is that of the last case whose
  -- expression is the target, and the default if there is none.
  pub others-cases :
      (fs : List (K × C)) (t : K) (c : C)
      → others c (cases fs (select t)) ≡ or_else (last_for t fs) (some c)
  unfolding others done find
  others-cases fs t c =
      let (a, b, _, _) = cases_lem fs (select t) t in
      elim (Option-cases (last_for t fs)) [
        | inl e ↦ ground (arith, a, b, e)
        | inr (x, e) ↦ ground (arith, a, b, e)
      ]

  loop_lem : (kvs : List (K × C)) (s : Switch K C) → combine_loop kvs s ≡ cases kvs s
  unfolding combine_loop cases found
  loop_lem [] s = refl
  loop_lem ((k, c) ∷ kvs) s = loop_lem kvs (record s { reflections = assign dec k c s.reflections })

  last_for-distinct :
      (t : K) (kvs : List (K × C)) → IsDistinct dec kvs → last_for t kvs ≡ find dec t kvs
  unfolding last_for find
  last_for-distinct t [] d = refl
  last_for-distinct t ((k, c) ∷ kvs) (new, d) =
      let rest = last_for-distinct t kvs d in
      elim (dec k t) [
        | yes e ↦ let gone = ap (λ x. find dec x kvs) (sym e) ∙ new in ground (arith, rest, gone)
        | no ne ↦ elim (Option-cases (find dec t kvs)) [
          | inl e ↦ ground (arith, rest, e)
          | inr (x, e) ↦ ground (arith, rest, e)
        ]
      ]

  -- What runs after `combine` is the case that the other switch has for the target, and without one what
  -- would have run before. The keys of the other switch are distinct, as in a `std::map`.
  pub done-combine :
      (s other : Switch K C)
      → IsDistinct dec other.reflections
      → done (combine s other) ≡ or_else (find dec s.target other.reflections) (done s)
  unfolding done combine
  done-combine s other d =
      let (a, b, e, o) = cases_lem other.reflections s s.target in
      let l = loop_lem other.reflections s in
      let u = last_for-distinct s.target other.reflections d in
      elim (Option-cases (find dec s.target other.reflections)) [
        | inr (x, f) ↦ ground (arith, a, b, l, u, f)
        | inl f ↦ elim (Option-cases (find dec s.target s.reflections)) [
          | inr (x, g) ↦ ground (arith, a, b, l, u, f, g)
          | inl g ↦ ground (arith, a, b, e, o, l, u, f, g)
        ]
      ]
