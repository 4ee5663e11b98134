-- ===== src/Registry/First.antt =====
-- In each registry the first registration of a name stays.
use tools_demo.Base.{
  or_else, ℕ, ◌≡◌, ◌≢◌, refl, sym, ap, ◌∙◌, Option, none, some, List, [], ◌∷◌, arith, Option-cases,
  inl, inr, ite,
}
use tools_demo.Base.Dict.{find, emplace, find-emplace}
use tools_demo.Registry.Defs.{Registry, register_object, get_object, register_message, produce}

module _ {A : Type 0} (dec : Discrete (List ℕ)) where
  -- The first entry for a name in a list of registrations
  unfoldable pub first_for : List ℕ → Registry A → Option A
  first_for n [] = none
  first_for n ((k, a) ∷ rs) = or_else (ite (dec k n) (some a) none) (first_for n rs)

  unfoldable pub register_all : Registry A → Registry A → Registry A
  register_all [] r = r
  register_all ((k, a) ∷ rs) r = register_all rs (register_object dec k a r)

  unfoldable pub message_all : Registry A → Registry A → Registry A
  message_all [] r = r
  message_all ((k, a) ∷ rs) r = message_all rs (register_message dec k a r)

  -- A name that is there stays, and another is there if it is the one that is registered.
  emplace_lem :
      (n k : List ℕ) (a : A) (r : Registry A) (f : Option A)
      → or_else (find dec n (emplace dec k a r)) f
        ≡ or_else (find dec n r) (or_else (ite (dec k n) (some a) none) f)
  emplace_lem n k a r f =
      let e = find-emplace dec n k a r in
      elim (Option-cases (find dec n r)) [
        | inl g ↦ ground (arith, e, g)
        | inr (x, g) ↦ ground (arith, e, g)
      ]

  or_none : (o : Option A) → o ≡ or_else o none
  or_none none = refl
  or_none (some a) = refl

  message_from :
      (n : List ℕ) (rs r : Registry A)
      → find dec n (message_all rs r) ≡ or_else (find dec n r) (first_for n rs)
  unfolding message_all first_for register_message
  message_from n [] r = or_none (find dec n r)
  message_from n ((k, a) ∷ rs) r =
      message_from n rs (emplace dec k a r) ∙ emplace_lem n k a r (first_for n rs)

  -- After any registrations of messages, `produce` makes the object of the first registration of the key,
  -- and throws if there is none.
  pub produce_first :
      (n : List ℕ) (rs : Registry A) → produce dec n (message_all rs []) ≡ first_for n rs
  unfolding produce find
  produce_first n rs = message_from n rs []

  register_lem :
      (n k : List ℕ) (a : A) (r : Registry A)
      → n ≢ []
      → (f : Option A)
      → or_else (find dec n (register_object dec k a r)) f
        ≡ or_else (find dec n r) (or_else (ite (dec k n) (some a) none) f)
  unfolding register_object
  register_lem n [] a r named f =
      elim (dec [] n)
        as (λ d.
          or_else (find dec n r) f ≡ or_else (find dec n r) (or_else (ite d (some a) none) f)) [
            | yes e ↦ absurd (named (sym e))
            | no ne ↦ refl
          ]
  register_lem n (c ∷ k) a r named f = elim (Option-cases (find dec (c ∷ k) r)) [
    | inl new ↦ ground (arith, new, emplace_lem n (c ∷ k) a r f)
    | inr (x, old) ↦ elim (Option-cases (find dec n r)) [
      | inr (y, g) ↦ ground (arith, old, g)
      | inl g ↦ elim (dec (c ∷ k) n) [
        | yes e ↦ absurd (ground (arith, old, g, ap (λ m. find dec m r) e))
        | no ne ↦ ground (arith, old, g, ne)
      ]
    ]
  ]

  register_from :
      (n : List ℕ) (rs r : Registry A)
      → n ≢ []
      → find dec n (register_all rs r) ≡ or_else (find dec n r) (first_for n rs)
  unfolding register_all first_for
  register_from n [] r named = or_none (find dec n r)
  register_from n ((k, a) ∷ rs) r named =
      register_from n rs (register_object dec k a r) named
      ∙ register_lem n k a r named (first_for n rs)

  -- After any registrations of objects, `get_object` of a name that is not empty makes the object of the
  -- first registration of the name, and returns `NULL` if there is none.
  pub get_object_first :
      (n : List ℕ) (rs : Registry A)
      → n ≢ []
      → get_object dec n (register_all rs []) ≡ first_for n rs
  unfolding get_object find
  get_object_first n rs named = register_from n rs [] named
