-- ===== src/ObjectPool/Counts.antt =====
-- How many objects a pool has, lends and may have.
use native.Mathlib.Nat.{mod-eq_of_lt}
use tools_demo.Base.{
  Bool-cases, ℕ, zero, suc, ◌+◌, ◌-◌, ◌%◌, ◌^◌, ◌≤◌, ◌<◌, ◌≡◌, refl, sym, ap, subst, inl, inr, Bool,
  true, not, Option, none, some, List, [], ◌∷◌, arith, length, length-append, ltb, max,
  if◌then◌else◌, dec_le,
}
use tools_demo.ObjectPool.Defs.{
  Pool, construct, increase_objects, init, set_max_num, Created, null, object, undefined, pop_front,
  create, destroy, is_empty,
}

-- Of the objects of the pool `lent` are in use, and they are no more than the maximum.
pub record Counts (s : Pool) (lent : ℕ) : Type 0 where
  pub all : length s.objects + lent ≡ s.curr_num
  pub bounded : s.curr_num ≤ s.max_num

length-construct : (size chunk n : ℕ) → length (construct size chunk n) ≡ n
unfolding construct
length-construct size chunk zero = refl
length-construct size chunk (suc n) = omega (arith, length-construct size (chunk + size) n)

-- The sums of `IncreaseObjects` do not wrap.
sums :
    (inc : ℕ) (s : Pool)
    → s.max_num + inc < 2 ^ 64
    → s.curr_num ≤ s.max_num
    → let m = (s.curr_num + inc) % 2 ^ 64 in
      let n = if ltb s.max_num m then s.max_num - s.curr_num else inc in
      (m ≡ s.curr_num + inc) × ((s.curr_num + n) % 2 ^ 64 ≡ s.curr_num + n)
sums inc s small h =
    let m : (s.curr_num + inc) % 2 ^ 64 ≡ s.curr_num + inc = mod-eq_of_lt (omega arith) in
    (m, mod-eq_of_lt (ground (arith, m)))

increase-Counts :
    (size : ℕ) (chunk : Option ℕ) (inc lent : ℕ) (s : Pool)
    → s.max_num + inc < 2 ^ 64
    → Counts s lent
    → Counts (increase_objects size chunk inc s).1 lent
unfolding increase_objects
increase-Counts size none inc lent s small c = elim (dec_le s.max_num s.curr_num) [
  | yes full ↦ record { all = ground (arith, c.all); bounded = ground (arith, c.bounded) }
  | no room ↦ record { all = ground (arith, c.all); bounded = ground (arith, c.bounded) }
]
increase-Counts size (some p) inc lent s small c =
    let n = if ltb s.max_num ((s.curr_num + inc) % 2 ^ 64) then s.max_num - s.curr_num else inc in
    let more = length-append s.objects (construct size p n) in
    let k = length-construct size p n in
    elim (dec_le s.max_num s.curr_num) [
      | yes full ↦ record { all = ground (arith, c.all); bounded = ground (arith, c.bounded) }
      | no room ↦
          let exact = sums inc s small c.bounded in
          record {
            all = ground (arith, c.all, more, k, exact);
            bounded = ground (arith, c.bounded, exact);
          }
    ]

-- A new pool of a size that does not overflow, whose allocator may fail has no more objects than its maximum, and lends none.
pub init-Counts :
    (size : ℕ) (chunk : Option ℕ) (init_num max_num inc_num : ℕ)
    → max max_num init_num + init_num < 2 ^ 64
    → Counts (init size chunk init_num max_num inc_num) 0
unfolding init
init-Counts size chunk init_num max_num inc_num small =
    increase-Counts size chunk init_num 0 _ (ground arith)
      (record { all = refl; bounded = omega arith })

pub set_max_num-Counts : (n lent : ℕ) (s : Pool) → Counts s lent → Counts (set_max_num n s) lent
unfolding set_max_num
set_max_num-Counts n lent s c = elim (dec_le n s.curr_num) [
  | yes small ↦ record { all = ground (arith, c.all); bounded = ground arith }
  | no large ↦ record { all = ground (arith, c.all); bounded = ground arith }
]

-- The call has a result, and lends an object more if it returns one.
abbrev pub Lends : Created → ℕ → Type 0
Lends (null s) lent = Counts s lent
Lends (object p s) lent = Counts s (lent + 1)
Lends undefined lent = ⊥

pop_front-Lends :
    (s : Pool) (lent : ℕ) → 0 < length s.objects → Counts s lent → Lends (pop_front s) lent
unfolding pop_front
pop_front-Lends s lent pos c = go s.objects refl
  where
    go : (l : List ℕ) → s.objects ≡ l → Lends (pop_front s) lent
    go [] e = absurd (omega (arith, ap length e))
    go (p ∷ ps) e =
        let popped : pop_front s ≡ object p (record s { objects = ps }) = ground (arith, e) in
        subst (λ x. Lends x lent) (sym popped)
          (record { all = omega (arith, c.all, ap length e); bounded = c.bounded })

-- Growing by a positive number leaves an object.
grown_pos :
    (size : ℕ) (chunk : Option ℕ) (inc : ℕ) (s : Pool)
    → 0 < inc
    → s.max_num + inc < 2 ^ 64
    → (increase_objects size chunk inc s).0 ≡ true
    → 0 < length (increase_objects size chunk inc s).1.objects
unfolding increase_objects
grown_pos size none inc s pos small e = elim (dec_le s.max_num s.curr_num) [
  | yes full ↦ absurd (ground arith)
  | no room ↦ absurd (ground arith)
]
grown_pos size (some p) inc s pos small e =
    let n = if ltb s.max_num ((s.curr_num + inc) % 2 ^ 64) then s.max_num - s.curr_num else inc in
    let more = length-append s.objects (construct size p n) in
    let k = length-construct size p n in
    elim (dec_le s.max_num s.curr_num) [
      | yes full ↦ absurd (ground arith)
      | no room ↦
          let m : (s.curr_num + inc) % 2 ^ 64 ≡ s.curr_num + inc = mod-eq_of_lt (omega arith) in
          ground (arith, more, k, m)
    ]

is_empty_lem : (l : List ℕ) → not (is_empty l) ≡ true → 0 < length l
is_empty_lem [] e = absurd (cc)
is_empty_lem (p ∷ ps) e = omega arith

-- `Create` of a pool that counts right, whose increment is not 0 and does not overflow a sum, never reads an empty list: it returns
-- `NULL`, or it returns an object and lends one more; and the objects in use stay within the maximum.
pub create-Lends :
    (locked : Bool) (size : ℕ) (chunk : Option ℕ) (s : Pool) (lent : ℕ)
    → Counts s lent
    → 0 < s.inc_num
    → s.max_num + s.inc_num < 2 ^ 64
    → Lends (create locked size chunk s) lent
unfolding create
create-Lends locked size chunk s lent c pos small =
    let grown = increase_objects size chunk s.inc_num s in
    elim (Bool-cases (not locked)) [
      | inl busy ↦ ground (arith, busy, c)
      | inr free ↦ elim (Bool-cases (not (is_empty s.objects))) [
        | inl some_left ↦
            subst (λ x. Lends x lent) {x = pop_front s} (ground (arith, free, some_left))
              (pop_front-Lends s lent (is_empty_lem s.objects some_left) c)
        | inr gone ↦ elim (Bool-cases grown.0) [
          | inl more ↦
              subst (λ x. Lends x lent) {x = pop_front grown.1} (ground (arith, free, gone, more))
                (pop_front-Lends grown.1 lent (grown_pos size chunk s.inc_num s pos small more)
                  (increase-Counts size chunk s.inc_num lent s small c))
          | inr failed ↦
              subst (λ x. Lends x lent) {x = null grown.1} (ground (arith, free, gone, failed))
                (increase-Counts size chunk s.inc_num lent s small c)
        ]
      ]
    ]

-- With the increment 0, `Create` of a pool that lends all its objects and may have more reads the front
-- of an empty list, if the allocator returns memory for nothing.
pub create_nothing :
    (size p : ℕ) (s : Pool)
    → s.objects ≡ []
    → s.inc_num ≡ 0
    → s.curr_num < s.max_num
    → s.max_num < 2 ^ 64
    → create true size (some p) s ≡ undefined
unfolding create increase_objects pop_front construct
create_nothing size p s none_left no_inc room small =
    let m : (s.curr_num + 0) % 2 ^ 64 ≡ s.curr_num + 0 = mod-eq_of_lt (omega arith) in
    ground (arith, none_left, no_inc, m)

-- An object that is destroyed is no longer in use, and it is the one that the next `Create` returns.
pub destroy-create :
    (p size : ℕ) (chunk : Option ℕ) (s : Pool) (lent : ℕ)
    → Counts s (lent + 1)
    → Counts (destroy true (some p) s) lent
      × (create true size chunk (destroy true (some p) s) ≡ object p s)
unfolding destroy create pop_front
destroy-create p size chunk s lent c =
    (record { all = omega (arith, c.all); bounded = c.bounded }, ground arith)
