-- ===== src/ObjectPool/History.antt =====
-- The objects of objectpool/objectpool.h over their life, lent by an ObjectManager
-- (objectpool/objectmanager.h) and given back by `Destroy` (objectpool/destroyable.h).
use tools_demo.Base.{
  ℕ, ◌+◌, ◌≤◌, ◌≡◌, refl, Bool, true, false, Option, List, [], ◌∷◌, ◌++◌, ◌&&◌, ite, ℕ_discrete,
  if◌then◌else◌, arith, Bool-cases, inl, inr,
}
use tools_demo.ObjectPool.Defs.{Pool, Created, create, increase_objects, pop_front, is_empty}
use tools_demo.ObjectPool.Manager.{Manager, no_object, one_object, create_by, destroy_by}

unfoldable pub count : ℕ → List ℕ → ℕ
count q [] = 0
count q (p ∷ ps) = ite (ℕ_discrete q p) 1 0 + count q ps

pub count-append : (q : ℕ) (xs ys : List ℕ) → count q (xs ++ ys) ≡ count q xs + count q ys
unfolding count
count-append q [] ys = omega arith
count-append q (x ∷ xs) ys = let rest = count-append q xs ys in omega (arith, rest)

-- What a call of `create` constructs: all that is in the list after the growth, which was empty
unfoldable pub constructed : Bool → ℕ → Option ℕ → Pool → List ℕ
constructed locked size chunk s =
    if locked && is_empty s.objects then (increase_objects size chunk s.inc_num s).1.objects else []

-- A manager, the objects that its clients have, those whose return found the mutex not free, and all that
-- were constructed
pub record World : Type 0 where
  pub manager : Manager
  pub lent : List ℕ
  pub lost : List ℕ
  pub made : List ℕ

-- A client calls Create, or Destroy of an object that it has.
pub data Step (size : ℕ) (w : World) : World → Type 0 where
  creates :
      (locked : Bool) (chunk : Option ℕ) (p : ℕ) (m : Manager)
      → create_by locked size chunk w.manager ≡ one_object p m
      → Step size w (record w {
        manager = m;
        lent = p ∷ w.lent;
        made = w.made ++ constructed locked size chunk w.manager.pool;
      })
  nothing :
      (locked : Bool) (chunk : Option ℕ) (m : Manager)
      → create_by locked size chunk w.manager ≡ no_object m
      → Step size w (record w { manager = m })
  destroys :
      (locked : Bool) (p : ℕ) (before after : List ℕ)
      → w.lent ≡ before ++ p ∷ after
      → Step size w (record w {
        manager = destroy_by locked p w.manager;
        lent = before ++ after;
        lost = if locked then w.lost else p ∷ w.lost;
      })

pub data Steps (size : ℕ) (w : World) : World → Type 0 where
  here : Steps size w w
  next : {u v : World} → Steps size w u → Step size u v → Steps size w v

-- A pool after its constructor
abbrev pub start : Pool → World
start s = record {
  manager = record { pool = s; callback = λ p. false };
  lent = [];
  lost = [];
  made = s.objects;
}

pub record Inv (w : World) : Type 0 where
  pub all :
      (q : ℕ) → count q w.manager.pool.objects + count q w.lent + count q w.lost ≡ count q w.made
  pub back : (q : ℕ) → 1 ≤ count q w.lent → w.manager.callback q ≡ true

pop_front_lem :
    (o : List ℕ) (p : ℕ) (s t : Pool)
    → s.objects ≡ o
    → pop_front s ≡ Created.object p t
    → s.objects ≡ p ∷ t.objects
unfolding pop_front
pop_front_lem [] p s t o e = absurd (ground (arith, o, e))
pop_front_lem (q ∷ qs) p s t o e = ground (arith, o, e)

pop_front_some : (o : List ℕ) (s t : Pool) → s.objects ≡ o → ¬ pop_front s ≡ Created.null t
unfolding pop_front
pop_front_some [] s t o e = absurd (ground (arith, o, e))
pop_front_some (q ∷ qs) s t o e = absurd (ground (arith, o, e))

pub create-object :
    (o : List ℕ) (locked : Bool) (size p : ℕ) (chunk : Option ℕ) (s t : Pool)
    → s.objects ≡ o
    → create locked size chunk s ≡ Created.object p t
    → (q : ℕ)
    → count q s.objects + count q (constructed locked size chunk s) ≡ count q (p ∷ t.objects)
unfolding create constructed count
create-object o false size p chunk s t h e q = absurd (ground (arith, e))
create-object [] true size p chunk s t h e q =
    let r = increase_objects size chunk s.inc_num s in
    elim (Bool-cases r.0) [
      | inl grew ↦
          let f : pop_front r.1 ≡ Created.object p t = ground (arith, e, h, grew) in
          let popped = pop_front_lem r.1.objects p r.1 t refl f in ground (arith, h, popped)
      | inr none_there ↦ absurd (ground (arith, e, h, none_there))
    ]
create-object (r ∷ rs) true size p chunk s t h e q =
    let f : pop_front s ≡ Created.object p t = ground (arith, e, h) in
    let popped = pop_front_lem (r ∷ rs) p s t h f in ground (arith, h, popped)

increase_fails :
    (size inc : ℕ) (chunk : Option ℕ) (s : Pool)
    → (increase_objects size chunk inc s).0 ≡ false
    → (increase_objects size chunk inc s).1 ≡ s
unfolding increase_objects
increase_fails size inc chunk s e = ground (arith, e)

pub create-null :
    (o : List ℕ) (locked : Bool) (size : ℕ) (chunk : Option ℕ) (s t : Pool)
    → s.objects ≡ o
    → create locked size chunk s ≡ Created.null t
    → t ≡ s
unfolding create
create-null o false size chunk s t h e = ground (arith, e)
create-null [] true size chunk s t h e =
    let r = increase_objects size chunk s.inc_num s in
    elim (Bool-cases r.0) [
      | inl grew ↦
          let f : pop_front r.1 ≡ Created.null t = ground (arith, e, h, grew) in
          absurd (pop_front_some r.1.objects r.1 t refl f)
      | inr none_there ↦
          ground (arith, e, h, none_there, increase_fails size s.inc_num chunk s none_there)
    ]
create-null (q ∷ qs) true size chunk s t h e =
    let f : pop_front s ≡ Created.null t = ground (arith, e, h) in
    absurd (pop_front_some (q ∷ qs) s t h f)
