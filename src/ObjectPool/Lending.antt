-- ===== src/ObjectPool/Lending.antt =====
-- An object of objectpool/objectpool.h is free, or lent to one client.
use tools_demo.Base.{
  ℕ, ◌+◌, ◌-◌, ◌≤◌, ◌≡◌, refl, sym, ap, subst, ◌∙◌, Bool, true, Option, List, ◌∷◌, ◌++◌, ℕ_discrete,
  if◌then◌else◌, arith,
}
use tools_demo.ObjectPool.Defs.{Pool, Created, null, object, undefined, create, destroy}
use tools_demo.ObjectPool.Manager.{
  Manager, no_object, one_object, manage, create_by, destroy_by, call, destructor,
  set_destroy_callback,
}
use tools_demo.ObjectPool.History.{
  count, count-append, constructed, World, Step, creates, nothing, destroys, Steps, here, next,
  start, Inv, create-object, create-null,
}

manage-one :
    (r : Created) (p : ℕ) (m n : Manager)
    → manage m r ≡ one_object p n
    → (t : Pool) × (r ≡ object p t)
      × (n ≡ record { pool = t; callback = set_destroy_callback p m.callback })
unfolding manage
manage-one (null s) p m n e = absurd (ground (arith, e))
manage-one (object q s) p m n e = (s, ground (arith, e), ground (arith, e))
manage-one undefined p m n e = absurd (ground (arith, e))

manage-none :
    (r : Created) (m n : Manager)
    → manage m r ≡ no_object n
    → (t : Pool) × (r ≡ null t) × (n ≡ record m { pool = t })
unfolding manage
manage-none (null s) m n e = (s, ground (arith, e), ground (arith, e))
manage-none (object q s) m n e = absurd (ground (arith, e))
manage-none undefined m n e = absurd (ground (arith, e))

creates-Inv :
    (size p : ℕ) (locked : Bool) (chunk : Option ℕ) (w : World) (m : Manager)
    → create_by locked size chunk w.manager ≡ one_object p m
    → Inv w
    → Inv (record w {
      manager = m;
      lent = p ∷ w.lent;
      made = w.made ++ constructed locked size chunk w.manager.pool;
    })
unfolding create_by count
creates-Inv size p locked chunk w m e h =
    let pool = w.manager.pool in
    let r = manage-one (create locked size chunk pool) p w.manager m e in
    record {
      all = λ q.
          let o = create-object pool.objects locked size p chunk pool r.0 refl r.1 q in
          let a = h.all q in
          let b = count-append q w.made (constructed locked size chunk pool) in
          let c = ap (λ n. count q n.pool.objects) r.2 in omega (arith, o, a, b, c);
      back = λ q there.
          subst (λ n. n.callback q ≡ true) (sym r.2)
            (elim (ℕ_discrete p q) [
              | yes same ↦ ground (arith, same)
              | no other ↦
                  let b = h.back q (ground (arith, other, there)) in ground (arith, other, b)
            ]);
    }

nothing-Inv :
    (size : ℕ) (locked : Bool) (chunk : Option ℕ) (w : World) (m : Manager)
    → create_by locked size chunk w.manager ≡ no_object m
    → Inv w
    → Inv (record w { manager = m })
unfolding create_by
nothing-Inv size locked chunk w m e h =
    let pool = w.manager.pool in
    let r = manage-none (create locked size chunk pool) w.manager m e in
    let same =
      r.2
      ∙ ap (λ t. record w.manager { pool = t })
          (create-null pool.objects locked size chunk pool r.0 refl r.1) in
    subst (λ n. Inv (record w { manager = n })) (sym same) (record { all = h.all; back = h.back })

destroys-Inv :
    (p : ℕ) (locked : Bool) (before after : List ℕ) (w : World)
    → w.lent ≡ before ++ p ∷ after
    → Inv w
    → Inv (record w {
      manager = destroy_by locked p w.manager;
      lent = before ++ after;
      lost = if locked then w.lost else p ∷ w.lost;
    })
unfolding destroy_by call destroy count
destroys-Inv p locked before after w e h =
    let lent : (q : ℕ) → count q w.lent ≡ count q before + count q (p ∷ after) =
      λ q. ap (count q) e ∙ count-append q before (p ∷ after) in
    let back : w.manager.callback p ≡ true = h.back p (let l = lent p in ground (arith, l)) in
    record {
      all = λ q.
          let l = lent q in
          let a = h.all q in let b = count-append q before after in ground (arith, l, a, b, back);
      back = λ q there.
          let l = lent q in
          let b = count-append q before after in
          let c = h.back q (omega (arith, l, b, there)) in ground (arith, c, back);
    }

step-Inv : (size : ℕ) (v w : World) → Step size v w → Inv v → Inv w
step-Inv size v w (creates locked chunk p m e) h = creates-Inv size p locked chunk v m e h
step-Inv size v w (nothing locked chunk m e) h = nothing-Inv size locked chunk v m e h
step-Inv size v w (destroys locked p before after e) h = destroys-Inv p locked before after v e h

Steps-Inv : (size : ℕ) (v w : World) → Steps size v w → Inv v → Inv w
Steps-Inv size v w here h = h
Steps-Inv size v w (next {u = u} steps step) h = step-Inv size u w step (Steps-Inv size v u steps h)

start-Inv : (s : Pool) → Inv (start s)
unfolding count
start-Inv s = record { all = λ q. omega arith; back = λ q there. absurd (omega (arith, there)) }

-- From a pool whose free objects are all that were constructed, however clients create and destroy
-- objects, if the constructed objects have addresses of their own, an
-- object is at most once free, lent or lost, so that no two clients have it, and none is free while it is lent.
pub lent_once :
    (size : ℕ) (s : Pool) (w : World)
    → Steps size (start s) w
    → ((q : ℕ) → count q w.made ≤ 1)
    → (q : ℕ) → count q w.manager.pool.objects + count q w.lent + count q w.lost ≤ 1
lent_once size s w steps own q =
    let a = (Steps-Inv size (start s) w steps (start-Inv s)).all q in
    let b = own q in omega (arith, a, b)

-- From a pool whose free objects are all that were constructed, however clients create and destroy
-- objects, the destructor of the pool destroys each constructed object once, less those that are still lent and
-- those that were lost because the mutex was not taken for their Destroy.
pub destructor_lem :
    (size : ℕ) (s : Pool) (w : World)
    → Steps size (start s) w
    → (q : ℕ)
    → count q (destructor w.manager.pool).0 ≡ count q w.made - (count q w.lent + count q w.lost)
unfolding destructor
destructor_lem size s w steps q =
    let a = (Steps-Inv size (start s) w steps (start-Inv s)).all q in omega (arith, a)
