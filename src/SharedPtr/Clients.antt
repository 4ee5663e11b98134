-- ===== src/SharedPtr/Clients.antt =====
-- Threads that load and store the pointer of safe_operation_obj/save_obj_main.cpp, in any order.
use tools_demo.Base.{
  ℕ, ◌+◌, ◌-◌, ◌≤◌, ◌≡◌, refl, ap, ◌∙◌, Option, none, some, List, [], ◌∷◌, ◌++◌, if◌then◌else◌,
  ◌==◌, arith,
}
use tools_demo.SharedPtr.Defs.{World, release, load, store, make_new}
use tools_demo.SharedPtr.Counting.{
  one_to, count, Inv, release-Inv, store-Inv, load-Inv, make-Inv, storage-store,
}

abbrev pub push : Option ℕ → List ℕ → List ℕ
push none held = held
push (some a) held = a ∷ held

-- The pointers of the threads that are not null, and the objects that were made
pub record Clients : Type 0 where
  pub world : World
  pub held : List ℕ
  pub made : List ℕ

-- A thread makes an object, stores a pointer that is null or that a thread has, loads, or ends a pointer.
pub data Step (c : Clients) : Clients → Type 0 where
  makes :
      (a : ℕ)
      → count a c.made ≡ 0
      → Step c (record { world = make_new a c.world; held = a ∷ c.held; made = a ∷ c.made })
  clears : Step c (record c { world = store none c.world })
  stores : (a : ℕ) → 1 ≤ count a c.held → Step c (record c { world = store (some a) c.world })
  loads : Step c (record c { world = (load c.world).1; held = push (load c.world).0 c.held })
  drops :
      (a : ℕ) (before after : List ℕ)
      → c.held ≡ before ++ a ∷ after
      → Step c (record c { world = release (some a) c.world; held = before ++ after })

abbrev pub empty : Clients
empty = record {
  world = record { storage = none; use_counts = λ a. 0; destroyed = []; printed = [] };
  held = [];
  made = [];
}

pub data Reach : Clients → Type 0 where
  here : Reach empty
  next : {c d : Clients} → Reach c → Step c d → Reach d

Counted : Clients → Type 0
Counted c = Inv (λ a. count a c.held) (λ a. count a c.made) c.world

-- The invariant reads the numbers of pointers only.
same-Inv :
    (held held' made made' : ℕ → ℕ) (w : World)
    → ((a : ℕ) → held a ≡ held' a)
    → ((a : ℕ) → made a ≡ made' a)
    → Inv held made w
    → Inv held' made' w
same-Inv held held' made made' w e f h = record {
  counted = λ a. let c = h.counted a in let s = e a in omega (arith, c, s);
  ended = λ a. h.ended a ∙ f a;
}

count-append : (a : ℕ) (xs ys : List ℕ) → count a (xs ++ ys) ≡ count a xs + count a ys
unfolding count
count-append a [] ys = omega arith
count-append a (x ∷ xs) ys = let rest = count-append a xs ys in omega (arith, rest)

count-push :
    (a : ℕ) (p : Option ℕ) (held : List ℕ) → count a held + one_to a p ≡ count a (push p held)
unfolding count
count-push a none held = omega arith
count-push a (some b) held = omega arith

step-Counted : (c d : Clients) → Step c d → Counted c → Counted d
unfolding Counted count
step-Counted c _ (makes b new) h =
    same-Inv (λ a. count a c.held + one_to a (some b)) (λ a. count a (b ∷ c.held))
      (λ a. count a c.made + one_to a (some b)) (λ a. count a (b ∷ c.made)) (make_new b c.world)
      (λ a. omega arith) (λ a. omega arith)
      (make-Inv b (λ a. count a c.held) (λ a. count a c.made) c.world h new)
step-Counted c _ clears h = store-Inv none (λ a. count a c.held) (λ a. count a c.made) c.world h tt
step-Counted c _ (stores b there) h =
    let n = h.counted b in
    store-Inv (some b) (λ a. count a c.held) (λ a. count a c.made) c.world h
      (omega (arith, n, there))
step-Counted c _ loads h =
    same-Inv (λ a. count a c.held + one_to a (load c.world).0)
      (λ a. count a (push (load c.world).0 c.held)) (λ a. count a c.made) (λ a. count a c.made)
      (load c.world).1 (λ a. count-push a (load c.world).0 c.held) (λ a. refl)
      (load-Inv (λ a. count a c.held) (λ a. count a c.made) c.world h)
step-Counted c _ (drops b before after e) h =
    release-Inv (some b) (λ a. count a (before ++ after)) (λ a. count a c.made) c.world
      (same-Inv (λ a. count a c.held) (λ a. count a (before ++ after) + one_to a (some b))
        (λ a. count a c.made) (λ a. count a c.made) c.world
        (λ a.
          let f = ap (count a) e ∙ count-append a before (b ∷ after) in
          let g = count-append a before after in omega (arith, f, g))
        (λ a. refl) h)

Reach-Counted : {c : Clients} → Reach c → Counted c
unfolding Counted count
Reach-Counted here = record { counted = λ a. refl; ended = λ a. refl }
Reach-Counted (next {c = c} {d = d} r step) = step-Counted c d step (Reach-Counted r)

-- However threads make, load, store and end pointers, the use count of each object is the number of the
-- pointers to it, the storage among them; and each object that was made has been destroyed once if there
-- is no pointer to it left, and not if there is one.
pub destroyed_once :
    (c : Clients) (a : ℕ)
    → Reach c
    → (c.world.use_counts a ≡ count a c.held + one_to a c.world.storage)
      × (count a c.world.destroyed
          ≡ count a c.made - (if count a c.held + one_to a c.world.storage == 0 then 0 else 1))
unfolding Counted
destroyed_once c a r =
    let n = (Reach-Counted r).counted a in
    let e = (Reach-Counted r).ended a in (n, ground (arith, n, e))

-- In a reached state a store of a pointer that a thread has makes it the storage, with one count more for it and one less for
-- what was stored before.
pub store_lem :
    (c : Clients) (a b : ℕ)
    → Reach c
    → 1 ≤ count a c.held
    → ((store (some a) c.world).storage ≡ some a)
      × ((store (some a) c.world).use_counts b + one_to b c.world.storage
          ≡ c.world.use_counts b + one_to b (some a))
unfolding Counted
store_lem c a b r there =
    let h = Reach-Counted r in
    let n = h.counted a in
    let s = storage-store (some a) c.world in
    let after =
      (store-Inv (some a) (λ d. count d c.held) (λ d. count d c.made) c.world h
          (omega (arith, n, there))).counted
        b in
    let before = h.counted b in
    let stored = ap (one_to b) s in (s, omega (arith, after, before, stored))
