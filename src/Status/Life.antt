-- ===== src/Status/Life.antt =====
-- What programs do with the objects of statusandslice/status.h.
use tools_demo.Base.{
  ℕ, ◌+◌, ◌<◌, ◌≡◌, ◌≢◌, sym, subst, Option, none, some, List, ite, ℕ_discrete, ◌^◌, arith,
}
use tools_demo.Slice.Defs.{Slice, IsValid}
use tools_demo.Slice.Defs
use tools_demo.Status.Defs.{Code, ok, copy_state, init_with, copy}
use tools_demo.Status.Layout.{message_of, layout, length-text}
use tools_demo.Status.Text.{init_with_lem, copy_lem}
use tools_demo.Status.Heap.{
  Heap, empty, own_new, delete_state, take_copy, assign_to, swap_states, value,
}
use tools_demo.Status.Owners.{Inv, empty-Inv, own-Inv, swap-Inv}
use tools_demo.Status.Assigning.{deleted, copied, assigned}

-- A construction, a copy, an assignment, a move or an end of an object. A constructor starts on a null
-- pointer.
pub data Step (h : Heap) : Heap → Type 0 where
  constructs :
      (x : ℕ) (c : Code) (m1 m2 : Slice) (bytes : List ℕ)
      → h.states x ≡ none
      → IsValid m1
      → IsValid m2
      → m1.size_ + m2.size_ + 7 < 2 ^ 32
      → c ≢ ok
      → init_with c m1 m2 ≡ some (some bytes)
      → Step h (own_new x bytes h)
  copies : (x y : ℕ) (g : Heap) → h.states x ≡ none → take_copy x y h ≡ some g → Step h g
  assigns : (x y : ℕ) (g : Heap) → assign_to x y h ≡ some g → Step h g
  moves : (x y : ℕ) → Step h (swap_states x y h)
  ends : (x : ℕ) (g : Heap) → delete_state x h ≡ some g → Step h g

pub data Reach : Heap → Type 0 where
  here : Reach empty
  next : {h g : Heap} → Reach h → Step h g → Reach g

copy_state_made :
    (c : Code) (m1 m2 : Slice) (bytes : List ℕ)
    → IsValid m1
    → IsValid m2
    → m1.size_ + m2.size_ + 7 < 2 ^ 32
    → c ≢ ok
    → init_with c m1 m2 ≡ some (some bytes)
    → copy_state bytes ≡ some bytes
unfolding copy
copy_state_made c m1 m2 bytes v1 v2 small other e =
    let l = init_with_lem m1 m2 c v1 v2 small other in
    let n = length-text m1 m2 v1 v2 in
    let text = message_of (Defs.to_string m1) (Defs.to_string m2) in
    let made : bytes ≡ layout c text = ground (arith, e, l) in
    let w = copy_lem c text (ground (arith, n)) in
    subst (λ b. copy_state b ≡ some b) (sym made) (ground (arith, w))

same_heap : {f g : Heap} {o : Option Heap} → o ≡ some f → o ≡ some g → f ≡ g
same_heap e f = ground (arith, e, f)

step-Inv : (h g : Heap) → Step h g → Inv h → Inv g
step-Inv h g (constructs x c m1 m2 bytes free v1 v2 small other e) k =
    own-Inv x bytes h free (copy_state_made c m1 m2 bytes v1 v2 small other e) k
step-Inv h _ (copies x y g free e) k =
    let c = copied x y h free k in subst Inv (same_heap c.runs e) c.inv
step-Inv h _ (assigns x y g e) k = let c = assigned x y h k in subst Inv (same_heap c.runs e) c.inv
step-Inv h g (moves x y) k = swap-Inv x y h k
step-Inv h _ (ends x g e) k = let d = deleted x h k in subst Inv (same_heap d.runs e) d.inv

Reach-Inv : {h : Heap} → Reach h → Inv h
Reach-Inv here = empty-Inv
Reach-Inv (next {h = h} {g = g} r step) = step-Inv h g step (Reach-Inv r)

-- Whatever objects were constructed, copied, assigned, moved and ended, each array on the heap is that of
-- one object, so that none leaks and none is deleted twice.
pub owned_once :
    (h : Heap) (a : ℕ) (bytes : List ℕ)
    → Reach h
    → h.arrays a ≡ some bytes
    → (x : ℕ) × (h.states x ≡ some a) × ((y : ℕ) → h.states y ≡ some a → x ≡ y)
owned_once h a bytes r e =
    let k = Reach-Inv r in let o = k.owned a bytes e in (o.0, o.1, λ y f. k.one o.0 y a o.1 f)

-- From a heap that was reached by constructions, copies, assignments, moves and ends, an assignment of any object to any other or to itself has a result: no array is
-- deleted or read that does not live. The left side becomes the status of the right one, and all other
-- objects stay what they are.
pub assign_to_lem :
    (h : Heap) (x y : ℕ)
    → Reach h
    → (g : Heap) × (assign_to x y h ≡ some g)
      × ((z : ℕ) → value z g ≡ ite (ℕ_discrete x z) (value y h) (value z h))
assign_to_lem h x y r = let a = assigned x y h (Reach-Inv r) in (a.heap, a.runs, a.sets)
