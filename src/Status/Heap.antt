-- ===== src/Status/Heap.antt =====
-- The arrays of the objects of statusandslice/status.h on the heap. Objects and arrays are numbered, and
-- an object that does not live has a null pointer.
use tools_demo.Base.{
  ℕ, ◌+◌, Bool, true, false, Option, none, some, List, ite, ℕ_discrete, if◌then◌else◌, ◌==◌, ◌>>=◌,
}
use tools_demo.Status.Defs.{Status, copy_state}

unfoldable pub put {ℓ} : {A : Type ℓ} → ℕ → A → (ℕ → A) → ℕ → A
put k v f j = ite (ℕ_discrete k j) v (f j)

pub record Heap : Type 0 where
  pub states : ℕ → Option ℕ
  pub arrays : ℕ → Option (List ℕ)
  -- how many arrays have been made
  pub made : ℕ

abbrev pub empty : Heap
empty = record { states = λ x. none; arrays = λ a. none; made = 0 }

-- An array with these bytes, which an object owns
unfoldable pub own_new : ℕ → List ℕ → Heap → Heap
own_new x bytes h = record {
  states = put x (some h.made) h.states;
  arrays = put h.made (some bytes) h.arrays;
  made = h.made + 1;
}

-- `delete[]` of the array of an object, which has no result where the array does not live
unfoldable pub delete_state : ℕ → Heap → Option Heap
delete_state x h = elim (h.states x) [
  | none ↦ some h
  | some a ↦ elim (h.arrays a) [
    | none ↦ none
    | some bytes ↦ some (record h { states = put x none h.states; arrays = put a none h.arrays })
  ]
]

-- `(rhs.state_ == nullptr) ? nullptr : CopyState(rhs.state_)` for an object `x` whose
-- pointer is null
unfoldable pub take_copy : ℕ → ℕ → Heap → Option Heap
take_copy x rhs h = elim (h.states rhs) [
  | none ↦ some h
  | some a ↦ h.arrays a >>= λ state. copy_state state >>= λ bytes. some (own_new x bytes h)
]

unfoldable pub same_state : Option ℕ → Option ℕ → Bool
same_state none none = true
same_state none (some b) = false
same_state (some a) none = false
same_state (some a) (some b) = a == b

unfoldable pub assign_to : ℕ → ℕ → Heap → Option Heap
assign_to x rhs h =
    if same_state (h.states x) (h.states rhs)
    then some h
    else (delete_state x h >>= λ g. take_copy x rhs g)

-- `std::swap` of the pointers; the move constructor is this for an object without an array.
unfoldable pub swap_states : ℕ → ℕ → Heap → Heap
swap_states x y h = record h { states = put x (h.states y) (put y (h.states x) h.states) }

-- The status that an object is
unfoldable pub value : ℕ → Heap → Status
value x h = elim (h.states x) [ none ↦ none | some a ↦ h.arrays a ]
