-- ===== src/Status/Tests.antt =====
-- The theorems on `Status` at two short messages.
use tools_demo.Base.{ℕ, ◌≡◌, refl, ite, ℕ_discrete, some, List, [], ◌∷◌, arith}
use tools_demo.Pipe.Memory.{copy_from}
use tools_demo.Slice.Defs.{Slice, slice}
use tools_demo.Slice.Defs
use tools_demo.Status.Defs.{not_found, init_with, copy_state, word_bytes, read_word}
use tools_demo.Status.Layout.{layout, message_of}
use tools_demo.Status.Heap.{Heap, empty, own_new, take_copy, put, assign_to, value}
use tools_demo.Status.Life.{Reach, here, next, constructs, copies, owned_once, assign_to_lem}
use tools_demo.Status.Text.{init_with_lem}

abbrev key : Slice
key = slice (107 ∷ 101 ∷ 121 ∷ []) 3

abbrev gone : Slice
gone = slice (103 ∷ 111 ∷ 110 ∷ 101 ∷ []) 4

abbrev key_gone : List ℕ
key_gone = 107 ∷ 101 ∷ 121 ∷ 58 ∷ 32 ∷ 103 ∷ 111 ∷ 110 ∷ 101 ∷ []

init_with_lem_example : init_with not_found key gone ≡ some (some (layout not_found key_gone))
unfolding message_of Defs.to_string
init_with_lem_example =
    init_with_lem key gone not_found (omega arith) (omega arith) (omega arith) (λ e. absurd (cc))

-- An object with one message is made, and another is copied from it.
abbrev key_state : List ℕ
key_state = layout not_found (107 ∷ 101 ∷ 121 ∷ [])

abbrev nothing : Slice
nothing = slice [] 0

abbrev one_object : Heap
one_object = own_new 0 key_state empty

abbrev two_objects : Heap
two_objects = own_new 1 key_state one_object

key_made : init_with not_found key nothing ≡ some (some key_state)
unfolding message_of Defs.to_string
key_made =
    init_with_lem key nothing not_found (omega arith) (omega arith) (omega arith) (λ e. absurd (cc))

two-Reach : Reach two_objects
unfolding own_new take_copy put ℕ_discrete copy_state layout word_bytes read_word copy_from
two-Reach =
    next
      (next here (
        constructs 0 not_found key nothing key_state refl (omega arith) (omega arith) (omega arith)
          (λ e. absurd (cc)) key_made))
      (copies 1 0 two_objects refl refl)

owned_once_example :
    (x : ℕ) × (two_objects.states x ≡ some 1) × ((y : ℕ) → two_objects.states y ≡ some 1 → x ≡ y)
unfolding own_new put ℕ_discrete
owned_once_example = owned_once two_objects 1 key_state two-Reach refl

assign_to_lem_example :
    (g : Heap) × (assign_to 0 1 two_objects ≡ some g)
    × ((z : ℕ) → value z g ≡ ite (ℕ_discrete 0 z) (value 1 two_objects) (value z two_objects))
assign_to_lem_example = assign_to_lem two_objects 0 1 two-Reach
