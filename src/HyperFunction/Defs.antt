-- ===== src/HyperFunction/Defs.antt =====
-- `hyper_function` of hyper_function/hyper_function.h, by address: a function object is the address of its
-- `ptr_`, and the states that they own are in a heap. A callable is what it does. A use of a state that is
-- not in the heap has no result.
use tools_demo.Base.{ℕ, ◌+◌, Bool, true, false, Option, none, some, List, ℕ_discrete, ◌>>=◌}
use tools_demo.Base.Dict.{find, assign, erase}

pub record Store (C : Type 0) : Type 0 where
  -- `ptr_` of each function object
  pub ptrs : List (ℕ × Option ℕ)
  -- the `hyper_function_state` behind each pointer
  pub states : List (ℕ × C)
  -- the address that `new` returns next
  pub fresh : ℕ

module _ {C : Type 0} where
  unfoldable pub ptr : ℕ → Store C → Option ℕ
  ptr x s = elim (find ℕ_discrete x s.ptrs) [ none ↦ none | some p ↦ p ]

  unfoldable pub set_ptr : ℕ → Option ℕ → Store C → Store C
  set_ptr x p s = record s { ptrs = assign ℕ_discrete x p s.ptrs }

  unfoldable pub new_state : C → Store C → ℕ × Store C
  new_state c s =
      (s.fresh, record s { states = assign ℕ_discrete s.fresh c s.states; fresh = s.fresh + 1 })

  -- The constructor of a callable
  unfoldable pub construct : ℕ → C → Store C → Store C
  construct x c s = let (p, t) = new_state c s in set_ptr x (some p) t

  -- `rhs.ptr_ ? rhs.ptr_->clone() : nullptr`
  unfoldable pub clone : ℕ → Store C → Option (Option ℕ × Store C)
  clone y s = elim (ptr y s) [
    | none ↦ some (none, s)
    | some p ↦ find ℕ_discrete p s.states >>= λ c. let (q, t) = new_state c s in some (some q, t)
  ]

  -- The copy constructors
  unfoldable pub copy : ℕ → ℕ → Store C → Option (Store C)
  copy x y s = clone y s >>= λ (q, t). some (set_ptr x q t)

  -- The move constructor
  unfoldable pub move : ℕ → ℕ → Store C → Store C
  move x y s = set_ptr y none (set_ptr x (ptr y s) s)

  -- The destructor
  unfoldable pub destroy : ℕ → Store C → Store C
  destroy x s = elim (ptr x s) [
    | none ↦ s
    | some p ↦ set_ptr x none (record s { states = erase ℕ_discrete p s.states })
  ]

  -- `operator=`
  unfoldable pub assign_to : ℕ → ℕ → Store C → Option (Store C)
  assign_to x y s = copy x y (destroy x s)

  -- `operator()`: what is called
  unfoldable pub call : ℕ → Store C → Option C
  call x s = ptr x s >>= λ p. find ℕ_discrete p s.states

  -- `operator bool`
  unfoldable pub is_set : ℕ → Store C → Bool
  is_set x s = elim (ptr x s) [ none ↦ false | some _ ↦ true ]
