-- ===== src/ObjectPool/Defs.antt =====
-- `ObjectPoolAllocator<T>` of objectpool/objectpool.h. A pointer is its address. Whether the mutex was
-- taken, and what the allocator returns if a call comes to it, are arguments of the calls.
use tools_demo.Base.{
  ℕ, zero, suc, ◌+◌, ◌-◌, ◌%◌, ◌^◌, Bool, true, false, not, Option, none, some, List, [], ◌∷◌, ◌++◌,
  ltb, leb, if◌then◌else◌,
}

pub record Pool : Type 0 where
  pub curr_num : ℕ
  pub max_num : ℕ
  pub inc_num : ℕ
  pub objects : List ℕ
  pub chunks : List ℕ

-- The loop that constructs `n` objects of a chunk, each `size` bytes
unfoldable pub construct : ℕ → ℕ → ℕ → List ℕ
construct size chunk zero = []
construct size chunk (suc n) = chunk ∷ construct size (chunk + size) n

-- Whether it returns 0, and the new state
unfoldable pub increase_objects : ℕ → Option ℕ → ℕ → Pool → Bool × Pool
increase_objects size chunk inc_num s =
    let n =
      if ltb s.max_num ((s.curr_num + inc_num) % 2 ^ 64) then s.max_num - s.curr_num else inc_num in
    if leb s.max_num s.curr_num then (false, s) else elim chunk [
      | none ↦ (false, s)
      | some p ↦ (
        true,
        record s {
          objects = s.objects ++ construct size p n;
          chunks = s.chunks ++ p ∷ [];
          curr_num = (s.curr_num + n) % 2 ^ 64;
        },
      )
    ]

-- The constructor
unfoldable pub init : ℕ → Option ℕ → ℕ → ℕ → ℕ → Pool
init size chunk init_num max_num inc_num =
    (increase_objects size chunk init_num (record {
      curr_num = 0;
      max_num = if ltb max_num init_num then init_num else max_num;
      inc_num = if ltb max_num init_num then 0 else inc_num;
      objects = [];
      chunks = [];
    })).1

unfoldable pub set_max_num : ℕ → Pool → Pool
set_max_num n s =
    if leb n s.curr_num then record s { max_num = s.curr_num } else record s { max_num = n }

unfoldable pub set_inc_num : ℕ → Pool → Pool
set_inc_num n s = record s { inc_num = n }

abbrev pub is_init : Pool → Bool
is_init s = ltb 0 s.curr_num

-- What `Create` comes to: `NULL`, an object, or a read of the front of an empty list
pub data Created : Type 0 where
  null : Pool → Created
  object : ℕ → Pool → Created
  undefined : Created

-- `*(Objects_.begin())` and `pop_front`
unfoldable pub pop_front : Pool → Created
pop_front s = elim s.objects [ [] ↦ undefined | p ∷ ps ↦ object p (record s { objects = ps }) ]

abbrev pub is_empty : List ℕ → Bool
is_empty [] = true
is_empty (p ∷ ps) = false

unfoldable pub create : Bool → ℕ → Option ℕ → Pool → Created
create locked size chunk s =
    let grown = increase_objects size chunk s.inc_num s in
    if not locked
    then null s
    else if not (is_empty s.objects)
    then pop_front s
    else if grown.0
    then pop_front grown.1
    else null grown.1

-- `Destroy`, where `none` is `NULL`
unfoldable pub destroy : Bool → Option ℕ → Pool → Pool
destroy locked none s = s
destroy locked (some p) s = if locked then record s { objects = p ∷ s.objects } else s
