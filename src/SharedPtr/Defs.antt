-- ===== src/SharedPtr/Defs.antt =====
-- `AtomicSharedPtr` and `ScopeGuard` of safe_operation_obj/save_obj_main.cpp, with what they use of
-- std::shared_ptr: a pointer is null or an object, and an object is destroyed with its last pointer. The
-- methods hold the mutex, so that each is one step, with the copies of its argument, which only count.
use tools_demo.Base.{
  ℕ, ◌+◌, ◌-◌, Bool, true, false, Option, none, some, List, ◌∷◌, ite, ℕ_discrete, if◌then◌else◌,
  ◌==◌,
}

pub record World : Type 0 where
  pub storage : Option ℕ
  pub use_counts : ℕ → ℕ
  -- the objects whose destructor ran, and the use counts that were printed, the latest first
  pub destroyed : List ℕ
  pub printed : List ℕ

unfoldable pub set_count : ℕ → ℕ → (ℕ → ℕ) → ℕ → ℕ
set_count a n counts b = ite (ℕ_discrete a b) n (counts b)

-- `use_count`
unfoldable pub use_count : Option ℕ → World → ℕ
use_count none w = 0
use_count (some a) w = w.use_counts a

-- A copy of a pointer
unfoldable pub acquire : Option ℕ → World → World
acquire none w = w
acquire (some a) w = record w { use_counts = set_count a (w.use_counts a + 1) w.use_counts }

-- The end of a pointer
unfoldable pub release : Option ℕ → World → World
release none w = w
release (some a) w = record w {
  use_counts = set_count a (w.use_counts a - 1) w.use_counts;
  destroyed = if w.use_counts a == 1 then a ∷ w.destroyed else w.destroyed;
}

unfoldable pub print : Option ℕ → World → World
print p w = record w { printed = use_count p w ∷ w.printed }

-- `exchange`, whose argument is a pointer of its own: the pointer that it returns
unfoldable pub exchange : Option ℕ → World → Option ℕ × World
exchange o w =
    let asked = print o w in
    let swapped = record asked { storage = o } in (asked.storage, print o swapped)

unfoldable pub load : World → Option ℕ × World
load w = (w.storage, acquire w.storage w)

-- `store` of a pointer of the caller: it is copied for `store` and again for `exchange`, and what that
-- returns ends at once.
unfoldable pub store : Option ℕ → World → World
store p w =
    let asked = print p (acquire p w) in
    let r = exchange p (acquire p asked) in release p (release r.0 r.1)

-- `std::shared_ptr<AA>(new AA)`, where the object is new
unfoldable pub make_new : ℕ → World → World
make_new a w = record w { use_counts = set_count a 1 w.use_counts }

-- `~ScopeGuard`
unfoldable pub leave {ℓ} : {A : Type ℓ} → (dismissed : Bool) → (A → A) → A → A
leave true on_exit_scope a = a
leave false on_exit_scope a = on_exit_scope a

-- `test`, whose object is `a`
unfoldable pub test : ℕ → World → World
test a w =
    let stored = print (some a) (store (some a) (print (some a) (make_new a w))) in
    let r = load stored in
    let loaded = release r.0 (print r.0 r.1) in
    let last = print (some a) (print (some a) loaded) in leave false (release (some a)) last
