-- ===== src/SharedPtr/Counting.antt =====
-- The pointers to an object of safe_operation_obj/save_obj_main.cpp are those that are counted.
use tools_demo.Base.{
  ℕ, ◌+◌, ◌≤◌, ◌≡◌, refl, ◌∙◌, Option, none, some, List, [], ◌∷◌, ite, ℕ_discrete, if◌then◌else◌,
  ◌==◌, arith,
}
use tools_demo.SharedPtr.Defs.{
  World, set_count, use_count, acquire, release, print, exchange, load, store, make_new,
}

-- How often a pointer, or pointers, are to an object
abbrev pub one_to : ℕ → Option ℕ → ℕ
one_to a none = 0
one_to a (some b) = ite (ℕ_discrete a b) 1 0

unfoldable pub count : ℕ → List ℕ → ℕ
count a [] = 0
count a (b ∷ bs) = one_to a (some b) + count a bs

-- With `held a` pointers to each object `a` outside the storage, and `made a` whether it was made
pub record Inv (held made : ℕ → ℕ) (w : World) : Type 0 where
  pub counted : (a : ℕ) → w.use_counts a ≡ held a + one_to a w.storage
  pub ended : (a : ℕ) → count a w.destroyed + (if w.use_counts a == 0 then 0 else 1) ≡ made a

-- A pointer that is null or to an object that lives
abbrev pub IsLive : Option ℕ → World → Type 0
IsLive none w = Unit
IsLive (some a) w = 1 ≤ w.use_counts a

acquire-Inv :
    (p : Option ℕ) (held made : ℕ → ℕ) (w : World)
    → Inv held made w
    → IsLive p w
    → Inv (λ a. held a + one_to a p) made (acquire p w)
unfolding acquire set_count use_count
acquire-Inv none held made w h live = record {
  counted = λ a. let c = h.counted a in omega (arith, c);
  ended = h.ended;
}
acquire-Inv (some b) held made w h live = record {
  counted = λ a. let c = h.counted a in ground (arith, c);
  ended = λ a. let e = h.ended a in ground (arith, e, live);
}

pub release-Inv :
    (p : Option ℕ) (held made : ℕ → ℕ) (w : World)
    → Inv (λ a. held a + one_to a p) made w
    → Inv held made (release p w)
unfolding release set_count count
release-Inv none held made w h = record {
  counted = λ a. let c = h.counted a in omega (arith, c);
  ended = h.ended;
}
release-Inv (some b) held made w h = record {
  counted = λ a. let c = h.counted a in ground (arith, c);
  ended = λ a. let e = h.ended a in let c = h.counted a in ground (arith, e, c);
}

acquire-IsLive : (p : Option ℕ) (w : World) → IsLive p w → IsLive p (acquire p w)
unfolding acquire set_count
acquire-IsLive none w live = tt
acquire-IsLive (some b) w live = ground (arith, live)

exchange-Inv :
    (p : Option ℕ) (held made : ℕ → ℕ) (w : World)
    → Inv (λ a. held a + one_to a p) made w
    → Inv (λ a. held a + one_to a w.storage) made (exchange p w).1
unfolding exchange print
exchange-Inv p held made w h = record {
  counted = λ a. let c = h.counted a in omega (arith, c);
  ended = h.ended;
}

print-Inv :
    (p : Option ℕ) (held made : ℕ → ℕ) (w : World) → Inv held made w → Inv held made (print p w)
unfolding print
print-Inv p held made w h = record { counted = h.counted; ended = h.ended }

print-IsLive : (p q : Option ℕ) (w : World) → IsLive p w → IsLive p (print q w)
unfolding print
print-IsLive none q w live = tt
print-IsLive (some a) q w live = live

pub store-Inv :
    (p : Option ℕ) (held made : ℕ → ℕ) (w : World)
    → Inv held made w
    → IsLive p w
    → Inv held made (store p w)
unfolding store exchange print acquire
store-Inv p held made w h live =
    let once = acquire p w in
    let asked = print p once in
    let twice = acquire p asked in
    let one : (ℕ → ℕ) = λ a. held a + one_to a p in
    let h1 = print-Inv p one made once (acquire-Inv p held made w h live) in
    let live1 = print-IsLive p p once (acquire-IsLive p w live) in
    let h2 = acquire-Inv p one made asked h1 live1 in
    let h3 = exchange-Inv p one made twice h2 in
    release-Inv p held made (release (exchange p twice).0 (exchange p twice).1)
      (release-Inv (exchange p twice).0 one made (exchange p twice).1 h3)

storage-IsLive : (held made : ℕ → ℕ) (w : World) → Inv held made w → IsLive w.storage w
storage-IsLive held made w h = stored w.storage refl
  where
    stored : (p : Option ℕ) → w.storage ≡ p → IsLive p w
    stored none e = tt
    stored (some a) e = let c = h.counted a in ground (arith, c, e)

pub load-Inv :
    (held made : ℕ → ℕ) (w : World)
    → Inv held made w
    → Inv (λ a. held a + one_to a (load w).0) made (load w).1
unfolding load
load-Inv held made w h = acquire-Inv w.storage held made w h (storage-IsLive held made w h)

pub make-Inv :
    (b : ℕ) (held made : ℕ → ℕ) (w : World)
    → Inv held made w
    → made b ≡ 0
    → Inv (λ a. held a + one_to a (some b)) (λ a. made a + one_to a (some b)) (make_new b w)
unfolding make_new set_count
make-Inv b held made w h new = record {
  counted = λ a. let c = h.counted a in let e = h.ended b in ground (arith, c, e, new);
  ended = λ a. let c = h.ended a in ground (arith, c, new);
}

storage-release : (p : Option ℕ) (w : World) → (release p w).storage ≡ w.storage
unfolding release
storage-release none w = refl
storage-release (some a) w = refl

pub storage-store : (p : Option ℕ) (w : World) → (store p w).storage ≡ p
unfolding store exchange print
storage-store p w =
    let r = exchange p (acquire p (print p (acquire p w))) in
    storage-release p (release r.0 r.1) ∙ storage-release r.0 r.1
