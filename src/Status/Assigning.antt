-- ===== src/Status/Assigning.antt =====
-- The destructor, the copies and the assignments of statusandslice/status.h on the heap.
use tools_demo.Base.{
  ℕ, ◌≡◌, ◌≢◌, refl, sym, subst, ◌∙◌, true, Option, none, some, List, ite, ℕ_discrete, arith,
  Option-cases, Bool-cases, inl, inr,
}
use tools_demo.Status.Defs.{Status}
use tools_demo.Status.Heap.{
  put, Heap, own_new, delete_state, take_copy, same_state, assign_to, value,
}
use tools_demo.Status.Owners.{Inv, own-Inv, freed, freed-Inv, unborn}

-- `x` is this status, and the others are as before.
abbrev pub Sets : ℕ → Status → Heap → Heap → Type 0
Sets x s h g = (z : ℕ) → value z g ≡ ite (ℕ_discrete x z) s (value z h)

value-null : (x : ℕ) (h : Heap) → h.states x ≡ none → value x h ≡ none
unfolding value
value-null x h e = ground (arith, e)

value-some : (x a : ℕ) (h : Heap) → h.states x ≡ some a → value x h ≡ h.arrays a
unfolding value
value-some x a h e = ground (arith, e)

own_new-Sets :
    (x : ℕ) (bytes : List ℕ) (h : Heap) → Inv h → Sets x (some bytes) h (own_new x bytes h)
unfolding own_new put value
own_new-Sets x bytes h k z = elim (ℕ_discrete x z) [
  | yes same ↦ ground (arith, same)
  | no other ↦ elim (Option-cases (h.states z)) [
    | inl e ↦ ground (arith, other, e)
    | inr (a, e) ↦ let apart = unborn z a h k e in ground (arith, other, e, apart)
  ]
]

freed-Sets : (x a : ℕ) (h : Heap) → h.states x ≡ some a → Inv h → Sets x none h (freed x a h)
unfolding put value
freed-Sets x a h own k z = elim (ℕ_discrete x z) [
  | yes same ↦ ground (arith, same)
  | no other ↦ elim (Option-cases (h.states z)) [
    | inl e ↦ ground (arith, other, e)
    | inr (b, e) ↦
        let apart : a ≢ b = λ same. other (k.one x z b (ground (arith, own, same)) e) in
        ground (arith, other, e, apart)
  ]
]

pub record Deleted (x : ℕ) (h : Heap) : Type 0 where
  pub heap : Heap
  pub runs : delete_state x h ≡ some heap
  pub inv : Inv heap
  pub null : heap.states x ≡ none
  pub sets : Sets x none h heap

pub deleted : (x : ℕ) (h : Heap) → Inv h → Deleted x h
unfolding delete_state put
deleted x h k = elim (Option-cases (h.states x)) [
  | inl e ↦ record {
    heap = h;
    runs = ground (arith, e);
    inv = k;
    null = e;
    sets = λ z. elim (ℕ_discrete x z) [
      | yes same ↦ ground (arith, same, value-null x h e)
      | no other ↦ ground (arith, other)
    ];
  }
  | inr (a, e) ↦
      let l = k.lives x a e in
      record {
        heap = freed x a h;
        runs = ground (arith, e, l.1);
        inv = freed-Inv x a h e k;
        null = ground arith;
        sets = freed-Sets x a h e k;
      }
]

pub record Copied (x y : ℕ) (h : Heap) : Type 0 where
  pub heap : Heap
  pub runs : take_copy x y h ≡ some heap
  pub inv : Inv heap
  pub sets : Sets x (value y h) h heap

pub copied : (x y : ℕ) (h : Heap) → h.states x ≡ none → Inv h → Copied x y h
unfolding take_copy
copied x y h free k = elim (Option-cases (h.states y)) [
  | inl e ↦ record {
    heap = h;
    runs = ground (arith, e);
    inv = k;
    sets = λ z. elim (ℕ_discrete x z) [
      | yes same ↦ ground (arith, same, value-null x h free, value-null y h e)
      | no other ↦ ground (arith, other)
    ];
  }
  | inr (a, e) ↦
      let l = k.lives y a e in
      let w = k.whole a l.0 l.1 in
      let v : value y h ≡ some l.0 = value-some y a h e ∙ l.1 in
      record {
        heap = own_new x l.0 h;
        runs = ground (arith, e, l.1, w);
        inv = own-Inv x l.0 h free w k;
        sets = subst (λ s. Sets x s h (own_new x l.0 h)) (sym v) (own_new-Sets x l.0 h k);
      }
]

same_state_lem : (p q : Option ℕ) → same_state p q ≡ true → p ≡ q
unfolding same_state
same_state_lem none none e = refl
same_state_lem none (some b) e = absurd (ground (arith, e))
same_state_lem (some a) none e = absurd (ground (arith, e))
same_state_lem (some a) (some b) e = ground (arith, e)

same_state_refl : (p : Option ℕ) → same_state p p ≡ true
unfolding same_state
same_state_refl none = refl
same_state_refl (some a) = ground arith

-- A copy after the array was given up
Sets-after :
    (x y : ℕ) (h g r : Heap)
    → x ≢ y
    → Sets x none h g
    → Sets x (value y g) g r
    → Sets x (value y h) h r
Sets-after x y h g r apart d c z =
    let a = c z in
    let b = d z in
    let v = d y in
    elim (ℕ_discrete x z) [
      | yes same ↦ ground (arith, same, apart, a, v)
      | no other ↦ ground (arith, other, a, b)
    ]

pub record Assigned (x y : ℕ) (h : Heap) : Type 0 where
  pub heap : Heap
  pub runs : assign_to x y h ≡ some heap
  pub inv : Inv heap
  pub sets : Sets x (value y h) h heap

pub assigned : (x y : ℕ) (h : Heap) → Inv h → Assigned x y h
unfolding assign_to value
assigned x y h k = elim (Bool-cases (same_state (h.states x) (h.states y))) [
  | inl same ↦ record {
    heap = h;
    runs = ground (arith, same);
    inv = k;
    sets = λ z.
        let p = same_state_lem (h.states x) (h.states y) same in
        elim (ℕ_discrete x z) [
          | yes here ↦ ground (arith, here, p)
          | no other ↦ ground (arith, other)
        ];
  }
  | inr differ ↦
      let apart : x ≢ y = λ e. absurd (ground (arith, e, differ, same_state_refl (h.states x))) in
      let d = deleted x h k in
      let c = copied x y d.heap d.null d.inv in
      record {
        heap = c.heap;
        runs = ground (arith, differ, d.runs, c.runs);
        inv = c.inv;
        sets = Sets-after x y h d.heap c.heap apart d.sets c.sets;
      }
]
