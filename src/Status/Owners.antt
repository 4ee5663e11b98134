-- ===== src/Status/Owners.antt =====
-- Each array of statusandslice/status.h is owned by one object.
use tools_demo.Base.{ℕ, ◌<◌, ◌≡◌, ◌≢◌, sym, ap, ◌∙◌, none, some, List, ite, ℕ_discrete, arith}
use tools_demo.Status.Defs.{copy_state}
use tools_demo.Status.Heap.{put, Heap, empty, own_new, swap_states}

pub record Inv (h : Heap) : Type 0 where
  pub lives : (x a : ℕ) → h.states x ≡ some a → (bytes : List ℕ) × (h.arrays a ≡ some bytes)
  pub one : (x y a : ℕ) → h.states x ≡ some a → h.states y ≡ some a → x ≡ y
  pub owned : (a : ℕ) (bytes : List ℕ) → h.arrays a ≡ some bytes → (x : ℕ) × (h.states x ≡ some a)
  pub old : (a : ℕ) (bytes : List ℕ) → h.arrays a ≡ some bytes → a < h.made
  pub whole : (a : ℕ) (bytes : List ℕ) → h.arrays a ≡ some bytes → copy_state bytes ≡ some bytes

pub empty-Inv : Inv empty
empty-Inv = record {
  lives = λ x a e. absurd (ground (arith, e));
  one = λ x y a e f. absurd (ground (arith, e));
  owned = λ a bytes e. absurd (ground (arith, e));
  old = λ a bytes e. absurd (ground (arith, e));
  whole = λ a bytes e. absurd (ground (arith, e));
}

put-same {ℓ} : {A : Type ℓ} (k : ℕ) (v : A) (f : ℕ → A) (j : ℕ) → k ≡ j → put k v f j ≡ v
unfolding put
put-same k v f j e = ground (arith, e)

put-other {ℓ} : {A : Type ℓ} (k : ℕ) (v : A) (f : ℕ → A) (j : ℕ) → k ≢ j → put k v f j ≡ f j
unfolding put
put-other k v f j e = ground (arith, e)

-- The next array is nobody's.
pub unborn : (x a : ℕ) (h : Heap) → Inv h → h.states x ≡ some a → a ≢ h.made
unborn x a h k e same =
    let l = k.lives x a e in let o = k.old a l.0 l.1 in absurd (omega (arith, o, same))

-- An object without an array gets a new one.
pub own-Inv :
    (x : ℕ) (bytes : List ℕ) (h : Heap)
    → h.states x ≡ none
    → copy_state bytes ≡ some bytes
    → Inv h
    → Inv (own_new x bytes h)
unfolding own_new put
own-Inv x bytes h free w k = record {
  lives = λ y a e. elim (ℕ_discrete x y) [
    | yes same ↦ (bytes, ground (arith, e, same))
    | no other ↦
        let f : h.states y ≡ some a = ground (arith, e, other) in
        let l = k.lives y a f in let apart = unborn y a h k f in (l.0, ground (arith, l.1, apart))
  ];
  one = λ y z a e f. elim (ℕ_discrete x y) [
    | yes same ↦ elim (ℕ_discrete x z) [
      | yes same' ↦ sym same ∙ same'
      | no other ↦
          let g : h.states z ≡ some a = ground (arith, f, other) in
          absurd (unborn z a h k g (ground (arith, e, same)))
    ]
    | no other ↦
        let g : h.states y ≡ some a = ground (arith, e, other) in
        elim (ℕ_discrete x z) [
          | yes same ↦ absurd (unborn y a h k g (ground (arith, f, same)))
          | no other' ↦ k.one y z a g (ground (arith, f, other'))
        ]
  ];
  owned = λ a b e. elim (ℕ_discrete h.made a) [
    | yes same ↦ (x, ground (arith, same))
    | no other ↦
        let o = k.owned a b (ground (arith, e, other)) in
        let apart : x ≢ o.0 = λ same. absurd (ground (arith, same, free, o.1)) in
        (o.0, ground (arith, o.1, apart))
  ];
  old = λ a b e. elim (ℕ_discrete h.made a) [
    | yes same ↦ omega (arith, same)
    | no other ↦ let o = k.old a b (ground (arith, e, other)) in omega (arith, o)
  ];
  whole = λ a b e. elim (ℕ_discrete h.made a) [
    | yes same ↦ ground (arith, e, same, w)
    | no other ↦ k.whole a b (ground (arith, e, other))
  ];
}

abbrev pub freed : ℕ → ℕ → Heap → Heap
freed x a h = record h { states = put x none h.states; arrays = put a none h.arrays }

pub freed-Inv : (x a : ℕ) (h : Heap) → h.states x ≡ some a → Inv h → Inv (freed x a h)
unfolding put
freed-Inv x a h own k = record {
  lives = λ y b e. elim (ℕ_discrete x y) [
    | yes same ↦ absurd (ground (arith, e, same))
    | no other ↦
        let f : h.states y ≡ some b = ground (arith, e, other) in
        let l = k.lives y b f in
        let apart : a ≢ b = λ same. other (k.one x y b (ground (arith, own, same)) f) in
        (l.0, ground (arith, l.1, apart))
  ];
  one = λ y z b e f. elim (ℕ_discrete x y) [
    | yes same ↦ absurd (ground (arith, e, same))
    | no other ↦ elim (ℕ_discrete x z) [
      | yes same ↦ absurd (ground (arith, f, same))
      | no other' ↦ k.one y z b (ground (arith, e, other)) (ground (arith, f, other'))
    ]
  ];
  owned = λ b bytes e. elim (ℕ_discrete a b) [
    | yes same ↦ absurd (ground (arith, e, same))
    | no other ↦
        let o = k.owned b bytes (ground (arith, e, other)) in
        let apart : x ≢ o.0 = λ same. absurd (ground (arith, same, own, o.1, other)) in
        (o.0, ground (arith, o.1, apart))
  ];
  old = λ b bytes e. elim (ℕ_discrete a b) [
    | yes same ↦ absurd (ground (arith, e, same))
    | no other ↦ k.old b bytes (ground (arith, e, other))
  ];
  whole = λ b bytes e. elim (ℕ_discrete a b) [
    | yes same ↦ absurd (ground (arith, e, same))
    | no other ↦ k.whole b bytes (ground (arith, e, other))
  ];
}

-- The object whose pointer another has after a swap
abbrev other_of : ℕ → ℕ → ℕ → ℕ
other_of x y z = ite (ℕ_discrete x z) y (ite (ℕ_discrete y z) x z)

swapped : (x y z : ℕ) (h : Heap) → (swap_states x y h).states z ≡ h.states (other_of x y z)
unfolding swap_states put
swapped x y z h = ground arith

other_of-other_of : (x y z : ℕ) → other_of x y (other_of x y z) ≡ z
other_of-other_of x y z = ground arith

pub swap-Inv : (x y : ℕ) (h : Heap) → Inv h → Inv (swap_states x y h)
unfolding swap_states
swap-Inv x y h k = record {
  lives = λ z a e. k.lives (other_of x y z) a (sym (swapped x y z h) ∙ e);
  one = λ z u a e f.
      let same =
        k.one (other_of x y z) (other_of x y u) a (sym (swapped x y z h) ∙ e)
          (sym (swapped x y u h) ∙ f) in
      sym (other_of-other_of x y z) ∙ ap (other_of x y) same ∙ other_of-other_of x y u;
  owned = λ a bytes e.
      let o = k.owned a bytes e in
      (
        other_of x y o.0,
        swapped x y (other_of x y o.0) h ∙ ap h.states (other_of-other_of x y o.0) ∙ o.1,
      );
  old = k.old;
  whole = k.whole;
}
