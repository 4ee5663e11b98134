-- ===== src/Slice/Order.antt =====
-- The comparisons of `Slice` are those of the bytes that it refers to.
use tools_demo.Base.{
  ℕ, zero, suc, ◌-◌, ◌≤◌, ◌≡◌, refl, sym, ap, ◌∙◌, ◌↔◌, Bool, true, false, some, List, [], ◌∷◌,
  ◌++◌, arith, length, take, drop, ltb, if◌then◌else◌, length-take, length-drop, length-append,
  take-append, take-append-drop, ◌≢◌, ℕ_discrete, dec_lt, dec_le, subst,
}
use tools_demo.Base.Int.{ℤ, pos, negsuc}
use tools_demo.Slice.Defs.{
  Slice, slice, IsValid, memcmp, to_string, starts_with, equals, compare, remove_prefix, is_zero,
}

-- The order of strings by their first different byte, or by their length
unfoldable pub lex : List ℕ → List ℕ → ℤ
lex [] [] = pos 0
lex [] (b ∷ y) = negsuc 0
lex (a ∷ x) [] = pos 1
lex (a ∷ x) (b ∷ y) =
    let rest = lex x y in if ltb a b then negsuc 0 else if ltb b a then pos 1 else rest

-- what `compare` makes of the result of `memcmp`
abbrev by_size : ℕ → ℕ → ℤ → ℤ
by_size n k r = if is_zero r then if ltb n k then negsuc 0 else if ltb k n then pos 1 else r else r

shorter : ℕ → ℕ → ℕ
shorter n k = if ltb n k then n else k

shorter-suc : (n k : ℕ) → shorter (suc n) (suc k) ≡ suc (shorter n k)
unfolding shorter
shorter-suc n k = ground arith

by_size-suc : (n k : ℕ) (r : ℤ) → by_size (suc n) (suc k) r ≡ by_size n k r
by_size-suc n k r = ground arith

memcmp_eq : (n a b : ℕ) (x y : List ℕ) → a ≡ b → memcmp (suc n) (a ∷ x) (b ∷ y) ≡ memcmp n x y
unfolding memcmp
memcmp_eq n a b x y e = ground arith

memcmp_ne :
    (n a b : ℕ) (x y : List ℕ)
    → a ≢ b
    → (r : ℤ) × (memcmp (suc n) (a ∷ x) (b ∷ y) ≡ some r)
      × (is_zero r ≡ false)
      × ((u v : List ℕ) → lex (a ∷ u) (b ∷ v) ≡ r)
unfolding memcmp lex
memcmp_ne n a b x y e = elim (dec_lt a b) [
  | yes l ↦ (negsuc 0, ground arith, refl, λ u v. ground arith)
  | no l ↦ (pos 1, ground arith, refl, λ u v. ground arith)
]

lex_eq : (a b : ℕ) (x y : List ℕ) → a ≡ b → lex (a ∷ x) (b ∷ y) ≡ lex x y
unfolding lex
lex_eq a b x y e = ground arith

compare_run :
    (n k : ℕ) (x y : List ℕ)
    → n ≤ length x
    → k ≤ length y
    → (r : ℤ) × (memcmp (shorter n k) x y ≡ some r) × (by_size n k r ≡ lex (take n x) (take k y))
unfolding shorter memcmp lex
compare_run zero zero x y p q = (pos 0, refl, refl)
compare_run zero (suc k) x [] p q = absurd (omega arith)
compare_run zero (suc k) x (b ∷ y) p q = (pos 0, ground arith, ground arith)
compare_run (suc n) zero [] y p q = absurd (omega arith)
compare_run (suc n) zero (a ∷ x) y p q = (pos 0, ground arith, ground arith)
compare_run (suc n) (suc k) [] y p q = absurd (omega arith)
compare_run (suc n) (suc k) (a ∷ x) [] p q = absurd (omega arith)
compare_run (suc n) (suc k) (a ∷ x) (b ∷ y) p q = elim (ℕ_discrete a b) [
  | yes same ↦
      let (r, e, l) = compare_run n k x y (omega arith) (omega arith) in
      (
        r,
        ap (λ m. memcmp m (a ∷ x) (b ∷ y)) (shorter-suc n k)
            ∙ memcmp_eq (shorter n k) a b x y same
            ∙ e,
        by_size-suc n k r ∙ l ∙ sym (lex_eq a b (take n x) (take k y) same),
      )
  | no other ↦
      let (r, e, nz, l) = memcmp_ne (shorter n k) a b x y other in
      (
        r,
        ap (λ m. memcmp m (a ∷ x) (b ∷ y)) (shorter-suc n k) ∙ e,
        ground (arith, nz, l (take n x) (take k y)),
      )
]

-- `compare` of two slices that refer to bytes of their arrays reads only these, and is the order of the
-- two strings: by the first different byte, and by the length where one begins the other.
pub compare_lem :
    (a b : Slice) → IsValid a → IsValid b → compare a b ≡ some (lex (to_string a) (to_string b))
unfolding compare to_string shorter
compare_lem a b p q =
    let (r, e, l) = compare_run a.size_ b.size_ a.data_ b.data_ p q in ground (arith, e, l)

take_nil : (n : ℕ) → take {A = ℕ} n [] ≡ []
take_nil zero = refl
take_nil (suc n) = refl

memcmp-take :
    (n : ℕ) (x y : List ℕ)
    → n ≤ length x
    → n ≤ length y
    → (r : ℤ) × (memcmp n x y ≡ some r) × ((is_zero r ≡ true) ↔ (take n x ≡ take n y))
unfolding memcmp
memcmp-take zero x y p q = (pos 0, refl, (λ _. refl, λ _. refl))
memcmp-take (suc n) [] y p q = absurd (omega arith)
memcmp-take (suc n) (a ∷ x) [] p q = absurd (omega arith)
memcmp-take (suc n) (a ∷ x) (b ∷ y) p q = elim (ℕ_discrete a b) [
  | yes same ↦
      let (r, e, (f, g)) = memcmp-take n x y (omega arith) (omega arith) in
      (r, ground (arith, e), (λ z. ground (arith, f z), λ z. g (ground arith)))
  | no other ↦
      let (r, e, nz, _) = memcmp_ne n a b x y other in
      (r, ground (arith, e), (λ z. ground arith, λ z. ground arith))
]

-- `==` of slices that refer to bytes of their arrays returns, and is true exactly where the strings are
-- equal.
pub equals_lem :
    (a b : Slice)
    → IsValid a
    → IsValid b
    → (t : Bool) × (equals a b ≡ some t) × ((t ≡ true) ↔ (to_string a ≡ to_string b))
unfolding equals to_string
equals_lem a b p q = elim (ℕ_discrete a.size_ b.size_) [
  | yes same ↦
      let (r, e, (f, g)) = memcmp-take a.size_ a.data_ b.data_ p (omega arith) in
      (is_zero r, ground (arith, e), (λ z. ground (arith, f z), λ z. g (ground (arith, z))))
  | no other ↦ (
    false,
    ground arith,
    (
      λ z. absurd (ground arith),
      λ z.
          absurd
            (omega (arith, ap length z, length-take a.size_ a.data_, length-take b.size_ b.data_)),
    ),
  )
]

take-take : (n k : ℕ) (x : List ℕ) → n ≤ k → take n (take k x) ≡ take n x
take-take zero k x h = refl
take-take (suc n) zero x h = absurd (omega arith)
take-take (suc n) (suc k) [] h = refl
take-take (suc n) (suc k) (a ∷ x) h = ap (λ l. a ∷ l) (take-take n k x (omega arith))

length-to_string : (s : Slice) → IsValid s → length (to_string s) ≡ s.size_
unfolding to_string
length-to_string s h = omega (arith, length-take s.size_ s.data_)

begins :
    (n : ℕ) (x y : List ℕ) → length y ≡ n → (take n x ≡ y) ↔ ((rest : List ℕ) × (x ≡ y ++ rest))
begins n x y h = (
  λ e. (drop n x, sym (take-append-drop n x) ∙ ap (λ l. l ++ drop n x) e),
  λ (rest, e). ap (take n) e ∙ subst (λ k. take k (y ++ rest) ≡ y) h (take-append y rest),
)

-- `starts_with` of such slices returns, and is true exactly where the first string is the second with
-- some rest behind it.
pub starts_with_lem :
    (a x : Slice)
    → IsValid a
    → IsValid x
    → (t : Bool) × (starts_with a x ≡ some t)
      × ((t ≡ true) ↔ ((rest : List ℕ) × (to_string a ≡ to_string x ++ rest)))
unfolding starts_with to_string
starts_with_lem a x p q =
    let (f, g) = begins x.size_ (to_string a) (to_string x) (length-to_string x q) in
    elim (dec_le x.size_ a.size_) [
      | yes fits ↦
          let (r, e, (f', g')) = memcmp-take x.size_ a.data_ x.data_ (omega arith) q in
          let same = take-take x.size_ a.size_ a.data_ fits in
          (is_zero r, ground (arith, e), (λ z. f (same ∙ f' z), λ z. g' (sym same ∙ g z)))
      | no long ↦ (
        false,
        ground arith,
        (
          λ z. absurd (ground arith),
          λ (rest, z). absurd (
              omega (
                arith,
                ap length z,
                length-append (to_string x) rest,
                length-to_string a p,
                length-to_string x q,
              )),
        ),
      )
    ]

take-drop_sub : (n k : ℕ) (x : List ℕ) → n ≤ k → take (k - n) (drop n x) ≡ drop n (take k x)
take-drop_sub zero k x h = ap (λ m. take m x) (omega arith)
take-drop_sub (suc n) zero x h = absurd (omega arith)
take-drop_sub (suc n) (suc k) [] h = take_nil (suc k - suc n)
take-drop_sub (suc n) (suc k) (a ∷ x) h =
    ap (λ m. take m (drop n x)) (omega arith) ∙ take-drop_sub n k x (omega arith)

-- `remove_prefix` of no more bytes than there are leaves a slice that refers to bytes of its array, and
-- the string is without its first `n` bytes.
pub remove_prefix_lem :
    (n : ℕ) (s : Slice)
    → IsValid s
    → n ≤ s.size_
    → (s' : Slice) × (remove_prefix n s ≡ some s')
      × IsValid s'
      × (to_string s' ≡ drop n (to_string s))
unfolding remove_prefix to_string
remove_prefix_lem n s h fits = (
  slice (drop n s.data_) (s.size_ - n),
  ground arith,
  omega (arith, length-drop n s.data_),
  take-drop_sub n s.size_ s.data_ fits,
)
