-- ===== src/Status/Text.antt =====
-- What a `Status` tells of the code and the messages that it was made with.

use tools_demo.Base.{
  ℕ, ◌+◌, ◌%◌, ◌^◌, ◌<◌, ◌≡◌, ◌≢◌, refl, sym, ap, subst, ◌∙◌, ◌↔◌, Bool, true, false, some, List,
  [], ◌∷◌, ◌++◌, arith, length, take, ◌==◌,
}
use tools_demo.Pipe.Memory.{copy_from_lem}
use tools_demo.Slice.Defs.{Slice, IsValid}
use tools_demo.Slice.Defs
use tools_demo.Status.Defs.{
  Code, ok, not_found, corruption, not_supported, invalid_argument, io_error, value_of, word_bytes,
  copy_state, make, init_with, code, is_code, code_of, type_of, type_text, copy, to_string,
}
use tools_demo.Status.Layout.{message_of, layout, size, length-text, fill_lem, read_word-word_bytes}

nonzero : (c : Code) → c ≢ ok → (value_of c == 0) ≡ false
nonzero ok h = absurd (h refl)
nonzero not_found h = refl
nonzero corruption h = refl
nonzero not_supported h = refl
nonzero invalid_argument h = refl
nonzero io_error h = refl

module _ (m1 m2 : Slice) where
  -- The constructor with a code other than `kOk` and two slices that refer to bytes of their arrays, of
  -- less than `2 ^ 32 - 7` bytes together, has a result: the four bytes of the size of the text, the code,
  -- and the text, which is the first message and, where it is not empty, ": " and the second. No copy
  -- leaves its array.
  pub init_with_lem :
      (c : Code)
      → IsValid m1
      → IsValid m2
      → m1.size_ + m2.size_ + 7 < 2 ^ 32
      → c ≢ ok
      → init_with c m1 m2
        ≡ some (some (layout c (message_of (Defs.to_string m1) (Defs.to_string m2))))
  unfolding init_with make layout
  init_with_lem c h1 h2 small other =
      let f = fill_lem m1 m2 h1 h2 (value_of c) (ground arith) in
      let n = length-text m1 m2 h1 h2 in
      let e1 : m1.size_ % 2 ^ 32 ≡ m1.size_ = omega arith in
      let e2 : m2.size_ % 2 ^ 32 ≡ m2.size_ = omega arith in
      let e3 : size m1 m2 % 2 ^ 32 ≡ size m1 m2 = ground arith in
      let z = nonzero c other in ground (arith, z, e1, e2, e3, f, n)

take_all : (l : List ℕ) → take (length l) l ≡ l
take_all [] = refl
take_all (x ∷ l) = ap (λ k. x ∷ k) (take_all l)

code_of-value_of : (c : Code) → code_of (value_of c) ≡ some c
unfolding code_of
code_of-value_of ok = refl
code_of-value_of not_found = refl
code_of-value_of corruption = refl
code_of-value_of not_supported = refl
code_of-value_of invalid_argument = refl
code_of-value_of io_error = refl

-- A status with the layout of a code and a text shorter than `2 ^ 32 - 5` bytes prints as the name of the
-- code and the text, whatever other codes print as.
pub to_string_lem :
    (unknown : ℕ → List ℕ) (c : Code) (text : List ℕ)
    → length text + 5 < 2 ^ 32
    → to_string unknown (some (layout c text)) ≡ some (type_of c ++ text)
unfolding to_string layout type_text word_bytes
to_string_lem unknown c text small =
    let w = read_word-word_bytes (length text) (value_of c ∷ text) (omega arith) in
    let k = code_of-value_of c in
    let cut =
      copy_from_lem 5 (length text) (word_bytes (length text) ++ (value_of c ∷ text))
        (omega arith) in
    let all : take (length text) text ≡ text = take_all text in ground (arith, w, k, cut, all)

-- A copy of such a status has the same bytes.
pub copy_lem :
    (c : Code) (text : List ℕ)
    → length text + 5 < 2 ^ 32
    → copy (some (layout c text)) ≡ some (some (layout c text))
unfolding copy copy_state layout word_bytes
copy_lem c text small =
    let w = read_word-word_bytes (length text) (value_of c ∷ text) (omega arith) in
    let m : (length text + 5) % 2 ^ 32 ≡ length text + 5 = omega arith in
    let whole = word_bytes (length text) ++ (value_of c ∷ text) in
    let cut = copy_from_lem 0 (length text + 5) whole (omega arith) in
    let all : take (length text + 5) whole ≡ whole =
      subst (λ k. take k whole ≡ whole) {x = length whole} (omega arith) (take_all whole) in
    ground (arith, w, m, cut, all)

value_of_inj : (c d : Code) → value_of c ≡ value_of d → c ≡ d
value_of_inj c d e =
    let k = sym (code_of-value_of c) ∙ ap code_of e ∙ code_of-value_of d in ground (arith, k)

-- `IsNotFound` and the others are true of such a status for its own code only.
pub is_code_lem :
    (c d : Code) (text : List ℕ)
    → (t : Bool) × (is_code d (some (layout c text)) ≡ some t) × ((t ≡ true) ↔ (c ≡ d))
unfolding is_code code layout word_bytes
is_code_lem c d text = (
  value_of c == value_of d,
  refl,
  (λ e. value_of_inj c d (ground (arith, e)), λ e. ground (arith, ap value_of e)),
)
