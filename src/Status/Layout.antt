-- ===== src/Status/Layout.antt =====
-- The bytes that a `Status` owns.
use mathlib.Core.List.{append_assoc, append-nil}
use tools_demo.Base.{
  ℕ, ◌+◌, ◌%◌, ◌^◌, ◌≤◌, ◌<◌, ◌≡◌, refl, sym, ap, subst, ◌∙◌, some, List, [], ◌∷◌, ◌++◌, arith,
  length, take, drop, length-append, length-drop, length-take, take-append, drop-append, drop-drop,
  ◌==◌, if◌then◌else◌, ℕ_discrete,
}
use tools_demo.Pipe.Memory.{memcpy_to, copy_from, copy_from_lem, zeros, length-zeros}
use tools_demo.Slice.Defs.{Slice, IsValid}
use tools_demo.Slice.Defs
use tools_demo.Status.Defs.{Code, value_of, word_bytes, read_word, append_second, fill}

-- A copy right behind what was written
memcpy_next :
    (off : ℕ) (pre src rest : List ℕ)
    → off ≡ length pre
    → length src ≤ length rest
    → memcpy_to off src (pre ++ rest) ≡ some ((pre ++ src) ++ drop (length src) rest)
unfolding memcpy_to
memcpy_next off pre src rest e fits =
    let t : take off (pre ++ rest) ≡ pre =
      subst (λ k. take k (pre ++ rest) ≡ pre) (sym e) (take-append pre rest) in
    let d : drop (off + length src) (pre ++ rest) ≡ drop (length src) rest =
      ap (λ k. drop (k + length src) (pre ++ rest)) e
      ∙ sym (drop-drop (length pre) (length src) (pre ++ rest))
      ∙ ap (drop (length src)) (drop-append pre rest) in
    ground (arith, t, d, length-append pre rest, append_assoc pre src (drop (length src) rest))

pub read_word-word_bytes :
    (v : ℕ) (rest : List ℕ) → v < 2 ^ 32 → read_word (word_bytes v ++ rest) ≡ some v
unfolding read_word word_bytes
read_word-word_bytes v rest h = ap some (omega arith)

-- The text that a status holds
unfoldable pub message_of : List ℕ → List ℕ → List ℕ
message_of first second = first ++ (if length second == 0 then [] else 58 ∷ 32 ∷ second)

-- The whole array: the size of the text, the code and the text.
unfoldable pub layout : Code → List ℕ → List ℕ
layout c text = word_bytes (length text) ++ (value_of c ∷ text)

pub copy_all : (s : Slice) → IsValid s → copy_from 0 s.size_ s.data_ ≡ some (Defs.to_string s)
unfolding Defs.to_string
copy_all s h = copy_from_lem 0 s.size_ s.data_ (omega arith)

pub length-to_string : (s : Slice) → IsValid s → length (Defs.to_string s) ≡ s.size_
unfolding Defs.to_string
length-to_string s h = omega (arith, length-take s.size_ s.data_)

nil_of_zero : (l : List ℕ) → length l ≡ 0 → l ≡ []
nil_of_zero [] e = refl
nil_of_zero (x ∷ l) e = absurd (omega arith)

second_lem :
    (len1 : ℕ) (msg2 : Slice) (pre tail : List ℕ)
    → IsValid msg2
    → length pre ≡ 5 + len1
    → length tail ≡ (if msg2.size_ == 0 then 0 else 2 + msg2.size_)
    → append_second len1 msg2.size_ msg2 (pre ++ tail)
      ≡ some
          (pre ++ (if length (Defs.to_string msg2) == 0 then [] else 58 ∷ 32 ∷ Defs.to_string msg2))
unfolding append_second
second_lem len1 msg2 pre tail h p t = elim (ℕ_discrete msg2.size_ 0) [
  | yes none_there ↦
      let gone = nil_of_zero tail (ground (arith, t)) in
      ground (arith, gone, length-to_string msg2 h)
  | no there ↦
      let str = Defs.to_string msg2 in
      let n = length-to_string msg2 h in
      let t' : length tail ≡ 2 + msg2.size_ = ground (arith, t) in
      let sep : List ℕ = 58 ∷ 32 ∷ [] in
      let tail2 = drop 2 tail in
      let n2 = length-drop 2 tail in
      let e1 = memcpy_next (5 + len1) pre sep tail (sym p) (omega arith) in
      let e2 = copy_all msg2 h in
      let e3 =
        memcpy_next (7 + len1) (pre ++ sep) str tail2 (omega (arith, length-append pre sep))
          (omega arith) in
      let done =
        nil_of_zero (drop (length str) tail2) (omega (arith, length-drop (length str) tail2)) in
      let whole : ((pre ++ sep) ++ str) ++ drop (length str) tail2 ≡ pre ++ (58 ∷ 32 ∷ str) =
        ap (λ l. ((pre ++ sep) ++ str) ++ l) done
        ∙ append-nil ((pre ++ sep) ++ str)
        ∙ append_assoc pre sep str in
      ground (arith, e1, e2, e3, whole, n)
]

-- the size of the text
abbrev pub size : Slice → Slice → ℕ
size m1 m2 = m1.size_ + (if m2.size_ == 0 then 0 else 2 + m2.size_)

module _ (m1 m2 : Slice) (h1 : IsValid m1) (h2 : IsValid m2) where
  pub length-text : length (message_of (Defs.to_string m1) (Defs.to_string m2)) ≡ size m1 m2
  unfolding message_of
  length-text =
      let n1 = length-to_string m1 h1 in
      let n2 = length-to_string m2 h2 in
      elim (ℕ_discrete m2.size_ 0) [
        | yes none_there ↦ ground (arith, n1, n2, length-append (Defs.to_string m1) [])
        | no there ↦
            ground (arith, n1, n2, length-append (Defs.to_string m1) (58 ∷ 32 ∷ Defs.to_string m2))
      ]

  pub fill_lem :
      (value : ℕ)
      → size m1 m2 + 5 < 2 ^ 32
      → fill value (size m1 m2) m1.size_ m2.size_ m1 m2
        ≡ some (
            word_bytes (size m1 m2) ++ (value ∷ message_of (Defs.to_string m1) (Defs.to_string m2)))
  unfolding fill word_bytes message_of
  fill_lem value small =
      let word = word_bytes (size m1 m2) in
      let one : List ℕ = value ∷ [] in
      let first = Defs.to_string m1 in
      let rest = zeros ((size m1 m2 + 5) % 2 ^ 32) in
      let n = length-zeros ((size m1 m2 + 5) % 2 ^ 32) in
      let n1 = length-to_string m1 h1 in
      let r1 = drop 4 rest in
      let r2 = drop 1 r1 in
      let r3 = drop (length first) r2 in
      let l1 = length-drop 4 rest in
      let l2 = length-drop 1 r1 in
      let l3 = length-drop (length first) r2 in
      let e0 = memcpy_next 0 [] word rest refl (omega arith) in
      let e1 = memcpy_next 4 word one r1 refl (omega arith) in
      let e2 = memcpy_next 5 (word ++ one) first r2 refl (omega arith) in
      let e3 =
        second_lem m1.size_ m2 ((word ++ one) ++ first) r3 h2
          (omega (arith, length-append (word ++ one) first)) (omega arith) in
      let c = copy_all m1 h1 in ground (arith, e0, e1, e2, e3, c)
