-- ===== src/Split/Words.antt =====
-- What `split2vector` of splite2vector/test.h makes of words with delimiters between them.
use mathlib.Core.List.{append-nil}
use tools_demo.Base.{
  ℕ, zero, suc, ◌+◌, ◌≤◌, ◌<◌, ◌≡◌, ◌≢◌, refl, sym, ap, ◌∙◌, Bool, true, false, Option, none, some,
  List, [], ◌∷◌, ◌++◌, length, length-append, arith,
}
use tools_demo.Split.Defs.{table, skip, take_word, taken, extract, copy, split2vector}

abbrev pub AllAre : Bool → List ℕ → Type 0
AllAre b [] = Unit
AllAre b (c ∷ cs) = (table c ≡ b) × AllAre b cs

-- A word has characters, none of them a delimiter.
abbrev pub IsWord : List ℕ → Type 0
IsWord [] = ⊥
IsWord (c ∷ cs) = (table c ≡ false) × AllAre false cs

abbrev pub Begins : List ℕ → Type 0
Begins [] = Unit
Begins (c ∷ cs) = table c ≡ true

-- Words, each with the delimiters after it: at least one of them where another word follows
abbrev pub IsSplit : List (List ℕ × List ℕ) → Type 0
IsSplit [] = Unit
IsSplit ((w, d) ∷ []) = IsWord w × AllAre true d
IsSplit ((w, d) ∷ p ∷ ps) = IsWord w × AllAre true d × (d ≢ []) × IsSplit (p ∷ ps)

unfoldable pub text : List (List ℕ × List ℕ) → List ℕ
text [] = []
text ((w, d) ∷ ps) = w ++ (d ++ text ps)

unfoldable pub words : List (List ℕ × List ℕ) → List (List ℕ)
words [] = []
words ((w, d) ∷ ps) = w ∷ words ps

skip_all :
    (d w : List ℕ)
    → AllAre true d
    → IsWord w
    → (rest : List ℕ) → skip (d ++ (w ++ rest)) ≡ w ++ rest
unfolding skip
skip_all [] [] a h rest = absurd h
skip_all [] (c ∷ w) a h rest = ground (arith, h.0)
skip_all (c ∷ d) w a h rest = ground (arith, a.0, skip_all d w a.1 h rest)

skip_only : (d : List ℕ) → AllAre true d → skip (d ++ []) ≡ []
unfolding skip
skip_only [] a = refl
skip_only (c ∷ d) a = ground (arith, a.0, skip_only d a.1)

take_all : (w rest : List ℕ) → AllAre false w → Begins rest → take_word (w ++ rest) ≡ (w, rest)
unfolding take_word
take_all [] [] a b = refl
take_all [] (c ∷ rest) a b = ground (arith, b)
take_all (c ∷ w) rest a b = ground (arith, a.0, take_all w rest a.1 b)

extract_word :
    (d w rest : List ℕ)
    → AllAre true d
    → IsWord w
    → Begins rest
    → extract (d ++ (w ++ rest)) ≡ some (w, rest)
unfolding extract
extract_word d [] rest a h b = absurd h
extract_word d (c ∷ w) rest a h b =
    ap (λ s. taken (take_word s)) (skip_all d (c ∷ w) a h rest)
    ∙ ap taken (take_all (c ∷ w) rest h b)

extract-none : (d : List ℕ) → AllAre true d → extract (d ++ []) ≡ none
unfolding extract take_word
extract-none d a = ap (λ s. taken (take_word s)) (skip_only d a)

Begins-after : (d rest : List ℕ) → AllAre true d → d ≢ [] → Begins (d ++ rest)
Begins-after [] rest a e = absurd (e refl)
Begins-after (c ∷ d) rest a e = a.0

Begins-last : (d : List ℕ) → AllAre true d → Begins (d ++ [])
Begins-last [] a = tt
Begins-last (c ∷ d) a = a.0

copy_word :
    (fuel : ℕ) (stream w rest : List ℕ) (output : List (List ℕ))
    → extract stream ≡ some (w, rest)
    → copy (suc fuel) stream output ≡ copy fuel rest (output ++ w ∷ [])
unfolding copy
copy_word fuel stream w rest output e = ground (arith, e)

copy_end :
    (fuel : ℕ) (stream : List ℕ) (output : List (List ℕ))
    → extract stream ≡ none
    → copy (suc fuel) stream output ≡ some output
unfolding copy
copy_end fuel stream output e = ground (arith, e)

step_lem :
    (w : List ℕ) (output : List (List ℕ)) (ws : List (List ℕ))
    → (output ++ w ∷ []) ++ ws ≡ output ++ w ∷ ws
step_lem w [] ws = refl
step_lem w (o ∷ output) ws = ap (λ l. o ∷ l) (step_lem w output ws)

copy-words :
    (fuel : ℕ) (d : List ℕ) (ps : List (List ℕ × List ℕ)) (output : List (List ℕ))
    → AllAre true d
    → IsSplit ps
    → length ps < fuel
    → copy fuel (d ++ text ps) output ≡ some (output ++ words ps)
unfolding text words
copy-words zero d ps output a h n = absurd (omega (arith, n))
copy-words (suc fuel) d [] output a h n =
    copy_end fuel (d ++ []) output (extract-none d a) ∙ ap some (sym (append-nil output))
copy-words (suc fuel) d ((w, e) ∷ []) output a h n =
    copy_word fuel (d ++ (w ++ (e ++ []))) w (e ++ []) output
      (extract_word d w (e ++ []) a h.0 (Begins-last e h.1))
    ∙ copy-words fuel e [] (output ++ w ∷ []) h.1 tt (omega (arith, n))
    ∙ ap some (step_lem w output [])
copy-words (suc fuel) d ((w, e) ∷ p ∷ ps) output a (word, delims, some_there, more) n =
    copy_word fuel (d ++ (w ++ (e ++ text (p ∷ ps)))) w (e ++ text (p ∷ ps)) output (
      extract_word d w (e ++ text (p ∷ ps)) a word
        (Begins-after e (text (p ∷ ps)) delims some_there))
    ∙ copy-words fuel e (p ∷ ps) (output ++ w ∷ []) delims more (omega (arith, n))
    ∙ ap some (step_lem w output (words (p ∷ ps)))

word-length : (w : List ℕ) → IsWord w → 1 ≤ length w
word-length [] h = absurd h
word-length (c ∷ w) h = omega arith

length-text : (ps : List (List ℕ × List ℕ)) → IsSplit ps → length ps ≤ length (text ps)
unfolding text
length-text [] h = omega arith
length-text ((w, d) ∷ []) h =
    let a = word-length w h.0 in let b = length-append w (d ++ []) in omega (arith, a, b)
length-text ((w, d) ∷ p ∷ ps) (word, delims, some_there, more) =
    let a = word-length w word in
    let b = length-append w (d ++ text (p ∷ ps)) in
    let c = length-append d (text (p ∷ ps)) in
    let rest = length-text (p ∷ ps) more in omega (arith, a, b, c, rest)

split_copy :
    (s : List ℕ) (output : List (List ℕ)) (r : Option (List (List ℕ)))
    → copy (length s + 1) s output ≡ r
    → split2vector s output ≡ r
unfolding split2vector copy extract skip take_word
split_copy [] output r e = e
split_copy (c ∷ s) output r e = e

-- For a text of words with delimiters around them, with one at least between two words and any number
-- before the first and after the last, split2vector appends the words to the vector in their order.
pub split2vector_lem :
    (d : List ℕ) (ps : List (List ℕ × List ℕ)) (output : List (List ℕ))
    → AllAre true d
    → IsSplit ps
    → split2vector (d ++ text ps) output ≡ some (output ++ words ps)
split2vector_lem d ps output a h =
    let n = length-text ps h in
    let m = length-append d (text ps) in
    split_copy (d ++ text ps) output (some (output ++ words ps))
      (copy-words (length (d ++ text ps) + 1) d ps output a h (omega (arith, n, m)))
