-- ===== src/Curl/Attempts.antt =====
-- What one attempt of Curl_Breakpoint makes of a file, if libcurl resumes as it is asked to.
use mathlib.Core.List.{append_assoc, append-nil}
use tools_demo.Base.{
  ℕ, ◌-◌, ◌≤◌, ◌≡◌, refl, sym, ap, ◌∙◌, Bool, true, false, ◌&&◌, Option, none, some, List, [], ◌∷◌,
  ◌++◌, ◌==◌, ==_iff, length, length-append, take, drop, take-append-drop, drop-append, length-drop,
  min, max, Bool-cases, inl, inr, arith,
}
use tools_demo.Curl.Transfer.{
  Attempt, my_write_func, write_blocks, close_file, Downloaded, returns, undefined, transfer,
  open_file, local_file_length, download,
}

abbrev pub joined : List (List ℕ) → List ℕ
joined [] = []
joined (b ∷ blocks) = b ++ joined blocks

abbrev pub IsPrefix : List ℕ → List ℕ → Type 0
IsPrefix file remote = (rest : List ℕ) × (file ++ rest ≡ remote)

-- From an offset inside the remote file, libcurl hands over bytes that come next, and all of them if it
-- returns CURLE_OK.
abbrev pub Resumes : List ℕ → Attempt → Type 0
Resumes remote a =
    (offset : ℕ)
    → offset ≤ length remote
    → (rest : List ℕ) × (joined (a.perform offset).0 ++ rest ≡ drop offset remote)
      × ((a.perform offset).1 ≡ true → rest ≡ [])

-- A file that is not there, or the first bytes of the remote one
abbrev pub Begins : Option (List ℕ) → List ℕ → Type 0
Begins none remote = Unit
Begins (some file) remote = IsPrefix file remote

write_lem :
    (room : ℕ) (file b : List ℕ)
    → (more : List ℕ) × ((my_write_func room file b).0 ++ more ≡ file ++ b)
      × ((my_write_func room file b).1 ≡ length b → more ≡ [])
unfolding my_write_func
write_lem room file b =
    let n = min room (length b) in
    (
      drop n b,
      append_assoc file (take n b) (drop n b) ∙ ap (λ l. file ++ l) (take-append-drop n b),
      λ e. ap (λ k. drop k b) e ∙ drop_all b,
    )
  where
    drop_all : (b : List ℕ) → drop (length b) b ≡ []
    drop_all [] = refl
    drop_all (x ∷ b) = drop_all b

blocks_lem :
    (room : ℕ) (file : List ℕ) (blocks : List (List ℕ))
    → (more : List ℕ) × ((write_blocks room file blocks).0 ++ more ≡ file ++ joined blocks)
      × ((write_blocks room file blocks).1 ≡ true → more ≡ [])
unfolding write_blocks
blocks_lem room file [] = ([], refl, λ _. refl)
blocks_lem room file (b ∷ blocks) =
    let r = my_write_func room file b in
    let (more, e, f) = write_lem room file b in
    let (later, g, h) = blocks_lem (room - r.1) r.0 blocks in
    let rest = joined blocks in
    let split : r.0 ++ (more ++ rest) ≡ file ++ (b ++ rest) =
      sym (append_assoc r.0 more rest) ∙ ap (λ l. l ++ rest) e ∙ append_assoc file b rest in
    elim (Bool-cases (r.1 == length b)) [
      | inr short ↦ rw short (more ++ rest, split, λ z. cc)
      | inl whole ↦
          let all : more ≡ [] = f ((==_iff r.1 (length b)).0 whole) in
          rw whole (later, g ∙ ap (λ m. r.0 ++ (m ++ rest)) (sym all) ∙ split, h)
    ]

-- The first bytes of the remote file, of which so many are missing at most
abbrev pub IsShort : ℕ → Option (List ℕ) → List ℕ → Type 0
IsShort lost none remote = ⊥
IsShort lost (some file) remote = (rest : List ℕ) × (file ++ rest ≡ remote) × (length rest ≤ lost)

-- What `Download` makes of a file that begins as the remote one
abbrev pub Follows : List ℕ → ℕ → Downloaded → Type 0
Follows remote lost undefined = Unit
Follows remote lost (returns ret file) =
    Begins file remote × (ret ≡ true → IsShort lost file remote)

-- The bytes that are not on the disk come next.
close_lem :
    (unflushed : ℕ) (old written : List ℕ)
    → (lost : List ℕ) × (close_file unflushed old written ++ lost ≡ written)
      × (length lost ≤ unflushed)
unfolding close_file
close_lem unflushed old written =
    let n = max (length old) (length written - unflushed) in
    (drop n written, take-append-drop n written, let l = length-drop n written in ground (arith, l))

and_true : (a b : Bool) → a && b ≡ true → (a ≡ true) × (b ≡ true)
and_true true b e = (refl, e)
and_true false b e = absurd (ground (arith, e))

transfer-Follows :
    (remote file : List ℕ) (a : Attempt)
    → Resumes remote a
    → IsPrefix file remote
    → Follows remote a.unflushed (transfer a file (length file))
unfolding transfer
transfer-Follows remote file a resumes (left, e) =
    let offset_le : length file ≤ length remote =
      omega (arith, ap length e, length-append file left) in
    let (after, g, all_sent) = resumes (length file) offset_le in
    let sent = (a.perform (length file)).0 in
    let (more, f, all_written) = blocks_lem a.room file sent in
    let w = write_blocks a.room file sent in
    let tail : drop (length file) remote ≡ left =
      ap (drop (length file)) (sym e) ∙ drop-append file left in
    let whole : w.0 ++ (more ++ after) ≡ remote =
      sym (append_assoc w.0 more after)
      ∙ ap (λ l. l ++ after) f
      ∙ append_assoc file (joined sent) after
      ∙ ap (λ l. file ++ l) (g ∙ tail)
      ∙ e in
    let (lost, closed, few) = close_lem a.unflushed file w.0 in
    let kept = close_file a.unflushed file w.0 in
    let begins : kept ++ (lost ++ (more ++ after)) ≡ remote =
      sym (append_assoc kept lost (more ++ after))
      ∙ ap (λ l. l ++ (more ++ after)) closed
      ∙ whole in
    (
      (lost ++ (more ++ after), begins),
      λ done.
          let (written, ok) = and_true w.1 (a.perform (length file)).1 done in
          let none_left : more ++ after ≡ [] =
            ap (λ m. m ++ after) (all_written written) ∙ all_sent ok in
          (lost, closed ∙ sym (append-nil w.0) ∙ ap (λ m. w.0 ++ m) (sym none_left) ∙ whole, few),
    )

open_file-IsPrefix :
    (remote : List ℕ) (file : Option (List ℕ))
    → Begins file remote
    → IsPrefix (open_file file) remote
unfolding open_file
open_file-IsPrefix remote none h = (remote, refl)
open_file-IsPrefix remote (some bytes) h = h

pub download-Follows :
    (remote : List ℕ) (a : Attempt) (file : Option (List ℕ))
    → Resumes remote a
    → Begins file remote
    → Follows remote a.unflushed (download a file)
unfolding download local_file_length
download-Follows remote a file resumes h = elim (Bool-cases a.opens) [
  | inr shut ↦ rw shut (h, λ z. cc)
  | inl opens ↦ elim (Bool-cases a.reads) [
    | inr unread ↦ rw (opens, unread) tt
    | inl reads ↦
        rw (opens, reads)
          (transfer-Follows remote (open_file file) a resumes (open_file-IsPrefix remote file h))
  ]
]
