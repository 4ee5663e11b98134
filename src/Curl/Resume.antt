-- ===== src/Curl/Resume.antt =====
-- What the attempts of Curl_Breakpoint make of a file, if libcurl resumes as it is asked to.
use tools_demo.Base.{
  ℕ, ◌+◌, ◌≡◌, refl, Bool, true, false, Option, List, [], ◌∷◌, if◌then◌else◌, ◌⊎◌, Bool-cases, inl,
  inr,
}
use tools_demo.Base.Int.{ℤ}
use tools_demo.Curl.Transfer.{
  Attempt, Downloaded, returns, undefined, download, download_file_length,
}
use tools_demo.Curl.Controler.{
  Report, network_error, success, uncompress_error, trying, crashed, told, has_length,
  download_loop, download_controler,
}
use tools_demo.Curl.Attempts.{Resumes, Begins, IsShort, Follows, download-Follows}

abbrev pub AllResume : List ℕ → List Attempt → Type 0
AllResume remote [] = Unit
AllResume remote (a ∷ attempts) = Resumes remote a × AllResume remote attempts

-- The attempt that is the `n`-th, where the first of the list comes after `k`, may lose so many bytes.
abbrev pub Loses : ℕ → List Attempt → ℕ → ℕ → Type 0
Loses k [] n lost = ⊥
Loses k (a ∷ attempts) n lost = (n ≡ k + 1) × (a.unflushed ≡ lost) ⊎ Loses (k + 1) attempts n lost

-- What a report and the file say together, for attempts after `k`
abbrev pub Reports : List ℕ → ℕ → List Attempt → Report × Option (List ℕ) → Type 0
Reports remote k attempts (success n, file) =
    (lost : ℕ) × Loses k attempts n lost × IsShort lost file remote
Reports remote k attempts (network_error, file) = Begins file remote
Reports remote k attempts (uncompress_error n, file) = Begins file remote
Reports remote k attempts (trying, file) = Begins file remote
Reports remote k attempts (crashed, file) = Begins file remote

-- What the attempts after the first come to
later-Reports :
    (remote : List ℕ) (k : ℕ) (a : Attempt) (attempts : List Attempt) (r : Report)
    (file : Option (List ℕ))
    → Reports remote (k + 1) attempts (r, file)
    → Reports remote k (a ∷ attempts) (r, file)
later-Reports remote k a attempts (success n) file (lost, loses, short) = (lost, inr loses, short)
later-Reports remote k a attempts network_error file h = h
later-Reports remote k a attempts (uncompress_error n) file h = h
later-Reports remote k a attempts trying file h = h
later-Reports remote k a attempts crashed file h = h

told-Reports :
    (remote : List ℕ) (k : ℕ) (a : Attempt) (attempts : List Attempt) (ret : Bool)
    (file : Option (List ℕ))
    → Begins file remote
    → (ret ≡ true → IsShort a.unflushed file remote)
    → Reports remote k (a ∷ attempts) (told (k + 1) ret, file)
told-Reports remote k a attempts true file h whole = (a.unflushed, inl (refl, refl), whole refl)
told-Reports remote k a attempts false file h whole = h

loop-Reports :
    (remote : List ℕ) (k : ℕ) (attempts : List Attempt) (file : Option (List ℕ))
    → AllResume remote attempts
    → Begins file remote
    → Reports remote k attempts (download_loop k attempts file)
unfolding download_loop
loop-Reports remote k [] file resume h = h
loop-Reports remote k (a ∷ attempts) file (resumes, resume) h =
    go (download a file) (download-Follows remote a file resumes h) (λ f begins.
      let r = download_loop (k + 1) attempts f in
      later-Reports remote k a attempts r.0 r.1
        (loop-Reports remote (k + 1) attempts f resume begins))
  where
    go :
        (d : Downloaded)
        → Follows remote a.unflushed d
        → ((f : Option (List ℕ))
            → Begins f remote
            → Reports remote k (a ∷ attempts) (download_loop (k + 1) attempts f))
        → Reports remote k (a ∷ attempts) (elim d as (λ _. Report × Option (List ℕ)) [
          | undefined ↦ (crashed, file)
          | returns ret f ↦
              if a.stopped
              then (told (k + 1) ret, f)
              else if ret
              then (told (k + 1) ret, f)
              else download_loop (k + 1) attempts f
        ])
    go undefined d rest = h
    go (returns ret f) (begins, whole) rest = elim (Bool-cases a.stopped) [
      | inl stop ↦ rw stop (told-Reports remote k a attempts ret f begins whole)
      | inr on ↦ elim (Bool-cases ret) [
        | inl won ↦ rw (on, won) (a.unflushed, inl (refl, refl), whole won)
        | inr lost ↦ rw (on, lost) (rest f begins)
      ]
    ]

-- If libcurl resumes as it is asked to and the file is not there or begins as the remote one, then it still
-- begins as the remote one in the end, however many attempts failed before at any byte, and lost bytes at
-- their fclose. When the delegate is told of a success after some number of attempts, it is missing no
-- more bytes than the fclose of the attempt with that number failed to write: none where that fclose
-- succeeded.
pub controler-Reports :
    (remote : List ℕ) (performs : Bool) (content_length : ℤ) (attempts : List Attempt)
    (file : Option (List ℕ))
    → AllResume remote attempts
    → Begins file remote
    → Reports remote 0 attempts (download_controler performs content_length attempts file)
unfolding download_controler
controler-Reports remote performs content_length attempts file resume h =
    elim (Bool-cases (has_length (download_file_length performs content_length))) [
      | inl known ↦ rw known (loop-Reports remote 0 attempts file resume h)
      | inr unknown ↦ rw unknown h
    ]
