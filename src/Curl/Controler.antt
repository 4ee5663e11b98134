-- ===== src/Curl/Controler.antt =====
-- `downloadControler` of Curl_Breakpoint/CurlDown.cpp, over the attempts that will be made.
use tools_demo.Base.{ℕ, ◌+◌, Bool, true, false, Option, List, [], ◌∷◌, ◌==◌, if◌then◌else◌}
use tools_demo.Base.Int.{ℤ, pos, negsuc}
use tools_demo.Curl.Transfer.{Attempt, returns, undefined, download, download_file_length}

-- What the delegate is told: `onError(kNetwork)`; `onSuccess` or `onError(kUncompress)`, after how many
-- attempts; or nothing, as the attempts go on or are undefined behaviour
pub data Report : Type 0 where
  network_error : Report
  success : ℕ → Report
  uncompress_error : ℕ → Report
  trying : Report
  crashed : Report

-- The part of the URL behind its last slash, or all of it
unfoldable pub file_name : List ℕ → List ℕ → List ℕ
file_name name [] = name
file_name name (c ∷ url) = if c == b'/' then file_name url url else file_name name url

-- The report of the last attempt
abbrev pub told : ℕ → Bool → Report
told n true = success n
told n false = uncompress_error n

-- The loop, after `n` attempts
unfoldable pub download_loop : ℕ → List Attempt → Option (List ℕ) → Report × Option (List ℕ)
download_loop n [] file = (trying, file)
download_loop n (a ∷ attempts) file = elim (download a file) [
  | undefined ↦ (crashed, file)
  | returns ret f ↦
      if a.stopped
      then (told (n + 1) ret, f)
      else if ret
      then (told (n + 1) ret, f)
      else download_loop (n + 1) attempts f
]

-- A length that is 0 or less is a network error.
unfoldable pub has_length : ℤ → Bool
has_length (pos n) = if n == 0 then false else true
has_length (negsuc n) = false

unfoldable pub download_controler :
    Bool → ℤ → List Attempt → Option (List ℕ) → Report × Option (List ℕ)
download_controler performs content_length attempts file =
    if has_length (download_file_length performs content_length)
    then download_loop 0 attempts file
    else (network_error, file)
