-- ===== src/Curl/Tests.antt =====
-- The theorems on `CurlDown` at a file of four bytes, and at whole numbers for its `double`s.
use tools_demo.Base.{
  ℕ, ◌+◌, ◌-◌, ◌*◌, ◌/◌, ◌≡◌, refl, true, false, none, some, List, [], ◌∷◌, take, drop,
  take-append-drop, ltb, leb, ◌==◌, ◌∙◌,
}
use mathlib.Core.List.{append-nil}
use tools_demo.Base.Int.{pos}
use tools_demo.Curl.Transfer.{Attempt}
use tools_demo.Curl.Controler.{Report, success, download_controler}
use tools_demo.Curl.Attempts.{Resumes}
use tools_demo.Curl.Resume.{Reports, controler-Reports}
use tools_demo.Curl.Progress.{Double, CurlDown, Call}

abbrev remote_file : List ℕ
remote_file = 1 ∷ 2 ∷ 3 ∷ 4 ∷ []

-- Two bytes, of which the second does not reach the disk, and then an error
abbrev breaks_off : Attempt
breaks_off = record {
  opens = true;
  reads = true;
  room = 100;
  unflushed = 1;
  perform = λ offset. (take 2 (drop offset remote_file) ∷ [], false);
  stopped = false;
}

abbrev goes_on : Attempt
goes_on = record {
  opens = true;
  reads = true;
  room = 100;
  unflushed = 0;
  perform = λ offset. (drop offset remote_file ∷ [], true);
  stopped = false;
}

breaks_off-Resumes : Resumes remote_file breaks_off
breaks_off-Resumes offset le =
    let l = drop offset remote_file in
    (drop 2 l, rw (append-nil (take 2 l)) (take-append-drop 2 l), λ e. cc)

goes_on-Resumes : Resumes remote_file goes_on
goes_on-Resumes offset le = ([], append-nil _ ∙ append-nil _, λ e. refl)

attempts_report :
    download_controler true (pos 4) (breaks_off ∷ goes_on ∷ []) none ≡ (success 2, some remote_file)
unfolding download_controler tools_demo.Curl.Controler.has_length
    tools_demo.Curl.Transfer.download_file_length tools_demo.Curl.Controler.download_loop
    tools_demo.Curl.Transfer.download tools_demo.Curl.Transfer.local_file_length
    tools_demo.Curl.Transfer.transfer tools_demo.Curl.Transfer.write_blocks
    tools_demo.Curl.Transfer.my_write_func tools_demo.Curl.Transfer.open_file
    tools_demo.Curl.Transfer.close_file
attempts_report = refl

controler-Reports_example :
    Reports remote_file 0
      (breaks_off ∷ goes_on ∷ [])
      (download_controler true (pos 4) (breaks_off ∷ goes_on ∷ []) none)
controler-Reports_example =
    controler-Reports remote_file true (pos 4) (breaks_off ∷ goes_on ∷ []) none
      (breaks_off-Resumes, (goes_on-Resumes, tt)) tt

abbrev whole_numbers : Double
whole_numbers = record {
  W = ℕ;
  nought = 0;
  hundred = 100;
  thousand = 1000;
  below_nought = 0;
  above_nought = 1;
  of_ms = λ n. n;
  plus = λ a b. a + b;
  minus = λ a b. a - b;
  times = λ a b. a * b;
  over = λ a b. a / b;
  eq = λ a b. a == b;
  lt = λ a b. ltb a b;
  ge = λ a b. leb b a;
}

abbrev call_at : ℕ → Call whole_numbers
call_at ms = record { total = 4; now_downloaded = 1; ms = ms }

abbrev started : CurlDown whole_numbers
started = record { file_length = 4; start_time = 5000; last_time = 0; last_size = 0 }
