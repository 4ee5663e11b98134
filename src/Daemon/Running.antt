-- ===== src/Daemon/Running.antt =====
-- Which processes `already_running` lets run, and what they leave for `get_pid`.
use tools_demo.Base.{
  ℕ, ◌^◌, ◌≤◌, ◌<◌, ◌≡◌, ◌≢◌, refl, sym, ap, subst, ◌∙◌, Bool, true, false, none, some, List, [],
  ◌∷◌, ◌⊎◌, inl, inr, length, take, take_all, arith,
}
use tools_demo.Base.Int.{ℤ, pos}
use tools_demo.Base.Text.{
  skip_spaces, digits_value, digits_value-digits_onto, length-digits_onto, digits_onto-cons,
}
use tools_demo.Daemon.PidFile.{
  PidFile, sscanf_long, signed_value, to_pid, checked, get_pid, lockfile, close_file, pid_text,
  write_pid, already_running,
}

pid_text-value : (pid : ℕ) → pid < 2 ^ 31 → digits_value 0 (pid_text pid) ≡ pid
unfolding pid_text digits_value
pid_text-value pid small = digits_value-digits_onto 18 pid (0 ∷ []) (omega arith) ∙ end pid
  where
    end : (n : ℕ) → digits_value n (0 ∷ []) ≡ n
    end n = refl

pid_text-length : (pid : ℕ) → length (pid_text pid) ≤ 31
unfolding pid_text
pid_text-length pid = omega (arith, length-digits_onto 18 pid (0 ∷ []))

digit_not_space : (c : ℕ) (cs : List ℕ) → 48 ≤ c → c ≤ 57 → skip_spaces (c ∷ cs) ≡ c ∷ cs
unfolding skip_spaces
digit_not_space c cs lo hi = ground arith

sscanf_digits :
    (c : ℕ) (cs : List ℕ) (d : ℤ)
    → 48 ≤ c
    → c ≤ 57
    → digits_value 0 (c ∷ cs) < 2 ^ 63
    → sscanf_long (c ∷ cs) d ≡ pos (digits_value 0 (c ∷ cs))
unfolding sscanf_long signed_value
sscanf_digits c cs d lo hi small = ground (arith, digit_not_space c cs lo hi)

sscanf_long-pid_text : (pid : ℕ) (d : ℤ) → pid < 2 ^ 31 → sscanf_long (pid_text pid) d ≡ pos pid
unfolding pid_text
sscanf_long-pid_text pid d small =
    let (c, cs, e, lo, hi) = digits_onto-cons 18 pid (0 ∷ []) (omega arith) in
    let v : digits_value 0 (c ∷ cs) ≡ pid =
      ap (digits_value 0) (sym e) ∙ pid_text-value pid small in
    ap (λ t. sscanf_long t d) e ∙ sscanf_digits c cs d lo hi (omega (arith, v)) ∙ ap pos v

-- What `get_pid` makes of a text that is not empty and fits its buffer
get_pid-text :
    (text : List ℕ) (a b : ℤ)
    → 0 < length text
    → length text ≤ 31
    → sscanf_long text (pos 0) ≡ a
    → sscanf_long text (pos 1) ≡ b
    → get_pid true (some text) ≡ checked a b
unfolding get_pid
get_pid-text [] a b lo hi e f = absurd (omega arith)
get_pid-text (c ∷ cs) a b lo hi e f =
    let whole = take_all 31 (c ∷ cs) hi in
    ap (λ t. checked (sscanf_long t (pos 0)) (sscanf_long t (pos 1))) whole ∙ ground (arith, e, f)

pid_text-pos : (pid : ℕ) → pid < 2 ^ 31 → 0 < length (pid_text pid)
unfolding pid_text
pid_text-pos pid small =
    let (c, cs, e, _, _) = digits_onto-cons 18 pid (0 ∷ []) (omega arith) in
    omega (arith, ap length e)

checked_lem : (pid : ℕ) → 1 < pid → pid < 2 ^ 31 → checked (pos pid) (pos pid) ≡ pos pid
unfolding checked to_pid
checked_lem pid lo hi = ground arith

get_pid_lem : (pid : ℕ) → 1 < pid → pid < 2 ^ 31 → get_pid true (some (pid_text pid)) ≡ pos pid
get_pid_lem pid lo hi =
    get_pid-text (pid_text pid) (pos pid) (pos pid) (pid_text-pos pid hi) (pid_text-length pid)
      (sscanf_long-pid_text pid (pos 0) hi) (sscanf_long-pid_text pid (pos 1) hi)
    ∙ checked_lem pid lo hi

-- Where no process has the lock of the file and every system call succeeds, `already_running` returns
-- false, the process has the lock, and `get_pid` reads its id from the file.
pub get_pid-already_running :
    (pid : ℕ) (f : PidFile)
    → 1 < pid
    → pid < 2 ^ 31
    → f.lock ≡ none
    → let r = already_running pid true false true (length (pid_text pid)) f in
      (r.0 ≡ false) × (r.1.lock ≡ some pid) × (get_pid true (some r.1.content) ≡ pos pid)
unfolding already_running lockfile write_pid
get_pid-already_running pid f lo hi free =
    let r : already_running pid true false true (length (pid_text pid)) f ≡ (
      false,
      record { content = take (length (pid_text pid)) (pid_text pid); lock = some pid },
    ) =
      ground (arith, free) in
    let full = take_all (length (pid_text pid)) (pid_text pid) (omega arith) in
    subst (λ x. (x.0 ≡ false) × (x.1.lock ≡ some pid) × (get_pid true (some x.1.content) ≡ pos pid))
      (sym r) (refl, refl, ap (λ t. get_pid true (some t)) full ∙ get_pid_lem pid lo hi)

-- While a process has the lock, `already_running` of another returns true and leaves the file as it is,
-- whatever the system calls return.
pub already_running_locked :
    (pid other : ℕ) (opens fcntl_fails truncates : Bool) (written : ℕ) (f : PidFile)
    → f.lock ≡ some pid
    → other ≢ pid
    → already_running other opens fcntl_fails truncates written f ≡ (true, f)
unfolding already_running lockfile close_file
already_running_locked pid other true true truncates written f held apart = refl
already_running_locked pid other true false truncates written f held apart =
    ground (arith, held, apart)
already_running_locked pid other false fcntl_fails truncates written f held apart = refl

-- Where `ftruncate` fails, or `write` writes less than the text, `already_running` returns false and gives
-- the lock up again: another process is then let run beside the first.
pub both_run :
    (pid other : ℕ) (truncates : Bool) (written n : ℕ) (f : PidFile)
    → f.lock ≡ none
    → (truncates ≡ false) ⊎ (written < length (pid_text pid))
    → let r = already_running pid true false truncates written f in
      (r.0 ≡ false) × (r.1.lock ≡ none) × ((already_running other true false true n r.1).0 ≡ false)
unfolding already_running lockfile close_file write_pid
both_run pid other truncates written n f free (inl failed) = ground (arith, free, failed)
both_run pid other truncates written n f free (inr short) = ground (arith, free, short)
