-- ===== src/Daemon/PidFile.antt =====
-- `get_pid`, `already_running` and `lockfile` of daemon/daemon.h. What the system calls return is an
-- argument, and a process is its id.
use tools_demo.Base.{
  ℕ, zero, suc, ◌-◌, ◌%◌, ◌^◌, Bool, true, false, ◌&&◌, ◌||◌, not, ltb, Option, none, some, List,
  [], ◌∷◌, ◌==◌, if◌then◌else◌, length, take, min,
}
use tools_demo.Base.Int.{ℤ, pos, negsuc}
use tools_demo.Base.Text.{is_digit, skip_spaces, digits_onto, digits_value}

-- The file: its bytes, and which process has locked it
pub record PidFile : Type 0 where
  pub content : List ℕ
  pub lock : Option ℕ

-- A `long` that is not in range is the nearest one that is.
abbrev pub negative : ℕ → ℤ
negative zero = pos 0
negative (suc n) = negsuc (min n (2 ^ 63 - 1))

unfoldable pub signed_value : List ℕ → ℤ → ℤ
signed_value [] d = d
signed_value (c ∷ cs) d = if is_digit c then pos (min (digits_value 0 (c ∷ cs)) (2 ^ 63 - 1)) else d

unfoldable pub after_sign : ℕ → List ℕ → ℤ → ℤ
after_sign c [] d = d
after_sign c (e ∷ cs) d =
    if not (is_digit e)
    then d
    else if c == b'-'
    then negative (digits_value 0 (e ∷ cs))
    else pos (min (digits_value 0 (e ∷ cs)) (2 ^ 63 - 1))

-- `sscanf("%ld", &d)`, which leaves `d` as it is where there is no number
unfoldable pub sscanf_long : List ℕ → ℤ → ℤ
sscanf_long text d = elim (skip_spaces text) [
  | [] ↦ d
  | c ∷ cs ↦ if c == b'-' || c == b'+' then after_sign c cs d else signed_value (c ∷ cs) d
]

-- A `long` as a `pid_t`
unfoldable pub to_pid : ℕ → ℤ
to_pid n = let m = n % 2 ^ 32 in if ltb m (2 ^ 31) then pos m else negsuc (2 ^ 32 - 1 - m)

-- Where the two numbers are the same and not 0 or 1 or less, they are the result.
unfoldable pub checked : ℤ → ℤ → ℤ
checked (pos p) (pos c) = if p == c && ltb 1 p then to_pid p else negsuc 0
checked _ _ = negsuc 0

-- `get_pid`: whether the file opens, and what is in it if it can be read
unfoldable pub get_pid : Bool → Option (List ℕ) → ℤ
get_pid opens none = negsuc 0
get_pid opens (some []) = negsuc 0
get_pid opens (some (b ∷ bytes)) =
    let buf = take 31 (b ∷ bytes) in
    if opens then checked (sscanf_long buf (pos 0)) (sscanf_long buf (pos 1)) else negsuc 0

-- What `lockfile` comes to: the file with the lock; EACCES or EAGAIN, where another process has it; or
-- another error
pub data Locked : Type 0 where
  locked : PidFile → Locked
  busy : Locked
  failed : Locked

unfoldable pub lockfile : ℕ → Bool → PidFile → Locked
lockfile pid fcntl_fails f = if fcntl_fails then failed else elim f.lock [
  | none ↦ locked (record f { lock = some pid })
  | some holder ↦ if holder == pid then locked f else busy
]

-- A process that closes a descriptor of a file gives up its lock on it.
unfoldable pub close_file : ℕ → PidFile → PidFile
close_file pid f = elim f.lock [
  | none ↦ f
  | some holder ↦ if holder == pid then record f { lock = none } else f
]

-- `sprintf("%ld", pid)`, and its zero
unfoldable pub pid_text : ℕ → List ℕ
pid_text pid = digits_onto 18 pid (0 ∷ [])

-- What follows the lock: `ftruncate`, and `write` of `written` bytes
unfoldable pub write_pid : ℕ → Bool → ℕ → PidFile → Bool × PidFile
write_pid pid truncates written f =
    let text = pid_text pid in
    let filled = record f { content = take written text } in
    if not truncates
    then (false, close_file pid f)
    else if written == length text
    then (false, filled)
    else (false, close_file pid filled)

-- `already_running`: what it returns, and the file
unfoldable pub already_running : ℕ → Bool → Bool → Bool → ℕ → PidFile → Bool × PidFile
already_running pid opens fcntl_fails truncates written f =
    if not opens then (true, f) else elim (lockfile pid fcntl_fails f) [
      | locked g ↦ write_pid pid truncates written g
      | busy ↦ (true, close_file pid f)
      | failed ↦ (true, f)
    ]
