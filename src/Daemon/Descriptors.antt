-- ===== src/Daemon/Descriptors.antt =====
-- `daemonize` of daemon/daemon.h, in each of its processes. Its descriptors are a list with the open file
-- at each number; which one `open` takes is up to the kernel.
use tools_demo.Base.{
  ℕ, zero, suc, ◌≤◌, ◌<◌, ◌≡◌, ◌≢◌, refl, ap, ◌∙◌, Bool, true, false, ◌&&◌, not, Option, none, some,
  List, [], ◌∷◌, if◌then◌else◌, set, get_elem?, arith, dec_lt, Bool-cases, inl, inr,
}

-- An open file: its path, and whether it is open for reading alone, or for appending too
pub data File : Type 0 where
  read_only : List ℕ → File
  read_write : List ℕ → File
  appending : List ℕ → File

abbrev pub Table : Type 0
Table = List (Option File)

-- What `fork` returns: an error, the id of the child, or 0 in the child
pub data Fork : Type 0 where
  failed : Fork
  parent : Fork
  child : Fork

-- `_exit(0)`, or a return of -1 or 0, with the descriptors
pub data Outcome : Type 0 where
  exits : Outcome
  returns : Bool → Table → Outcome

-- "/dev/null"
abbrev pub dev_null : List ℕ
dev_null = b'/' ∷ b'd' ∷ b'e' ∷ b'v' ∷ b'/' ∷ b'n' ∷ b'u' ∷ b'l' ∷ b'l' ∷ []

-- The file that is opened for the input
abbrev pub input_file : Option (List ℕ) → File
input_file none = read_only dev_null
input_file (some path) = read_only path

-- The file that is opened for the output, and for the errors
abbrev pub output_file : Option (List ℕ) → File
output_file none = read_write dev_null
output_file (some path) = appending path

abbrev pub close : ℕ → Table → Table
close fd t = set t fd none

-- `open` takes the lowest descriptor that is free.
abbrev pub TakesLowest : (Table → ℕ) → Type 0
TakesLowest lowest =
    (t : Table) (i : ℕ)
    → get_elem? t i ≡ some none
    → (get_elem? t (lowest t) ≡ some none) × (lowest t ≤ i)

module _ (lowest : Table → ℕ) where
  abbrev pub open_file : File → Table → Table
  open_file f t = set t (lowest t) (some f)

  -- From the loop that closes the first three; whether each of the three files opens is an argument.
  unfoldable pub redirect :
      Bool → Bool → Bool → Option (List ℕ) → Option (List ℕ) → Option (List ℕ) → Table → Outcome
  redirect opens_in opens_out opens_err input output errout t =
      let closed = close 2 (close 1 (close 0 t)) in
      let t1 = open_file (input_file input) closed in
      let t2 = open_file (output_file output) t1 in
      let t3 = open_file (output_file errout) t2 in
      if not opens_in
      then returns false closed
      else if not opens_out
      then returns false (close 0 t1)
      else if not opens_err
      then returns false (close 1 (close 0 t2))
      else returns true t3

  unfoldable pub daemonize :
      Fork
      → Bool
      → Fork
      → Bool
      → Bool
      → Bool
      → Option (List ℕ)
      → Option (List ℕ)
      → Option (List ℕ)
      → Table
      → Outcome
  daemonize failed setsid_ok second a b c input output errout t = returns false t
  daemonize parent setsid_ok second a b c input output errout t = exits
  daemonize child false second a b c input output errout t = returns false t
  daemonize child true failed a b c input output errout t = returns false t
  daemonize child true parent a b c input output errout t = exits
  daemonize child true child a b c input output errout t = redirect a b c input output errout t

  -- A full table below `n`, and a free descriptor there: `open` takes it.
  first_free :
      TakesLowest lowest
      → (t : Table) (n : ℕ) → get_elem? t n ≡ some none
      → ((i : ℕ) → i < n → get_elem? t i ≢ some none)
      → lowest t ≡ n
  first_free law t n free full =
      let (found, least) = law t n free in
      elim (dec_lt (lowest t) n) [
        | yes less ↦ absurd (full (lowest t) less found)
        | no more ↦ omega arith
      ]

  below_one : (f : File) (t : Table) (i : ℕ) → i < 1 → get_elem? (some f ∷ t) i ≢ some none
  below_one f t zero lt e = cc
  below_one f t (suc i) lt e = absurd (omega arith)

  below_two :
      (f g : File) (t : Table) (i : ℕ) → i < 2 → get_elem? (some f ∷ some g ∷ t) i ≢ some none
  below_two f g t zero lt e = cc
  below_two f g t (suc i) lt e = below_one g t i (omega arith) e

  open_first : TakesLowest lowest → (f : File) (t : Table) → open_file f (none ∷ t) ≡ some f ∷ t
  open_first law f t =
      ap (λ n. set (none ∷ t) n (some f))
        (first_free law (none ∷ t) 0 refl (λ i lt. absurd (omega arith)))

  open_second :
      TakesLowest lowest
      → (f g : File) (t : Table) → open_file g (some f ∷ none ∷ t) ≡ some f ∷ some g ∷ t
  open_second law f g t =
      ap (λ n. set (some f ∷ none ∷ t) n (some g))
        (first_free law (some f ∷ none ∷ t) 1 refl (below_one f (none ∷ t)))

  open_third :
      TakesLowest lowest
      → (f g h : File) (t : Table)
      → open_file h (some f ∷ some g ∷ none ∷ t) ≡ some f ∷ some g ∷ some h ∷ t
  open_third law f g h t =
      ap (λ n. set (some f ∷ some g ∷ none ∷ t) n (some h))
        (first_free law (some f ∷ some g ∷ none ∷ t) 2 refl (below_two f g (none ∷ t)))

  -- In the last process, `daemonize` returns 0 exactly where the three files open; its first three
  -- descriptors are then the input, the output and the errors. Otherwise it returns -1 with these three
  -- closed. The other descriptors stay as they were.
  pub daemonize_lem :
      (opens_in opens_out opens_err : Bool) (input output errout : Option (List ℕ))
      (a b c : Option File) (rest : Table)
      → TakesLowest lowest
      → daemonize child true child opens_in opens_out opens_err input output errout
          (a ∷ b ∷ c ∷ rest)
        ≡ (if opens_in && opens_out && opens_err
            then returns true (
                some (input_file input)
                ∷ some (output_file output)
                ∷ some (output_file errout)
                ∷ rest)
            else returns false (none ∷ none ∷ none ∷ rest))
  unfolding daemonize redirect
  daemonize_lem opens_in opens_out opens_err input output errout a b c rest law =
      let i = input_file input in
      let o = output_file output in
      let one = open_first law i (none ∷ none ∷ rest) in
      let two = ap (open_file o) one ∙ open_second law i o (none ∷ rest) in
      let three =
        ap (open_file (output_file errout)) two ∙ open_third law i o (output_file errout) rest in
      elim (Bool-cases opens_in) [
        | inr no_in ↦ rw no_in refl
        | inl in_ok ↦ elim (Bool-cases opens_out) [
          | inr no_out ↦ rw (in_ok, no_out) (ap (λ t. returns false (close 0 t)) one)
          | inl out_ok ↦ elim (Bool-cases opens_err) [
            | inr no_err ↦
                rw (in_ok, out_ok, no_err) (ap (λ t. returns false (close 1 (close 0 t))) two)
            | inl err_ok ↦ rw (in_ok, out_ok, err_ok) (ap (returns true) three)
          ]
        ]
      ]
