-- ===== src/Curl/Progress.antt =====
-- `my_progress_func` of Curl_Breakpoint/CurlDown.cpp, over any type of its `double`s.
use tools_demo.Base.{
  ℕ, ◌≡◌, sym, subst, Bool, true, false, ◌&&◌, ◌||◌, Option, none, some, List, [], ◌∷◌,
  if◌then◌else◌, Bool-cases, inl, inr, ◌⊎◌, arith,
}

-- What the function does with a `double`
pub record Double : Type 1 where
  pub W : Type 0
  pub nought : W
  pub hundred : W
  pub thousand : W
  -- -0.0000001 and 0.000001
  pub below_nought : W
  pub above_nought : W
  -- a time in milliseconds
  pub of_ms : ℕ → W
  pub plus : W → W → W
  pub minus : W → W → W
  pub times : W → W → W
  pub over : W → W → W
  pub eq : W → W → Bool
  pub lt : W → W → Bool
  pub ge : W → W → Bool

module _ (d : Double) where
  open d use {
    W, nought, hundred, thousand, below_nought, above_nought, of_ms, plus, minus, times, over, eq,
    lt, ge,
  }

  -- The fields of `CurlDown` that the function uses
  pub record CurlDown : Type 0 where
    pub file_length : W
    pub start_time : W
    pub last_time : W
    pub last_size : W

  -- What it prints, and the progress that the delegate is told
  pub record Shown : Type 0 where
    pub speed : W
    pub left_time : W
    pub percent : W

  abbrev pub is_near_nought : W → Bool
  is_near_nought x = lt below_nought x && lt x above_nought

  -- The interval, from the start or from the last time that it showed something
  unfoldable pub interval_time : W → CurlDown → W
  interval_time current s =
      if is_near_nought s.last_time then minus current s.start_time else minus current s.last_time

  unfoldable pub interval_size : W → CurlDown → W
  interval_size now_downloaded s =
      if is_near_nought s.last_time then now_downloaded else minus now_downloaded s.last_size

  unfoldable pub shown : W → W → W → CurlDown → Shown
  shown total now_downloaded current s =
      let now_down = plus (minus s.file_length total) now_downloaded in
      let speed =
        times (over (interval_size now_downloaded s) (interval_time current s)) thousand in
      record {
        speed = speed;
        left_time =
            if is_near_nought speed then nought else over (minus s.file_length now_down) speed;
        percent = times (over now_down s.file_length) hundred;
      }

  -- It returns 0 always; a null `ptr` is none.
  unfoldable pub my_progress_func : W → W → ℕ → CurlDown → CurlDown × Option Shown
  my_progress_func total now_downloaded ms s =
      let current = of_ms ms in
      if eq s.file_length nought || eq now_downloaded nought
      then (s, none)
      else if ge (interval_time current s) thousand
      then (
        record s { last_time = current; last_size = now_downloaded },
        some (shown total now_downloaded current s),
      )
      else (s, none)

  unfoldable pub progress : W → W → ℕ → Option CurlDown → Option CurlDown × Option Shown
  progress total now_downloaded ms none = (none, none)
  progress total now_downloaded ms (some s) =
      let r = my_progress_func total now_downloaded ms s in (some r.0, r.1)

  -- A call of it: what is to be downloaded, what has been, and the clock
  pub record Call : Type 0 where
    pub total : W
    pub now_downloaded : W
    pub ms : ℕ

  -- The times of the calls that show something
  unfoldable pub times_shown : List Call → CurlDown → List W
  times_shown [] s = []
  times_shown (c ∷ calls) s =
      let r = my_progress_func c.total c.now_downloaded c.ms s in
      let rest = times_shown calls r.0 in elim r.1 [ none ↦ rest | some _ ↦ of_ms c.ms ∷ rest ]

  -- From each time to the next it is a second at least.
  abbrev pub IsSpaced : List W → Type 0
  IsSpaced [] = Unit
  IsSpaced (t ∷ []) = Unit
  IsSpaced (t ∷ u ∷ ts) = (ge (minus u t) thousand ≡ true) × IsSpaced (u ∷ ts)

  -- No clock reading is taken for 0.
  abbrev pub AllLate : List Call → Type 0
  AllLate [] = Unit
  AllLate (c ∷ calls) = (is_near_nought (of_ms c.ms) ≡ false) × AllLate calls

  -- What a call shows, by its two tests
  step_quiet :
      (c : Call) (calls : List Call) (s : CurlDown)
      → (eq s.file_length nought || eq c.now_downloaded nought ≡ true)
        ⊎ (ge (interval_time (of_ms c.ms) s) thousand ≡ false)
      → times_shown (c ∷ calls) s ≡ times_shown calls s
  unfolding times_shown my_progress_func
  step_quiet c calls s (inl quiet) = ground (arith, quiet)
  step_quiet c calls s (inr soon) = ground (arith, soon)

  step_shown :
      (c : Call) (calls : List Call) (s : CurlDown)
      → eq s.file_length nought || eq c.now_downloaded nought ≡ false
      → ge (interval_time (of_ms c.ms) s) thousand ≡ true
      → times_shown (c ∷ calls) s
        ≡ of_ms c.ms
          ∷ times_shown calls (record s { last_time = of_ms c.ms; last_size = c.now_downloaded })
  unfolding times_shown my_progress_func
  step_shown c calls s loud later = ground (arith, loud, later)

  -- Before its first report the last time is taken for 0, and the interval is from the start.
  IsSpaced-from :
      (calls : List Call) (s : CurlDown)
      → AllLate calls
      → is_near_nought s.last_time ≡ false
      → IsSpaced (s.last_time ∷ times_shown calls s)
  unfolding interval_time times_shown
  IsSpaced-from [] s late old = tt
  IsSpaced-from (c ∷ calls) s (now_late, late) old =
      let keep = λ (e : times_shown (c ∷ calls) s ≡ times_shown calls s).
        subst (λ l. IsSpaced (s.last_time ∷ l)) (sym e) (IsSpaced-from calls s late old) in
      elim (Bool-cases (eq s.file_length nought || eq c.now_downloaded nought)) [
        | inl quiet ↦ keep (step_quiet c calls s (inl quiet))
        | inr loud ↦ elim (Bool-cases (ge (interval_time (of_ms c.ms) s) thousand)) [
          | inr soon ↦ keep (step_quiet c calls s (inr soon))
          | inl later ↦
              let next = record s { last_time = of_ms c.ms; last_size = c.now_downloaded } in
              subst (λ l. IsSpaced (s.last_time ∷ l)) (sym (step_shown c calls s loud later))
                (ground (arith, old, later), IsSpaced-from calls next late now_late)
        ]
      ]

  IsSpaced-tail : (t : W) (ts : List W) → IsSpaced (t ∷ ts) → IsSpaced ts
  IsSpaced-tail t [] h = tt
  IsSpaced-tail t (u ∷ ts) (e, h) = h

  -- However often libcurl calls it, `my_progress_func` reports to the delegate at times that are a second
  -- apart at least, if no clock reading is so small that it is taken for 0.
  pub times_shown-IsSpaced :
      (calls : List Call) (s : CurlDown) → AllLate calls → IsSpaced (times_shown calls s)
  unfolding times_shown
  times_shown-IsSpaced [] s late = tt
  times_shown-IsSpaced (c ∷ calls) s (now_late, late) =
      elim (Bool-cases (eq s.file_length nought || eq c.now_downloaded nought)) [
        | inl quiet ↦
            subst IsSpaced (sym (step_quiet c calls s (inl quiet)))
              (times_shown-IsSpaced calls s late)
        | inr loud ↦ elim (Bool-cases (ge (interval_time (of_ms c.ms) s) thousand)) [
          | inr soon ↦
              subst IsSpaced (sym (step_quiet c calls s (inr soon)))
                (times_shown-IsSpaced calls s late)
          | inl later ↦
              let next = record s { last_time = of_ms c.ms; last_size = c.now_downloaded } in
              subst IsSpaced (sym (step_shown c calls s loud later))
                (IsSpaced-from calls next late now_late)
        ]
      ]
