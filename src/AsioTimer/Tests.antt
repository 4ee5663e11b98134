-- ===== src/AsioTimer/Tests.antt =====
-- The theorems on timer_demo over an io_service whose waits expire at once and complete in turn.
use tools_demo.Base.{
  ℕ, suc, ◌+◌, ◌≤◌, ◌≡◌, ◌≢◌, refl, sym, ap, ◌⊎◌, inl, inr, Bool, true, false, none, some, List, [],
  ◌∷◌, ◌++◌, ◌==◌, ◌&&◌, ◌||◌, ℕ_discrete, ite, arith, Bool-cases,
}
use tools_demo.Base.Dict.{find, erase}
use tools_demo.AsioTimer.Asio.{Asio, Completion, posted, expired, aborted}
use tools_demo.AsioTimer.Defs.{TimerInfo, AsioTimer, set_timer, kill_timer, handle, init, on_timer}
use tools_demo.AsioTimer.Steps.{sets, completes, here, next, Reach}
use tools_demo.AsioTimer.Scheduled.{scheduled}
use tools_demo.AsioTimer.Killed.{kill_silences, timer_calls}
use tools_demo.AsioTimer.Replaced.{replaced, replaced_early}

record Queues : Type 0 where
  ready : List (ℕ × ℕ)
  posts : List ℕ

unfoldable count : ℕ → List (ℕ × ℕ) → ℕ
count t [] = 0
count t ((u, i) ∷ q) = ite (ℕ_discrete t u) 1 0 + count t q

unfoldable member : ℕ → ℕ → List (ℕ × ℕ) → Bool
member t i [] = false
member t i ((u, j) ∷ q) = (t == u) && (i == j) || member t i q

abbrev Takes : Queues → Completion → Queues → Type 0
Takes s (posted c) r = (s.posts ≡ c ∷ r.posts) × (r.ready ≡ s.ready)
Takes s (expired t i) r = s.ready ≡ (t, i) ∷ r.ready
Takes s (aborted t i) r = (s ≡ r) × (s.ready ≡ (t, i) ∷ s.ready)

count_new : (t i : ℕ) (q : List (ℕ × ℕ)) → count t (q ++ (t, i) ∷ []) ≡ suc (count t q)
unfolding count
count_new t i [] = ground arith
count_new t i ((u, j) ∷ q) = let rest = count_new t i q in omega (arith, rest)

count_other : (t u i : ℕ) (q : List (ℕ × ℕ)) → t ≢ u → count t (q ++ (u, i) ∷ []) ≡ count t q
unfolding count
count_other t u i [] other = ground (arith, other)
count_other t u i ((v, j) ∷ q) other = let rest = count_other t u i q other in omega (arith, rest)

count_taken : (t u i : ℕ) (s r : List (ℕ × ℕ)) → s ≡ (u, i) ∷ r → t ≢ u → count t r ≡ count t s
unfolding count
count_taken t u i s r e other = ground (arith, e, other)

member_new :
    (t i u j : ℕ) (q : List (ℕ × ℕ))
    → member t i (q ++ (u, j) ∷ []) ≡ true
    → (member t i q ≡ true) ⊎ (t ≡ u) × (i ≡ j)
unfolding member
member_new t i u j [] e = inr (ground (arith, e), ground (arith, e))
member_new t i u j ((v, k) ∷ q) e = elim (Bool-cases (member t i (q ++ (u, j) ∷ []))) [
  | inl m ↦ elim (member_new t i u j q m) [
    | inl old ↦ inl (ground (arith, old))
    | inr new ↦ inr new
  ]
  | inr m ↦ inl (ground (arith, e, m))
]

member_taken :
    (s r : Queues) (c : Completion) (t i : ℕ)
    → Takes s c r
    → member t i r.ready ≡ true
    → member t i s.ready ≡ true
unfolding member
member_taken s r (posted c) t i e m = ground (arith, e.1, m)
member_taken s r (expired u j) t i e m = ground (arith, e, m)
member_taken s r (aborted u j) t i e m = ground (arith, e.0, m)

taken_member : (s r : List (ℕ × ℕ)) (t i : ℕ) → s ≡ (t, i) ∷ r → member t i s ≡ true
unfolding member
taken_member s r t i e = ground (arith, e)

member_nil : (t i : ℕ) → ¬ member t i [] ≡ true
unfolding member
member_nil t i e = ground (arith, e)

abbrev at_once : Asio
at_once = record {
  Service = Queues;
  init = record { ready = []; posts = [] };
  post = λ c s. record s { posts = s.posts ++ c ∷ [] };
  expires_from_now = λ t ms s. s;
  async_wait = λ t i s. record s { ready = s.ready ++ (t, i) ∷ [] };
  cancel = λ t s. s;
  Completes = Takes;
  waits = λ t s. count t s.ready;
  Bound = λ t i s. member t i s.ready ≡ true;
  waits_post = λ t c s. refl;
  waits_expires = λ t u ms s other. refl;
  waits_cancel = λ t u s other. refl;
  waits_async_wait = λ t i s. count_new t i s.ready;
  waits_others = λ t u i s other. count_other t u i s.ready other;
  waits_posted = λ {s} {r} t c e. ap (count t) e.1;
  waits_aborted = λ {s} {r} t u i e. ap (λ q. count t q.ready) (sym e.0);
  waits_expired = λ {s} {r} t u i e other. count_taken t u i s.ready r.ready e other;
  bound_init = member_nil;
  bound_post = λ t i c s e. e;
  bound_expires = λ t i u ms s e. e;
  bound_cancel = λ t i u s e. e;
  bound_async_wait = λ t i u j s e. member_new t i u j s.ready e;
  bound_completes = λ {s} {r} {c} t i e m. member_taken s r c t i e m;
  expired_bound = λ {s} {r} t i e. taken_member s.ready r.ready t i e;
}

-- The timer 7 is set, with a call at once.
abbrev set_state : AsioTimer at_once
set_state = (set_timer at_once 7 100 1 true (init at_once)).1

abbrev set_info : TimerInfo
set_info = record { timer_id = 7; timer_elapse = 100; call_back = 1; timer = 0 }

set_reached : Reach at_once set_state
set_reached = next here (sets 7 100 1 true tt)

set_there : find ℕ_discrete 7 set_state.map_timer ≡ some set_info
unfolding set_timer init find ℕ_discrete
set_there = refl

scheduled_example :
    (1 ≤ count 0 set_state.io_service.ready)
    × ((j : ℕ) (other : TimerInfo)
        → find ℕ_discrete j set_state.map_timer ≡ some other
        → 0 ≡ other.timer
        → 7 ≡ j)
scheduled_example = scheduled at_once set_state 7 set_info set_reached set_there

-- It is killed, and its wait completes all the same.
abbrev killed_state : AsioTimer at_once
killed_state = (kill_timer at_once 7 set_state).1

abbrev none_ready : Queues
none_ready = record { ready = []; posts = 1 ∷ [] }

late_completion : Takes killed_state.io_service (expired 0 7) none_ready
unfolding set_timer kill_timer init find ℕ_discrete
late_completion = refl

abbrev late_state : AsioTimer at_once
late_state = handle at_once (expired 0 7) (record killed_state { io_service = none_ready })

kill_silences_example :
    (find ℕ_discrete 7 late_state.map_timer ≡ none)
    × (timer_calls 7 late_state.called ≡ timer_calls 7 set_state.called)
kill_silences_example =
    kill_silences at_once 7 set_state late_state set_reached
      (next here (completes (expired 0 7) none_ready late_completion))

-- It is killed and set again.
abbrev one_ready : Queues
one_ready = record { ready = (1, 7) ∷ []; posts = 1 ∷ [] }

early_completion :
    Takes (replaced at_once 7 9000 2 false set_state).io_service (expired 0 7) one_ready
unfolding set_timer kill_timer init find erase ℕ_discrete
early_completion = refl

replaced_early_example :
    (new : TimerInfo) × (find ℕ_discrete 7 (replaced at_once 7 9000 2 false set_state).map_timer
      ≡ some new)
    × (new.timer ≢ 0)
    × ((handle at_once
          (expired 0 7)
          (record (replaced at_once 7 9000 2 false set_state) { io_service = one_ready })).called
        ≡ on_timer 7 2 ∷ set_state.called)
replaced_early_example =
    replaced_early at_once 7 9000 2 false set_info set_state one_ready set_reached set_there
      early_completion
