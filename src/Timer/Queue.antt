-- ===== src/Timer/Queue.antt =====
-- The queue of a `Timer`: what its top and its rest hold.
use tools_demo.Base.{
  ℕ, ◌+◌, ◌≤◌, ◌≡◌, refl, ◌⊎◌, inl, inr, not, Option, none, some, ◌∙◌, Option-cases, List, [], ◌∷◌,
  ◌++◌, arith, ltb, leb, ◌==◌, if◌then◌else◌, dec_lt, Bool-cases,
}
use tools_demo.Timer.Defs.{TimerNode, Timer, top, fire, round, commit, tick}

-- the fires that a node stands for
abbrev pub worth : ℕ → TimerNode → ℕ
worth i n = if n.node_id == i then (if n.is_repeated then n.repeated_num + 1 else 1) else 0

-- one for a periodic node of `i`
abbrev pub periodic : ℕ → TimerNode → ℕ
periodic i n = if n.node_id == i then (if n.is_period then 1 else 0) else 0

-- one for a node whose id is `k` or more
abbrev pub above : ℕ → TimerNode → ℕ
above k n = if ltb n.node_id k then 0 else 1

-- the sum over the queue
abbrev pub total : (TimerNode → ℕ) → List TimerNode → ℕ
total w [] = 0
total w (n ∷ ns) = w n + total w ns

abbrev pub fired : ℕ → List (ℕ × ℕ) → ℕ
fired i [] = 0
fired i ((j, f) ∷ l) = (if j == i then 1 else 0) + fired i l

pub fired-append : (i : ℕ) (l k : List (ℕ × ℕ)) → fired i (l ++ k) ≡ fired i l + fired i k
fired-append i [] k = omega arith
fired-append i ((j, f) ∷ l) k = omega (arith, fired-append i l k)

-- The node on top and the rest have what the queue has.
pub top-total :
    (w : TimerNode → ℕ) (n : TimerNode) (ns : List TimerNode)
    → w (top n ns).0 + total w (top n ns).1 ≡ total w (n ∷ ns)
unfolding top
top-total w n [] = refl
top-total w n (m ∷ ns) = elim (dec_lt (top m ns).0.tm_point n.tm_point) [
  | yes early ↦ ground (arith, top-total w m ns)
  | no late ↦ ground arith
]

-- Where no id is `k` or more, no node has the id `k`.
pub none_above :
    (k : ℕ) (ns : List TimerNode)
    → total (above k) ns ≡ 0
    → (total (worth k) ns ≡ 0) × (total (periodic k) ns ≡ 0)
none_above k [] h = (refl, refl)
none_above k (n ∷ ns) h =
    let (a, b) = none_above k ns (omega arith) in (ground (arith, a), ground (arith, b))

pub above_mono :
    (k j : ℕ) (ns : List TimerNode) → k ≤ j → total (above k) ns ≡ 0 → total (above j) ns ≡ 0
above_mono k j [] le h = refl
above_mono k j (n ∷ ns) le h = let rest = above_mono k j ns le (omega arith) in ground (arith, rest)

-- One for what the thread is about to commit of `i`
abbrev pub held : ℕ → Option (ℕ × ℕ) → ℕ
held i none = 0
held i (some (j, f)) = if j == i then 1 else 0

round-cases :
    (now now' : ℕ) (s : Timer) (q : List TimerNode)
    → s.queue ≡ q
    → (round now now' s ≡ s)
      ⊎ ((m : TimerNode) × (ns : List TimerNode) × (s.queue ≡ m ∷ ns)
          × (round now now' s ≡ fire now' (top m ns).0 (top m ns).1 s))
unfolding round
round-cases now now' s [] e = inl (ground (arith, e))
round-cases now now' s (m ∷ ns) e = elim (Bool-cases (not s.running)) [
  | inl still ↦ inl (ground (arith, e, still))
  | inr runs ↦ elim (Bool-cases (leb (now + 1000000) (top m ns).0.tm_point)) [
    | inl early ↦ inl (ground (arith, e, runs, early))
    | inr due ↦ inr (m, ns, e, ground (arith, e, runs, due))
  ]
]

-- A step of the thread changes nothing, commits, or fires the node on top.
pub data Ticked (now now' : ℕ) (s : Timer) : Type 0 where
  still : tick now now' s ≡ s → Ticked now now' s
  commits : (p : ℕ × ℕ) → s.unlocked ≡ some p → tick now now' s ≡ commit p s → Ticked now now' s
  fires :
      (m : TimerNode) (ns : List TimerNode)
      → s.queue ≡ m ∷ ns
      → s.unlocked ≡ none
      → tick now now' s ≡ fire now' (top m ns).0 (top m ns).1 s
      → Ticked now now' s

tick-round : (now now' : ℕ) (s : Timer) → s.unlocked ≡ none → tick now now' s ≡ round now now' s
unfolding tick
tick-round now now' s e = ground (arith, e)

tick-commit :
    (now now' : ℕ) (s : Timer) (p : ℕ × ℕ) → s.unlocked ≡ some p → tick now now' s ≡ commit p s
unfolding tick
tick-commit now now' s p e = ground (arith, e)

pub tick-Ticked : (now now' : ℕ) (s : Timer) → Ticked now now' s
tick-Ticked now now' s = elim (Option-cases s.unlocked) [
  | inr (p, e) ↦ commits p e (tick-commit now now' s p e)
  | inl e ↦
      let r = tick-round now now' s e in
      elim (round-cases now now' s s.queue refl) [
        | inl same ↦ still (r ∙ same)
        | inr (m, ns, q, f) ↦ fires m ns q e (r ∙ f)
      ]
]
