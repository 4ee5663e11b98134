-- ===== src/SharedMsg/Safety.antt =====
-- What holds in every state that the client and the server of linux-sharedMsg reach.
use tools_demo.Base.{
  ℕ, ◌+◌, ◌≤◌, ◌≡◌, ◌≢◌, refl, ap, none, some, List, [], ◌∷◌, ◌++◌, arith, Option-cases, inl, inr,
}
use tools_demo.SharedMsg.Ipc.{Ipc}
use tools_demo.SharedMsg.Client.{Client, Shared, client_step, command}
use tools_demo.SharedMsg.Server
use tools_demo.SharedMsg.Server.{Server, server_step, c_string}
use tools_demo.SharedMsg.Stdin.{flush, newline}
use tools_demo.SharedMsg.System.{System, Reach}
use tools_demo.SharedMsg.Memory.{cut}
use tools_demo.SharedMsg.Invariant.{client_holds, server_holds, latest, Inv, whole, Reach-Inv}

-- No character of it ends a line or is taken for the end of the input.
abbrev pub OneLine : List ℕ → Type 0
OneLine [] = Unit
OneLine (c ∷ cs) = (c ≢ newline) × (c ≢ 255) × OneLine cs

flush_line : (line rest : List ℕ) → OneLine line → flush (line ++ newline ∷ rest) ≡ rest
unfolding flush
flush_line [] rest one = refl
flush_line (c ∷ line) rest (a, b, one) = ground (arith, flush_line line rest one)

module _ (ipc : Ipc) where
  printed :
      (c : Client) (v : Server) (s : Shared ipc) (sent : List (List ℕ)) (t : Server.Turn ipc)
      (l : List ℕ)
      → server_step ipc v s ≡ some t
      → t.line ≡ some l
      → Inv ipc c v s sent
      → l ≡ cut (latest sent)
  unfolding server_step
  printed c Server.receiving s sent t l e shown h = elim (Option-cases (ipc.receive s.queue)) [
    | inl blocked ↦ absurd (ground (arith, e, blocked))
    | inr ((k, q), got) ↦ absurd (ground (arith, e, got, shown))
  ]
  printed c Server.locking s sent t l e shown h = elim (Option-cases (ipc.wait s.sem)) [
    | inl blocked ↦ absurd (ground (arith, e, blocked))
    | inr (u, taken) ↦ absurd (ground (arith, e, taken, shown))
  ]
  printed c Server.printing s sent t l e shown h =
      let kept = whole ipc c s.shm sent (omega (arith, h.held)) h.memory in
      ground (arith, e, kept, shown)
  printed c Server.unlocking s sent t l e shown h = absurd (ground (arith, e, shown))
  printed c Server.removing s sent t l e shown h = absurd (ground (arith, e, shown))
  printed c Server.ended s sent t l e shown h = absurd (ground (arith, e))
  printed c Server.overread s sent t l e shown h = absurd (ground (arith, e))

  -- In every reachable state at most one of the client and the server is between P and V, and the server
  -- has not read past the shared memory.
  pub mutual_exclusion :
      {input : List ℕ} {s : System ipc}
      → Reach ipc input s
      → (client_holds s.client + server_holds s.server ≤ 1) × (s.server ≢ Server.overread)
  mutual_exclusion r = let h = Reach-Inv ipc r in (omega (arith, h.held), h.reads)

  -- A line that the server prints is the word that the client stored last in full, up to a zero in it,
  -- and empty before the first: it never mixes two words.
  pub prints_latest :
      {input : List ℕ} {s : System ipc} {t : Server.Turn ipc} {l : List ℕ}
      → Reach ipc input s
      → server_step ipc s.server s.shared ≡ some t
      → t.line ≡ some l
      → l ≡ cut (latest s.sent)
  prints_latest {s} {t} {l} r e shown =
      printed s.client s.server s.shared s.sent t l e shown (Reach-Inv ipc r)

  -- An empty line at the prompt takes the next line away, whatever it is: the client is back at the
  -- prompt with what follows that line, and has done nothing.
  pub blank_line :
      (line rest : List ℕ) (s : Shared ipc)
      → OneLine line
      → client_step ipc Client.prompting (newline ∷ line ++ newline ∷ rest) s
        ≡ some (record { at = Client.prompting; input = rest; shared = s; sent = none })
  unfolding client_step command
  blank_line line rest s one =
      ap (λ i. some (record { at = Client.prompting; input = i; shared = s; sent = none }))
        (flush_line line rest one)
