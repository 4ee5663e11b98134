-- ===== src/SharedMsg/Mail.antt =====
-- Which messages are in the queue of linux-sharedMsg.
use mathlib.Core.Option.{some-injective}
use tools_demo.Base.{
  ℕ, ◌≡◌, ◌≢◌, refl, sym, subst, ◌∙◌, none, some, List, [], ◌∷◌, ◌++◌, arith, Option-cases, inl,
  inr,
}
use tools_demo.SharedMsg.Ipc.{Ipc}
use tools_demo.SharedMsg.Stdin.{scan_word}
use tools_demo.SharedMsg.Client
use tools_demo.SharedMsg.Client.{Client, Shared, client_step, command, scanned, store}
use tools_demo.SharedMsg.Server
use tools_demo.SharedMsg.Server.{Server, server_step, creat, c_string, dispatch}
use tools_demo.SharedMsg.System.{System, Reach, here, next, client_moves, server_moves}

-- Every message asks the server to read.
abbrev pub Reads : List ℕ → Type 0
Reads [] = Unit
Reads (c ∷ cs) = (c ≡ b'r') × Reads cs

-- The last message asks the server to quit, and those before it to read.
abbrev pub Quits : List ℕ → Type 0
Quits [] = ⊥
Quits (c ∷ []) = c ≡ b'q'
Quits (c ∷ d ∷ cs) = (c ≡ b'r') × Quits (d ∷ cs)

Reads-append : (cs : List ℕ) → Reads cs → Reads (cs ++ b'r' ∷ [])
Reads-append [] h = (refl, tt)
Reads-append (c ∷ cs) (e, h) = (e, Reads-append cs h)

Quits-append : (cs : List ℕ) → Reads cs → Quits (cs ++ b'q' ∷ [])
Quits-append [] h = refl
Quits-append (c ∷ []) (e, h) = (e, refl)
Quits-append (c ∷ d ∷ cs) (e, h) = (e, Quits-append (d ∷ cs) h)

-- The server still takes messages.
abbrev pub Going : Server → Type 0
Going Server.receiving = Unit
Going Server.locking = Unit
Going Server.printing = Unit
Going Server.unlocking = Unit
Going Server.overread = Unit
Going Server.removing = ⊥
Going Server.ended = ⊥

command-ne-ended : (k : ℕ) (input : List ℕ) → (command k input).0 ≢ Client.ended
unfolding command
command-ne-ended k input e = ground (arith, e)

scanned-ne-ended : (w : List ℕ) → scanned w ≢ Client.ended
unfolding scanned
scanned-ne-ended [] e = cc
scanned-ne-ended (c ∷ w) e = cc

store-ne-ended : (w todo shm : List ℕ) → (store w todo shm).0 ≢ Client.ended
unfolding store
store-ne-ended w [] shm e = ground (arith, e)
store-ne-ended w (c ∷ todo) shm e = ground (arith, e)

Reads-tail : (k : ℕ) (cs : List ℕ) → Reads (k ∷ cs) → Reads cs
Reads-tail k cs (e, h) = h

Quits-tail : (k : ℕ) (cs : List ℕ) → Quits (k ∷ cs) → Going (dispatch k) → Quits cs
unfolding dispatch
Quits-tail k [] h g = absurd (ground (arith, h, g))
Quits-tail k (c ∷ cs) (e, h) g = h

module _ (ipc : Ipc) where
  open ipc use {texts}

  receive_lem : (q r : ipc.Queue) (k : ℕ) → ipc.receive q ≡ some (k, r) → texts q ≡ k ∷ texts r
  receive_lem q r k e = go (texts q) refl
    where
      go : (cs : List ℕ) → texts q ≡ cs → texts q ≡ k ∷ texts r
      go [] f = absurd (ground (arith, e, ipc.receive_blocks q f))
      go (c ∷ cs) f =
          let (u, g, h) = ipc.receive_takes q c cs f in
          let both : some (c, u) ≡ some (k, r) = sym g ∙ e in ground (arith, f, h, both)

  -- The messages in the queue, by where the client and the server stand
  pub record Mail (c : Client) (v : Server) (cs : List ℕ) : Type 0 where
    pub open_reads : c ≢ Client.ended → Reads cs
    pub last_quits : c ≡ Client.ended → Going v → Quits cs

  kept-Mail : (c : Client) (v : Server) (cs : List ℕ) → c ≢ Client.ended → Reads cs → Mail c v cs
  kept-Mail c v cs n h = record { open_reads = λ _. h; last_quits = λ e. absurd (n e) }

  mailed :
      (r t : Client.Turn ipc) (v : Server)
      → some r ≡ some t
      → Mail r.at v (texts r.shared.queue)
      → Mail t.at v (texts t.shared.queue)
  mailed r t v e h = subst (λ u. Mail u.at v (texts u.shared.queue)) (some-injective r t e) h

  client-Mail :
      (c : Client) (input : List ℕ) (v : Server) (s : Shared ipc) (t : Client.Turn ipc)
      → client_step ipc c input s ≡ some t
      → Mail c v (texts s.queue)
      → Mail t.at v (texts t.shared.queue)
  unfolding client_step
  client-Mail Client.prompting [] v s t e h =
      mailed _ t v e (kept-Mail Client.unread v _ (λ q. cc) (h.open_reads (λ q. cc)))
  client-Mail Client.prompting (k ∷ input) v s t e h =
      mailed _ t v e (kept-Mail _ v _ (command-ne-ended k input) (h.open_reads (λ q. cc)))
  client-Mail Client.locking input v s t e h = elim (Option-cases (ipc.wait s.sem)) [
    | inl blocked ↦ absurd (ground (arith, e, blocked))
    | inr (u, taken) ↦
        mailed
          (record {
            at = Client.scanning;
            input = input;
            shared = record s { sem = u };
            sent = none;
          })
          t v (ground (arith, e, taken))
          (kept-Mail Client.scanning v _ (λ q. cc) (h.open_reads (λ q. cc)))
  ]
  client-Mail Client.scanning input v s t e h =
      mailed _ t v e
        (kept-Mail _ v _ (scanned-ne-ended (scan_word input).0) (h.open_reads (λ q. cc)))
  client-Mail (Client.storing w todo) input v s t e h =
      mailed _ t v e (kept-Mail _ v _ (store-ne-ended w todo s.shm) (h.open_reads (λ q. cc)))
  client-Mail Client.unlocking input v s t e h =
      mailed _ t v e (kept-Mail Client.telling v _ (λ q. cc) (h.open_reads (λ q. cc)))
  client-Mail Client.telling input v s t e h = mailed _ t v e (
      kept-Mail Client.prompting v _ (λ q. cc)
        (subst Reads (sym (ipc.send_lem b'r' s.queue))
          (Reads-append (texts s.queue) (h.open_reads (λ q. cc)))))
  client-Mail Client.quitting input v s t e h = mailed _ t v e (record {
    open_reads = λ n. absurd (n refl);
    last_quits = λ _ _.
        subst Quits (sym (ipc.send_lem b'q' s.queue))
          (Quits-append (texts s.queue) (h.open_reads (λ q. cc)));
  })
  client-Mail Client.ended input v s t e h = absurd (ground (arith, e))
  client-Mail Client.overrun input v s t e h = absurd (ground (arith, e))
  client-Mail Client.unread input v s t e h = absurd (ground (arith, e))

  taken-Mail :
      (c : Client) (r t : Server.Turn ipc)
      → some r ≡ some t
      → Mail c r.at (texts r.shared.queue)
      → Mail c t.at (texts t.shared.queue)
  taken-Mail c r t e h = subst (λ u. Mail c u.at (texts u.shared.queue)) (some-injective r t e) h

  server-Mail :
      (c : Client) (v : Server) (s : Shared ipc) (t : Server.Turn ipc)
      → server_step ipc v s ≡ some t
      → Mail c v (texts s.queue)
      → Mail c t.at (texts t.shared.queue)
  unfolding server_step
  server-Mail c Server.receiving s t e h = elim (Option-cases (ipc.receive s.queue)) [
    | inl blocked ↦ absurd (ground (arith, e, blocked))
    | inr ((k, q), got) ↦
        let order = receive_lem s.queue q k got in
        taken-Mail c (record { at = dispatch k; shared = record s { queue = q }; line = none }) t
          (ground (arith, e, got))
          (record {
            open_reads = λ n. Reads-tail k (texts q) (subst Reads order (h.open_reads n));
            last_quits = λ z g. Quits-tail k (texts q) (subst Quits order (h.last_quits z tt)) g;
          })
  ]
  server-Mail c Server.locking s t e h = elim (Option-cases (ipc.wait s.sem)) [
    | inl blocked ↦ absurd (ground (arith, e, blocked))
    | inr (u, taken) ↦
        taken-Mail c (record { at = Server.printing; shared = record s { sem = u }; line = none }) t
          (ground (arith, e, taken))
          (record { open_reads = h.open_reads; last_quits = λ z g. h.last_quits z tt })
  ]
  server-Mail c Server.printing s t e h = elim (Option-cases (c_string s.shm)) [
    | inl past ↦
        taken-Mail c (record { at = Server.overread; shared = s; line = none }) t
          (ground (arith, e, past))
          (record { open_reads = h.open_reads; last_quits = λ z g. h.last_quits z tt })
    | inr (l, shown) ↦
        taken-Mail c (record { at = Server.unlocking; shared = s; line = some l }) t
          (ground (arith, e, shown))
          (record { open_reads = h.open_reads; last_quits = λ z g. h.last_quits z tt })
  ]
  server-Mail c Server.unlocking s t e h =
      taken-Mail c _ t e
        (record { open_reads = h.open_reads; last_quits = λ z g. h.last_quits z tt })
  server-Mail c Server.removing s t e h =
      taken-Mail c _ t e (record { open_reads = h.open_reads; last_quits = λ z g. absurd g })
  server-Mail c Server.ended s t e h = absurd (ground (arith, e))
  server-Mail c Server.overread s t e h = absurd (ground (arith, e))

  pub Reach-Mail :
      {input : List ℕ} {s : System ipc}
      → Reach ipc input s
      → Mail s.client s.server (texts s.shared.queue)
  unfolding creat
  Reach-Mail here =
      kept-Mail Client.prompting Server.receiving _ (λ q. cc) (subst Reads (sym ipc.empty_lem) tt)
  Reach-Mail (next {s} r (client_moves t e)) =
      client-Mail s.client s.input s.server s.shared t e (Reach-Mail r)
  Reach-Mail (next {s} r (server_moves t e)) =
      server-Mail s.client s.server s.shared t e (Reach-Mail r)
