-- ===== src/SharedMsg/Liveness.antt =====
-- The server of linux-sharedMsg comes to its end once the client has.
use tools_demo.Base.{ℕ, ◌≡◌, refl, subst, ◌∙◌, none, some, List, [], ◌∷◌, arith}
use tools_demo.SharedMsg.Ipc.{Ipc}
use tools_demo.SharedMsg.Client.{Client, Shared}
use tools_demo.SharedMsg.Server
use tools_demo.SharedMsg.Server.{Server, server_step, dispatch}
use tools_demo.SharedMsg.System.{System, Reach}
use tools_demo.SharedMsg.Memory.{cut}
use tools_demo.SharedMsg.Invariant.{latest, Inv, whole, server-Inv, Reach-Inv}
use tools_demo.SharedMsg.Mail.{Quits, Going, Reach-Mail}

module _ (ipc : Ipc) where
  open ipc use {texts}

  -- The server's own steps bring it to its end.
  pub data Finishes : Server → Shared ipc → Type 0 where
    over : (s : Shared ipc) → Finishes Server.ended s
    step :
        (v : Server) (s : Shared ipc) (t : Server.Turn ipc)
        → server_step ipc v s ≡ some t
        → Finishes t.at t.shared
        → Finishes v s

  -- From a place of the server every step is possible, up to `receiving`.
  unlock_then :
      (s : Shared ipc) (sent : List (List ℕ))
      → Inv ipc Client.ended Server.unlocking s sent
      → ((u : Shared ipc)
          → texts u.queue ≡ texts s.queue
          → Inv ipc Client.ended Server.receiving u sent
          → Finishes Server.receiving u)
      → Finishes Server.unlocking s
  unfolding server_step
  unlock_then s sent h k =
      let t : Server.Turn ipc = record {
        at = Server.receiving;
        shared = record s { sem = ipc.post s.sem };
        line = none;
      } in
      step Server.unlocking s t refl
        (k t.shared refl (server-Inv ipc Client.ended Server.unlocking s sent t refl h))

  print_then :
      (s : Shared ipc) (sent : List (List ℕ))
      → Inv ipc Client.ended Server.printing s sent
      → ((u : Shared ipc)
          → texts u.queue ≡ texts s.queue
          → Inv ipc Client.ended Server.receiving u sent
          → Finishes Server.receiving u)
      → Finishes Server.printing s
  unfolding server_step
  print_then s sent h k =
      let t : Server.Turn ipc = record {
        at = Server.unlocking;
        shared = s;
        line = some (cut (latest sent));
      } in
      let shown = whole ipc Client.ended s.shm sent refl h.memory in
      let e : server_step ipc Server.printing s ≡ some t = ground (arith, shown) in
      step Server.printing s t e
        (unlock_then s sent (server-Inv ipc Client.ended Server.printing s sent t e h) k)

  lock_then :
      (s : Shared ipc) (sent : List (List ℕ))
      → Inv ipc Client.ended Server.locking s sent
      → ((u : Shared ipc)
          → texts u.queue ≡ texts s.queue
          → Inv ipc Client.ended Server.receiving u sent
          → Finishes Server.receiving u)
      → Finishes Server.locking s
  unfolding server_step
  lock_then s sent h k =
      let (u, e, f) = ipc.wait_takes s.sem 0 (omega (arith, h.held)) in
      let t : Server.Turn ipc = record {
        at = Server.printing;
        shared = record s { sem = u };
        line = none;
      } in
      let g : server_step ipc Server.locking s ≡ some t = ground (arith, e) in
      step Server.locking s t g
        (print_then t.shared sent (server-Inv ipc Client.ended Server.locking s sent t g h) k)

  remove : (s : Shared ipc) → Finishes Server.removing s
  unfolding server_step
  remove s =
      step Server.removing s (record { at = Server.ended; shared = s; line = none }) refl (over s)

  receive_all :
      (cs : List ℕ) (s : Shared ipc) (sent : List (List ℕ))
      → texts s.queue ≡ cs
      → Quits cs
      → Inv ipc Client.ended Server.receiving s sent
      → Finishes Server.receiving s
  unfolding server_step dispatch
  receive_all [] s sent e q h = absurd q
  receive_all (c ∷ []) s sent e q h =
      let (u, f, g) = ipc.receive_takes s.queue c [] e in
      let t : Server.Turn ipc = record {
        at = Server.removing;
        shared = record s { queue = u };
        line = none;
      } in
      let got : server_step ipc Server.receiving s ≡ some t = ground (arith, f, q) in
      step Server.receiving s t got (remove t.shared)
  receive_all (c ∷ d ∷ cs) s sent e (q, rest) h =
      let (u, f, g) = ipc.receive_takes s.queue c (d ∷ cs) e in
      let t : Server.Turn ipc = record {
        at = Server.locking;
        shared = record s { queue = u };
        line = none;
      } in
      let got : server_step ipc Server.receiving s ≡ some t = ground (arith, f, q) in
      step Server.receiving s t got (
        lock_then t.shared sent (server-Inv ipc Client.ended Server.receiving s sent t got h)
          (λ w same i. receive_all (d ∷ cs) w sent (same ∙ g) rest i))

  finishes :
      (v : Server) (s : Shared ipc) (sent : List (List ℕ))
      → (Going v → Quits (texts s.queue))
      → Inv ipc Client.ended v s sent
      → Finishes v s
  finishes Server.receiving s sent q h = receive_all (texts s.queue) s sent refl (q tt) h
  finishes Server.locking s sent q h =
      lock_then s sent h (λ u same i. receive_all (texts s.queue) u sent same (q tt) i)
  finishes Server.printing s sent q h =
      print_then s sent h (λ u same i. receive_all (texts s.queue) u sent same (q tt) i)
  finishes Server.unlocking s sent q h =
      unlock_then s sent h (λ u same i. receive_all (texts s.queue) u sent same (q tt) i)
  finishes Server.removing s sent q h = remove s
  finishes Server.ended s sent q h = over s
  finishes Server.overread s sent q h = absurd (h.reads refl)

  -- From every reachable state in which the client has ended, the server's own steps, none of which
  -- blocks, bring it to the end of `main`.
  pub server_finishes :
      {input : List ℕ} {s : System ipc}
      → Reach ipc input s
      → s.client ≡ Client.ended
      → Finishes s.server s.shared
  server_finishes {s} r e =
      finishes s.server s.shared s.sent ((Reach-Mail ipc r).last_quits e)
        (subst (λ c. Inv ipc c s.server s.shared s.sent) e (Reach-Inv ipc r))
