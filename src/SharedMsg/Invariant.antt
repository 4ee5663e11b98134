-- ===== src/SharedMsg/Invariant.antt =====
-- What the client and the server of linux-sharedMsg keep true, step by step.
use mathlib.Core.List.{append_assoc}
use mathlib.Core.Option.{some-injective}
use tools_demo.Base.{
  ℕ, suc, ◌+◌, ◌≡◌, refl, sym, subst, ◌∙◌, none, some, List, [], ◌∷◌, ◌++◌, length, length-set, set,
  arith, Option-cases, inl, inr, dec_lt, Nat-cases,
}
use tools_demo.SharedMsg.Ipc.{Ipc}
use tools_demo.SharedMsg.Stdin.{scan_word}
use tools_demo.SharedMsg.Client
use tools_demo.SharedMsg.Client.{
  Client, Shared, client_step, command, scanned, store, shm_size, stored_word,
}
use tools_demo.SharedMsg.Server
use tools_demo.SharedMsg.Server.{Server, server_step, creat, c_string, dispatch}
use tools_demo.SharedMsg.System.{System, client_moves, server_moves, Reach, here, next, add}
use tools_demo.SharedMsg.Memory.{cut, c_string-cut, c_string-replicate, StartsWith, set_next}

-- 1 between P and V
abbrev pub client_holds : Client → ℕ
client_holds Client.scanning = 1
client_holds (Client.storing w todo) = 1
client_holds Client.unlocking = 1
client_holds Client.overrun = 1
client_holds Client.prompting = 0
client_holds Client.locking = 0
client_holds Client.telling = 0
client_holds Client.quitting = 0
client_holds Client.ended = 0
client_holds Client.unread = 0

abbrev pub server_holds : Server → ℕ
server_holds Server.printing = 1
server_holds Server.unlocking = 1
server_holds Server.overread = 1
server_holds Server.receiving = 0
server_holds Server.locking = 0
server_holds Server.removing = 0
server_holds Server.ended = 0

-- The word that was stored in full last, or none
abbrev pub latest : List (List ℕ) → List ℕ
latest [] = []
latest (w ∷ ws) = w

-- What the memory holds, by where the client stands
abbrev pub Memory : Client → List ℕ → List (List ℕ) → Type 0
Memory (Client.storing w todo) shm sent = StartsWith shm w
Memory Client.overrun shm sent = Unit
Memory Client.scanning shm sent = c_string shm ≡ some (cut (latest sent))
Memory Client.unlocking shm sent = c_string shm ≡ some (cut (latest sent))
Memory Client.prompting shm sent = c_string shm ≡ some (cut (latest sent))
Memory Client.locking shm sent = c_string shm ≡ some (cut (latest sent))
Memory Client.telling shm sent = c_string shm ≡ some (cut (latest sent))
Memory Client.quitting shm sent = c_string shm ≡ some (cut (latest sent))
Memory Client.ended shm sent = c_string shm ≡ some (cut (latest sent))
Memory Client.unread shm sent = c_string shm ≡ some (cut (latest sent))

module _ (ipc : Ipc) where
  open ipc use {value, wait, post}

  -- The client `c` and the server `v`, what they share, and the words that were stored
  pub record Inv (c : Client) (v : Server) (s : Shared ipc) (sent : List (List ℕ)) : Type 0 where
    pub held : value s.sem + client_holds c + server_holds v ≡ 1
    pub sized : length s.shm ≡ shm_size
    pub memory : Memory c s.shm sent
    pub reads : v ≡ Server.overread → ⊥

  command-Inv :
      (k : ℕ) (input : List ℕ) (v : Server) (s : Shared ipc) (sent : List (List ℕ))
      → Inv Client.prompting v s sent
      → Inv (command k input).0 v s sent
  unfolding command
  command-Inv k input v s sent h = ground (arith, h.held, h.sized, h.memory, h.reads)

  store-Inv :
      (w todo : List ℕ) (v : Server) (s : Shared ipc) (sent : List (List ℕ))
      → Inv (Client.storing w todo) v s sent
      → let r = store w todo s.shm in
        Inv r.0 v (record s { shm = r.1 }) (add (stored_word r.0 w) sent)
  unfolding store
  store-Inv w [] v s sent h = elim (dec_lt (length w) shm_size) [
    | yes room ↦
        let (rest, e) = set_next s.shm w 0 h.memory (omega (arith, h.sized)) in
        let l = length-set s.shm (length w) 0 in
        let shown = c_string-cut w rest in ground (arith, h.held, h.sized, h.reads, e, l, shown)
    | no full ↦ ground (arith, h.held, h.sized, h.reads)
  ]
  store-Inv w (c ∷ todo) v s sent h = elim (dec_lt (length w) shm_size) [
    | yes room ↦
        let (rest, e) = set_next s.shm w c h.memory (omega (arith, h.sized)) in
        let l = length-set s.shm (length w) c in
        let joined = sym (append_assoc w (c ∷ []) rest) in
        let stores : store w (c ∷ todo) s.shm
            ≡ (Client.storing (w ++ c ∷ []) todo, set s.shm (length w) c) =
          ground (arith, room) in
        subst (λ r. Inv r.0 v (record s { shm = r.1 }) (add (stored_word r.0 w) sent)) (sym stores)
          (record {
            held = h.held;
            sized = l ∙ h.sized;
            memory = (rest, e ∙ joined);
            reads = h.reads;
          })
    | no full ↦ ground (arith, h.held, h.sized, h.reads)
  ]

  wait_lem : (t : ipc.Sem) (u : ipc.Sem) → wait t ≡ some u → value t ≡ suc (value u)
  wait_lem t u e = elim (Nat-cases (value t)) [
    | inl z ↦ absurd (ground (arith, e, ipc.wait_blocks t z))
    | inr (n, p) ↦ let (w, f, g) = ipc.wait_takes t n p in ground (arith, e, f, g, p)
  ]

  scanned-Inv :
      (w : List ℕ) (v : Server) (s : Shared ipc) (sent : List (List ℕ))
      → Inv Client.scanning v s sent
      → Inv (scanned w) v s sent
  unfolding scanned
  scanned-Inv [] v s sent h = record {
    held = h.held;
    sized = h.sized;
    memory = h.memory;
    reads = h.reads;
  }
  scanned-Inv (c ∷ w) v s sent h = record {
    held = h.held;
    sized = h.sized;
    memory = (s.shm, refl);
    reads = h.reads;
  }

  stepped :
      (r t : Client.Turn ipc) (v : Server) (sent : List (List ℕ))
      → some r ≡ some t
      → Inv r.at v r.shared (add r.sent sent)
      → Inv t.at v t.shared (add t.sent sent)
  stepped r t v sent e h =
      subst (λ u. Inv u.at v u.shared (add u.sent sent)) (some-injective r t e) h

  pub client-Inv :
      (c : Client) (input : List ℕ) (v : Server) (s : Shared ipc) (sent : List (List ℕ))
      (t : Client.Turn ipc)
      → client_step ipc c input s ≡ some t
      → Inv c v s sent
      → Inv t.at v t.shared (add t.sent sent)
  unfolding client_step
  client-Inv Client.prompting [] v s sent t e h =
      stepped _ t v sent e
        (record { held = h.held; sized = h.sized; memory = h.memory; reads = h.reads })
  client-Inv Client.prompting (k ∷ input) v s sent t e h =
      stepped _ t v sent e (command-Inv k input v s sent h)
  client-Inv Client.locking input v s sent t e h = elim (Option-cases (wait s.sem)) [
    | inl blocked ↦ absurd (ground (arith, e, blocked))
    | inr (u, taken) ↦
        let less = wait_lem s.sem u taken in
        stepped
          (record {
            at = Client.scanning;
            input = input;
            shared = record s { sem = u };
            sent = none;
          })
          t v sent (ground (arith, e, taken))
          (record {
            held = omega (arith, h.held, less);
            sized = h.sized;
            memory = h.memory;
            reads = h.reads;
          })
  ]
  client-Inv Client.scanning input v s sent t e h =
      stepped _ t v sent e (scanned-Inv (scan_word input).0 v s sent h)
  client-Inv (Client.storing w todo) input v s sent t e h =
      stepped _ t v sent e (store-Inv w todo v s sent h)
  client-Inv Client.unlocking input v s sent t e h =
      let more = ipc.post_lem s.sem in
      stepped _ t v sent e (record {
        held = omega (arith, h.held, more);
        sized = h.sized;
        memory = h.memory;
        reads = h.reads;
      })
  client-Inv Client.telling input v s sent t e h =
      stepped _ t v sent e
        (record { held = h.held; sized = h.sized; memory = h.memory; reads = h.reads })
  client-Inv Client.quitting input v s sent t e h =
      stepped _ t v sent e
        (record { held = h.held; sized = h.sized; memory = h.memory; reads = h.reads })
  client-Inv Client.ended input v s sent t e h = absurd (ground (arith, e))
  client-Inv Client.overrun input v s sent t e h = absurd (ground (arith, e))
  client-Inv Client.unread input v s sent t e h = absurd (ground (arith, e))

  -- Where the server may not print, the client is not in the middle of a word.
  pub whole :
      (c : Client) (shm : List ℕ) (sent : List (List ℕ))
      → client_holds c ≡ 0
      → Memory c shm sent
      → c_string shm ≡ some (cut (latest sent))
  whole Client.prompting shm sent z m = m
  whole Client.locking shm sent z m = m
  whole Client.scanning shm sent z m = m
  whole (Client.storing w todo) shm sent z m = absurd (omega (arith, z))
  whole Client.unlocking shm sent z m = m
  whole Client.telling shm sent z m = m
  whole Client.quitting shm sent z m = m
  whole Client.ended shm sent z m = m
  whole Client.overrun shm sent z m = absurd (omega (arith, z))
  whole Client.unread shm sent z m = m

  server_stepped :
      (c : Client) (r t : Server.Turn ipc) (sent : List (List ℕ))
      → some r ≡ some t
      → Inv c r.at r.shared sent
      → Inv c t.at t.shared sent
  server_stepped c r t sent e h = subst (λ u. Inv c u.at u.shared sent) (some-injective r t e) h

  dispatch_lem : (k : ℕ) → (server_holds (dispatch k) ≡ 0) × (dispatch k ≡ Server.overread → ⊥)
  unfolding dispatch
  dispatch_lem k = (ground arith, λ e. ground (arith, e))

  pub server-Inv :
      (c : Client) (v : Server) (s : Shared ipc) (sent : List (List ℕ)) (t : Server.Turn ipc)
      → server_step ipc v s ≡ some t
      → Inv c v s sent
      → Inv c t.at t.shared sent
  unfolding server_step
  server-Inv c Server.receiving s sent t e h = elim (Option-cases (ipc.receive s.queue)) [
    | inl blocked ↦ absurd (ground (arith, e, blocked))
    | inr ((k, q), got) ↦
        let (free, reads) = dispatch_lem k in
        server_stepped c (record { at = dispatch k; shared = record s { queue = q }; line = none })
          t sent (ground (arith, e, got))
          (record {
            held = omega (arith, h.held, free);
            sized = h.sized;
            memory = h.memory;
            reads = reads;
          })
  ]
  server-Inv c Server.locking s sent t e h = elim (Option-cases (wait s.sem)) [
    | inl blocked ↦ absurd (ground (arith, e, blocked))
    | inr (u, taken) ↦
        let less = wait_lem s.sem u taken in
        server_stepped c
          (record { at = Server.printing; shared = record s { sem = u }; line = none }) t sent
          (ground (arith, e, taken))
          (record {
            held = omega (arith, h.held, less);
            sized = h.sized;
            memory = h.memory;
            reads = λ q. cc;
          })
  ]
  server-Inv c Server.printing s sent t e h =
      let shown = whole c s.shm sent (omega (arith, h.held)) h.memory in
      server_stepped c
        (record { at = Server.unlocking; shared = s; line = some (cut (latest sent)) }) t sent
        (ground (arith, e, shown))
        (record { held = h.held; sized = h.sized; memory = h.memory; reads = λ q. cc })
  server-Inv c Server.unlocking s sent t e h =
      let more = ipc.post_lem s.sem in
      server_stepped c _ t sent e (record {
        held = omega (arith, h.held, more);
        sized = h.sized;
        memory = h.memory;
        reads = λ q. cc;
      })
  server-Inv c Server.removing s sent t e h =
      server_stepped c _ t sent e
        (record { held = h.held; sized = h.sized; memory = h.memory; reads = λ q. cc })
  server-Inv c Server.ended s sent t e h = absurd (ground (arith, e))
  server-Inv c Server.overread s sent t e h = absurd (ground (arith, e))

  pub start-Inv : Inv Client.prompting Server.receiving (creat ipc) []
  unfolding creat
  start-Inv = record {
    held = omega (arith, ipc.set_val_lem 1);
    sized = refl;
    memory = c_string-replicate 1023;
    reads = λ q. cc;
  }

  pub Reach-Inv :
      {input : List ℕ} {s : System ipc} → Reach ipc input s → Inv s.client s.server s.shared s.sent
  Reach-Inv here = start-Inv
  Reach-Inv (next {s} r (client_moves t e)) =
      client-Inv s.client s.input s.server s.shared s.sent t e (Reach-Inv r)
  Reach-Inv (next {s} r (server_moves t e)) =
      server-Inv s.client s.server s.shared s.sent t e (Reach-Inv r)
