-- ===== src/SharedMsg/Tests.antt =====
-- The theorems on linux-sharedMsg at short inputs, with a semaphore that is a number and a queue that is a
-- list.
use tools_demo.Base.{
  ℕ, zero, suc, ◌+◌, ◌≤◌, ◌≡◌, ◌≢◌, refl, Bool, true, false, Option, none, some, List, [], ◌∷◌,
  ◌++◌, arith,
}
use tools_demo.SharedMsg.Ipc.{Ipc}
use tools_demo.SharedMsg.Client
use tools_demo.SharedMsg.Client.{Client, Shared, client_step}
use tools_demo.SharedMsg.Server
use tools_demo.SharedMsg.Server.{Server, server_step, creat}
use tools_demo.SharedMsg.System.{System, start, Reach, here, next, client_moves, server_moves}
use tools_demo.SharedMsg.Memory.{cut}
use tools_demo.SharedMsg.Invariant.{client_holds, server_holds, latest}
use tools_demo.SharedMsg.Safety.{mutual_exclusion, prints_latest}
use tools_demo.SharedMsg.Liveness.{Finishes, server_finishes}

abbrev wait_of : ℕ → Option ℕ
wait_of zero = none
wait_of (suc n) = some n

abbrev receive_of : List ℕ → Option (ℕ × List ℕ)
receive_of [] = none
receive_of (c ∷ cs) = some (c, cs)

wait_of-zero : (s : ℕ) → s ≡ 0 → wait_of s ≡ none
wait_of-zero s e = ground (arith, e)

wait_of-suc : (s n : ℕ) → s ≡ suc n → (t : ℕ) × (wait_of s ≡ some t) × (t ≡ n)
wait_of-suc s n e = (n, ground (arith, e), refl)

receive_of-nil : (q : List ℕ) → q ≡ [] → receive_of q ≡ none
receive_of-nil q e = ground (arith, e)

receive_of-cons :
    (q : List ℕ) (c : ℕ) (cs : List ℕ)
    → q ≡ c ∷ cs
    → (r : List ℕ) × (receive_of q ≡ some (c, r)) × (r ≡ cs)
receive_of-cons q c cs e = (cs, ground (arith, e), refl)

abbrev plain : Ipc
plain = record {
  Sem = ℕ;
  value = λ s. s;
  set_val = λ n. n;
  wait = wait_of;
  post = λ s. suc s;
  set_val_lem = λ n. refl;
  wait_blocks = wait_of-zero;
  wait_takes = wait_of-suc;
  post_lem = λ s. refl;
  Queue = List ℕ;
  texts = λ q. q;
  empty = [];
  empty_lem = refl;
  send = λ c q. q ++ c ∷ [];
  receive = receive_of;
  send_lem = λ c q. refl;
  receive_blocks = receive_of-nil;
  receive_takes = receive_of-cons;
}

record Run (input : List ℕ) : Type 0 where
  last : System plain
  reach : Reach plain input last

client_turn :
    {input : List ℕ} (r : Run input) (o : Option (Client.Turn plain))
    → client_step plain r.last.client r.last.input r.last.shared ≡ o
    → Run input
client_turn r none e = r
client_turn r (some t) e = record { last = _; reach = next r.reach (client_moves t e) }

server_turn :
    {input : List ℕ} (r : Run input) (o : Option (Server.Turn plain))
    → server_step plain r.last.server r.last.shared ≡ o
    → Run input
server_turn r none e = r
server_turn r (some t) e = record { last = _; reach = next r.reach (server_moves t e) }

-- Any number of steps of the client, then any number of the server
turns : {input : List ℕ} → ℕ → ℕ → Run input → Run input
unfolding client_turn server_turn
turns zero zero r = r
turns zero (suc m) r = turns zero m (server_turn r _ refl)
turns (suc n) m r = turns n m (client_turn r _ refl)

-- `rhi`, and the end of the line
abbrev typed : List ℕ
typed = b'r' ∷ b'h' ∷ b'i' ∷ 10 ∷ []

-- The client has sent a word, and the server is about to print it.
abbrev sent_hi : Run typed
unfolding turns
sent_hi = turns 8 2 (record { last = start plain typed; reach = here })

abbrev quit : Run (b'q' ∷ [])
unfolding turns
quit = turns 2 0 (record { last = start plain (b'q' ∷ []); reach = here })

state_hi : (sent_hi.last.client ≡ Client.prompting) × (sent_hi.last.server ≡ Server.printing)
unfolding turns client_step server_step Client.command creat Client.scanned
    tools_demo.SharedMsg.Stdin.scan_word tools_demo.SharedMsg.Stdin.word
    tools_demo.Base.Text.skip_spaces Client.store Server.dispatch
state_hi = (refl, refl)

mutual_exclusion_example :
    (client_holds sent_hi.last.client + server_holds sent_hi.last.server ≤ 1)
    × (sent_hi.last.server ≢ Server.overread)
mutual_exclusion_example = mutual_exclusion plain sent_hi.reach

prints_latest_example : b'h' ∷ b'i' ∷ [] ≡ cut (latest sent_hi.last.sent)
unfolding server_step sent_hi client_step Client.command creat Client.scanned
    tools_demo.SharedMsg.Stdin.scan_word tools_demo.SharedMsg.Stdin.word
    tools_demo.Base.Text.skip_spaces Client.store Server.dispatch Server.c_string
prints_latest_example =
    prints_latest plain
      {t = record {
        at = Server.unlocking;
        shared = sent_hi.last.shared;
        line = some (b'h' ∷ b'i' ∷ []);
      }}
      sent_hi.reach refl refl

server_finishes_example : Finishes plain quit.last.server quit.last.shared
unfolding quit client_step Client.command
server_finishes_example = server_finishes plain quit.reach refl
