-- ===== src/SharedMsg/Client.antt =====
-- SharedMemoryMsgClient.c of linux-sharedMsg, one access of what it shares to a step.
use tools_demo.Base.{
  ℕ, Bool, ltb, Option, none, some, List, [], ◌∷◌, ◌++◌, ◌==◌, if◌then◌else◌, length, set, ◌>>=◌,
}
use tools_demo.SharedMsg.Ipc.{Ipc}
use tools_demo.SharedMsg.Stdin.{scan_word, flush}

-- Where the client stands: at the prompt; before P; in `scanf("%s", shm)`, with the characters that are
-- stored and those that are not; before V; before `msgsnd`; past the loop; after a
-- store past the shared memory; or with a command that was never read, at the end of the input.
pub data Client : Type 0 where
  prompting : Client
  locking : Client
  scanning : Client
  storing : List ℕ → List ℕ → Client
  unlocking : Client
  telling : Client
  quitting : Client
  ended : Client
  overrun : Client
  unread : Client

-- The size of the shared memory
abbrev pub shm_size : ℕ
shm_size = 1024

-- `shmget`, `shmat`, `msgget` and `semget` after `ftok`; a call that fails ends the process with 1.
pub data Start : Type 0 where
  exits : ℕ → Start
  starts : Start

unfoldable pub client_start : Bool → Bool → Bool → Bool → Bool → Start
client_start key_ok shm_ok attach_ok queue_ok sem_ok =
    if key_ok
    then if shm_ok
      then if attach_ok
        then if queue_ok then if sem_ok then starts else exits 1 else exits 1
        else exits 1
      else exits 1
    else exits 1

-- What the switch on the command does, and the input that is left
unfoldable pub command : ℕ → List ℕ → Client × List ℕ
command c input =
    if c == b'r'
    then (locking, input)
    else if c == b'q'
    then (quitting, input)
    else (prompting, flush input)

-- The word that `scanf` has read is stored, if there is one.
unfoldable pub scanned : List ℕ → Client
scanned [] = unlocking
scanned (c ∷ w) = storing [] (c ∷ w)

-- A store of `scanf`, past the end of the shared memory or not
unfoldable pub store : List ℕ → List ℕ → List ℕ → Client × List ℕ
store stored [] shm =
    if ltb (length stored) shm_size then (unlocking, set shm (length stored) 0) else (overrun, shm)
store stored (c ∷ todo) shm =
    if ltb (length stored) shm_size
    then (storing (stored ++ c ∷ []) todo, set shm (length stored) c)
    else (overrun, shm)

-- The word is stored with its zero.
abbrev pub stored_word : Client → List ℕ → Option (List ℕ)
stored_word unlocking w = some w
stored_word _ w = none

module _ (ipc : Ipc) where
  open ipc use {Sem, Queue, wait, post, send}

  -- Its result, an error of `semop`, is not looked at.
  abbrev pub sem_p : Sem → Option Sem
  sem_p s = wait s

  abbrev pub sem_v : Sem → Sem
  sem_v s = post s

  pub record Shared : Type 0 where
    pub sem : Sem
    pub queue : Queue
    pub shm : List ℕ

  -- The client after a step, its input, what it shares, and the word that it has stored in full if it has
  pub record Turn : Type 0 where
    pub at : Client
    pub input : List ℕ
    pub shared : Shared
    pub sent : Option (List ℕ)

  -- The next step from where the client stands; one that blocks, or comes after the last, has no result.
  unfoldable pub client_step : Client → List ℕ → Shared → Option Turn
  client_step prompting [] s = some (record { at = unread; input = []; shared = s; sent = none })
  client_step prompting (c ∷ input) s =
      let r = command c input in some (record { at = r.0; input = r.1; shared = s; sent = none })
  client_step locking input s = sem_p s.sem >>= λ t.
      some (record { at = scanning; input = input; shared = record s { sem = t }; sent = none })
  client_step scanning input s =
      let r = scan_word input in
      some (record { at = scanned r.0; input = r.1; shared = s; sent = none })
  client_step (storing stored todo) input s =
      let r = store stored todo s.shm in
      some (record {
        at = r.0;
        input = input;
        shared = record s { shm = r.1 };
        sent = stored_word r.0 stored;
      })
  client_step unlocking input s = some (record {
    at = telling;
    input = flush input;
    shared = record s { sem = sem_v s.sem };
    sent = none;
  })
  client_step telling input s = some (record {
    at = prompting;
    input = input;
    shared = record s { queue = send b'r' s.queue };
    sent = none;
  })
  client_step quitting input s = some (record {
    at = ended;
    input = input;
    shared = record s { queue = send b'q' s.queue };
    sent = none;
  })
  client_step ended input s = none
  client_step overrun input s = none
  client_step unread input s = none
