-- ===== src/SharedMsg/Server.antt =====
-- SharedMemoryMsgServer.c of linux-sharedMsg, one access of what it shares to a step.
use tools_demo.Base.{
  ℕ, Bool, Option, none, some, List, [], ◌∷◌, ◌==◌, if◌then◌else◌, replicate, ◌>>=◌,
}
use tools_demo.SharedMsg.Ipc.{Ipc}
use tools_demo.SharedMsg.Client.{Shared, Start, exits, starts, shm_size}

-- Where the server stands: before `msgrcv`; before P; before `printf`; before V; before the removal of
-- what it made; past it; or in a read past the shared memory
pub data Server : Type 0 where
  receiving : Server
  locking : Server
  printing : Server
  unlocking : Server
  removing : Server
  ended : Server
  overread : Server

-- The calls before the semaphore is made; where that fails, `creat_sem` exits with -1, which is 255.
unfoldable pub server_start : Bool → Bool → Bool → Bool → Bool → Start
server_start key_ok shm_ok attach_ok queue_ok sem_ok =
    if key_ok
    then if shm_ok
      then if attach_ok
        then if queue_ok then if sem_ok then starts else exits 255 else exits 1
        else exits 1
      else exits 1
    else exits 1

-- The bytes up to a zero, if there is one
unfoldable pub c_string : List ℕ → Option (List ℕ)
c_string [] = none
c_string (c ∷ cs) = let rest = c_string cs in if c == 0 then some [] else rest >>= λ r. some (c ∷ r)

-- What the loop does with a message
unfoldable pub dispatch : ℕ → Server
dispatch c = if c == b'q' then removing else if c == b'r' then locking else receiving

module _ (ipc : Ipc) where
  open ipc use {Sem, Queue, wait, post, receive, set_val, empty}

  abbrev pub init_sem : ℕ → Sem
  init_sem n = set_val n

  -- The resource is not taken.
  abbrev pub creat_sem : Sem
  creat_sem = init_sem 1

  abbrev pub sem_p : Sem → Option Sem
  sem_p s = wait s

  abbrev pub sem_v : Sem → Sem
  sem_v s = post s

  -- What the server makes; new shared memory is zero.
  unfoldable pub creat : Shared ipc
  creat = record { sem = creat_sem; queue = empty; shm = replicate shm_size 0 }

  -- The server after a step, what it shares, and the line that it prints if it prints one
  pub record Turn : Type 0 where
    pub at : Server
    pub shared : Shared ipc
    pub line : Option (List ℕ)

  unfoldable pub server_step : Server → Shared ipc → Option Turn
  server_step receiving s = receive s.queue >>= λ (c, q).
      some (record { at = dispatch c; shared = record s { queue = q }; line = none })
  server_step locking s = sem_p s.sem >>= λ t.
      some (record { at = printing; shared = record s { sem = t }; line = none })
  server_step printing s = some (elim (c_string s.shm) [
    | none ↦ record { at = overread; shared = s; line = none }
    | some l ↦ record { at = unlocking; shared = s; line = some l }
  ])
  server_step unlocking s =
      some (record { at = receiving; shared = record s { sem = sem_v s.sem }; line = none })
  server_step removing s = some (record { at = ended; shared = s; line = none })
  server_step ended s = none
  server_step overread s = none
