-- ===== src/SharedMsg/Ipc.antt =====
-- What SharedMemoryMsgServer.c and SharedMemoryMsgClient.c of linux-sharedMsg use of the kernel: a
-- semaphore, a queue of messages of the type 888, and shared memory as its bytes.
use tools_demo.Base.{ℕ, suc, ◌≡◌, Option, none, some, List, [], ◌∷◌, ◌++◌}

-- The calls as their manual pages describe them. A call that blocks has no result.
pub record Ipc : Type 1 where
  pub Sem : Type 0
  pub value : Sem → ℕ
  -- `semctl` with SETVAL
  pub set_val : ℕ → Sem
  -- `semop` with -1 and with 1
  pub wait : Sem → Option Sem
  pub post : Sem → Sem
  pub set_val_lem : (n : ℕ) → value (set_val n) ≡ n
  pub wait_blocks : (s : Sem) → value s ≡ 0 → wait s ≡ none
  pub wait_takes :
      (s : Sem) (n : ℕ) → value s ≡ suc n → (t : Sem) × (wait s ≡ some t) × (value t ≡ n)
  pub post_lem : (s : Sem) → value (post s) ≡ suc (value s)
  pub Queue : Type 0
  -- The texts of the messages in a queue, the first one first
  pub texts : Queue → List ℕ
  pub empty : Queue
  pub empty_lem : texts empty ≡ []
  -- `msgsnd` and `msgrcv`
  pub send : ℕ → Queue → Queue
  pub receive : Queue → Option (ℕ × Queue)
  pub send_lem : (c : ℕ) (q : Queue) → texts (send c q) ≡ texts q ++ c ∷ []
  pub receive_blocks : (q : Queue) → texts q ≡ [] → receive q ≡ none
  pub receive_takes :
      (q : Queue) (c : ℕ) (cs : List ℕ)
      → texts q ≡ c ∷ cs
      → (r : Queue) × (receive q ≡ some (c, r)) × (texts r ≡ cs)
