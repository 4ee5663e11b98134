-- ===== src/SharedMsg/System.antt =====
-- The client and the server of linux-sharedMsg side by side, in any order of their steps.
use tools_demo.Base.{ℕ, ◌≡◌, Option, none, some, List, [], ◌∷◌}
use tools_demo.SharedMsg.Ipc.{Ipc}
use tools_demo.SharedMsg.Client
use tools_demo.SharedMsg.Client.{Client, Shared, client_step}
use tools_demo.SharedMsg.Server
use tools_demo.SharedMsg.Server.{Server, creat, server_step}

-- A line or a word in front of those before it
abbrev pub add : Option (List ℕ) → List (List ℕ) → List (List ℕ)
add none lines = lines
add (some l) lines = l ∷ lines

module _ (ipc : Ipc) where
  pub record System : Type 0 where
    pub client : Client
    pub input : List ℕ
    pub server : Server
    pub shared : Shared ipc
    -- the words that the client has stored in full, the latest first
    pub sent : List (List ℕ)
    -- what the server has printed, the latest first
    pub lines : List (List ℕ)

  -- The server has made what they share, and the client has started, with all that will be typed.
  abbrev pub start : List ℕ → System
  start input = record {
    client = Client.prompting;
    input = input;
    server = Server.receiving;
    shared = creat ipc;
    sent = [];
    lines = [];
  }

  pub data Step (s : System) : System → Type 0 where
    client_moves :
        (t : Client.Turn ipc)
        → client_step ipc s.client s.input s.shared ≡ some t
        → Step s (record s {
          client = t.at;
          input = t.input;
          shared = t.shared;
          sent = add t.sent s.sent;
        })
    server_moves :
        (t : Server.Turn ipc)
        → server_step ipc s.server s.shared ≡ some t
        → Step s (record s { server = t.at; shared = t.shared; lines = add t.line s.lines })

  pub data Reach (input : List ℕ) : System → Type 0 where
    here : Reach input (start input)
    next : {s t : System} → Reach input s → Step s t → Reach input t
