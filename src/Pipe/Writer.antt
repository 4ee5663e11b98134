-- ===== src/Pipe/Writer.antt =====
-- The message loop of `CWritePipe::WritePipeThread` of Pipe/PipeClient/WritePipe.cpp and of
-- Pipe/PipeServer/WritePipe.cpp. The queue of the thread is the list of messages that it gets, and
-- `WriteFile` is the result that comes with each.
use tools_demo.Base.{ℕ, ◌+◌, Bool, Option, none, some, List, [], ◌∷◌, length, take, if◌then◌else◌}
use tools_demo.Pipe.Memory.{memcpy_to}
use tools_demo.Pipe.Codec.{int_to_bytes}
use tools_demo.Pipe.Reader.{header_size}

-- `WM_QUIT`, `WM_USER_SENDDATA` with its data and what `WriteFile` returns for it, or another message
pub data Message : Type 0 where
  quit : Message
  send_data : List ℕ → Bool → Message
  other : Message

-- What the loop comes to, with the arguments of its calls of `WriteFile` in their order: it was left,
-- it waits in `GetMessage` with `bufferWrite`, or a copy that leaves `bufferWrite`.
pub data Written : Type 0 where
  ended : List (List ℕ) → Written
  waiting : List (List ℕ) → List ℕ → Written
  overrun : List (List ℕ) → Written

-- One more write before those that come.
abbrev pub wrote : List ℕ → Written → Written
wrote p (ended ps) = ended (p ∷ ps)
wrote p (waiting ps buf) = waiting (p ∷ ps) buf
wrote p (overrun ps) = overrun (p ∷ ps)

-- The two copies into `bufferWrite`
unfoldable pub pack : List ℕ → List ℕ → Option (List ℕ)
pack text buffer_write = elim (memcpy_to 0 (int_to_bytes (length text)) buffer_write) [
  | none ↦ none
  | some buf ↦ memcpy_to header_size text buf
]

-- The client leaves the loop when a write fails.
unfoldable pub client_loop : List Message → List ℕ → Written
client_loop [] buf = waiting [] buf
client_loop (quit ∷ ms) buf = ended []
client_loop (other ∷ ms) buf = client_loop ms buf
client_loop (send_data text success ∷ ms) buf = elim (pack text buf) [
  | none ↦ overrun []
  | some out ↦
      wrote (take (header_size + length text) out)
        (if success then client_loop ms out else ended [])
]

-- The server goes on when a write fails.
unfoldable pub server_loop : List Message → List ℕ → Written
server_loop [] buf = waiting [] buf
server_loop (quit ∷ ms) buf = ended []
server_loop (other ∷ ms) buf = server_loop ms buf
server_loop (send_data text success ∷ ms) buf = elim (pack text buf) [
  | none ↦ overrun []
  | some out ↦ wrote (take (header_size + length text) out) (server_loop ms out)
]
