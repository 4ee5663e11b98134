-- ===== src/Pipe/Tests.antt =====
-- The theorems on the pipe at two short messages.

use tools_demo.Base.{ℕ, ◌≡◌, refl, true, false, List, [], ◌∷◌, arith}
use tools_demo.Pipe.Memory.{zeros, length-zeros}
use tools_demo.Pipe.Codec.{int_to_bytes}
use tools_demo.Pipe.Reader.{Reader, cache_max, done, Delivery, read_loop}
use tools_demo.Pipe.Replay.{AllRead}
use tools_demo.Pipe.Writer.{Message, quit, send_data, other, client_loop, server_loop}
use tools_demo.Pipe.Delivery.{AllSent, client-delivers, server-delivers}

abbrev empty_reader : Reader
empty_reader = record {
  buffer_cache = zeros cache_max;
  cache_data_size = 0;
  has_callback = true;
  connected = true;
  has_exit = false;
  exits = 0;
}

-- The packets of 7 8 and of 9, cut in the middle of the first message and of the second header
abbrev pieces : List Delivery
pieces =
    record { success = true; bytes = 2 ∷ 0 ∷ 0 ∷ 0 ∷ 7 ∷ [] }
    ∷ record { success = true; bytes = 8 ∷ 1 ∷ [] }
    ∷ record { success = true; bytes = 0 ∷ 0 ∷ 0 ∷ 9 ∷ [] }
    ∷ []

abbrev messages : List (List ℕ)
messages = (7 ∷ 8 ∷ []) ∷ (9 ∷ []) ∷ []

pieces_read : AllRead pieces
pieces_read = (
  refl,
  omega arith,
  omega arith,
  (refl, omega arith, omega arith, (refl, omega arith, omega arith, tt)),
)

abbrev posted : List Message
posted = send_data (7 ∷ 8 ∷ []) true ∷ other ∷ send_data (9 ∷ []) true ∷ quit ∷ []

posted_sent : AllSent posted
posted_sent = (refl, omega arith, (refl, omega arith, tt))

client-delivers_example :
    (r : Reader) × (read_loop pieces empty_reader ≡ done r messages) × (r.cache_data_size ≡ 0)
unfolding client_loop tools_demo.Pipe.Writer.pack tools_demo.Pipe.Memory.memcpy_to int_to_bytes
    zeros
client-delivers_example =
    client-delivers posted (zeros 1024) pieces empty_reader posted_sent (length-zeros 1024)
      pieces_read refl (length-zeros cache_max) refl refl

server-delivers_example :
    (r : Reader) × (read_loop pieces empty_reader ≡ done r messages) × (r.cache_data_size ≡ 0)
unfolding server_loop tools_demo.Pipe.Writer.pack tools_demo.Pipe.Memory.memcpy_to int_to_bytes
    zeros
server-delivers_example =
    server-delivers posted (zeros 1024) pieces empty_reader posted_sent (length-zeros 1024)
      pieces_read refl (length-zeros cache_max) refl refl
