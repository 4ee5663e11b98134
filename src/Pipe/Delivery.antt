-- ===== src/Pipe/Delivery.antt =====
-- What `CWritePipe` of one side writes reaches the callback of `CReadPipe` of the other side.
use tools_demo.Base.{
  ℕ, ◌+◌, ◌≤◌, ◌≡◌, refl, ap, subst, ◌∙◌, true, false, some, List, [], ◌∷◌, ◌++◌, arith, length,
  take,
}
use tools_demo.Pipe.Memory.{memcpy_to_lem}
use tools_demo.Pipe.Codec.{int_to_bytes}
use tools_demo.Pipe.Reader.{
  Reader, cache_max, header_size, buffer_max_len, done, Delivery, read_loop,
}
use tools_demo.Pipe.Framing.{frame, frames, length-int_to_bytes}
use tools_demo.Pipe.Stream.{AllFit}
use tools_demo.Pipe.Writer.{
  Message, quit, send_data, other, Written, ended, waiting, overrun, wrote, pack, client_loop,
  server_loop,
}
use tools_demo.Pipe.Replay.{AllRead, bytes_of, read_loop-frames}

-- The writes that succeeded
abbrev pub sent : List Message → List (List ℕ)
sent [] = []
sent (quit ∷ ms) = []
sent (other ∷ ms) = sent ms
sent (send_data m true ∷ ms) = m ∷ sent ms
sent (send_data m false ∷ ms) = sent ms

-- Every message that the thread takes fits, and the writes of all succeed.
abbrev pub AllSent : List Message → Type 0
AllSent [] = Unit
AllSent (quit ∷ ms) = Unit
AllSent (other ∷ ms) = AllSent ms
AllSent (send_data m ok ∷ ms) = (ok ≡ true) × (header_size + length m ≤ buffer_max_len) × AllSent ms

abbrev pub writes : Written → List (List ℕ)
writes (ended ps) = ps
writes (waiting ps buf) = ps
writes (overrun ps) = ps

abbrev pub concat : List (List ℕ) → List ℕ
concat [] = []
concat (p ∷ ps) = p ++ concat ps

pack_lem :
    (m buf : List ℕ)
    → length buf ≡ buffer_max_len
    → header_size + length m ≤ buffer_max_len
    → (out : List ℕ) × (pack m buf ≡ some out)
      × (length out ≡ buffer_max_len)
      × (take (header_size + length m) out ≡ frame m)
unfolding pack frame
pack_lem m buf n fit =
    let hd = int_to_bytes (length m) in
    let four = length-int_to_bytes (length m) in
    let (b1, e1, n1, t1) = memcpy_to_lem 0 hd buf (omega (arith, four)) in
    let (b2, e2, n2, t2) = memcpy_to_lem header_size m b1 (omega arith) in
    let front : take 4 b1 ≡ hd = subst (λ k. take k b1 ≡ hd) (ap (λ k. 0 + k) four) t1 in
    (b2, ground (arith, e1, e2), n2 ∙ n1 ∙ n, t2 ∙ ap (λ l. l ++ m) front)

client-send :
    (m out buf : List ℕ) (ms : List Message)
    → pack m buf ≡ some out
    → client_loop (send_data m true ∷ ms) buf
      ≡ wrote (take (header_size + length m) out) (client_loop ms out)
unfolding client_loop
client-send m out buf ms e = ground (arith, e)

server-send :
    (m out buf : List ℕ) (ms : List Message)
    → pack m buf ≡ some out
    → server_loop (send_data m true ∷ ms) buf
      ≡ wrote (take (header_size + length m) out) (server_loop ms out)
unfolding server_loop
server-send m out buf ms e = ground (arith, e)

concat-wrote : (p : List ℕ) (w : Written) → concat (writes (wrote p w)) ≡ p ++ concat (writes w)
concat-wrote p (ended ps) = refl
concat-wrote p (waiting ps buf) = refl
concat-wrote p (overrun ps) = refl

-- The writes of the client are the frames of the messages that it takes.
client_frames :
    (ms : List Message) (buf : List ℕ)
    → AllSent ms
    → length buf ≡ buffer_max_len
    → concat (writes (client_loop ms buf)) ≡ frames (sent ms)
unfolding frames client_loop
client_frames [] buf ok n = refl
client_frames (quit ∷ ms) buf ok n = refl
client_frames (other ∷ ms) buf ok n = client_frames ms buf ok n
client_frames (send_data m false ∷ ms) buf ok n = absurd (cc)
client_frames (send_data m true ∷ ms) buf (t, fit, ok) n =
    let (out, e, n', f) = pack_lem m buf n fit in
    ap (λ w. concat (writes w)) (client-send m out buf ms e)
    ∙ concat-wrote (take (header_size + length m) out) (client_loop ms out)
    ∙ ap (λ l. l ++ concat (writes (client_loop ms out))) f
    ∙ ap (λ l. frame m ++ l) (client_frames ms out ok n')

server_frames :
    (ms : List Message) (buf : List ℕ)
    → AllSent ms
    → length buf ≡ buffer_max_len
    → concat (writes (server_loop ms buf)) ≡ frames (sent ms)
unfolding frames server_loop
server_frames [] buf ok n = refl
server_frames (quit ∷ ms) buf ok n = refl
server_frames (other ∷ ms) buf ok n = server_frames ms buf ok n
server_frames (send_data m false ∷ ms) buf ok n = absurd (cc)
server_frames (send_data m true ∷ ms) buf (t, fit, ok) n =
    let (out, e, n', f) = pack_lem m buf n fit in
    ap (λ w. concat (writes w)) (server-send m out buf ms e)
    ∙ concat-wrote (take (header_size + length m) out) (server_loop ms out)
    ∙ ap (λ l. l ++ concat (writes (server_loop ms out))) f
    ∙ ap (λ l. frame m ++ l) (server_frames ms out ok n')

sent-AllFit : (ms : List Message) → AllSent ms → AllFit (sent ms)
sent-AllFit [] ok = tt
sent-AllFit (quit ∷ ms) ok = tt
sent-AllFit (other ∷ ms) ok = sent-AllFit ms ok
sent-AllFit (send_data m false ∷ ms) ok = absurd (cc)
sent-AllFit (send_data m true ∷ ms) (t, fit, ok) = (fit, sent-AllFit ms ok)

module _ (ms : List Message) (buf : List ℕ) (ds : List Delivery) (r : Reader) where
  -- What the client writes for messages of at most 1020 bytes, all writes succeeding, reaches the
  -- callback of a reader with an empty cache as exactly the messages up to `WM_QUIT`, in their order,
  -- in whatever pieces of 1 to 1024 bytes the pipe delivers it.
  pub client-delivers :
      AllSent ms
      → length buf ≡ buffer_max_len
      → AllRead ds
      → bytes_of ds ≡ concat (writes (client_loop ms buf))
      → length r.buffer_cache ≡ cache_max
      → r.cache_data_size ≡ 0
      → r.has_callback ≡ true
      → (r' : Reader) × (read_loop ds r ≡ done r' (sent ms)) × (r'.cache_data_size ≡ 0)
  client-delivers ok n read e room size cb =
      read_loop-frames ds (sent ms) r read (sent-AllFit ms ok) (e ∙ client_frames ms buf ok n) room
        size cb

  -- What the server writes for messages of at most 1020 bytes, all writes succeeding, reaches the
  -- callback of a reader with an empty cache as exactly the messages up to `WM_QUIT`, in their order,
  -- in whatever pieces of 1 to 1024 bytes the pipe delivers it.
  pub server-delivers :
      AllSent ms
      → length buf ≡ buffer_max_len
      → AllRead ds
      → bytes_of ds ≡ concat (writes (server_loop ms buf))
      → length r.buffer_cache ≡ cache_max
      → r.cache_data_size ≡ 0
      → r.has_callback ≡ true
      → (r' : Reader) × (read_loop ds r ≡ done r' (sent ms)) × (r'.cache_data_size ≡ 0)
  server-delivers ok n read e room size cb =
      read_loop-frames ds (sent ms) r read (sent-AllFit ms ok) (e ∙ server_frames ms buf ok n) room
        size cb
