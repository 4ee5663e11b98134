-- ===== src/Pipe/Framing.antt =====
-- `HandleData` cuts a stream of messages behind their lengths into the messages, however the pipe cuts
-- the stream.
use mathlib.Core.List.{append_assoc}
use tools_demo.Base.{
  ℕ, ◌+◌, ◌-◌, ◌^◌, ◌≤◌, ◌<◌, ◌≡◌, refl, sym, ap, subst, ◌∙◌, true, some, List, [], ◌∷◌, ◌++◌,
  arith, length, take, drop, length-append, take-append, drop-append, take-append-drop, drop-drop,
  dec_lt,
}
use tools_demo.Pipe.Memory.{memcpy_to, copy_from, zeros, length-zeros, memcpy_to_lem, copy_from_lem}
use tools_demo.Pipe.Codec.{int_to_bytes, bytes_to_int}
use tools_demo.Pipe.CodecLaws.{bytes_to_int-int_to_bytes}
use tools_demo.Pipe.Reader.{Reader, cache_max, stop, packet, unpack, handle_round}

-- the bytes that the writer sends for a message
unfoldable pub frame : List ℕ → List ℕ
frame m = int_to_bytes (length m) ++ m

unfoldable pub frames : List (List ℕ) → List ℕ
frames [] = []
frames (m ∷ ms) = frame m ++ frames ms

pub length-int_to_bytes : (v : ℕ) → length (int_to_bytes v) ≡ 4
unfolding int_to_bytes
length-int_to_bytes v = refl

-- The reader has room for `cache_max` bytes, and holds the bytes `b` that are not yet a packet.
pub record Holds (r : Reader) (b : List ℕ) : Type 0 where
  pub room : length r.buffer_cache ≡ cache_max
  pub fits : length b ≤ cache_max
  pub sized : r.cache_data_size ≡ length b
  pub held : take (length b) r.buffer_cache ≡ b
  pub callback : r.has_callback ≡ true

-- A copy to the start of a new array.
load_lem :
    (src : List ℕ)
    → length src ≤ cache_max
    → (out : List ℕ) × (memcpy_to 0 src (zeros cache_max) ≡ some out)
      × (length out ≡ cache_max)
      × (take (length src) out ≡ src)
load_lem src h =
    let z = length-zeros cache_max in
    let (out, e, n, t) = memcpy_to_lem 0 src (zeros cache_max) (omega arith) in
    let whole : 0 + length src ≡ length src = omega arith in
    (out, e, n ∙ z, subst (λ k. take k out ≡ src) whole t)

module _ (r : Reader) (m b tail : List ℕ)
    (buffered : r.buffer_cache ≡ int_to_bytes (length m) ++ (m ++ (b ++ tail)))
    (sized : r.cache_data_size ≡ 4 + length m + length b)
    (room : length r.buffer_cache ≡ cache_max) where
  after_header : drop 4 r.buffer_cache ≡ m ++ (b ++ tail)
  after_header =
      ap (drop 4) buffered
      ∙ subst (λ k. drop k (int_to_bytes (length m) ++ (m ++ (b ++ tail))) ≡ m ++ (b ++ tail))
          (length-int_to_bytes (length m))
          (drop-append (int_to_bytes (length m)) (m ++ (b ++ tail)))

  after_payload : drop (4 + length m) r.buffer_cache ≡ b ++ tail
  after_payload =
      sym (drop-drop 4 (length m) r.buffer_cache)
      ∙ ap (drop (length m)) after_header
      ∙ drop-append m (b ++ tail)

  lengths : 4 + length m + length b ≤ cache_max
  lengths = omega (
    arith,
    room,
    ap length buffered,
    length-append (int_to_bytes (length m)) (m ++ (b ++ tail)),
    length-append m (b ++ tail),
    length-append b tail,
    length-int_to_bytes (length m),
  )

  -- A whole packet is handed over, and what follows it stays.
  unpack_lem :
      r.has_callback ≡ true → (r' : Reader) × (unpack (length m) r ≡ packet m r') × Holds r' b
  unfolding unpack
  unpack_lem cb =
      let (one, e1, n1, t1) = load_lem m (omega (arith, lengths)) in
      let (cache, e2, n2, t2) = load_lem b (omega (arith, lengths)) in
      let size : r.cache_data_size - (4 + length m) ≡ length b = omega arith in
      let c1 : copy_from 4 (length m) r.buffer_cache ≡ some m =
        copy_from_lem 4 (length m) r.buffer_cache (omega (arith, lengths))
        ∙ ap some (ap (take (length m)) after_header ∙ take-append m (b ++ tail)) in
      let c2 : copy_from (4 + length m) (length b) r.buffer_cache ≡ some b =
        copy_from_lem (4 + length m) (length b) r.buffer_cache (omega (arith, lengths))
        ∙ ap some (ap (take (length b)) after_payload ∙ take-append b tail) in
      let c3 : copy_from 0 (length b) cache ≡ some b =
        copy_from_lem 0 (length b) cache (omega (arith, lengths)) ∙ ap some t2 in
      (
        record r { buffer_cache = cache; cache_data_size = length b },
        simp (c1, e1, size, c2, e2, c3, t1),
        record { room = n2; fits = omega (arith, lengths); sized = refl; held = t2; callback = cb },
      )

-- The header of a message that the cache holds.
header_lem :
    (buf rest : List ℕ) (v : ℕ)
    → v < 2 ^ 32
    → buf ≡ int_to_bytes v ++ rest
    → bytes_to_int buf 0 ≡ some v
header_lem buf rest v h e = ap (λ l. bytes_to_int l 0) e ∙ bytes_to_int-int_to_bytes v rest h

held_prefix :
    (r : Reader) (b : List ℕ) → Holds r b → r.buffer_cache ≡ b ++ drop (length b) r.buffer_cache
held_prefix r b h =
    sym (take-append-drop (length b) r.buffer_cache)
    ∙ ap (λ l. l ++ drop (length b) r.buffer_cache) h.held

-- Of two ways to cut a list, the shorter first part begins the longer.
pub prefix_lem :
    (x b y f : List ℕ) → length x ≤ length b → b ++ f ≡ x ++ y → (b' : List ℕ) × (b ≡ x ++ b')
prefix_lem [] b y f n e = (b, refl)
prefix_lem (a ∷ x) [] y f n e = absurd (omega arith)
prefix_lem (a ∷ x) (c ∷ b) y f n e =
    let (b', split) = prefix_lem x b y f (omega arith) (ground arith) in (b', ground (arith, split))

pub cache_small : cache_max ≤ 4096
unfolding cache_max
cache_small = omega arith

pub cache_large : 2048 ≤ cache_max
unfolding cache_max
cache_large = omega arith

-- A round on a cache that begins with a whole packet hands the packet over.
pub round_packet :
    (r : Reader) (m b : List ℕ)
    → Holds r (frame m ++ b)
    → (r' : Reader) × (handle_round r ≡ packet m r') × Holds r' b
unfolding handle_round frame
round_packet r m b h =
    let tail = drop (length (frame m ++ b)) r.buffer_cache in
    let e : r.buffer_cache ≡ int_to_bytes (length m) ++ (m ++ (b ++ tail)) =
      held_prefix r (frame m ++ b) h ∙ simp append_assoc in
    let n : length (frame m ++ b) ≡ 4 + length m + length b = omega (
      arith,
      length-append (int_to_bytes (length m) ++ m) b,
      length-append (int_to_bytes (length m)) m,
      length-int_to_bytes (length m),
    ) in
    let small : length m < 2 ^ 31 - 4 = omega (arith, cache_small) in
    let (r', unpacked, holds) = unpack_lem r m b tail e (h.sized ∙ n) h.room h.callback in
    let header = header_lem r.buffer_cache _ (length m) (omega arith) e in
    (r', ground (arith, header, unpacked, n), holds)

-- A round on a cache that ends within a packet leaves the loop.
pub round_stop :
    (r : Reader) (m b rest future : List ℕ)
    → Holds r b
    → length m < 2 ^ 31 - 4
    → b ++ future ≡ frame m ++ rest
    → length b < 4 + length m
    → handle_round r ≡ stop
unfolding handle_round frame
round_stop r m b rest future h small e short = elim (dec_lt (length b) 4) [
  | yes headless ↦ ground arith
  | no whole ↦
      let hd = int_to_bytes (length m) in
      let tail = drop (length b) r.buffer_cache in
      let (b', split) =
        prefix_lem hd b (m ++ rest) future (omega (arith, length-int_to_bytes (length m)))
          (e ∙ append_assoc hd m rest) in
      let header =
        header_lem r.buffer_cache (b' ++ tail) (length m) (omega arith)
          (held_prefix r b h ∙ ap (λ l. l ++ tail) split ∙ append_assoc hd b' tail) in
      ground (arith, header)
]
