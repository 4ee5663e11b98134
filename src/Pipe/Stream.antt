-- ===== src/Pipe/Stream.antt =====
-- The loops of the reader over a stream of packets.
use mathlib.Core.List.{append_assoc}
use tools_demo.Base.{
  ℕ, zero, suc, ◌+◌, ◌≤◌, ◌<◌, ◌≡◌, refl, sym, ap, subst, ◌∙◌, true, some, List, [], ◌∷◌, ◌++◌,
  arith, length, take, length-append, dec_lt,
}
use tools_demo.Pipe.Memory.{memcpy_to, memcpy_to_lem}
use tools_demo.Pipe.Codec.{int_to_bytes}
use tools_demo.Pipe.Reader.{
  Reader, header_size, buffer_max_len, stop, packet, handle_round, Handled, done, call_back,
  handle_loop, handle_data,
}
use tools_demo.Pipe.Framing.{
  frame, frames, Holds, round_packet, round_stop, prefix_lem, cache_large, length-int_to_bytes,
}

-- Every message fits the buffer of the writer.
abbrev pub AllFit : List (List ℕ) → Type 0
AllFit [] = Unit
AllFit (m ∷ ms) = (header_size + length m ≤ buffer_max_len) × AllFit ms

-- The bytes `b` are less than a packet of the messages to come.
abbrev pub IsPartial : List ℕ → List (List ℕ) → Type 0
IsPartial b [] = b ≡ []
IsPartial b (m ∷ ms) = length b < header_size + length m

-- The reader has handed over `before`, holds the bytes `held`, and waits for the rest of `after`.
pub record Cut (h : Handled) (ms : List (List ℕ)) (future : List ℕ) : Type 0 where
  pub reader : Reader
  pub before : List (List ℕ)
  pub after : List (List ℕ)
  pub kept : List ℕ
  pub ends : h ≡ done reader before
  pub holds : Holds reader kept
  pub splits : ms ≡ before ++ after
  pub pending : kept ++ future ≡ frames after
  pub partial : IsPartial kept after
  pub fits : AllFit after

pub length-frame : (m : List ℕ) → length (frame m) ≡ 4 + length m
unfolding frame
length-frame m =
    omega (arith, length-append (int_to_bytes (length m)) m, length-int_to_bytes (length m))

pub nil_of_append : (b f : List ℕ) → b ++ f ≡ [] → b ≡ []
nil_of_append [] f e = refl
nil_of_append (x ∷ b) f e = absurd (cc)

append_cancel : (x y z : List ℕ) → x ++ y ≡ x ++ z → y ≡ z
append_cancel [] y z e = e
append_cancel (a ∷ x) y z e = append_cancel x y z (ground arith)

-- A header that is not whole leaves the loop.
round_headless : (r : Reader) (b : List ℕ) → Holds r b → length b < 4 → handle_round r ≡ stop
unfolding handle_round
round_headless r b h short = let n = h.sized in ground arith

loop-stop : (fuel : ℕ) (r : Reader) → handle_round r ≡ stop → handle_loop (suc fuel) r ≡ done r []
unfolding handle_loop
loop-stop fuel r e = ground (arith, e)

loop-packet :
    (fuel : ℕ) (r r' : Reader) (p : List ℕ)
    → handle_round r ≡ packet p r'
    → r.has_callback ≡ true
    → handle_loop (suc fuel) r ≡ call_back true p (handle_loop fuel r')
unfolding handle_loop
loop-packet fuel r r' p e cb = ground (arith, e, cb)

Cut-more :
    (h : Handled) (m : List ℕ) (ms : List (List ℕ)) (future : List ℕ)
    → Cut h ms future
    → Cut (call_back true m h) (m ∷ ms) future
Cut-more h m ms future c = record {
  reader = c.reader;
  before = m ∷ c.before;
  after = c.after;
  kept = c.kept;
  ends = ap (call_back true m) c.ends;
  holds = c.holds;
  splits = ap (λ l. m ∷ l) c.splits;
  pending = c.pending;
  partial = c.partial;
  fits = c.fits;
}

-- Enough fuel for the bytes that are held takes all whole packets off.
loop-Cut :
    (ms : List (List ℕ)) (fuel : ℕ) (r : Reader) (b future : List ℕ)
    → Holds r b
    → b ++ future ≡ frames ms
    → AllFit ms
    → length b < fuel
    → Cut (handle_loop fuel r) ms future
unfolding frames
loop-Cut ms zero r b future h e fit n = absurd (omega arith)
loop-Cut [] (suc fuel) r b future h e fit n =
    let empty = nil_of_append b future e in
    record {
      reader = r;
      before = [];
      after = [];
      kept = b;
      ends = loop-stop fuel r (round_headless r b h (omega (arith, ap length empty)));
      holds = h;
      splits = refl;
      pending = e;
      partial = empty;
      fits = fit;
    }
loop-Cut (m ∷ ms) (suc fuel) r b future h e fit n = elim (dec_lt (length b) (4 + length m)) [
  | yes short ↦ record {
    reader = r;
    before = [];
    after = m ∷ ms;
    kept = b;
    ends = loop-stop fuel r (round_stop r m b (frames ms) future h (omega arith) e short);
    holds = h;
    splits = refl;
    pending = e;
    partial = short;
    fits = fit;
  }
  | no whole ↦
      let (b', split) =
        prefix_lem (frame m) b (frames ms) future (omega (arith, length-frame m)) e in
      let (r', round, holds) = round_packet r m b' (subst (Holds r) split h) in
      let rest : b' ++ future ≡ frames ms =
        append_cancel (frame m) (b' ++ future) (frames ms)
          (sym (append_assoc (frame m) b' future) ∙ ap (λ l. l ++ future) (sym split) ∙ e) in
      let shorter : length b' < fuel =
        omega (arith, ap length split, length-append (frame m) b', length-frame m) in
      subst (λ x. Cut x (m ∷ ms) future) (sym (loop-packet fuel r r' m round h.callback))
        (Cut-more (handle_loop fuel r') m ms future
          (loop-Cut ms fuel r' b' future holds rest fit.1 shorter))
]

-- Less than a packet is less than the buffer of the writer.
pub partial_small : (b : List ℕ) (ms : List (List ℕ)) → IsPartial b ms → AllFit ms → length b < 1024
partial_small b [] p fit = omega (arith, ap length p)
partial_small b (m ∷ ms) p fit = omega (arith, fit.0)

data-loop :
    (chunk out : List ℕ) (r : Reader)
    → memcpy_to r.cache_data_size chunk r.buffer_cache ≡ some out
    → handle_data chunk r
      ≡ handle_loop
          (suc (r.cache_data_size + length chunk))
          (record r { buffer_cache = out; cache_data_size = r.cache_data_size + length chunk })
unfolding handle_data
data-loop chunk out r e = ground (arith, e)

-- A delivery joins what is held, and the loop goes over both.
pub data-Cut :
    (ms : List (List ℕ)) (r : Reader) (b chunk future : List ℕ)
    → Holds r b
    → b ++ (chunk ++ future) ≡ frames ms
    → AllFit ms
    → length b < 1024
    → length chunk ≤ 1024
    → Cut (handle_data chunk r) ms future
data-Cut ms r b chunk future h e fit small n =
    let (out, copied, size, held) =
      memcpy_to_lem r.cache_data_size chunk r.buffer_cache
        (omega (arith, h.sized, h.room, cache_large)) in
    let both : r.cache_data_size + length chunk ≡ length (b ++ chunk) =
      omega (arith, h.sized, length-append b chunk) in
    let start : take r.cache_data_size r.buffer_cache ≡ b =
      ap (λ k. take k r.buffer_cache) h.sized ∙ h.held in
    let holds : Holds
        (record r { buffer_cache = out; cache_data_size = r.cache_data_size + length chunk })
        (b ++ chunk) =
      record {
        room = size ∙ h.room;
        fits = omega (arith, length-append b chunk, cache_large);
        sized = both;
        held = ap (λ k. take k out) (sym both) ∙ held ∙ ap (λ l. l ++ chunk) start;
        callback = h.callback;
      } in
    subst (λ x. Cut x ms future) (sym (data-loop chunk out r copied))
      (loop-Cut ms (suc (r.cache_data_size + length chunk)) _ (b ++ chunk) future holds
        (append_assoc b chunk future ∙ e) fit (omega (arith, both)))
