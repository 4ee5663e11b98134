-- ===== src/Pipe/Replay.antt =====
-- `ReadPipeThread` calls back with exactly the messages of the stream of packets that it reads.
use mathlib.Core.List.{append_assoc, append-nil}
use tools_demo.Base.{
  ℕ, ◌≤◌, ◌<◌, ◌≡◌, refl, sym, ap, subst, ◌∙◌, true, List, [], ◌∷◌, ◌++◌, arith, length,
  length-append,
}
use tools_demo.Pipe.Reader.{
  Reader, cache_max, Handled, done, handle_data, Delivery, read_loop, append_packets,
}
use tools_demo.Pipe.Framing.{frame, frames, Holds}
use tools_demo.Pipe.Stream.{AllFit, IsPartial, Cut, partial_small, length-frame, data-Cut}

-- The bytes of all deliveries
abbrev pub bytes_of : List Delivery → List ℕ
bytes_of [] = []
bytes_of (d ∷ ds) = d.bytes ++ bytes_of ds

-- Every read succeeds, with a byte at least and no more than the buffer of `ReadPipeThread` takes.
abbrev pub AllRead : List Delivery → Type 0
AllRead [] = Unit
AllRead (d ∷ ds) = (d.success ≡ true) × (0 < length d.bytes) × (length d.bytes ≤ 1024) × AllRead ds

read-next :
    (d : Delivery) (ds : List Delivery) (r r' : Reader) (ps : List (List ℕ))
    → d.success ≡ true
    → 0 < length d.bytes
    → handle_data d.bytes r ≡ done r' ps
    → read_loop (d ∷ ds) r ≡ append_packets ps (read_loop ds r')
unfolding read_loop
read-next d ds r r' ps s n e = ground (arith, s, n, e)

Cut-after :
    (h : Handled) (ps rest ms : List (List ℕ)) (future : List ℕ)
    → ms ≡ ps ++ rest
    → Cut h rest future
    → Cut (append_packets ps h) ms future
Cut-after h ps rest ms future e c = record {
  reader = c.reader;
  before = ps ++ c.before;
  after = c.after;
  kept = c.kept;
  ends = ap (append_packets ps) c.ends;
  holds = c.holds;
  splits = e ∙ ap (λ l. ps ++ l) c.splits ∙ sym (append_assoc ps c.before c.after);
  pending = c.pending;
  partial = c.partial;
  fits = c.fits;
}

read_loop-Cut :
    (ds : List Delivery) (ms : List (List ℕ)) (r : Reader) (b : List ℕ)
    → AllRead ds
    → Holds r b
    → b ++ bytes_of ds ≡ frames ms
    → AllFit ms
    → IsPartial b ms
    → Cut (read_loop ds r) ms []
unfolding read_loop
read_loop-Cut [] ms r b ok h e fit p = record {
  reader = r;
  before = [];
  after = ms;
  kept = b;
  ends = refl;
  holds = h;
  splits = refl;
  pending = e;
  partial = p;
  fits = fit;
}
read_loop-Cut (d ∷ ds) ms r b (s, n, m, ok) h e fit p =
    let c = data-Cut ms r b d.bytes (bytes_of ds) h e fit (partial_small b ms p fit) m in
    subst (λ x. Cut x ms []) (sym (read-next d ds r c.reader c.before s n c.ends))
      (Cut-after (read_loop ds c.reader) c.before c.after ms [] c.splits
        (read_loop-Cut ds c.after c.reader c.kept ok c.holds c.pending c.fits c.partial))

-- Nothing is pending when the stream has ended.
partial_done : (b : List ℕ) (ms : List (List ℕ)) → IsPartial b ms → b ++ [] ≡ frames ms → ms ≡ []
unfolding frames
partial_done b [] p e = refl
partial_done b (m ∷ ms) p e = absurd (
    omega (
      arith,
      p,
      ap length e,
      length-append b [],
      length-append (frame m) (frames ms),
      length-frame m,
    ))

empty-Holds :
    (r : Reader)
    → length r.buffer_cache ≡ cache_max
    → r.cache_data_size ≡ 0
    → r.has_callback ≡ true
    → Holds r []
empty-Holds r room size cb = record {
  room = room;
  fits = omega arith;
  sized = size;
  held = refl;
  callback = cb;
}

IsPartial-start : (ms : List (List ℕ)) → IsPartial [] ms
IsPartial-start [] = refl
IsPartial-start (m ∷ ms) = omega arith

kept_none : (b : List ℕ) (ms : List (List ℕ)) → ms ≡ [] → b ++ [] ≡ frames ms → length b ≡ 0
unfolding frames
kept_none b [] e p = omega (arith, ap length p, length-append b [])
kept_none b (m ∷ ms) e p = absurd (cc)

-- A reader with an empty cache of 4096 bytes and a callback, to which `ReadFile` delivers the framed
-- messages in any pieces of 1 to 1024 bytes, calls back with exactly the messages, in their order,
-- leaves no array, and ends with an empty cache. Each message has at most 1020 bytes.
pub read_loop-frames :
    (ds : List Delivery) (ms : List (List ℕ)) (r : Reader)
    → AllRead ds
    → AllFit ms
    → bytes_of ds ≡ frames ms
    → length r.buffer_cache ≡ cache_max
    → r.cache_data_size ≡ 0
    → r.has_callback ≡ true
    → (r' : Reader) × (read_loop ds r ≡ done r' ms) × (r'.cache_data_size ≡ 0)
unfolding frames
read_loop-frames ds ms r ok fit e room size cb =
    let c = read_loop-Cut ds ms r [] ok (empty-Holds r room size cb) e fit (IsPartial-start ms) in
    let none_left = partial_done c.kept c.after c.partial c.pending in
    let whole : ms ≡ c.before =
      c.splits ∙ ap (λ l. c.before ++ l) none_left ∙ append-nil c.before in
    (
      c.reader,
      c.ends ∙ ap (done c.reader) (sym whole),
      c.holds.sized ∙ kept_none c.kept c.after none_left c.pending,
    )
