-- ===== src/Pipe/Reader.antt =====
-- `CReadPipe::HandleData` and `CReadPipe::ReadPipeThread` of Pipe/PipeClient/ReadPipe.cpp.
use tools_demo.Base.{
  ℕ, zero, suc, ◌+◌, ◌-◌, ◌^◌, Bool, false, not, ◌||◌, ◌==◌, Option, none, some, List, [], ◌∷◌,
  ◌++◌, length, take, ltb, leb, if◌then◌else◌,
}
use tools_demo.Pipe.Memory.{memcpy_to, copy_from, zeros}
use tools_demo.Pipe.Codec.{bytes_to_int}

-- `PACKGE_HEADER_SIZE`
abbrev pub header_size : ℕ
header_size = 4

-- `BUFFER_MAX_LEN`
abbrev pub buffer_max_len : ℕ
buffer_max_len = 1024

-- the size of `m_bufferCache`, `onePackage` and `remainingData`
unfoldable pub cache_max : ℕ
cache_max = 4096

pub record Reader : Type 0 where
  pub buffer_cache : List ℕ
  pub cache_data_size : ℕ
  -- `m_funcCallback` is set
  pub has_callback : Bool
  -- `m_bConnected`
  pub connected : Bool
  -- `m_funcExit` is set, and how often it was called
  pub has_exit : Bool
  pub exits : ℕ

-- A round of the loop of `HandleData` leaves it, hands a package over and goes on, or leaves an array.
pub data Round : Type 0 where
  stop : Round
  packet : List ℕ → Reader → Round
  fault : Round

-- A step of a round that has no result is a fault.
abbrev or_fault {ℓ} : {A : Type ℓ} → Option A → (A → Round) → Round
or_fault none k = fault
or_fault (some a) k = k a

-- From `onePackage` on. `m_bufferCache` keeps what follows the packet, and zeros.
unfoldable pub unpack : ℕ → Reader → Round
unpack data_size r = or_fault (copy_from header_size data_size r.buffer_cache) λ payload.
    or_fault (memcpy_to 0 payload (zeros cache_max)) λ one_package.
      let size = r.cache_data_size - (header_size + data_size) in
      or_fault (copy_from (header_size + data_size) size r.buffer_cache) λ rest.
        or_fault (memcpy_to 0 rest (zeros cache_max)) λ remaining_data.
          or_fault (copy_from 0 size remaining_data) λ kept.
            or_fault (memcpy_to 0 kept (zeros cache_max)) λ cache.
              packet (take data_size one_package)
                (record r { buffer_cache = cache; cache_data_size = size })

-- A size that is negative as an `int` is taken for a huge one by `memcpy_s`, and one within four of the
-- greatest `int` overflows in the test: both are faults.
unfoldable pub handle_round : Reader → Round
handle_round r =
    if ltb r.cache_data_size header_size
    then stop
    else or_fault (bytes_to_int r.buffer_cache 0) λ data_size.
      if leb (2 ^ 31 - 4) data_size
      then fault
      else if ltb r.cache_data_size (header_size + data_size)
      then stop
      else unpack data_size r

-- What `HandleData` comes to: a new state and what the callback was called with. A loop that runs out
-- of fuel is no end of the program.
pub data Handled : Type 0 where
  done : Reader → List (List ℕ) → Handled
  broken : Handled
  unfinished : Handled

-- `if (m_funcCallback) m_funcCallback(onePackage, dataSize)`
abbrev pub call_back : Bool → List ℕ → Handled → Handled
call_back has_callback p (done r ps) = done r (if has_callback then p ∷ ps else ps)
call_back has_callback p broken = broken
call_back has_callback p unfinished = unfinished

unfoldable pub handle_loop : ℕ → Reader → Handled
handle_loop zero r = unfinished
handle_loop (suc fuel) r = elim (handle_round r) [
  | stop ↦ done r []
  | packet p r' ↦ call_back r.has_callback p (handle_loop fuel r')
  | fault ↦ broken
]

-- Each round takes four bytes at least off the cache.
unfoldable pub handle_data : List ℕ → Reader → Handled
handle_data bytes r = elim (memcpy_to r.cache_data_size bytes r.buffer_cache) [
  | none ↦ broken
  | some cache ↦
      let size = r.cache_data_size + length bytes in
      handle_loop (suc size) (record r { buffer_cache = cache; cache_data_size = size })
]

-- What `ReadFile` returns: success, and the bytes that it read.
pub record Delivery : Type 0 where
  pub success : Bool
  pub bytes : List ℕ

-- The end of `ReadPipeThread`
unfoldable pub disconnect : Reader → Reader
disconnect r = record r { connected = false; exits = if r.has_exit then r.exits + 1 else r.exits }

-- The loop of `ReadPipeThread`. When the deliveries run out, the thread waits in `ReadFile`.
abbrev pub append_packets : List (List ℕ) → Handled → Handled
append_packets ps (done r qs) = done r (ps ++ qs)
append_packets ps broken = broken
append_packets ps unfinished = unfinished

unfoldable pub read_loop : List Delivery → Reader → Handled
read_loop [] r = done r []
read_loop (d ∷ ds) r =
    if not d.success || length d.bytes == 0
    then done (disconnect r) []
    else elim (handle_data d.bytes r) [
      | done r' ps ↦ append_packets ps (read_loop ds r')
      | broken ↦ broken
      | unfinished ↦ unfinished
    ]
