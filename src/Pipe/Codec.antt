-- ===== src/Pipe/Codec.antt =====
-- `CChannelUtils` of Pipe/PipeClient/ChannelUtils.cpp and Pipe/PipeServer/ChannelUtils.cpp. An `int` is
-- its bit pattern, a number below 2 ^ 32.
use Prim.Native.Nat.{bit_and, bit_or}
use tools_demo.Base.{ℕ, ◌+◌, ◌*◌, ◌/◌, ◌%◌, ◌^◌, Option, some, List, [], ◌∷◌, get_elem?, ◌>>=◌}

-- `ary[0]` to `ary[3]`
unfoldable pub int_to_bytes : ℕ → List ℕ
int_to_bytes value =
    bit_and value 0xFF % 256
    ∷ bit_and value 0xFF00 / 2 ^ 8 % 256
    ∷ bit_and value 0xFF0000 / 2 ^ 16 % 256
    ∷ bit_and value 0xFF000000 / 2 ^ 24 % 256
    ∷ []

-- A read past the array has no result.
unfoldable pub bytes_to_int : List ℕ → ℕ → Option ℕ
bytes_to_int ary offset = do
  b0 ← get_elem? ary offset
  b1 ← get_elem? ary (offset + 1)
  b2 ← get_elem? ary (offset + 2)
  b3 ← get_elem? ary (offset + 3)
  some (
      bit_or
        (bit_or (bit_or (bit_and b0 0xFF) (bit_and (b1 * 2 ^ 8) 0xFF00))
          (bit_and (b2 * 2 ^ 16) 0xFF0000))
        (bit_and (b3 * 2 ^ 24) 0xFF000000))
