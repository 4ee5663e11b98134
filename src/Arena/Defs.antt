-- ===== src/Arena/Defs.antt =====
-- `Arena` of statusandslice/arena.h and statusandslice/arena.cpp. A pointer is its address, and a call
-- takes the address that `new char[]` returns if the call comes to it. `sizeof(char*)` is 8.
use tools_demo.Base.{
  ℕ, ◌+◌, ◌-◌, ◌/◌, ◌%◌, ◌^◌, Option, none, some, List, [], ◌∷◌, ◌==◌, ltb, leb, if◌then◌else◌,
}

pub record Arena : Type 0 where
  pub alloc_ptr : ℕ
  pub alloc_bytes_remaining : ℕ
  -- the blocks with their sizes, the last first
  pub blocks : List (ℕ × ℕ)
  pub memory_usage : ℕ

-- `kBlockSize`
abbrev pub block_size : ℕ
block_size = 4096

unfoldable pub init : Arena
init = record { alloc_ptr = 0; alloc_bytes_remaining = 0; blocks = []; memory_usage = 0 }

unfoldable pub allocate_new_block : ℕ → ℕ → Arena → ℕ × Arena
allocate_new_block new block_bytes s = (
  new,
  record s {
    blocks = (new, block_bytes) ∷ s.blocks;
    memory_usage = (s.memory_usage + (block_bytes + 8)) % 2 ^ 64;
  },
)

unfoldable pub allocate_fallback : ℕ → ℕ → Arena → ℕ × Arena
unfolding allocate_new_block
allocate_fallback new bytes s =
    if ltb (block_size / 4) bytes then allocate_new_block new bytes s else (
      new,
      record ((allocate_new_block new block_size s).1) {
        alloc_ptr = new + bytes;
        alloc_bytes_remaining = block_size - bytes;
      },
    )

-- An assertion that fails has no result.
unfoldable pub allocate : ℕ → ℕ → Arena → Option (ℕ × Arena)
allocate new bytes s =
    if bytes == 0
    then none
    else if leb bytes s.alloc_bytes_remaining
    then some (
      s.alloc_ptr,
      record s {
        alloc_ptr = s.alloc_ptr + bytes;
        alloc_bytes_remaining = s.alloc_bytes_remaining - bytes;
      },
    )
    else some (allocate_fallback new bytes s)

-- the assertion at the end of `AllocateAligned`
unfoldable pub assert_aligned : ℕ × Arena → Option (ℕ × Arena)
assert_aligned r = if r.0 % 8 == 0 then some r else none

abbrev pub slop : ℕ → ℕ
slop ptr = if ptr % 8 == 0 then 0 else 8 - ptr % 8

-- The block has room for the padding `pad` and the bytes, or not.
unfoldable pub aligned_at : ℕ → ℕ → ℕ → Arena → ℕ × Arena
aligned_at new bytes pad s =
    let needed = (bytes + pad) % 2 ^ 64 in
    if leb needed s.alloc_bytes_remaining
    then (
      s.alloc_ptr + pad,
      record s {
        alloc_ptr = s.alloc_ptr + needed;
        alloc_bytes_remaining = s.alloc_bytes_remaining - needed;
      },
    )
    else allocate_fallback new bytes s

unfoldable pub allocate_aligned : ℕ → ℕ → Arena → Option (ℕ × Arena)
allocate_aligned new bytes s = assert_aligned (aligned_at new bytes (slop s.alloc_ptr) s)
