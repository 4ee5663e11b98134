-- ===== src/Arena/Safety.antt =====
-- The regions that an `Arena` hands out.
use tools_demo.Base.{
  ℕ, ◌+◌, ◌-◌, ◌%◌, ◌^◌, ◌≤◌, ◌<◌, ◌≡◌, refl, ap, ◌∙◌, ◌⊎◌, inl, inr, some, List, [], ◌∷◌, arith,
  ltb, if◌then◌else◌, subst, dec_le, dec_lt, ℕ_discrete,
}
use tools_demo.Arena.Defs.{
  Arena, init, allocate_new_block, allocate_fallback, allocate, allocate_aligned, assert_aligned,
  aligned_at, slop,
}
use tools_demo.Arena.Regions.{
  Apart, AllApart, IsApart, Within, AllWithin, sub_AllApart, sub_Within, apart_AllWithin,
  grow_AllWithin,
}

-- the sizes of the blocks, each with the pointer to it
abbrev pub usage_of : List (ℕ × ℕ) → ℕ
usage_of [] = 0
usage_of ((b, m) ∷ bs) = usage_of bs + (m + 8)

-- The regions `taken` were handed out: they and what is left of the current block lie in the blocks and
-- do not overlap. The usage is that of the blocks.
pub record Owns (s : Arena) (taken : List (ℕ × ℕ)) : Type 0 where
  pub apart : IsApart taken
  pub within : AllWithin taken s.blocks
  pub free_apart : AllApart s.alloc_ptr s.alloc_bytes_remaining taken
  pub free_within :
      ((s.alloc_ptr ≡ 0) × (s.alloc_bytes_remaining ≡ 0))
      ⊎ Within s.alloc_ptr s.alloc_bytes_remaining s.blocks
  pub usage : s.memory_usage ≡ usage_of s.blocks % 2 ^ 64

-- what `new` promises of a block that the request may need: it overlaps none of the blocks
abbrev pub Fresh : ℕ → ℕ → Arena → Type 0
Fresh new bytes s = AllApart new (if ltb 1024 bytes then bytes else 4096) s.blocks

pub init-Owns : Owns init []
unfolding init
init-Owns = record {
  apart = tt;
  within = tt;
  free_apart = tt;
  free_within = inl (refl, refl);
  usage = refl;
}

-- A request for `n` bytes at `p` that the current block has room for. What is left begins at `q`.
bump-Owns :
    (p n q k : ℕ) (s : Arena) (taken : List (ℕ × ℕ))
    → Owns s taken
    → 0 < n
    → s.alloc_ptr ≤ p
    → p + n ≤ q
    → q + k ≤ s.alloc_ptr + s.alloc_bytes_remaining
    → Owns (record s { alloc_ptr = q; alloc_bytes_remaining = k }) ((p, n) ∷ taken)
bump-Owns p n q k s taken o pos lo mid hi =
    let a = s.alloc_ptr in
    let r = s.alloc_bytes_remaining in
    record {
      apart = (sub_AllApart a r p n taken lo (omega arith) o.free_apart, o.apart);
      within = (
        elim o.free_within [
          | inl (u, v) ↦ absurd (omega arith)
          | inr w ↦ sub_Within a r p n s.blocks lo (omega arith) w
        ],
        o.within,
      );
      free_apart = (inr mid, sub_AllApart a r q k taken (omega arith) hi o.free_apart);
      free_within = elim o.free_within [
        | inl (u, v) ↦ absurd (omega arith)
        | inr w ↦ inr (sub_Within a r q k s.blocks (omega arith) hi w)
      ];
      usage = o.usage;
    }

-- A free region that is null is apart from every region, and one in a block is apart from a fresh one.
free-Apart_fresh :
    (new n : ℕ) (s : Arena) (taken : List (ℕ × ℕ))
    → Owns s taken
    → AllApart new n s.blocks
    → Apart s.alloc_ptr s.alloc_bytes_remaining new n
free-Apart_fresh new n s taken o f = elim o.free_within [
  | inl (u, v) ↦ inl (omega arith)
  | inr w ↦
      elim (apart_AllWithin new n ((s.alloc_ptr, s.alloc_bytes_remaining) ∷ []) s.blocks f
        (w, tt)).0 [ inl h ↦ inr h | inr h ↦ inl h ]
]

usage_lem : (u b n : ℕ) → u ≡ b % 2 ^ 64 → (u + (n + 8)) % 2 ^ 64 ≡ (b + (n + 8)) % 2 ^ 64
usage_lem u b n e = omega arith

-- A large request gets a block of its own.
large-Owns :
    (new bytes : ℕ) (s : Arena) (taken : List (ℕ × ℕ))
    → Owns s taken
    → AllApart new bytes s.blocks
    → Owns (allocate_new_block new bytes s).1 ((new, bytes) ∷ taken)
unfolding allocate_new_block
large-Owns new bytes s taken o f = record {
  apart = (apart_AllWithin new bytes taken s.blocks f o.within, o.apart);
  within = (inl (omega arith, omega arith), grow_AllWithin (new, bytes) taken s.blocks o.within);
  free_apart = (free-Apart_fresh new bytes s taken o f, o.free_apart);
  free_within = elim o.free_within [ inl h ↦ inl h | inr w ↦ inr (inr w) ];
  usage = usage_lem s.memory_usage (usage_of s.blocks) bytes o.usage;
}

-- Another request begins a new block.
small-Owns :
    (new bytes : ℕ) (s : Arena) (taken : List (ℕ × ℕ))
    → Owns s taken
    → bytes ≤ 4096
    → AllApart new 4096 s.blocks
    → Owns
        (record ((allocate_new_block new 4096 s).1) {
          alloc_ptr = new + bytes;
          alloc_bytes_remaining = 4096 - bytes;
        })
        ((new, bytes) ∷ taken)
unfolding allocate_new_block
small-Owns new bytes s taken o small f =
    let away = apart_AllWithin new 4096 taken s.blocks f o.within in
    record {
      apart = (sub_AllApart new 4096 new bytes taken (omega arith) (omega arith) away, o.apart);
      within = (inl (omega arith, omega arith), grow_AllWithin (new, 4096) taken s.blocks o.within);
      free_apart = (
        inr (omega arith),
        sub_AllApart new 4096 (new + bytes) (4096 - bytes) taken (omega arith) (omega arith) away,
      );
      free_within = inr (inl (omega arith, omega arith));
      usage = usage_lem s.memory_usage (usage_of s.blocks) 4096 o.usage;
    }

fallback-Owns :
    (new bytes : ℕ) (s : Arena) (taken : List (ℕ × ℕ))
    → Owns s taken
    → Fresh new bytes s
    → (t : Arena) × (allocate_fallback new bytes s ≡ (new, t)) × Owns t ((new, bytes) ∷ taken)
unfolding allocate_fallback allocate_new_block
fallback-Owns new bytes s taken o f = elim (dec_lt 1024 bytes) [
  | yes large ↦
      let e : (if ltb 1024 bytes then bytes else 4096) ≡ bytes = ground arith in
      (
        (allocate_new_block new bytes s).1,
        ground arith,
        large-Owns new bytes s taken o (subst (λ n. AllApart new n s.blocks) e f),
      )
  | no small ↦
      let e : (if ltb 1024 bytes then bytes else 4096) ≡ 4096 = ground arith in
      (
        record ((allocate_new_block new 4096 s).1) {
          alloc_ptr = new + bytes;
          alloc_bytes_remaining = 4096 - bytes;
        },
        ground arith,
        small-Owns new bytes s taken o (omega arith) (subst (λ n. AllApart new n s.blocks) e f),
      )
]

-- `Allocate` of a positive number of bytes returns a region that lies in a block and overlaps no region
-- that was handed out before, nor what is left of the current block; and the usage stays that of the
-- blocks. A block that `new` returns has to overlap none of the blocks.
pub allocate-Owns :
    (new bytes : ℕ) (s : Arena) (taken : List (ℕ × ℕ))
    → Owns s taken
    → Fresh new bytes s
    → 0 < bytes
    → (p : ℕ) × (t : Arena) × (allocate new bytes s ≡ some (p, t)) × Owns t ((p, bytes) ∷ taken)
unfolding allocate
allocate-Owns new bytes s taken o f pos = elim (dec_le bytes s.alloc_bytes_remaining) [
  | yes room ↦
      let left = s.alloc_bytes_remaining - bytes in
      (
        s.alloc_ptr,
        record s { alloc_ptr = s.alloc_ptr + bytes; alloc_bytes_remaining = left },
        ground arith,
        bump-Owns s.alloc_ptr bytes (s.alloc_ptr + bytes) left s taken o pos (omega arith)
            (omega arith) (omega arith),
      )
  | no full ↦ let (t, e, u) = fallback-Owns new bytes s taken o f in (new, t, ground (arith, e), u)
]

slop_lem : (ptr : ℕ) → (slop ptr < 8) × ((ptr + slop ptr) % 8 ≡ 0)
slop_lem ptr = elim (ℕ_discrete (ptr % 8) 0) [
  | yes e ↦ (ground arith, ground arith)
  | no ne ↦ (ground arith, ground arith)
]

aligned-Owns :
    (new bytes pad : ℕ) (s : Arena) (taken : List (ℕ × ℕ))
    → Owns s taken
    → Fresh new bytes s
    → new % 8 ≡ 0
    → 0 < bytes
    → bytes + pad < 2 ^ 64
    → (s.alloc_ptr + pad) % 8 ≡ 0
    → (p : ℕ) × (t : Arena) × (aligned_at new bytes pad s ≡ (p, t))
      × (p % 8 ≡ 0)
      × Owns t ((p, bytes) ∷ taken)
unfolding aligned_at
aligned-Owns new bytes pad s taken o f al pos small aligned =
    elim (dec_le ((bytes + pad) % 2 ^ 64) s.alloc_bytes_remaining) [
      | yes room ↦
          let needed = (bytes + pad) % 2 ^ 64 in
          let left = s.alloc_bytes_remaining - needed in
          (
            s.alloc_ptr + pad,
            record s { alloc_ptr = s.alloc_ptr + needed; alloc_bytes_remaining = left },
            ground arith,
            aligned,
            bump-Owns (s.alloc_ptr + pad) bytes (s.alloc_ptr + needed) left s taken o pos
                (omega arith) (omega arith) (omega arith),
          )
      | no full ↦
          let (t, e, u) = fallback-Owns new bytes s taken o f in (new, t, ground (arith, e), al, u)
    ]

-- `AllocateAligned` of a positive number of bytes whose sum with the padding does not wrap, from an arena
-- that owns its regions apart from each other, where `new` returns fresh memory at a multiple of 8: its
-- assertion holds, it returns an address that is a multiple of 8, and the arena owns the bytes there
-- beside all that was taken before.
pub allocate_aligned-Owns :
    (new bytes : ℕ) (s : Arena) (taken : List (ℕ × ℕ))
    → Owns s taken
    → Fresh new bytes s
    → new % 8 ≡ 0
    → 0 < bytes
    → bytes + 8 ≤ 2 ^ 64
    → (p : ℕ) × (t : Arena) × (allocate_aligned new bytes s ≡ some (p, t))
      × (p % 8 ≡ 0)
      × Owns t ((p, bytes) ∷ taken)
unfolding allocate_aligned assert_aligned
allocate_aligned-Owns new bytes s taken o f al pos small =
    let (less, aligned) = slop_lem s.alloc_ptr in
    let (p, t, e, al', u) =
      aligned-Owns new bytes (slop s.alloc_ptr) s taken o f al pos (omega arith) aligned in
    (p, t, ap assert_aligned e ∙ ground (arith, al'), al', u)
