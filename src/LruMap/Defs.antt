-- ===== src/LruMap/Defs.antt =====
-- The class `LruMap` of LruMap/lurmap.h, method by method.
use tools_demo.Base.{
  ℕ, zero, suc, ◌+◌, Bool, ◌&&◌, Option, none, some, List, [], ◌∷◌, ◌++◌, ℕ_discrete, length, leb,
  ◌==◌, if◌then◌else◌, ◌>>=◌,
}
use tools_demo.Base.Int.{ℤ, ◌+ℤ◌, ltb_ℤ}
use tools_demo.Base.Dict.{find, assign, emplace, erase}
use tools_demo.Base.Linked.{splice_back}

-- `data_type`; `time_t` is signed.
pub record Node (K V : Type 0) : Type 0 where
  pub key : K
  pub value : V
  pub expiration : ℤ

pub record LruMap (K V : Type 0) : Type 0 where
  pub capacity : ℕ
  pub index : List (K × ℕ)
  pub nodelist : List (ℕ × Node K V)
  -- the address that the next node gets
  pub fresh : ℕ

abbrev pub Iterator : Type 0
Iterator = Option ℕ

-- what a call returns: the new state and its iterator
abbrev pub Outcome : Type 0 → Type 0 → Type 0
Outcome K V = Option (LruMap K V × Iterator)

module _ {K V : Type 0} (dec : Discrete K) where
  unfoldable pub init : ℕ → LruMap K V
  init capacity = record { capacity = capacity; index = []; nodelist = []; fresh = 0 }

  unfoldable pub clear : LruMap K V → LruMap K V
  clear s = record s { index = []; nodelist = [] }

  unfoldable pub size : LruMap K V → ℕ
  size s = length s.index

  -- `capacity(n)`
  unfoldable pub set_capacity : ℕ → LruMap K V → LruMap K V
  unfolding clear
  set_capacity n s = if n == 0 then clear (record s { capacity = n }) else record s { capacity = n }

  -- `erase(key)`
  unfoldable pub erase_key : K → LruMap K V → Option (LruMap K V)
  erase_key key s = elim (find dec key s.index) [
    | none ↦ some s
    | some it ↦
        (find ℕ_discrete it s.nodelist >>= λ _.
        some
          (record s { nodelist = erase ℕ_discrete it s.nodelist; index = erase dec key s.index }))
  ]

  -- `erase(iterator)`
  unfoldable pub erase_at : ℕ → LruMap K V → Option (LruMap K V)
  erase_at it s = find ℕ_discrete it s.nodelist >>= λ node.
      some
        (record s { index = erase dec node.key s.index; nodelist = erase ℕ_discrete it s.nodelist })

  unfoldable pub get : ℤ → K → Bool → LruMap K V → Outcome K V
  unfolding erase_key
  get now key erasing_expired s = elim (find dec key s.index) [
    | none ↦ some (s, none)
    | some it ↦
        (find ℕ_discrete it s.nodelist >>= λ node.
        if erasing_expired && ltb_ℤ node.expiration now
        then (erase_key key s >>= λ s'. some (s', none))
        else (splice_back it s.nodelist >>= λ nodes. some (record s { nodelist = nodes }, some it)))
  ]

  -- the loop of `vacate`, over what is left of the list
  unfoldable pub vacate_loop :
      ℕ → List (K × ℕ) → List (ℕ × Node K V) → List (K × ℕ) × List (ℕ × Node K V)
  vacate_loop zero index nodes = (index, nodes)
  vacate_loop (suc n) index [] = (index, [])
  vacate_loop (suc n) index ((it, node) ∷ nodes) = vacate_loop n (erase dec node.key index) nodes

  unfoldable pub vacate : ℕ → LruMap K V → LruMap K V
  vacate n s =
      let (index, nodes) = vacate_loop n s.index s.nodelist in
      record s { index = index; nodelist = nodes }

  -- the end of `put`: a new node at the back
  unfoldable pub push_back : ℤ → K → V → ℤ → LruMap K V → LruMap K V × Iterator
  push_back now key value expiration_sec s = (
    record s {
      nodelist =
          s.nodelist
          ++ (s.fresh, record { key = key; value = value; expiration = expiration_sec +ℤ now })
            ∷ [];
      index = emplace dec key s.fresh s.index;
      fresh = s.fresh + 1;
    },
    some s.fresh,
  )

  unfoldable pub put : ℤ → K → V → ℤ → LruMap K V → Outcome K V
  unfolding vacate push_back size
  put now key value expiration_sec s = elim (find dec key s.index) [
    | some it ↦
        (find ℕ_discrete it s.nodelist >>= λ node.
        splice_back it (
          assign ℕ_discrete it (record node { value = value; expiration = expiration_sec +ℤ now })
            s.nodelist)
        >>= λ nodes. some (record s { nodelist = nodes }, some it))
    | none ↦ some (
        push_back now key value expiration_sec (if leb s.capacity (size s) then vacate 16 s else s))
  ]
