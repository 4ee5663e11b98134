-- ===== src/Status/Defs.antt =====
-- `Status` of statusandslice/status.h and statusandslice/status.cpp. The array that `state_` owns is the
-- list of its bytes, and a read or a copy that leaves an array has no result. A `uint32_t` in memory has
-- its lowest byte first.
use mathlib.Core.Option
use tools_demo.Base.{
  ℕ, ◌+◌, ◌*◌, ◌/◌, ◌%◌, ◌^◌, Bool, true, false, Option, none, some, List, [], ◌∷◌, ◌++◌, get_elem?,
  ◌==◌, if◌then◌else◌, ◌>>=◌,
}
use tools_demo.Pipe.Memory.{memcpy_to, copy_from, zeros}
use tools_demo.Slice.Defs.{Slice}

pub data Code : Type 0 where
  ok : Code
  not_found : Code
  corruption : Code
  not_supported : Code
  invalid_argument : Code
  io_error : Code

-- the value of the enumerator
abbrev pub value_of : Code → ℕ
value_of ok = 0
value_of not_found = 1
value_of corruption = 2
value_of not_supported = 3
value_of invalid_argument = 4
value_of io_error = 5

-- `state_`
abbrev pub Status : Type 0
Status = Option (List ℕ)

unfoldable pub word_bytes : ℕ → List ℕ
word_bytes v = v % 256 ∷ v / 2 ^ 8 % 256 ∷ v / 2 ^ 16 % 256 ∷ v / 2 ^ 24 % 256 ∷ []

unfoldable pub read_word : List ℕ → Option ℕ
read_word (b0 ∷ b1 ∷ b2 ∷ b3 ∷ _) = some (b0 + b1 * 2 ^ 8 + b2 * 2 ^ 16 + b3 * 2 ^ 24)
read_word _ = none

unfoldable pub copy_state : List ℕ → Option (List ℕ)
copy_state state = read_word state >>= λ size. copy_from 0 ((size + 5) % 2 ^ 32) state

-- `msg2`, where it is not empty, behind a colon and a space
unfoldable pub append_second : ℕ → ℕ → Slice → List ℕ → Option (List ℕ)
append_second len1 len2 msg2 result =
    if len2 == 0
    then some result
    else (memcpy_to (5 + len1) (58 ∷ 32 ∷ []) result >>= λ result.
        copy_from 0 len2 msg2.data_ >>= λ second. memcpy_to (7 + len1) second result)

-- The constructor from `new char[size + 5]` on
unfoldable pub fill : ℕ → ℕ → ℕ → ℕ → Slice → Slice → Option (List ℕ)
fill value size len1 len2 msg msg2 =
    memcpy_to 0 (word_bytes size) (zeros ((size + 5) % 2 ^ 32)) >>= λ result.
    memcpy_to 4 (value ∷ []) result >>= λ result. copy_from 0 len1 msg.data_ >>= λ first.
    memcpy_to 5 first result >>= λ result. append_second len1 len2 msg2 result

unfoldable pub make : ℕ → Slice → Slice → Option Status
make value msg msg2 =
    let len1 = msg.size_ % 2 ^ 32 in
    let len2 = msg2.size_ % 2 ^ 32 in
    let size = (len1 + (if len2 == 0 then 0 else 2 + len2)) % 2 ^ 32 in
    Option.map some (fill value size len1 len2 msg msg2)

-- The constructor with a code. Its assertion fails on `ok`.
unfoldable pub init_with : Code → Slice → Slice → Option Status
init_with code msg msg2 = if value_of code == 0 then none else make (value_of code) msg msg2

-- `code()`, as the value of the enumerator
unfoldable pub code : Status → Option ℕ
code none = some 0
code (some state) = get_elem? state 4

abbrev pub is_ok : Status → Bool
is_ok none = true
is_ok (some state) = false

-- `IsNotFound` and the others
unfoldable pub is_code : Code → Status → Option Bool
is_code c s = code s >>= λ v. some (v == value_of c)

-- `static_cast<Code>`, where an enumerator has the value
unfoldable pub code_of : ℕ → Option Code
code_of v =
    if v == 0
    then some ok
    else if v == 1
    then some not_found
    else if v == 2
    then some corruption
    else if v == 3
    then some not_supported
    else if v == 4
    then some invalid_argument
    else if v == 5
    then some io_error
    else none

-- What `ToString` begins with for each code
unfoldable pub type_of : Code → List ℕ
type_of ok = 79 ∷ 75 ∷ []
type_of not_found = 78 ∷ 111 ∷ 116 ∷ 70 ∷ 111 ∷ 117 ∷ 110 ∷ 100 ∷ 58 ∷ 32 ∷ []
type_of corruption = 67 ∷ 111 ∷ 114 ∷ 114 ∷ 117 ∷ 112 ∷ 116 ∷ 105 ∷ 111 ∷ 110 ∷ 58 ∷ 32 ∷ []
type_of not_supported =
    78 ∷ 111 ∷ 116 ∷ 32 ∷ 105 ∷ 109 ∷ 112 ∷ 108 ∷ 101 ∷ 109 ∷ 101 ∷ 110 ∷ 116 ∷ 101 ∷ 100 ∷ 58 ∷ 32
    ∷ []
type_of invalid_argument =
    73 ∷ 110 ∷ 118 ∷ 97 ∷ 108 ∷ 105 ∷ 100 ∷ 32 ∷ 97 ∷ 114 ∷ 103 ∷ 117 ∷ 109 ∷ 101 ∷ 110 ∷ 116 ∷ 58
    ∷ 32 ∷ []
type_of io_error = 73 ∷ 79 ∷ 32 ∷ 101 ∷ 114 ∷ 114 ∷ 111 ∷ 114 ∷ 58 ∷ 32 ∷ []

-- What `snprintf` prints of another code is a parameter.
unfoldable pub type_text : (ℕ → List ℕ) → ℕ → List ℕ
type_text unknown v = elim (code_of v) [ none ↦ unknown v | some c ↦ type_of c ]

unfoldable pub to_string : (ℕ → List ℕ) → Status → Option (List ℕ)
to_string unknown none = some (79 ∷ 75 ∷ [])
to_string unknown (some state) = get_elem? state 4 >>= λ v. read_word state >>= λ length.
    copy_from 5 length state >>= λ text. some (type_text unknown v ++ text)

unfoldable pub copy : Status → Option Status
copy none = some none
copy (some state) = copy_state state >>= λ result. some (some result)
