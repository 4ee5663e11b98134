-- ===== src/Curl/Transfer.antt =====
-- `Download` of Curl_Breakpoint/CurlDown.cpp and what it calls. A file is its bytes, or none if it is not
-- there; what libcurl and the disk do is in a record.
use tools_demo.Base.{
  ℕ, ◌-◌, Bool, true, false, ◌&&◌, Option, none, some, List, [], ◌∷◌, ◌++◌, ◌==◌, if◌then◌else◌,
  length, take, min, max,
}
use tools_demo.Base.Int.{ℤ, negsuc}

-- One attempt: whether the file opens for writing and for reading; how many bytes `fwrite` takes in all
-- before it fails, into its buffer or onto the disk; how many of the last of these never reach the disk,
-- which is 0 where the `fclose` succeeds; what libcurl does from an offset (the blocks that it hands over,
-- and whether it returns CURLE_OK after them); and `m_bStop` after it
pub record Attempt : Type 0 where
  pub opens : Bool
  pub reads : Bool
  pub room : ℕ
  pub unflushed : ℕ
  pub perform : ℕ → List (List ℕ) × Bool
  pub stopped : Bool

abbrev pub is_file_exist : Option (List ℕ) → Bool
is_file_exist none = false
is_file_exist (some bytes) = true

-- `fopen` with "ab+" of a file that is there, and with "wb" of one that is not
unfoldable pub open_file : Option (List ℕ) → List ℕ
open_file none = []
open_file (some bytes) = bytes

-- `getLocalFileLength`, where a file that does not open is undefined behaviour: `fp` is NULL.
unfoldable pub local_file_length : Bool → List ℕ → Option ℕ
local_file_length reads file = if reads then some (length file) else none

-- `getDownloadFileLenth`: the length that libcurl knows, if its request succeeds
unfoldable pub download_file_length : Bool → ℤ → ℤ
download_file_length performs content_length = if performs then content_length else negsuc 0

-- `my_write_func`: the file with what its buffer holds, and how many bytes `fwrite` took
unfoldable pub my_write_func : ℕ → List ℕ → List ℕ → List ℕ × ℕ
my_write_func room file block =
    let written = min room (length block) in (file ++ take written block, written)

-- The blocks that libcurl hands over, one after another: a block that is not written whole ends the
-- transfer with an error.
unfoldable pub write_blocks : ℕ → List ℕ → List (List ℕ) → List ℕ × Bool
write_blocks room file [] = (file, true)
write_blocks room file (b ∷ blocks) =
    let r = my_write_func room file b in
    let rest = write_blocks (room - r.1) r.0 blocks in
    if r.1 == length b then rest else (r.0, false)

-- What `Download` returns and the file, or undefined behaviour
pub data Downloaded : Type 0 where
  returns : Bool → Option (List ℕ) → Downloaded
  undefined : Downloaded

-- `fclose`, whose result is not looked at: of the bytes that were written behind the old ones, all but the
-- last `unflushed` are on the disk.
unfoldable pub close_file : ℕ → List ℕ → List ℕ → List ℕ
close_file unflushed old written = take (max (length old) (length written - unflushed)) written

-- From the offset of what is there already
unfoldable pub transfer : Attempt → List ℕ → ℕ → Downloaded
transfer a file offset =
    let sent = a.perform offset in
    let r = write_blocks a.room file sent.0 in
    returns (r.1 && sent.1) (some (close_file a.unflushed file r.0))

unfoldable pub download : Attempt → Option (List ℕ) → Downloaded
download a file =
    if a.opens
    then elim (local_file_length a.reads (open_file file)) [
      | none ↦ undefined
      | some offset ↦ transfer a (open_file file) offset
    ]
    else returns false file
