-- ===== src/Diesel/Contents.antt =====
-- `DslFile::ReadContents` of src/dbutil/DB.cpp, on a stream that throws when a read fails, and
-- `wrenLoadAssetContents` of src/tweaker/db_hooks.cpp, its only caller.
pub mod Chunks
pub mod Range
mod Tests
use raid_super_blt.Base.{
  ℕ, ◌+◌, ◌-◌, ◌/◌, ◌%◌, ◌^◌, Bool, true, false, ◌||◌, not, Option, none, some, List, [], ◌∷◌, ◌++◌,
  length, take, drop, replicate, get_elem?, min, ltb, leb, ◌==◌, if◌then◌else◌, slice?, read_le?,
}
use raid_super_blt.Outcome.{
  Outcome, ok, stop, throws, io_fails, undefined, value_or, require, ◌>>=◌, ◌>>◌,
}
use raid_super_blt.Datastore.{Disk}
use raid_super_blt.Idstring.Hex.{parse_hash}
use raid_super_blt.Diesel.{DieselDb, DieselBundle, DslFile, FilePtr, find, deref, has_length, found}

-- zlib's uncompress2: the room at the destination and the source give the output, or an error.
abbrev pub Uncompress : Type 0
Uncompress = ℕ → List ℕ → Option (List ℕ)

-- The size of a decompressed block of a bundle.
abbrev pub block_size : ℕ
block_size = 0x10000

-- The uint32_t in the last four bytes of compressed data.
unfoldable pub trailing_size : List ℕ → Outcome ℕ
trailing_size src =
    if ltb (length src) 4
    then stop undefined
    else value_or (read_le? (length src - 4) 4 src) undefined

-- A compressed block: its length, its bytes, and what they decompress to.
unfoldable pub fetch_block : Uncompress → List ℕ → ℕ → Outcome (List ℕ)
fetch_block uncompress fi file_offset = do
  compressed_length ← value_or (read_le? file_offset 4 fi) io_fails
  src ← value_or (slice? (file_offset + 4) compressed_length fi) io_fails
  dst_size ← trailing_size src
  value_or (uncompress dst_size src) throws

-- memcpy into the result
unfoldable pub write_at : List ℕ → ℕ → List ℕ → List ℕ
write_at buf at bytes = take at buf ++ (bytes ++ drop (at + length bytes) buf)

-- One round of the loop on a decompressed block: the new destFileOffset and result. The first
-- block is entered at bufferOffset; one that is shorter than that is read past its end.
pub copy_block : ℕ → ℕ → ℕ → List ℕ → List ℕ → Outcome (ℕ × List ℕ)
copy_block real_length buffer_offset dest buf block =
    let skip = if dest == 0 then buffer_offset else 0 in
    if ltb (length block) skip
    then stop undefined
    else let dest_size = length block - skip in
      ok (
        dest + dest_size,
        write_at buf dest (take (min dest_size (real_length - dest)) (drop skip block)),
      )

-- `while (destFileOffset < realLength)`, over the chunk offsets from blockIdx on.
pub read_blocks : Uncompress → List ℕ → ℕ → ℕ → List ℕ → ℕ → List ℕ → Outcome (List ℕ)
read_blocks uncompress fi real_length buffer_offset [] dest buf =
    if ltb dest real_length then stop throws else ok buf
read_blocks uncompress fi real_length buffer_offset (chunk ∷ chunks) dest buf =
    let more = fetch_block uncompress fi chunk >>= λ block.
    copy_block real_length buffer_offset dest buf block >>= λ (p : ℕ × List ℕ).
    read_blocks uncompress fi real_length buffer_offset chunks p.0 p.1 in
    if ltb dest real_length then more else ok buf

-- The branch for a bundle without chunks: one compressed piece of `length` bytes.
read_whole : Uncompress → List ℕ → ℕ → ℕ → Outcome (List ℕ)
read_whole uncompress fi offset len = do
  src ← value_or (slice? offset len fi) io_fails
  dst_size ← trailing_size src
  out ← value_or (uncompress dst_size src) throws
  ok (write_at (replicate dst_size 0) 0 out)

-- `realLength`, an unsigned int
real_length_of : DslFile → List ℕ → ℕ
real_length_of file fi =
    if has_length file then file.length else (length fi + 2 ^ 32 - file.offset) % 2 ^ 32

-- `ReadContents`
pub read_contents : Uncompress → DslFile → DieselBundle → List ℕ → Outcome (List ℕ)
read_contents uncompress file bundle fi = elim bundle.chunk_offsets [
  | [] ↦ read_whole uncompress fi file.offset file.length
  | chunk ∷ chunks ↦
      let real_length = real_length_of file fi in
      read_blocks uncompress fi real_length (file.offset % block_size)
        (drop (file.offset / block_size) (chunk ∷ chunks)) 0 (replicate real_length 0)
]

-- What `wrenLoadAssetContents` leaves in slot 0: null, the bytes, or an error that ends the fiber.
pub data Answer : Type 0 where
  null : Answer
  bytes : List ℕ → Answer
  fiber_error : Answer

-- The catch of std::ios::failure; other exceptions pass.
catch_io : Outcome (List ℕ) → Outcome Answer
catch_io (ok contents) = ok (bytes contents)
catch_io (stop io_fails) = ok fiber_error
catch_io (stop s) = stop s

load_from : Uncompress → Disk → DieselDb → DslFile → Outcome Answer
load_from uncompress disk db file =
    if not (has_length file) || not (found file) then ok fiber_error else do
      b ← value_or file.bundle undefined
      bundle ← value_or (get_elem? db.bundles b) undefined
      elim (disk bundle.path) [
        | none ↦ ok fiber_error
        | some fi ↦ catch_io (read_contents uncompress file bundle fi)
      ]

-- What follows `DieselDB::Find`
load_found : Uncompress → Disk → DieselDb → Option FilePtr → Outcome Answer
load_found uncompress disk db none = ok null
load_found uncompress disk db (some ptr) = do file ← deref db ptr; load_from uncompress disk db file

-- `wrenLoadAssetContents`
pub load_asset_contents : Uncompress → Disk → DieselDb → List ℕ → List ℕ → Outcome Answer
load_asset_contents uncompress disk db name_text ext_text = do
  name ← parse_hash name_text
  ext ← parse_hash ext_text
  load_found uncompress disk db (find db name ext)
