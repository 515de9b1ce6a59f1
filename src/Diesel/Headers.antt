-- ===== src/Diesel/Headers.antt =====
-- loadPackageHeader and loadBundleHeader of src/dbutil/DB.cpp: where the files of a bundle are.
pub mod Placed
pub mod Positions
mod Tests
use raid_super_blt.Base.{
  ℕ, zero, suc, ◌+◌, ◌-◌, ◌%◌, ◌^◌, Bool, true, false, ◌&&◌, Option, none, some, List, [], ◌∷◌,
  length, get_elem?, set, replicate, ltb, ◌==◌, if◌then◌else◌, slice?, read_le?,
}
use raid_super_blt.Outcome.{
  Outcome, ok, stop, aborts, throws, io_fails, undefined, value_or, require, ◌>>=◌, ◌>>◌,
}
use raid_super_blt.Datastore.{Disk}
use raid_super_blt.Diesel.{DieselDb, DieselBundle, DslFile}
use raid_super_blt.Diesel.Contents.{Uncompress, trailing_size, write_at}
use raid_super_blt.Diesel.Vectors.{DslVector, read_vector, load_elements, load_vector}

-- What both functions do first: read the compressed part of the header and decompress it.
pub open_header : Uncompress → Disk → List ℕ → Outcome (List ℕ)
open_header uncompress disk path = do
  fi ← value_or (disk path) io_fails
  compressed_size ← value_or (read_le? 8 4 fi) io_fails
  src ← value_or (slice? 12 compressed_size fi) io_fails
  dst_size ← trailing_size src
  out ← value_or (uncompress dst_size src) throws
  ok (write_at (replicate dst_size 0) 0 out)

-- `FilePos`; its two int32_t are kept as the words that they are stored in.
pub record FilePos : Type 0 where
  pub file_id : ℕ
  pub offset : ℕ

-- `ItemInfo`
pub record ItemInfo : Type 0 where
  pub file_id : ℕ
  pub offset : ℕ
  pub length : ℕ

file_pos_at : List ℕ → ℕ → Option FilePos
file_pos_at bytes pos = elim (read_le? pos 4 bytes) [
  | none ↦ none
  | some id ↦ elim (read_le? (pos + 4) 4 bytes) [
    | none ↦ none
    | some offset ↦ some (record { file_id = id; offset = offset })
  ]
]

item_info_at : List ℕ → ℕ → Option ItemInfo
item_info_at bytes pos = elim (file_pos_at bytes pos) [
  | none ↦ none
  | some p ↦ elim (read_le? (pos + 8) 4 bytes) [
    | none ↦ none
    | some len ↦ some (record { file_id = p.file_id; offset = p.offset; length = len })
  ]
]

-- `files.at(id - 1)`, where the id is an int: 0 and the negative ones are out of range.
pub file_at : List DslFile → ℕ → Outcome DslFile
file_at files id =
    if ltb 0 id && ltb id (2 ^ 31) then value_or (get_elem? files (id - 1)) throws else stop throws

-- `files.at(id - 1)`, where the id is a uint32_t.
pub item_at : List DslFile → ℕ → Outcome DslFile
item_at files id = value_or (get_elem? files ((id + 2 ^ 32 - 1) % 2 ^ 32)) throws

set_length : List DslFile → ℕ → ℕ → Outcome (List DslFile)
set_length files id len = do
  f ← file_at files id
  ok (set files (id - 1) (record f { length = len }))

-- The first writes of a round: the bundle and the offset of `curr`.
place_file : ℕ → List DslFile → FilePos → Outcome (List DslFile)
place_file bundle files p = do
  f ← file_at files p.file_id
  ok (set files (p.file_id - 1) (record f { bundle = some bundle; offset = p.offset }))

-- `files[i - 1]`, the entry of the database's list, of which the code takes the id.
fix_previous : List DslFile → ℕ → FilePos → ℕ → Outcome (List DslFile)
fix_previous files zero p len = ok files
fix_previous files (suc i) p len = do
  prev_file ← value_or (get_elem? files i) undefined
  prev ← file_at files prev_file.file_id
  if p.offset == prev_file.offset
      then ok (set files (prev_file.file_id - 1) (record prev { length = len }))
      else ok files

-- The loop of loadPackageHeader from the i-th position on.
place_files : ℕ → ℕ → List DslFile → List FilePos → Outcome (List DslFile)
place_files bundle i files [] = ok files
place_files bundle i files (p ∷ []) = place_file bundle files p
place_files bundle i files (p ∷ next ∷ ps) = do
  files1 ← place_file bundle files p
  let len = (next.offset + 2 ^ 32 - p.offset) % 2 ^ 32
  files2 ← set_length files1 p.file_id len
  files3 ← fix_previous files2 i p len
  place_files bundle (suc i) files3 (next ∷ ps)

-- What follows the loop: the last length, up to the end of the bundle, and that of the second
-- last file, if it begins at the same place.
end_files : ℕ → List DslFile → List FilePos → Outcome (List DslFile)
end_files size files [] = ok files
end_files size files (last ∷ []) =
    set_length files last.file_id ((size + 2 ^ 32 - last.offset) % 2 ^ 32)
end_files size files (second_last ∷ last ∷ []) = do
  let len = (size + 2 ^ 32 - last.offset) % 2 ^ 32
  files1 ← set_length files last.file_id len
  f ← file_at files1 second_last.file_id
  if second_last.offset == last.offset
      then ok (set files1 (second_last.file_id - 1) (record f { length = len }))
      else ok files1
end_files size files (p ∷ q ∷ r ∷ ps) = end_files size files (q ∷ r ∷ ps)

-- The two together, on the list of the database.
pub apply_positions : ℕ → ℕ → List DslFile → List FilePos → Outcome (List DslFile)
apply_positions bundle size files ps = do
  placed ← place_files bundle 0 files ps
  end_files size placed ps

-- `bundle->headerPath = …; bundle->path = …`
name_bundle : List DieselBundle → ℕ → List ℕ → List ℕ → Outcome (List DieselBundle)
name_bundle bundles i header_path data_path = do
  b ← value_or (get_elem? bundles i) undefined
  ok (set bundles i (record b { path = data_path; header_path = header_path }))

-- `loadPackageHeader`
pub load_package_header : Uncompress → Disk → DieselDb → ℕ → List ℕ → List ℕ → Outcome DieselDb
load_package_header uncompress disk db bundle header_path data_path = do
  bundles ← name_bundle db.bundles bundle header_path data_path
  b ← value_or (get_elem? bundles bundle) undefined
  dst ← open_header uncompress disk header_path
  block_size_word ← value_or (read_le? 0 4 dst) undefined
  positions ← load_vector undefined 8 (file_pos_at dst) dst 4
  files ← apply_positions bundle b.decompressed_file_size db.files_list positions
  ok (record db { files_list = files; bundles = bundles })

-- The loop of loadBundleHeader.
pub apply_items : ℕ → List DslFile → List ItemInfo → Outcome (List DslFile)
apply_items bundle files [] = ok files
apply_items bundle files (item ∷ items) = do
  f ← item_at files item.file_id
  apply_items bundle
      (set files ((item.file_id + 2 ^ 32 - 1) % 2 ^ 32)
        (record f { bundle = some bundle; offset = item.offset; length = item.length }))
      items

-- `loadBundleHeader`: a BundleInfo is an id, a dsl_Vector, a zero and a one, of 8 bytes each but
-- the vector.
pub load_bundle_header : Uncompress → Disk → DieselDb → ℕ → List ℕ → List ℕ → Outcome DieselDb
load_bundle_header uncompress disk db bundle header_path data_path = do
  dst ← open_header uncompress disk header_path
  vec ← read_vector undefined dst 12
  zero_word ← value_or (read_le? 36 8 dst) undefined
  one_word ← value_or (read_le? 44 8 dst) undefined
  require ((zero_word == 0) && (one_word == 1)) aborts
  bundles ← name_bundle db.bundles bundle header_path data_path
  items ← load_elements undefined 12 (item_info_at dst) 4 vec
  files ← apply_items bundle db.files_list items
  ok (record db { files_list = files; bundles = bundles })
