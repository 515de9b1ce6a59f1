-- ===== src/Diesel/Contents/Tests.antt =====
-- Runs of the reader of src/dbutil/DB.cpp on a bundle of one block of three bytes.
use raid_super_blt.Base.{ℕ, ◌≡◌, refl, some, List, [], ◌∷◌, take, arith, slice?, read_le?, of_le}
use raid_super_blt.Outcome.{ok}
use raid_super_blt.Datastore.{Disk}
use raid_super_blt.Idstring.FileMap.{lookup}
use raid_super_blt.Idstring.Hex.{print_id}
use raid_super_blt.Idstring.Hex.RoundTrip.{parse_hash-print_id}
use raid_super_blt.Diesel.{DieselDb, DieselBundle, DslFile, new_file, find, deref}
use raid_super_blt.Diesel.Contents.{
  Uncompress, trailing_size, fetch_block, read_contents, load_asset_contents, bytes,
}
use raid_super_blt.Diesel.Contents.Range.{
  read_contents_range, IsStored, contents, load_asset_contents_answers,
}

-- A decompressor that finds three bytes in everything.
abbrev three : Uncompress
three room src = some (take room (11 ∷ 12 ∷ 13 ∷ []))

abbrev on_disk : List ℕ
on_disk = 8 ∷ 0 ∷ 0 ∷ 0 ∷ 9 ∷ 9 ∷ 9 ∷ 9 ∷ 3 ∷ 0 ∷ 0 ∷ 0 ∷ []

abbrev blocks : List (List ℕ)
blocks = (11 ∷ 12 ∷ 13 ∷ []) ∷ []

abbrev bundle : DieselBundle
bundle = record {
  path = 1 ∷ [];
  header_path = [];
  decompressed_file_size = 3;
  chunk_offsets = 0 ∷ [];
}

abbrev file : DslFile
file = record new_file { name = 8; type = 9; file_id = 1; bundle = some 0; offset = 1; length = 2 }

abbrev db : DieselDb
db = record {
  files_list = file ∷ [];
  allocation = 0;
  files = (record { name = 8; ext = 9 }, record { allocation = 0; index = 0 }) ∷ [];
  bundles = bundle ∷ [];
}

abbrev disk : Disk
disk path = some on_disk

fetched : fetch_block three on_disk 0 ≡ ok (11 ∷ 12 ∷ 13 ∷ [])
unfolding fetch_block trailing_size slice? read_le? of_le
fetched = refl

read_contents_range_example : read_contents three file bundle on_disk ≡ ok (12 ∷ 13 ∷ [])
read_contents_range_example =
    read_contents_range three file bundle on_disk blocks refl (λ e. cc) (fetched, tt) (omega arith)
      (omega arith)

stored : IsStored disk db three file blocks
stored = record {
  bundle_id = 0;
  in_bundle = refl;
  bundle = bundle;
  allocated = refl;
  fi = on_disk;
  on_disk = refl;
  chunked = λ e. cc;
  fetched = (fetched, tt);
  full = omega arith;
  fits = omega arith;
}

load_asset_contents_answers_example :
    load_asset_contents three disk db (64 ∷ print_id 8) (64 ∷ print_id 9)
    ≡ ok (bytes (12 ∷ 13 ∷ []))
unfolding find lookup deref
load_asset_contents_answers_example =
    load_asset_contents_answers three disk db (64 ∷ print_id 8) (64 ∷ print_id 9) 8 9
      (bytes (12 ∷ 13 ∷ [])) (parse_hash-print_id 8 (omega arith))
      (parse_hash-print_id 9 (omega arith))
      (contents (record { allocation = 0; index = 0 }) file blocks refl refl refl stored)
