-- ===== src/Diesel/Bundle/Tests.antt =====
-- A bundle file of one chunk, for the reader of src/dbutil/DB.cpp.
use raid_super_blt.Base.{ℕ, ◌≡◌, refl, some, List, [], ◌∷◌, take, arith, slice?, read_le?, of_le}
use raid_super_blt.Outcome.{ok}
use raid_super_blt.Datastore.{Disk}
use raid_super_blt.Diesel.{DieselBundle, DslFile, new_file}
use raid_super_blt.Diesel.Contents.{Uncompress, trailing_size, read_contents}
use raid_super_blt.Diesel.Bundle.{load_package_bundle}
use raid_super_blt.Diesel.Bundle.Packed.{bundle_file, unpack, read_contents-bundle_file}

abbrev three : Uncompress
three room src = some (take room (11 ∷ 12 ∷ 13 ∷ []))

abbrev chunk : List ℕ
chunk = 9 ∷ 9 ∷ 9 ∷ 9 ∷ 3 ∷ 0 ∷ 0 ∷ 0 ∷ []

abbrev disk : Disk
disk path = some (bundle_file 3 (chunk ∷ []))

abbrev file : DslFile
file = record new_file { name = 8; type = 9; file_id = 1; bundle = some 0; offset = 1; length = 2 }

unpacked : unpack three chunk ≡ ok (11 ∷ 12 ∷ 13 ∷ [])
unfolding unpack trailing_size read_le? slice? of_le
unpacked = refl

read_contents-bundle_file_example :
    (bundle : DieselBundle) × (load_package_bundle disk [] ≡ ok bundle)
    × (read_contents three file bundle (bundle_file 3 (chunk ∷ [])) ≡ ok (12 ∷ 13 ∷ []))
read_contents-bundle_file_example =
    read_contents-bundle_file three disk [] 3 chunk [] ((11 ∷ 12 ∷ 13 ∷ []) ∷ []) file (omega arith)
      (omega arith) refl (unpacked, tt) (omega arith) refl (omega arith)
