-- ===== src/Diesel/Tests.antt =====
-- A run of the database of src/dbutil/DB.cpp on three files, two of them of one asset.
use raid_super_blt.Base.{ℕ, ◌≡◌, refl, Option, some, List, [], ◌∷◌, arith}
use raid_super_blt.Outcome.{ok}
use raid_super_blt.Idstring.FileMap.{lookup, insert}
use raid_super_blt.Diesel.{
  DieselDb, MiniFile, new_file, build, add_files, add_file, grow, place_of, fill, link, language_of,
  find_language, find, deref,
}
use raid_super_blt.Diesel.Files.{entry_for, pointer_to}
use raid_super_blt.Diesel.Files.Returns.{build_succeeds}
use raid_super_blt.Diesel.Files.Chains.{Chain, with_key, reverse_onto}

abbrev mini : ℕ → ℕ → ℕ → MiniFile
mini name lang id = record {
  type = 9;
  name = name;
  lang_id = lang;
  zero_1 = 0;
  file_id = id;
  zero_2 = 0;
}

abbrev minis : List MiniFile
minis = mini 8 0 2 ∷ mini 7 0 1 ∷ mini 8 4 3 ∷ []

abbrev langs : List (ℕ × ℕ)
langs = (4, 77) ∷ []

abbrev built : DieselDb
built = record {
  files_list =
      entry_for langs (mini 7 0 1) Option.none new_file
      ∷ entry_for langs (mini 8 0 2) Option.none new_file
      ∷ entry_for langs (mini 8 4 3) (some (pointer_to 2)) new_file
      ∷ [];
  allocation = 0;
  files =
      (record { name = 8; ext = 9 }, pointer_to 3)
      ∷ (record { name = 7; ext = 9 }, pointer_to 1)
      ∷ [];
  bundles = [];
}

build_run : build langs minis ≡ ok built
unfolding build add_files add_file grow place_of fill link language_of find_language lookup insert
    deref
build_run = refl

build_succeeds_example :
    (db : DieselDb) × (build langs minis ≡ ok db)
    × Chain langs db.files_list
        (find db 8 9)
        (with_key (record { name = 8; ext = 9 }) (reverse_onto minis []))
unfolding with_key language_of find_language
build_succeeds_example =
    build_succeeds langs minis 8 9 (omega arith) (omega arith) (omega arith)
      ((refl, refl), ((refl, refl), ((refl, refl), tt)))
      (tt, (tt, ((λ e. absurd (omega arith), tt), tt)))
