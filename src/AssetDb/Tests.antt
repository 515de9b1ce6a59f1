-- ===== src/AssetDb/Tests.antt =====
-- Runs of src/luautil/LuaAssetDb.cpp on a small database.
use raid_super_blt.Base.{
  of_le, le_bytes, ◌*◌, ◌^◌, ℕ, ◌≡◌, refl, true, false, Option, none, some, List, [], ◌∷◌, ◌++◌,
  arith,
}
use raid_super_blt.Outcome.{ok}
use raid_super_blt.Idstring.Hash.{idstring_hash}
use raid_super_blt.Idstring.Hex.{print_id}
use raid_super_blt.FontData.{c_string}
use raid_super_blt.Diesel.{DieselDb, DslFile, MiniFile, build}
use raid_super_blt.Diesel.Files.Chains.{Chain, with_key, reverse_onto}
use raid_super_blt.Diesel.Files.Returns.{build_succeeds}
use raid_super_blt.AssetDb.{
  nil_value, string_value, check_string, is_literal, to_idstring, wanted_language, find_file,
  ldb_has,
}
use raid_super_blt.AssetDb.Find.{first_in, Answers, find_file-build}
use raid_super_blt.AssetDb.Literals.{to_idstring-print_id}

abbrev name : ℕ
name = idstring_hash (97 ∷ [])

abbrev type : ℕ
type = idstring_hash (98 ∷ [])

abbrev minis : List MiniFile
minis = record { type = type; name = name; lang_id = 0; zero_1 = 0; file_id = 1; zero_2 = 0 } ∷ []

built :
    (db : DieselDb) × (build [] minis ≡ ok db)
    × Chain [] db.files_list
        (raid_super_blt.Diesel.find db name type)
        (with_key (record { name = name; ext = type }) (reverse_onto minis []))
unfolding with_key
built =
    build_succeeds [] minis name type (omega arith) (omega arith, tt) (tt, tt) ((refl, refl), tt)
      (tt, tt)

find_file-build_example :
    (file : Option DslFile) × (find_file built.0
        (string_value (97 ∷ []))
        (string_value (98 ∷ []))
        nil_value
      ≡ ok file)
    × Answers [] 0
        (first_in [] 0 (with_key (record { name = name; ext = type }) (reverse_onto minis [])))
        file
    × (ldb_has built.0 (string_value (97 ∷ [])) (string_value (98 ∷ [])) nil_value
        ≡ ok (elim file [ none ↦ false | some f ↦ true ]))
unfolding check_string c_string to_idstring is_literal wanted_language
find_file-build_example =
    find_file-build [] minis built.0 (string_value (97 ∷ [])) (string_value (98 ∷ [])) nil_value
      name type 0 (omega arith) (omega arith, tt) (tt, tt) built.1 refl refl refl

to_idstring-print_id_example :
    (to_idstring (35 ∷ print_id 255) ≡ ok 255)
    × (to_idstring (35 ∷ (print_id 255 ++ 33 ∷ [])) ≡ ok (255 * 2 ^ 56))
    × (to_idstring (35 ∷ (print_id (255 * 2 ^ 56) ++ 33 ∷ [])) ≡ ok 255)
unfolding of_le le_bytes
to_idstring-print_id_example = to_idstring-print_id 255 (omega arith)
