-- ===== src/Diesel/Headers/Tests.antt =====
-- Headers of two files, applied as src/dbutil/DB.cpp does.
use raid_super_blt.Base.{ℕ, ◌≡◌, refl, some, List, [], ◌∷◌, length, get_elem?, arith}
use mathlib.Core.Option
use raid_super_blt.Outcome.{ok}
use raid_super_blt.Diesel.{DslFile, new_file}
use raid_super_blt.Diesel.Headers.{
  FilePos, ItemInfo, apply_items, apply_positions, place_files, place_file, set_length,
  fix_previous, end_files, file_at,
}
use raid_super_blt.Diesel.Headers.Placed.{item_entry, apply_items-entry}
use raid_super_blt.Diesel.Headers.Positions.{places, position_place, apply_positions-places}

abbrev entry : ℕ → DslFile
entry id = record new_file { file_id = id }

abbrev files : List DslFile
files = entry 1 ∷ entry 2 ∷ []

abbrev items : List ItemInfo
items = record { file_id = 2; offset = 5; length = 7 } ∷ []

apply_items-entry_example :
    (files' : List DslFile) × (apply_items 3 files items ≡ ok files')
    × (length files' ≡ 2)
    × (get_elem? files' 1 ≡ Option.map (item_entry 3 items 1) (some (entry 2)))
apply_items-entry_example = apply_items-entry 3 files items 1 (omega arith) (omega arith)

abbrev positions : List FilePos
positions = record { file_id = 2; offset = 0 } ∷ record { file_id = 1; offset = 4 } ∷ []

abbrev placed : List DslFile
placed =
    record (entry 1) { bundle = some 3; offset = 4; length = 6 }
    ∷ record (entry 2) { bundle = some 3; offset = 0; length = 4 }
    ∷ []

applied : apply_positions 3 10 files positions ≡ ok placed
unfolding apply_positions place_files place_file set_length fix_previous end_files file_at
applied = refl

apply_positions-places_example :
    places placed 0 ≡ Option.map (position_place 3 positions 0) (places files 0)
apply_positions-places_example = apply_positions-places 3 10 files placed positions 0 applied

abbrev other : List DslFile
other =
    record (entry 1) { bundle = some 0; offset = 4; length = 9 } ∷ entry 2 ∷ entry 3 ∷ entry 4 ∷ []

abbrev three_positions : List FilePos
three_positions =
    record { file_id = 2; offset = 0 }
    ∷ record { file_id = 3; offset = 4 }
    ∷ record { file_id = 4; offset = 5 }
    ∷ []

-- A header whose second position begins where the first entry of the database's list lies, in
-- another bundle: the length of that other file is lost.
spoiled :
    (apply_positions 3 10 other three_positions)
    ≡ ok (
        record (entry 1) { bundle = some 0; offset = 4; length = 1 }
        ∷ record (entry 2) { bundle = some 3; offset = 0; length = 4 }
        ∷ record (entry 3) { bundle = some 3; offset = 4; length = 1 }
        ∷ record (entry 4) { bundle = some 3; offset = 5; length = 5 }
        ∷ [])
unfolding apply_positions place_files place_file set_length fix_previous end_files file_at
spoiled = refl
