-- ===== src/Diesel/Startup.antt =====
-- The constructor of DieselDB in src/dbutil/DB.cpp: it reads the .blb file of the assets folder
-- and then the header of every bundle.
pub mod Names
pub mod BlbFile
mod Tests
use raid_super_blt.Base.{
  ℕ, ◌+◌, ◌-◌, Bool, true, false, ◌&&◌, ◌||◌, not, Option, none, some, List, [], ◌∷◌, ◌++◌, length,
  take, drop, leb, ◌==◌, if◌then◌else◌, read_le?, codes, same_text,
}
use raid_super_blt.Outcome.{Outcome, ok, stop, io_fails, value_or, ◌>>=◌}
use raid_super_blt.Datastore.{Disk}
use raid_super_blt.Diesel.{DieselDb, DieselBundle, MiniFile, add_language, build, resized}
use raid_super_blt.Diesel.Contents.{Uncompress}
use raid_super_blt.Diesel.Vectors.{load_elements, read_vector}
use raid_super_blt.Diesel.Headers.{load_package_header, load_bundle_header}
use raid_super_blt.Diesel.Bundle.{load_package_bundle, load_bundle}

-- `name.compare(0, prefix.size(), prefix) == 0`
pub begins_with : List ℕ → List ℕ → Bool
begins_with prefix name = same_text (take (length prefix) name) prefix

-- The two tests on a suffix: the name is longer, and ends in it.
pub has_suffix : List ℕ → List ℕ → Bool
has_suffix suffix name =
    not (leb (length name) (length suffix))
    && same_text (drop (length name - length suffix) name) suffix

-- The tests of the loop over the .blb files.
pub is_blb : List ℕ → Bool
is_blb name =
    has_suffix (codes ".blb") name
    && (begins_with (codes "all") name || begins_with (codes "bundle_db") name)

-- `blb_path`: the last name that passes, empty if none does.
pub find_blb : List ℕ → List (List ℕ) → List ℕ
find_blb found [] = found
find_blb found (name ∷ names) = find_blb (if is_blb name then name else found) names

-- `LanguageData`: a name, an id and padding.
language_at : List ℕ → ℕ → Option (ℕ × ℕ)
language_at fi pos = elim (read_le? pos 8 fi) [
  | none ↦ none
  | some name ↦ elim (read_le? (pos + 8) 4 fi) [
    | none ↦ none
    | some id ↦ elim (read_le? (pos + 12) 4 fi) [ none ↦ none | some padding ↦ some (id, name) ]
  ]
]

-- A `MiniFile` of 32 bytes.
mini_at : List ℕ → ℕ → Outcome MiniFile
mini_at fi pos = do
  type ← value_or (read_le? pos 8 fi) io_fails
  name ← value_or (read_le? (pos + 8) 8 fi) io_fails
  lang_id ← value_or (read_le? (pos + 16) 4 fi) io_fails
  zero_1 ← value_or (read_le? (pos + 20) 4 fi) io_fails
  file_id ← value_or (read_le? (pos + 24) 4 fi) io_fails
  zero_2 ← value_or (read_le? (pos + 28) 4 fi) io_fails
  ok (record {
    type = type;
    name = name;
    lang_id = lang_id;
    zero_1 = zero_1;
    file_id = file_id;
    zero_2 = zero_2;
  })

mini_some : List ℕ → ℕ → Option MiniFile
mini_some fi pos = elim (mini_at fi pos) [ ok m ↦ some m | stop s ↦ none ]

-- `languages[lang.id] = lang.name;` for each in turn.
language_map : List (ℕ × ℕ) → List (ℕ × ℕ) → List (ℕ × ℕ)
language_map langs [] = langs
language_map langs ((id, name) ∷ rest) = language_map (add_language id name langs) rest

-- From the opened .blb file to the file list: the languages' vector is at 8, the files' at 56.
pub load_blb : List ℕ → Outcome DieselDb
load_blb fi = do
  languages_vec ← read_vector io_fails fi 8
  languages ← load_elements io_fails 16 (language_at fi) 0 languages_vec
  files_vec ← read_vector io_fails fi 56
  minis ← load_elements io_fails 32 (mini_some fi) 0 files_vec
  build (language_map [] languages) minis

-- `headerPath`, and `dataPath`, which is without the `_h` before the `.bundle`.
header_path : List ℕ → List ℕ
header_path name = codes "assets/" ++ name

pub data_path : List ℕ → List ℕ
data_path name =
    let path = header_path name in take (length path - 9) path ++ drop (length path - 7) path

-- Whether the loop takes a name, and whether it takes it for a package.
pub is_header : List ℕ → Bool
is_header name = has_suffix (codes "_h.bundle") name && not (same_text name (codes "all_h.bundle"))

pub is_package : List ℕ → Bool
is_package name = not (begins_with (codes "all_") name) && not (begins_with (codes "stream_") name)

add_bundle : DieselDb → DieselBundle → DieselDb
add_bundle db bundle = record db { bundles = db.bundles ++ bundle ∷ [] }

-- One bundle: it is allocated, and its header is applied.
load_package : Uncompress → Disk → DieselDb → List ℕ → Outcome DieselDb
load_package uncompress disk db name = do
  bundle ← load_package_bundle disk (data_path name)
  load_package_header uncompress disk (add_bundle db bundle) (length db.bundles) (header_path name)
      (data_path name)

load_plain : Uncompress → Disk → DieselDb → List ℕ → Outcome DieselDb
load_plain uncompress disk db name =
    load_bundle_header uncompress disk (add_bundle db load_bundle) (length db.bundles)
      (header_path name) (data_path name)

load_one : Uncompress → Disk → DieselDb → List ℕ → Outcome DieselDb
load_one uncompress disk db name =
    if is_package name
    then load_package uncompress disk db name
    else load_plain uncompress disk db name

-- The loop over the bundle headers.
pub load_bundles : Uncompress → Disk → DieselDb → List (List ℕ) → Outcome DieselDb
load_bundles uncompress disk db [] = ok db
load_bundles uncompress disk db (name ∷ names) = do
  db' ← if is_header name then load_one uncompress disk db name else ok db
  load_bundles uncompress disk db' names

-- The constructor, over the names in the assets folder.
pub start : Uncompress → Disk → List (List ℕ) → Outcome DieselDb
start uncompress disk names = elim (find_blb [] names) [
  | [] ↦ ok (resized 0)
  | c ∷ cs ↦ do
    fi ← value_or (disk (codes "assets/" ++ c ∷ cs)) io_fails
    db ← load_blb fi
    load_bundles uncompress disk db names
]
