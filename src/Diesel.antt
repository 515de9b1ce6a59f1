-- ===== src/Diesel.antt =====
-- src/dbutil/DB.h and src/dbutil/DB.cpp: the database of the files in the game's bundles.
pub mod Files
pub mod Contents
pub mod Vectors
pub mod Headers
pub mod Bundle
pub mod Startup
mod Tests
use raid_super_blt.Base.{
  ℕ, ◌+◌, ◌-◌, ◌%◌, ◌^◌, Bool, true, false, ◌&&◌, Option, none, some, List, [], ◌∷◌, ◌++◌, length,
  get_elem?, set, replicate, ltb, ◌==◌, if◌then◌else◌, not,
}
use raid_super_blt.Outcome.{
  Outcome, ok, stop, aborts, throws, undefined, require, value_or, ◌>>=◌, ◌>>◌,
}
use raid_super_blt.Idstring.{IdFile}
use raid_super_blt.Idstring.FileMap.{FileMap, lookup, insert}

-- `DieselBundle`
pub record DieselBundle : Type 0 where
  pub path : List ℕ
  pub header_path : List ℕ
  pub decompressed_file_size : ℕ
  pub chunk_offsets : List ℕ

-- The value ~0u of an unknown offset or length.
abbrev pub unset : ℕ
unset = 2 ^ 32 - 1

-- A pointer into `filesList`. A resize may move the list, so that a pointer is taken to be
-- good only for the allocation, here numbered, in which it was made.
pub record FilePtr : Type 0 where
  pub allocation : ℕ
  pub index : ℕ

-- `DslFile`; a bundle is named by its place among the bundles that were allocated.
pub record DslFile : Type 0 where
  pub name : ℕ
  pub type : ℕ
  pub file_id : ℕ
  pub raw_lang_id : ℕ
  pub lang_id : ℕ
  pub next : Option FilePtr
  pub bundle : Option ℕ
  pub offset : ℕ
  pub length : ℕ

abbrev pub new_file : DslFile
new_file = record {
  name = 0;
  type = 0;
  file_id = 0;
  raw_lang_id = 0;
  lang_id = 0;
  next = none;
  bundle = none;
  offset = unset;
  length = unset;
}

-- `DslFile::Found`
abbrev pub found : DslFile → Bool
found f = elim f.bundle [ none ↦ false | some _ ↦ true ]

-- `DslFile::HasLength`
abbrev pub has_length : DslFile → Bool
has_length f = not (f.length == unset)

-- `DslFile::Key`
abbrev pub key : DslFile → IdFile
key f = record { name = f.name; ext = f.type }

-- `DieselDB`, with the number of its current allocation and the bundles that it allocated.
pub record DieselDb : Type 0 where
  pub files_list : List DslFile
  pub allocation : ℕ
  pub files : FileMap FilePtr
  pub bundles : List DieselBundle

-- `*ptr`
unfoldable pub deref : DieselDb → FilePtr → Outcome DslFile
deref db p =
    if p.allocation == db.allocation
    then value_or (get_elem? db.files_list p.index) undefined
    else stop undefined

-- A `MiniFile` of the .blb file.
pub record MiniFile : Type 0 where
  pub type : ℕ
  pub name : ℕ
  pub lang_id : ℕ
  pub zero_1 : ℕ
  pub file_id : ℕ
  pub zero_2 : ℕ

abbrev pub mini_key : MiniFile → IdFile
mini_key m = record { name = m.name; ext = m.type }

-- std::map from language numbers
find_language : ℕ → List (ℕ × ℕ) → Option ℕ
find_language id [] = none
find_language id ((j, name) ∷ langs) = if j == id then some name else find_language id langs

add_language : ℕ → ℕ → List (ℕ × ℕ) → List (ℕ × ℕ)
add_language id name [] = (id, name) ∷ []
add_language id name ((j, old) ∷ langs) =
    if j == id then (id, name) ∷ langs else (j, old) ∷ add_language id name langs

abbrev unknown_language : ℕ
unknown_language = 0x11df684c9591b7e0

-- The language of a file: 0 for none, and a fixed id where the number is not known.
pub language_of : List (ℕ × ℕ) → ℕ → ℕ
language_of langs id =
    if id == 0
    then 0
    else elim (find_language id langs) [ none ↦ unknown_language | some name ↦ name ]

-- `if (mini.fileId > filesList.size()) filesList.resize(mini.fileId);`
pub grow : DieselDb → ℕ → DieselDb
grow db id =
    if ltb (length db.files_list) id
    then record db {
      files_list = db.files_list ++ replicate (id - length db.files_list) new_file;
      allocation = db.allocation + 1;
    }
    else db

-- `&filesList.at(id - 1)`, whose argument is a uint32_t
pub place_of : ℕ → ℕ
place_of id = (id + 2 ^ 32 - 1) % 2 ^ 32

-- What the loop writes into the entry before it looks for an earlier file.
pub fill : List (ℕ × ℕ) → MiniFile → DslFile → DslFile
fill langs mini f = record f {
  name = mini.name;
  type = mini.type;
  file_id = mini.file_id;
  raw_lang_id = mini.lang_id;
  lang_id = language_of langs mini.lang_id;
}

-- A repeated file must be in another language, and the earlier one comes behind it.
pub link : DieselDb → ℕ → DslFile → Outcome DieselDb
link db i f = elim (lookup (key f) db.files) [
  | none ↦ ok db
  | some prev ↦ do
    old ← deref db prev
    require (not (old.lang_id == f.lang_id)) aborts
    ok (record db { files_list = set db.files_list i (record f { next = some prev }) })
]

-- The body of the loop over the mini files.
pub add_file : List (ℕ × ℕ) → DieselDb → MiniFile → Outcome DieselDb
add_file langs db mini = do
  require ((mini.zero_1 == 0) && (mini.zero_2 == 0)) aborts
  let db1 = grow db mini.file_id
  let i = place_of mini.file_id
  old ← value_or (get_elem? db1.files_list i) throws
  let f = fill langs mini old
  db2 ← link (record db1 { files_list = set db1.files_list i f }) i f
  ok (record db2 {
    files = insert (key f) (record { allocation = db2.allocation; index = i }) db2.files;
  })

add_files : List (ℕ × ℕ) → DieselDb → List MiniFile → Outcome DieselDb
add_files langs db [] = ok db
add_files langs db (mini ∷ minis) = do db' ← add_file langs db mini; add_files langs db' minis

abbrev pub resized : ℕ → DieselDb
resized n = record { files_list = replicate n new_file; allocation = 0; files = []; bundles = [] }

-- `filesList.resize(miniFiles.size())` on the empty database, and the loop.
pub build : List (ℕ × ℕ) → List MiniFile → Outcome DieselDb
build langs minis = add_files langs (resized (length minis)) minis

-- `DieselDB::Find`
unfoldable pub find : DieselDb → ℕ → ℕ → Option FilePtr
find db name ext = lookup (record { name = name; ext = ext }) db.files
