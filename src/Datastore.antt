-- ===== src/Datastore.antt =====
-- src/dbutil/Datastore.cpp: the data stores that the game reads assets from.
pub mod Reads
mod Tests
use raid_super_blt.Base.{
  ℕ, ◌-◌, Bool, true, false, Option, none, some, List, [], length, take, drop, leb, ltb, ◌==◌,
  if◌then◌else◌,
}
use raid_super_blt.Outcome.{Outcome, ok, stop, aborts, require, ◌>>=◌, ◌>>◌}

-- BLTFileDataStore and BLTStringDataStore. A file store holds the bytes that its descriptor
-- reads and the size that Open found; a string store holds its contents.
pub data Store : Type 0 where
  file_store : List ℕ → ℕ → Store
  string_store : List ℕ → Store

-- The files that open(2) can open, with their bytes.
abbrev pub Disk : Type 0
Disk = List ℕ → Option (List ℕ)

-- `BLTFileDataStore::Open`: null if the file cannot be opened.
unfoldable pub open_file : Disk → List ℕ → Option Store
open_file disk path = elim (disk path) [
  | none ↦ none
  | some bytes ↦ some (file_store bytes (length bytes))
]

-- `size`
unfoldable pub size : Store → ℕ
size (file_store bytes file_size) = file_size
size (string_store contents) = length contents

-- `read`: the bytes that are written to `data`; the code returns how many they are.
unfoldable pub read : Store → ℕ → ℕ → Outcome (List ℕ)
read (file_store bytes file_size) position count =
    let got = take count (drop position bytes) in require (length got == count) aborts >> ok got
read (string_store contents) position count =
    if leb (length contents) position
    then ok []
    else let remaining = length contents - position in
      let count' = if ltb remaining count then remaining else count in ok (take count' contents)

-- `close`, `write`, `set_asynchronous_completion_callback` and `state` abort on every store.
unfoldable pub close : Store → Outcome Bool
close store = stop aborts

-- `good`
unfoldable pub good : Store → Outcome Bool
good (file_store bytes file_size) = stop aborts
good (string_store contents) = ok true

-- `is_asynchronous`
unfoldable pub is_asynchronous : Store → Bool
is_asynchronous store = false
