-- ===== src/Datastore/Reads.antt =====
-- What the stores of src/dbutil/Datastore.cpp hand to the reader.
use raid_super_blt.Base.{ℕ, ◌-◌, ◌≡◌, some, List, length, take, min, arith}
use raid_super_blt.Outcome.{ok}
use raid_super_blt.Datastore.{Disk, file_store, string_store, open_file, read}

pub open_file-some :
    (disk : Disk) (path bytes : List ℕ)
    → disk path ≡ some bytes
    → open_file disk path ≡ some (file_store bytes (length bytes))
unfolding open_file
open_file-some disk path bytes e = rw (e, open_file)

-- A string store returns as many bytes as there are behind the position, but takes them from
-- the front of its contents, whatever the position.
pub string_read :
    (contents : List ℕ) (position count : ℕ)
    → read (string_store contents) position count
      ≡ ok (take (min count (length contents - position)) contents)
unfolding read
string_read contents position count = ground arith
