-- ===== src/Datastore/Tests.antt =====
-- Runs of the stores of src/dbutil/Datastore.cpp.
use raid_super_blt.Base.{ℕ, ◌≡◌, List, [], ◌∷◌}
use raid_super_blt.Outcome.{ok}
use raid_super_blt.Datastore.{string_store, read}
use raid_super_blt.Datastore.Reads.{string_read}

abbrev bytes : List ℕ
bytes = 1 ∷ 2 ∷ 3 ∷ 4 ∷ []

-- Reading from the third byte on gives the first two.
string_read_example : read (string_store bytes) 2 9 ≡ ok (1 ∷ 2 ∷ [])
string_read_example = string_read bytes 2 9
