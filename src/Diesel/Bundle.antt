-- ===== src/Diesel/Bundle.antt =====
-- loadPackageBundle and loadBundle of src/dbutil/DB.cpp: the chunks of a bundle file.
pub mod Packed
mod Tests
use raid_super_blt.Base.{
  ℕ, zero, suc, ◌+◌, ◌-◌, ◌^◌, Option, none, some, List, [], ◌∷◌, length, ltb, if◌then◌else◌,
  read_le?,
}
use raid_super_blt.Outcome.{Outcome, ok, stop, io_fails, undefined, value_or, ◌>>=◌}
use raid_super_blt.Datastore.{Disk}
use raid_super_blt.Diesel.{DieselBundle}

-- `while (in.tellg() < fileSize)`, on fuel; a seek past the end is allowed and ends the loop.
pub chunk_offsets_from : ℕ → List ℕ → ℕ → Outcome (List ℕ)
chunk_offsets_from zero fi pos = stop undefined
chunk_offsets_from (suc fuel) fi pos =
    let more = value_or (read_le? pos 4 fi) io_fails >>= λ compressed_size.
    chunk_offsets_from fuel fi (pos + 4 + compressed_size) >>= λ rest. ok (pos ∷ rest) in
    if ltb pos (length fi) then more else ok []

-- `loadPackageBundle`: the new bundle, whose paths are set later.
pub load_package_bundle : Disk → List ℕ → Outcome DieselBundle
load_package_bundle disk data_path = do
  fi ← value_or (disk data_path) io_fails
  decompressed_file_size ← value_or (read_le? 0 8 fi) io_fails
  chunk_offsets ← chunk_offsets_from (suc (length fi)) fi 8
  ok (record {
    path = [];
    header_path = [];
    decompressed_file_size = decompressed_file_size;
    chunk_offsets = chunk_offsets;
  })

-- `loadBundle`: the size is ~0, which is an int before it is widened.
pub load_bundle : DieselBundle
load_bundle = record {
  path = [];
  header_path = [];
  decompressed_file_size = 2 ^ 64 - 1;
  chunk_offsets = [];
}
