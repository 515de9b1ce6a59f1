-- ===== src/DbHooks/Load/Served.antt =====
-- What the game reads through `hook_asset_load` of src/tweaker/db_hooks.cpp.
use raid_super_blt.Base.{
  ℕ, ◌+◌, ◌-◌, ◌%◌, ◌≤◌, ◌<◌, ◌≡◌, refl, ap, ◌∙◌, Bool, true, false, not, ◌&&◌, Option, none, some,
  List, [], ◌∷◌, get_elem?, length, take, drop, take_all, length-take, length-drop, arith,
}
use raid_super_blt.Outcome.{Outcome, ok, undefined, value_or, ◌>>=◌}
use raid_super_blt.Idstring.{IdFile, is_empty}
use raid_super_blt.Idstring.FileMap.{lookup}
use raid_super_blt.Idstring.Hash.{u64}
use raid_super_blt.Idstring.Hex.{print_id}
use raid_super_blt.Datastore.{string_store, file_store, size, read}
use raid_super_blt.Datastore.Reads.{open_file-some}
use raid_super_blt.Diesel.{DieselBundle, DslFile, FilePtr, find, deref, has_length}
use raid_super_blt.DbHooks.{DbTargetFile, Hooks}
use raid_super_blt.DbHooks.Sources.{Source, nothing, from_file, from_bundle, from_loader, source_of}
use raid_super_blt.DbHooks.Load.{
  World, Load, returned, of_file, of_asset, from_string, load_file, open_bundle, load_bundle_item,
  bundle_range, load_foreign, load_wren, load_target, hook_asset_load,
}
use raid_super_blt.DbHooks.Load.Decision.{hook_asset_load_registered}

-- What the game gets when it reads the whole range that it is given.
pub reads : Load → Outcome (List ℕ)
reads l = do store ← value_or l.datastore undefined; read store l.pos l.len

-- A file of the bundle database whose bundle is on disk with these bytes.
pub record InBundle (w : World) (item : IdFile) (file : DslFile) (bytes : List ℕ) : Type 0 where
  pub ptr : FilePtr
  pub found_at : find w.db item.name item.ext ≡ some ptr
  pub pointed : deref w.db ptr ≡ ok file
  pub bundle_id : ℕ
  pub in_bundle : file.bundle ≡ some bundle_id
  pub bundle : DieselBundle
  pub allocated : get_elem? w.db.bundles bundle_id ≡ some bundle
  pub on_disk : w.disk bundle.path ≡ some bytes

-- `BundleItem w item bytes`: the bytes of a file in the database. A file without a length reaches
-- to the end of its bundle.
pub data BundleItem (w : World) (item : IdFile) : List ℕ → Type 0 where
  ranged :
      (file : DslFile) (bytes : List ℕ)
      → InBundle w item file bytes
      → has_length file ≡ true
      → file.offset + file.length ≤ length bytes
      → BundleItem w item (take file.length (drop file.offset bytes))
  end_of_file :
      (file : DslFile) (bytes : List ℕ)
      → InBundle w item file bytes
      → has_length file ≡ false
      → file.offset ≤ length bytes
      → length bytes < u64
      → BundleItem w item (drop file.offset bytes)

-- `Provides w asset source bytes`: the bytes that a source stands for.
pub data Provides (w : World) (asset : IdFile) : Source → List ℕ → Type 0 where
  disk_file :
      (path bytes : List ℕ) → w.disk path ≡ some bytes → Provides w asset (from_file path) bytes
  bundle_item :
      (item : IdFile) (bytes : List ℕ)
      → BundleItem w item bytes
      → Provides w asset (from_bundle item) bytes
  loader_file :
      (handle : ℕ) (path bytes : List ℕ)
      → w.wren_call handle (print_id asset.name) (print_id asset.ext)
        ≡ returned (some (of_file path))
      → w.disk path ≡ some bytes
      → Provides w asset (from_loader handle) bytes
  loader_item :
      (handle : ℕ) (item : IdFile) (bytes : List ℕ)
      → w.wren_call handle (print_id asset.name) (print_id asset.ext)
        ≡ returned (some (of_asset item))
      → is_empty item ≡ false
      → BundleItem w item bytes
      → Provides w asset (from_loader handle) bytes
  loader_string :
      (handle : ℕ) (bytes : List ℕ)
      → w.wren_call handle (print_id asset.name) (print_id asset.ext)
        ≡ returned (some (from_string bytes))
      → Provides w asset (from_loader handle) bytes

-- A load that succeeds and reads as the bytes.
abbrev Serves : Outcome Load → List ℕ → Type 0
Serves m bytes = (l : Load) × (m ≡ ok l) × (reads l ≡ ok bytes)

file_reads : (bytes : List ℕ) → read (file_store bytes (length bytes)) 0 (length bytes) ≡ ok bytes
unfolding read
file_reads bytes = ground (arith, take_all (length bytes) bytes)

load_file-Serves :
    (w : World) (path bytes : List ℕ) → w.disk path ≡ some bytes → Serves (load_file w path) bytes
unfolding load_file reads size
load_file-Serves w path bytes e = (
  record { datastore = some (file_store bytes (length bytes)); pos = 0; len = length bytes },
  rw (open_file-some w.disk path bytes e),
  file_reads bytes,
)

rest_reads :
    (bytes : List ℕ) (offset : ℕ)
    → offset ≤ length bytes
    → length bytes < u64
    → read (file_store bytes (length bytes)) offset ((length bytes + u64 - offset) % u64)
      ≡ ok (drop offset bytes)
unfolding read
rest_reads bytes offset fits small =
    let whole =
      take_all ((length bytes + u64 - offset) % u64) (drop offset bytes)
        (omega (arith, length-drop offset bytes)) in
    ground (arith, whole, length-drop offset bytes)

module _ (w : World) (item : IdFile) (file : DslFile) (bytes : List ℕ)
    (b : InBundle w item file bytes) where
  opened : open_bundle w file.bundle ≡ ok (some (file_store bytes (length bytes)))
  unfolding open_bundle
  opened =
      ap (open_bundle w) b.in_bundle
      ∙ rw (b.allocated, open_file-some w.disk b.bundle.path bytes b.on_disk)

  bundle_store :
      load_bundle_item w item ≡ bundle_range file (some (file_store bytes (length bytes)))
  unfolding load_bundle_item
  bundle_store = rw (b.found_at, b.pointed, opened)

  ranged-Serves :
      has_length file ≡ true
      → file.offset + file.length ≤ length bytes
      → Serves (load_bundle_item w item) (take file.length (drop file.offset bytes))
  unfolding bundle_range reads read
  ranged-Serves known fits = (
    record {
      datastore = some (file_store bytes (length bytes));
      pos = file.offset;
      len = file.length;
    },
    bundle_store ∙ ground (arith, known),
    ground (arith, length-take file.length (drop file.offset bytes), length-drop file.offset bytes),
  )

  end-Serves :
      has_length file ≡ false
      → file.offset ≤ length bytes
      → length bytes < u64
      → Serves (load_bundle_item w item) (drop file.offset bytes)
  unfolding bundle_range reads read size
  end-Serves unknown fits small = (
    record {
      datastore = some (file_store bytes (length bytes));
      pos = file.offset;
      len = (length bytes + u64 - file.offset) % u64;
    },
    bundle_store ∙ ground (arith, unknown),
    rest_reads bytes file.offset fits small,
  )

load_bundle_item-Serves :
    (w : World) (item : IdFile) (bytes : List ℕ)
    → BundleItem w item bytes
    → Serves (load_bundle_item w item) bytes
load_bundle_item-Serves w item bytes (ranged file stored b known fits) =
    ranged-Serves w item file stored b known fits
load_bundle_item-Serves w item bytes (end_of_file file stored b unknown fits small) =
    end-Serves w item file stored b unknown fits small

string_reads : (bytes : List ℕ) → read (string_store bytes) 0 (size (string_store bytes)) ≡ ok bytes
unfolding read size
string_reads [] = refl
string_reads (x ∷ bytes) = ground (arith, take_all (length (x ∷ bytes)) (x ∷ bytes))

Serves-some :
    (m : Outcome Load) (bytes : List ℕ)
    → Serves m bytes
    → (l : Load) × ((m >>= λ (l : Load). ok (some l)) ≡ ok (some l)) × (reads l ≡ ok bytes)
Serves-some m bytes (l, e, r) = (l, rw e, r)

load_wren-Serves :
    (w : World) (asset : IdFile) (handle : ℕ) (bytes : List ℕ)
    → Provides w asset (from_loader handle) bytes
    → Serves (load_wren w handle asset) bytes
unfolding load_wren load_foreign of_file of_asset from_string reads
load_wren-Serves w asset handle bytes (loader_file handle' path bytes' e d) =
    let (l, p, r) = load_file-Serves w path bytes d in (l, rw (e, load_wren) p, r)
load_wren-Serves w asset handle bytes (loader_item handle' item bytes' e full b) =
    let (l, p, r) = load_bundle_item-Serves w item bytes b in (l, rw (e, load_wren) (rw full p), r)
load_wren-Serves w asset handle bytes (loader_string handle' bytes' e) = (
  record { datastore = some (string_store bytes); pos = 0; len = size (string_store bytes) },
  rw (e, load_wren) refl,
  string_reads bytes,
)

-- The ladder of the code, as a function of the source.
load_source : World → IdFile → Source → Outcome (Option Load)
load_source w asset nothing = ok none
load_source w asset (from_file path) = do l ← load_file w path; ok (some l)
load_source w asset (from_bundle item) = do l ← load_bundle_item w item; ok (some l)
load_source w asset (from_loader handle) = do l ← load_wren w handle asset; ok (some l)

load_target_source :
    (w : World) (t : DbTargetFile) (asset : IdFile)
    → load_target w t asset ≡ load_source w asset (source_of t)
unfolding load_target load_source
load_target_source w t asset = ground arith

load_source_serves :
    (w : World) (asset : IdFile) (source : Source) (bytes : List ℕ)
    → Provides w asset source bytes
    → (l : Load) × (load_source w asset source ≡ ok (some l)) × (reads l ≡ ok bytes)
unfolding load_source
load_source_serves w asset source bytes (disk_file path bytes' d) =
    Serves-some (load_file w path) bytes (load_file-Serves w path bytes d)
load_source_serves w asset source bytes (bundle_item item bytes' b) =
    Serves-some (load_bundle_item w item) bytes (load_bundle_item-Serves w item bytes b)
load_source_serves w asset source bytes (loader_file handle path bytes' e d) =
    Serves-some (load_wren w handle asset) bytes
      (load_wren-Serves w asset handle bytes (loader_file handle path bytes e d))
load_source_serves w asset source bytes (loader_item handle item bytes' e full b) =
    Serves-some (load_wren w handle asset) bytes
      (load_wren-Serves w asset handle bytes (loader_item handle item bytes e full b))
load_source_serves w asset source bytes (loader_string handle bytes' e) =
    Serves-some (load_wren w handle asset) bytes
      (load_wren-Serves w asset handle bytes (loader_string handle bytes e))

-- The game reads the bytes that the source of the asset's target stands for, whichever source
-- that is, unless the target waits for the game's own file.
pub hook_serves :
    (w : World) (h : Hooks) (asset : IdFile) (fallback_mode : Bool) (i : ℕ) (t : DbTargetFile)
    (source : Source) (bytes : List ℕ)
    → lookup asset h.overridden_files ≡ some i
    → get_elem? h.targets i ≡ some t
    → (t.fallback && not fallback_mode) ≡ false
    → source_of t ≡ source
    → Provides w asset source bytes
    → (l : Load) × (hook_asset_load w h asset fallback_mode ≡ ok (some l)) × (reads l ≡ ok bytes)
hook_serves w h asset fallback_mode i t source bytes at_key here goes from p =
    let (l, e, r) = load_source_serves w asset source bytes p in
    (
      l,
      hook_asset_load_registered w h asset fallback_mode at_key here
          ∙ ground (arith, goes, load_target_source w t asset, ap (load_source w asset) from, e),
      r,
    )
