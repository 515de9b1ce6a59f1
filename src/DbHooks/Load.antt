-- ===== src/DbHooks/Load.antt =====
-- `hook_asset_load` of src/tweaker/db_hooks.cpp: what the game reads in place of an asset.
pub mod Decision
pub mod Served
use raid_super_blt.Base.{
  ℕ, ◌+◌, ◌-◌, ◌%◌, Bool, true, false, ◌&&◌, not, Option, none, some, List, get_elem?,
  if◌then◌else◌,
}
use raid_super_blt.Outcome.{Outcome, ok, stop, exits, undefined, value_or, ◌>>=◌}
use raid_super_blt.Idstring.{IdFile, is_empty}
use raid_super_blt.Idstring.FileMap.{lookup}
use raid_super_blt.Idstring.Hash.{u64}
use raid_super_blt.Idstring.Hex.{print_id}
use raid_super_blt.Datastore.{Disk, Store, string_store, open_file, size}
use raid_super_blt.Diesel.{DieselDb, DieselBundle, DslFile, find, deref, has_length}
use raid_super_blt.DbHooks.{DbTargetFile, Hooks}

-- `DBForeignFile`; its fields are empty until a factory sets one of them, since Wren zeroes the
-- memory of a new foreign object.
pub record DbForeignFile : Type 0 where
  pub filename : Option (List ℕ)
  pub asset : IdFile
  pub string_literal : Option (List ℕ)

abbrev blank_file : DbForeignFile
blank_file = record { filename = none; asset = record { name = 0; ext = 0 }; string_literal = none }

-- `ofFile`, `ofAsset` (with the hashed name and extension) and `fromString`
unfoldable pub of_file : List ℕ → DbForeignFile
of_file name = record blank_file { filename = some name }

unfoldable pub of_asset : IdFile → DbForeignFile
of_asset file = record blank_file { asset = file }

unfoldable pub from_string : List ℕ → DbForeignFile
from_string contents = record blank_file { string_literal = some contents }

-- The result of wrenCall and of the slot that it leaves: an error, or the object returned, none
-- if that is null or has not the magic cookie.
pub data CallResult : Type 0 where
  call_error : CallResult
  returned : Option DbForeignFile → CallResult

-- What lies outside the hooks: the files on disk, the bundle database, and the VM, which calls
-- `load_file(_,_)` of a handle's object with two texts.
pub record World : Type 0 where
  pub disk : Disk
  pub db : DieselDb
  pub wren_call : ℕ → List ℕ → List ℕ → CallResult

-- The values of `out_datastore`, `out_pos` and `out_len`.
pub record Load : Type 0 where
  pub datastore : Option Store
  pub pos : ℕ
  pub len : ℕ

-- The lambda `load_file`
pub load_file : World → List ℕ → Outcome Load
load_file w filename = do
  ds ← value_or (open_file w.disk filename) exits
  ok (record { datastore = some ds; pos = 0; len = size ds })

-- `DieselDB::Open` of the bundle of a file
pub open_bundle : World → Option ℕ → Outcome (Option Store)
open_bundle w bundle = do
  b ← value_or bundle undefined
  contents ← value_or (get_elem? w.db.bundles b) undefined
  ok (open_file w.disk contents.path)

-- The range of a file in its opened bundle; an end-of-file asset reaches to the end of the store.
pub bundle_range : DslFile → Option Store → Outcome Load
bundle_range file ds =
    if has_length file
    then ok (record { datastore = ds; pos = file.offset; len = file.length })
    else do
      store ← value_or ds undefined
      ok (record {
        datastore = ds;
        pos = file.offset;
        len = (size store + u64 - file.offset) % u64;
      })

-- The lambda `load_bundle_item`
pub load_bundle_item : World → IdFile → Outcome Load
load_bundle_item w item = do
  ptr ← value_or (find w.db item.name item.ext) exits
  file ← deref w.db ptr
  ds ← open_bundle w file.bundle
  bundle_range file ds

-- The contents that a DBForeignFile stands for.
load_foreign : World → DbForeignFile → Outcome Load
load_foreign w ff = elim ff.filename [
  | some name ↦ load_file w name
  | none ↦ if not (is_empty ff.asset) then load_bundle_item w ff.asset else elim ff.string_literal [
    | some contents ↦ ok (record {
      datastore = some (string_store contents);
      pos = 0;
      len = size (string_store contents);
    })
    | none ↦ stop exits
  ]
]

-- The branch of a Wren loader.
load_wren : World → ℕ → IdFile → Outcome Load
load_wren w handle asset = elim (w.wren_call handle (print_id asset.name) (print_id asset.ext)) [
  | call_error ↦ stop exits
  | returned result ↦ do ff ← value_or result exits; load_foreign w ff
]

-- The ladder over the sources of a target; none where it has no source.
pub load_target : World → DbTargetFile → IdFile → Outcome (Option Load)
load_target w t asset = elim t.plain_file [
  | some path ↦ do l ← load_file w path; ok (some l)
  | none ↦
      if not (is_empty t.direct_bundle)
      then (do l ← load_bundle_item w t.direct_bundle; ok (some l))
      else elim t.wren_loader_obj [
        | some handle ↦ do l ← load_wren w handle asset; ok (some l)
        | none ↦ ok none
      ]
]

-- `hook_asset_load`; none is the result false, the asset is not overridden.
pub hook_asset_load : World → Hooks → IdFile → Bool → Outcome (Option Load)
hook_asset_load w h asset fallback_mode = elim (lookup asset h.overridden_files) [
  | none ↦ ok none
  | some i ↦ do
    target ← value_or (get_elem? h.targets i) undefined
    if target.fallback && not fallback_mode then ok none else load_target w target asset
]
