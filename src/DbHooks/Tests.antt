-- ===== src/DbHooks/Tests.antt =====
-- Runs of the asset hooks of src/tweaker/db_hooks.cpp, on two assets whose names and extensions
-- are id literals, and on a database of one file.
use raid_super_blt.Base.{
  ℕ, ◌≡◌, ◌≤◌, ◌↔◌, refl, Bool, true, false, none, some, List, [], ◌∷◌, ◌++◌, codes, count, arith,
}
use raid_super_blt.Outcome.{ok, stop, aborts}
use raid_super_blt.Idstring.{IdFile}
use raid_super_blt.Idstring.FileMap.{lookup, insert}
use raid_super_blt.Idstring.Hash.{idstring_hash}
use raid_super_blt.Idstring.Hex.{print_id, parse_hash}
use raid_super_blt.Idstring.Hex.RoundTrip.{parse_hash-print_id}
use raid_super_blt.Diesel.{DieselBundle, DslFile, FilePtr, new_file, find, deref}
use raid_super_blt.DbHooks.{
  DbTargetFile, Hooks, no_hooks, new_target, with_target, register_asset_hook, get_this, is_enabled,
  get_direct_bundle, disable, set_plain_file, set_wren_loader, set_direct_bundle,
}
use raid_super_blt.DbHooks.Registry.{
  Call, registers, sets_plain_file, sets_direct_bundle, sets_wren_loader, disables, step, run,
}
use raid_super_blt.DbHooks.Registry.Invariant.{
  IsWellFormed, run-IsWellFormed, no_hooks-IsWellFormed,
}
use raid_super_blt.DbHooks.Registry.Handles.{owned, made_by, run-released_once}
use raid_super_blt.DbHooks.Sources.{Source, from_file, from_bundle, observe, by_plain_file}
use raid_super_blt.DbHooks.Sources.Setters.{observe-set, observe-set_other, observe_at, on_source}
use raid_super_blt.DbHooks.Sources.Getters.{
  Says, getters_agree, is_enabled_answer, enabled_answer, bundle_text_parts,
}
use raid_super_blt.DbHooks.Binding.{
  bind_method, module_name, hook_is_enabled, IsDeclared, bind_method-IsDeclared,
}
use raid_super_blt.DbHooks.Load.{World, Load, returned, hook_asset_load}
use raid_super_blt.DbHooks.Load.Decision.{Declines, Declines-iff, register_is_neutral}
use raid_super_blt.DbHooks.Load.Served.{reads, InBundle, ranged, bundle_item, hook_serves}
use raid_super_blt.DbHooks.Registry.Once.{register_twice}

abbrev literal : ℕ → List ℕ
literal n = 64 ∷ print_id n

abbrev asset : IdFile
asset = record { name = 5; ext = 7 }

abbrev item : IdFile
item = record { name = 8; ext = 9 }

abbrev stored : DslFile
stored = record new_file {
  name = 8;
  type = 9;
  file_id = 1;
  bundle = some 0;
  offset = 1;
  length = 2;
}

abbrev pointer : FilePtr
pointer = record { allocation = 0; index = 0 }

abbrev bundle_on_disk : DieselBundle
bundle_on_disk = record {
  path = 1 ∷ [];
  header_path = [];
  decompressed_file_size = 0;
  chunk_offsets = [];
}

abbrev world : World
world = record {
  disk = λ path. some (1 ∷ 2 ∷ 3 ∷ 4 ∷ []);
  db = record {
    files_list = stored ∷ [];
    allocation = 0;
    files = (item, pointer) ∷ [];
    bundles = bundle_on_disk ∷ [];
  };
  wren_call = λ handle name ext. returned none;
}

-- One asset registered, both, and the second with a source.
abbrev registered : Hooks
registered = with_target asset no_hooks

abbrev both : Hooks
both = with_target item registered

abbrev target : DbTargetFile
target = record (new_target asset) { direct_bundle = item }

abbrev hooked : Hooks
hooked = record registered { targets = target ∷ [] }

abbrev registration : Call
registration = registers (literal 5) (literal 7)

register_run : run no_hooks (registration ∷ []) ≡ ok registered
unfolding run step register_asset_hook lookup
register_run = rw (parse_hash-print_id 5 (omega arith), parse_hash-print_id 7 (omega arith)) refl

registered-IsWellFormed : IsWellFormed registered
registered-IsWellFormed =
    run-IsWellFormed no_hooks registered (registration ∷ []) no_hooks-IsWellFormed register_run

both-IsWellFormed : IsWellFormed both
unfolding run step register_asset_hook lookup insert
both-IsWellFormed =
    run-IsWellFormed registered both (registers (literal 8) (literal 9) ∷ [])
      registered-IsWellFormed second
  where
    second : run registered (registers (literal 8) (literal 9) ∷ []) ≡ ok both
    second = rw (parse_hash-print_id 8 (omega arith), parse_hash-print_id 9 (omega arith)) refl

set_run : step registered (sets_direct_bundle 0 (literal 8) (literal 9)) ≡ ok hooked
unfolding step get_this set_direct_bundle
set_run = rw (parse_hash-print_id 8 (omega arith), parse_hash-print_id 9 (omega arith)) refl

hooked-IsWellFormed : IsWellFormed hooked
unfolding run
hooked-IsWellFormed =
    run-IsWellFormed registered hooked (sets_direct_bundle 0 (literal 8) (literal 9) ∷ [])
      registered-IsWellFormed set_alone
  where
    set_alone : run registered (sets_direct_bundle 0 (literal 8) (literal 9) ∷ []) ≡ ok hooked
    set_alone = rw set_run refl

stored_bytes : InBundle world item stored (1 ∷ 2 ∷ 3 ∷ 4 ∷ [])
unfolding find deref lookup
stored_bytes = record {
  ptr = pointer;
  found_at = refl;
  pointed = refl;
  bundle_id = 0;
  in_bundle = refl;
  bundle = bundle_on_disk;
  allocated = refl;
  on_disk = refl;
}

hook_serves_example :
    (l : Load) × (hook_asset_load world hooked asset false ≡ ok (some l))
    × (reads l ≡ ok (2 ∷ 3 ∷ []))
unfolding lookup insert
hook_serves_example =
    hook_serves world hooked asset false 0 target (from_bundle item) (2 ∷ 3 ∷ []) refl refl refl
      refl
      (bundle_item item (2 ∷ 3 ∷ [])
        (ranged stored (1 ∷ 2 ∷ 3 ∷ 4 ∷ []) stored_bytes refl (omega arith)))

Declines-iff_example :
    (hook_asset_load world registered asset false ≡ ok none) ↔ Declines registered asset false
Declines-iff_example = Declines-iff world registered asset false registered-IsWellFormed

run-IsWellFormed_example : IsWellFormed registered
run-IsWellFormed_example =
    run-IsWellFormed no_hooks registered (registration ∷ []) no_hooks-IsWellFormed register_run

abbrev after_plain : Hooks
after_plain = record both {
  targets = record (new_target asset) { plain_file = some (1 ∷ []) } ∷ new_target item ∷ [];
}

plain_run : step both (sets_plain_file 0 (1 ∷ [])) ≡ ok after_plain
unfolding step get_this set_plain_file
plain_run = refl

observe-set_example :
    (old : Source) × (b : Bool) × (observe 0 both ≡ ok (old, b))
    × (observe 0 after_plain ≡ ok (from_file (1 ∷ []), b))
observe-set_example =
    observe-set both after_plain (sets_plain_file 0 (1 ∷ [])) 0 (from_file (1 ∷ []))
      (by_plain_file 0 (1 ∷ [])) plain_run

observe-set_other_example : observe 1 after_plain ≡ observe 1 both
observe-set_other_example =
    observe-set_other both after_plain (sets_plain_file 0 (1 ∷ [])) 0 1 both-IsWellFormed
      (on_source (sets_plain_file 0 (1 ∷ [])) 0 (from_file (1 ∷ [])) (by_plain_file 0 (1 ∷ [])))
      (λ e. absurd (omega arith)) plain_run

getters_agree_example : Says 0 hooked (from_bundle item) false
getters_agree_example =
    getters_agree 0 hooked (from_bundle item) false hooked-IsWellFormed
      (observe_at 0 hooked 0 target refl refl)

is_enabled_answer_example : is_enabled 0 hooked ≡ enabled_answer (from_bundle item)
is_enabled_answer_example =
    is_enabled_answer 0 hooked (from_bundle item) false hooked-IsWellFormed
      (observe_at 0 hooked 0 target refl refl)

bundle_text_parts_example :
    (name_part ext_part : List ℕ) × (get_direct_bundle 0 hooked
      ≡ ok (some (name_part ++ (codes "." ++ ext_part))))
    × (parse_hash name_part ≡ ok 8)
    × (parse_hash ext_part ≡ ok (idstring_hash ext_part))
bundle_text_parts_example =
    bundle_text_parts 0 hooked item false hooked-IsWellFormed
      (observe_at 0 hooked 0 target refl refl) (omega arith)

register_one : register_asset_hook (literal 5) (literal 7) no_hooks ≡ ok (0, registered)
unfolding register_asset_hook lookup
register_one = rw (parse_hash-print_id 5 (omega arith), parse_hash-print_id 7 (omega arith)) refl

-- The key again, after a call on its hook.
register_twice_example : register_asset_hook (literal 5) (literal 7) hooked ≡ stop aborts
unfolding run
register_twice_example =
    register_twice no_hooks registered hooked (literal 5) (literal 7) (literal 5) (literal 7) 0
      (sets_direct_bundle 0 (literal 8) (literal 9) ∷ []) register_one set_alone refl refl
  where
    set_alone : run registered (sets_direct_bundle 0 (literal 8) (literal 9) ∷ []) ≡ ok hooked
    set_alone = rw set_run refl

register_is_neutral_example :
    hook_asset_load world registered asset true ≡ hook_asset_load world no_hooks asset true
register_is_neutral_example =
    register_is_neutral world no_hooks registered (literal 5) (literal 7) 0 asset true
      no_hooks-IsWellFormed register_one

abbrev handle_calls : List Call
handle_calls = registration ∷ sets_wren_loader 0 3 ∷ disables 0 ∷ []

abbrev handle_state : Hooks
handle_state = record registered { released = 3 ∷ [] }

handle_run : run no_hooks handle_calls ≡ ok handle_state
unfolding run step register_asset_hook lookup get_this disable set_wren_loader
handle_run = rw (parse_hash-print_id 5 (omega arith), parse_hash-print_id 7 (omega arith)) refl

run-released_once_example : count 3 (owned handle_state) ≤ 1
unfolding made_by
run-released_once_example =
    run-released_once handle_state handle_calls (λ a. ground arith) handle_run 3

bind_method-IsDeclared_example :
    (bind_method module_name (codes "DBAssetHook") false (codes "enabled") ≡ some hook_is_enabled)
    ↔ ((module_name ≡ module_name)
        × IsDeclared (codes "DBAssetHook") false (codes "enabled") hook_is_enabled)
bind_method-IsDeclared_example =
    bind_method-IsDeclared module_name (codes "DBAssetHook") false (codes "enabled") hook_is_enabled
