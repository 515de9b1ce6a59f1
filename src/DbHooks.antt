-- ===== src/DbHooks.antt =====
-- src/tweaker/db_hooks.cpp: the asset hooks that Wren scripts register, and their methods.
pub mod Load
pub mod Registry
pub mod Sources
pub mod Binding
mod Tests
use raid_super_blt.Base.{
  ℕ, Bool, true, false, ◌&&◌, not, Option, none, some, List, [], ◌∷◌, ◌++◌, length, get_elem?, set,
  codes, ◌==◌, if◌then◌else◌,
}
use raid_super_blt.Outcome.{Outcome, ok, stop, aborts, undefined, require, value_or, ◌>>=◌, ◌>>◌}
use raid_super_blt.Idstring.{IdFile, is_empty, no_file}
use raid_super_blt.Idstring.FileMap.{FileMap, lookup, insert}
use raid_super_blt.Idstring.Hex.{print_id, parse_hash}

-- `DBTargetFile`; a Wren handle is a number.
pub record DbTargetFile : Type 0 where
  pub id : IdFile
  pub fallback : Bool
  pub plain_file : Option (List ℕ)
  pub direct_bundle : IdFile
  pub wren_loader_obj : Option ℕ

abbrev pub new_target : IdFile → DbTargetFile
new_target id = record {
  id = id;
  fallback = false;
  plain_file = none;
  direct_bundle = no_file;
  wren_loader_obj = none;
}

-- The shared DBTargetFile objects, `overriddenFiles`, the DBAssetHook objects (none once they are
-- finalised) and the handles that were given to wrenReleaseHandle. Objects are named by their
-- place in the order of their creation.
pub record Hooks : Type 0 where
  pub targets : List DbTargetFile
  pub overridden_files : FileMap ℕ
  pub hooks : List (Option ℕ)
  pub released : List ℕ

abbrev pub no_hooks : Hooks
no_hooks = record { targets = []; overridden_files = []; hooks = []; released = [] }

-- A method of a hook: its result, and what it leaves.
abbrev pub Method {ℓ} : Type ℓ → Type ℓ
Method A = Hooks → Outcome (A × Hooks)

-- A new target for the file, its entry in `overriddenFiles`, and a new hook that shares it.
abbrev pub with_target : IdFile → Hooks → Hooks
with_target file h = record h {
  targets = h.targets ++ new_target file ∷ [];
  overridden_files = insert file (length h.targets) h.overridden_files;
  hooks = h.hooks ++ some (length h.targets) ∷ [];
}

-- `wrenRegisterAssetHook`: the new hook is the result.
unfoldable pub register_asset_hook : List ℕ → List ℕ → Method ℕ
register_asset_hook name_text ext_text h = do
  name ← parse_hash name_text
  ext ← parse_hash ext_text
  let file : IdFile = record { name = name; ext = ext }
  require (elim (lookup file h.overridden_files) [ none ↦ true | some _ ↦ false ]) aborts
  ok (length h.hooks, with_target file h)

-- `get_this`: the place of the target of a hook that is not finalised.
pub get_this : ℕ → Hooks → Outcome (ℕ × DbTargetFile)
get_this hook h = do
  file ← value_or (get_elem? h.hooks hook) undefined
  i ← value_or file undefined
  target ← value_or (get_elem? h.targets i) undefined
  ok (i, target)

abbrev released_by : DbTargetFile → List ℕ
released_by t = elim t.wren_loader_obj [ none ↦ [] | some handle ↦ handle ∷ [] ]

-- `clear_sources`, without the release of the handle
abbrev pub clear_sources : DbTargetFile → DbTargetFile
clear_sources t = record t { plain_file = none; direct_bundle = no_file; wren_loader_obj = none }

-- A method that changes the target only.
abbrev update_this : ℕ → (DbTargetFile → DbTargetFile) → Method (Unit {0})
update_this hook f h = do
  (i, t) ← get_this hook h
  ok (tt, record h { targets = set h.targets i (f t) })

-- A method that calls `clear_sources` and then sets a source.
abbrev replace_source : ℕ → (DbTargetFile → DbTargetFile) → Method (Unit {0})
replace_source hook f h = do
  (i, t) ← get_this hook h
  ok (
    tt,
    record h {
      targets = set h.targets i (f (clear_sources t));
      released = released_by t ++ h.released;
    },
  )

abbrev query {ℓ} : {A : Type ℓ} → ℕ → (DbTargetFile → Outcome A) → Hooks → Outcome A
query hook f h = do (i, t) ← get_this hook h; f t

-- `getFallback`
pub get_fallback : ℕ → Hooks → Outcome Bool
get_fallback hook = query hook (λ t. ok t.fallback)

-- `setFallback`
pub set_fallback : ℕ → Bool → Method (Unit {0})
set_fallback hook b = update_this hook (λ t. record t { fallback = b })

-- The strings that `getMode` returns.
pub data Mode : Type 0 where
  plain_file direct_bundle wren_loader disabled : Mode

pub mode_text : Mode → List ℕ
mode_text plain_file = codes "plain_file"
mode_text direct_bundle = codes "direct_bundle"
mode_text wren_loader = codes "wren_loader"
mode_text disabled = codes "disabled"

-- The ladder of tests of `getMode`.
unfoldable pub mode : DbTargetFile → Mode
mode t = elim t.plain_file [
  | some _ ↦ plain_file
  | none ↦
      if not (is_empty t.direct_bundle)
      then direct_bundle
      else elim t.wren_loader_obj [ some _ ↦ wren_loader | none ↦ disabled ]
]

-- `getMode`
pub get_mode : ℕ → Hooks → Outcome (List ℕ)
get_mode hook = query hook (λ t. ok (mode_text (mode t)))

-- `isEnabled`: `plain_file->empty()` has no meaning on an empty optional.
enabled : DbTargetFile → Outcome Bool
enabled t = elim t.plain_file [
  | none ↦ stop undefined
  | some path ↦ ok (
      (length path == 0)
      && (is_empty t.direct_bundle && elim t.wren_loader_obj [ none ↦ true | some _ ↦ false ]))
]

pub is_enabled : ℕ → Hooks → Outcome Bool
is_enabled hook = query hook enabled

-- `disable`
pub disable : ℕ → Method (Unit {0})
disable hook = replace_source hook (λ t. t)

-- `getPlainFile`; none is the null of Wren.
pub get_plain_file : ℕ → Hooks → Outcome (Option (List ℕ))
get_plain_file hook = query hook (λ t. ok t.plain_file)

-- `setPlainFile`
pub set_plain_file : ℕ → List ℕ → Method (Unit {0})
set_plain_file hook path = replace_source hook (λ t. record t { plain_file = some path })

-- The text that `getDirectBundle` prints: `@%016llx.%016llx`.
pub bundle_text : IdFile → List ℕ
bundle_text f = codes "@" ++ (print_id f.name ++ (codes "." ++ print_id f.ext))

-- `getDirectBundle`
pub get_direct_bundle : ℕ → Hooks → Outcome (Option (List ℕ))
get_direct_bundle hook =
    query hook
      (λ t. ok (if is_empty t.direct_bundle then none else some (bundle_text t.direct_bundle)))

-- `setDirectBundle`; where a text is refused the process has stopped.
pub set_direct_bundle : ℕ → List ℕ → List ℕ → Method (Unit {0})
set_direct_bundle hook name_text ext_text h = do
  (i, t) ← get_this hook h
  name ← parse_hash name_text
  ext ← parse_hash ext_text
  replace_source hook (λ t. record t { direct_bundle = record { name = name; ext = ext } }) h

-- `getWrenLoader`
pub get_wren_loader : ℕ → Hooks → Outcome (Option ℕ)
get_wren_loader hook = query hook (λ t. ok t.wren_loader_obj)

-- `setWrenLoader`; the handle is the one that wrenGetSlotHandle makes.
pub set_wren_loader : ℕ → ℕ → Method (Unit {0})
set_wren_loader hook handle = replace_source hook (λ t. record t { wren_loader_obj = some handle })

-- `DBAssetHook::finalise`: the target itself stays, since `overriddenFiles` shares it.
pub finalise : ℕ → Hooks → Hooks
finalise hook h = record h { hooks = set h.hooks hook none }
