-- ===== src/DbHooks/Sources.antt =====
-- The abstract view of a hook of src/tweaker/db_hooks.cpp: where its asset comes from, and
-- whether it is a fallback. The comments of wren/DB_001.wren describe the hooks in these terms.
pub mod Setters
pub mod Getters
use raid_super_blt.Base.{
  ℕ, ◌≡◌, Bool, true, false, not, Option, none, some, List, ◌==◌, length, if◌then◌else◌,
}
use raid_super_blt.Outcome.{Outcome, ok, stop, undefined, ◌>>=◌}
use raid_super_blt.Idstring.{IdFile, is_empty}
use raid_super_blt.Idstring.Hex.{parse_hash}
use raid_super_blt.DbHooks.{
  DbTargetFile, Hooks, get_this, query, Mode, plain_file, direct_bundle, wren_loader, disabled,
}
use raid_super_blt.DbHooks.Registry.{
  Call, disables, sets_plain_file, sets_direct_bundle, sets_wren_loader,
}

pub data Source : Type 0 where
  nothing : Source
  from_file : List ℕ → Source
  from_bundle : IdFile → Source
  from_loader : ℕ → Source

-- The first source that is set, in the order in which the code looks.
abbrev pub source_of : DbTargetFile → Source
source_of t = elim t.plain_file [
  | some path ↦ from_file path
  | none ↦
      if not (is_empty t.direct_bundle)
      then from_bundle t.direct_bundle
      else elim t.wren_loader_obj [ some handle ↦ from_loader handle | none ↦ nothing ]
]

-- What can be seen of a hook.
pub observe : ℕ → Hooks → Outcome (Source × Bool)
observe hook = query hook (λ t. ok (source_of t, t.fallback))

abbrev pub mode_name : Source → Mode
mode_name nothing = disabled
mode_name (from_file path) = plain_file
mode_name (from_bundle file) = direct_bundle
mode_name (from_loader handle) = wren_loader

-- `Sets c hook source`: the call sets the source of the hook.
pub data Sets : Call → ℕ → Source → Type 0 where
  by_disable : (hook : ℕ) → Sets (disables hook) hook nothing
  by_plain_file :
      (hook : ℕ) (path : List ℕ) → Sets (sets_plain_file hook path) hook (from_file path)
  by_direct_bundle :
      (hook : ℕ) (name_text ext_text : List ℕ) (file : IdFile)
      → parse_hash name_text ≡ ok file.name
      → parse_hash ext_text ≡ ok file.ext
      → is_empty file ≡ false
      → Sets (sets_direct_bundle hook name_text ext_text) hook (from_bundle file)
  by_wren_loader : (hook handle : ℕ) → Sets (sets_wren_loader hook handle) hook (from_loader handle)
