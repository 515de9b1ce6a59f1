-- ===== src/Idstring/FileMap.antt =====
-- std::map keyed by an asset's name and extension, as src/dbutil/DB.h and
-- src/tweaker/db_hooks.cpp use it: at most one entry for a key, found and replaced by key.
use raid_super_blt.Base.{◌≡◌, refl, Option, none, some, List, [], ◌∷◌, if◌then◌else◌, arith}
use raid_super_blt.Idstring.{IdFile, same_file}

abbrev pub FileMap {ℓ} : Type ℓ → Type ℓ
FileMap V = List (IdFile × V)

module _ {ℓ} {V : Type ℓ} where
  -- `find`
  unfoldable pub lookup : IdFile → FileMap V → Option V
  lookup k [] = none
  lookup k ((j, v) ∷ m) = if same_file j k then some v else lookup k m

  -- `map[k] = v`
  unfoldable pub insert : IdFile → V → FileMap V → FileMap V
  insert k v [] = (k, v) ∷ []
  insert k v ((j, w) ∷ m) = if same_file j k then (k, v) ∷ m else (j, w) ∷ insert k v m

  pub lookup-insert :
      (k j : IdFile) (v : V) (m : FileMap V)
      → lookup j (insert k v m) ≡ (if same_file k j then some v else lookup j m)
  unfolding lookup insert
  lookup-insert k j v [] = refl
  lookup-insert k j v ((i, w) ∷ m) = ground (arith, lookup-insert k j v m)
