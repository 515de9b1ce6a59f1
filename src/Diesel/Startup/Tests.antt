-- ===== src/Diesel/Startup/Tests.antt =====
-- File names as src/dbutil/DB.cpp meets them in the assets folder.
use raid_super_blt.Base.{
  ap, get_or, arith, ◌≡◌, refl, not, inl, inr, none, some, [], ◌∷◌, codes, same_text,
}
use raid_super_blt.Diesel.Startup.{is_header, data_path, start}
use raid_super_blt.Diesel.Startup.Names.{header_names}
use raid_super_blt.Diesel.Startup.BlbFile.{IsBlb, start-last}
use raid_super_blt.Datastore.{Disk}
use raid_super_blt.Outcome.{stop, io_fails}

header_names_example :
    (is_header (codes "0c_h.bundle") ≡ not (same_text (codes "0c_h.bundle") (codes "all_h.bundle")))
    × (data_path (codes "0c_h.bundle") ≡ codes "assets/0c.bundle")
header_names_example = header_names (codes "0c") (λ e. cc)

abbrev no_files : Disk
no_files path = none

-- Two names of databases, of which the second cannot be opened.
start-last_example :
    start
      (λ packed size. none)
      no_files
      (codes "all.blb" ∷ codes "bundle_db.blb" ∷ codes "cash.bundle" ∷ [])
    ≡ stop io_fails
start-last_example =
    start-last (λ packed size. none) no_files _ (some (codes "bundle_db.blb"))
      (
        codes "all.blb" ∷ [],
        codes "cash.bundle" ∷ [],
        refl,
        ((codes "bundle_db", λ e. cc, refl), inr (codes ".blb", refl)),
        (cash, tt),
      )
  where
    cash : ¬ IsBlb (codes "cash.bundle")
    cash ((base, some_base, e), inl (rest, p)) = omega (arith, ap (λ t. get_or t 0 0) p)
    cash ((base, some_base, e), inr (rest, p)) = omega (arith, ap (λ t. get_or t 0 0) p)
