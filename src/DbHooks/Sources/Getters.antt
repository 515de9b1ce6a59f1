-- ===== src/DbHooks/Sources/Getters.antt =====
-- What the getters of src/tweaker/db_hooks.cpp say of a hook's source.
use raid_super_blt.Base.{
  ℕ, ◌<◌, ◌≡◌, refl, subst, Bool, Option, none, some, List, ◌∷◌, ◌++◌, ◌==◌, length, All-get_elem?,
  arith, codes,
}
use raid_super_blt.Outcome.{Outcome, ok, stop, undefined, >>=-eq-ok}
use raid_super_blt.Idstring.{IdFile}
use raid_super_blt.Idstring.Hash.{u64, idstring_hash}
use raid_super_blt.Idstring.Hex.{parse_hash, print_id}
use raid_super_blt.Idstring.Hex.RoundTrip.{parse_hash-print_id, parse_hash-print_id_bare}
use raid_super_blt.DbHooks.{
  DbTargetFile, Hooks, get_this, mode, mode_text, get_mode, get_fallback, get_plain_file,
  get_direct_bundle, get_wren_loader, is_enabled, enabled, bundle_text,
}
use raid_super_blt.DbHooks.Registry.Inversions.{get_this-eq-ok}
use raid_super_blt.DbHooks.Registry.Invariant.{IsWellFormed, IsSingle}
use raid_super_blt.DbHooks.Sources.{
  Source, from_file, from_bundle, from_loader, source_of, observe, mode_name,
}

abbrev file_of : Source → Option (List ℕ)
file_of (from_file path) = some path
file_of _ = none

abbrev bundle_of : Source → Option (List ℕ)
bundle_of (from_bundle file) = some (bundle_text file)
bundle_of _ = none

abbrev loader_of : Source → Option ℕ
loader_of (from_loader handle) = some handle
loader_of _ = none

-- What all the getters say of one source.
pub record Says (hook : ℕ) (h : Hooks) (source : Source) (fallback : Bool) : Type 0 where
  pub says_mode : get_mode hook h ≡ ok (mode_text (mode_name source))
  pub says_fallback : get_fallback hook h ≡ ok fallback
  pub says_plain_file : get_plain_file hook h ≡ ok (file_of source)
  pub says_direct_bundle : get_direct_bundle hook h ≡ ok (bundle_of source)
  pub says_wren_loader : get_wren_loader hook h ≡ ok (loader_of source)

module _ (hook : ℕ) (h : Hooks) (i : ℕ) (t : DbTargetFile) (here : get_this hook h ≡ ok (i, t))
    (one : IsSingle t) where
  target-Says : Says hook h (source_of t) t.fallback
  unfolding get_mode get_fallback get_plain_file get_direct_bundle get_wren_loader mode
  target-Says = record {
    says_mode = rw here (ground arith);
    says_fallback = rw here refl;
    says_plain_file = rw here (ground arith);
    says_direct_bundle = rw here (ground (arith, one.at_most_one));
    says_wren_loader = rw here (ground (arith, one.at_most_one));
  }

-- The observed source is that of the hook's target.
observed :
    (hook : ℕ) (h : Hooks) {source : Source} {b : Bool}
    → observe hook h ≡ ok (source, b)
    → (i : ℕ) × (t : DbTargetFile) × (get_this hook h ≡ ok (i, t))
      × (source_of t ≡ source)
      × (t.fallback ≡ b)
unfolding observe
observed hook h e =
    let ((i, t), p, q) = >>=-eq-ok (get_this hook h) _ e in
    (i, t, p, ground (arith, q), ground (arith, q))

-- In a well-formed state all the getters agree: each returns the value of its own source if that
-- is the hook's source, and null otherwise; the mode names the source.
pub getters_agree :
    (hook : ℕ) (h : Hooks) (source : Source) (b : Bool)
    → IsWellFormed h
    → observe hook h ≡ ok (source, b)
    → Says hook h source b
getters_agree hook h source b w e =
    let (i, t, here, p, q) = observed hook h e in
    subst (λ s. Says hook h s b) p
      (subst (Says hook h (source_of t)) q (
        target-Says hook h i t here
          (All-get_elem? IsSingle h.targets i t w.single (get_this-eq-ok hook h here).1)))

-- What `isEnabled` answers for each source.
abbrev pub enabled_answer : Source → Outcome Bool
enabled_answer (from_file path) = ok (length path == 0)
enabled_answer _ = stop undefined

-- `isEnabled` is defined only on a hook with a plain file, and true only of an empty path.
pub is_enabled_answer :
    (hook : ℕ) (h : Hooks) (source : Source) (b : Bool)
    → IsWellFormed h
    → observe hook h ≡ ok (source, b)
    → is_enabled hook h ≡ enabled_answer source
unfolding is_enabled enabled
is_enabled_answer hook h source b w e =
    let (i, t, here, p, q) = observed hook h e in
    let one = All-get_elem? IsSingle h.targets i t w.single (get_this-eq-ok hook h here).1 in
    subst (λ s. is_enabled hook h ≡ enabled_answer s) p (rw here (ground (arith, one.at_most_one)))

-- The text of a hook's bundle is two ids around a full stop. The first is an id literal for the
-- name, the second has no `@` and is read as a text to hash.
pub bundle_text_parts :
    (hook : ℕ) (h : Hooks) (file : IdFile) (b : Bool)
    → IsWellFormed h
    → observe hook h ≡ ok (from_bundle file, b)
    → file.name < u64
    → (name_part ext_part : List ℕ) × (get_direct_bundle hook h
        ≡ ok (some (name_part ++ (codes "." ++ ext_part))))
      × (parse_hash name_part ≡ ok file.name)
      × (parse_hash ext_part ≡ ok (idstring_hash ext_part))
unfolding bundle_text
bundle_text_parts hook h file b w e fits = (
  64 ∷ print_id file.name,
  print_id file.ext,
  (getters_agree hook h (from_bundle file) b w e).says_direct_bundle,
  parse_hash-print_id file.name fits,
  parse_hash-print_id_bare file.ext,
)
