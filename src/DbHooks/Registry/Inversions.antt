-- ===== src/DbHooks/Registry/Inversions.antt =====
-- What a successful call on the hooks of src/tweaker/db_hooks.cpp has done.
use raid_super_blt.Base.{
  ℕ, ◌≡◌, refl, Bool, true, false, Option, none, some, List, ◌++◌, get_elem?, set, length, arith,
}
use raid_super_blt.Outcome.{ok, aborts, >>=-eq-ok, require, require-eq-ok}
use raid_super_blt.Idstring.{IdFile}
use raid_super_blt.Idstring.FileMap.{lookup}
use raid_super_blt.Idstring.Hex.{parse_hash}
use raid_super_blt.DbHooks.{
  DbTargetFile, Hooks, get_this, update_this, replace_source, clear_sources, released_by,
  with_target, register_asset_hook, set_direct_bundle,
}

pub get_this-eq-ok :
    (hook : ℕ) (h : Hooks) {i : ℕ} {t : DbTargetFile}
    → get_this hook h ≡ ok (i, t)
    → (get_elem? h.hooks hook ≡ some (some i)) × (get_elem? h.targets i ≡ some t)
unfolding get_this
get_this-eq-ok hook h e = ground arith

-- What a successful setter does: it changes the target of its hook.
pub update_this-eq-ok :
    (hook : ℕ) (f : DbTargetFile → DbTargetFile) (h h' : Hooks) {u : Unit {0}}
    → update_this hook f h ≡ ok (u, h')
    → (i : ℕ) × (t : DbTargetFile) × (get_elem? h.hooks hook ≡ some (some i))
      × (get_elem? h.targets i ≡ some t)
      × (h' ≡ record h { targets = set h.targets i (f t) })
update_this-eq-ok hook f h h' e =
    let ((i, t), p, q) = >>=-eq-ok (get_this hook h) _ e in
    let (at_hook, at_i) = get_this-eq-ok hook h p in (i, t, at_hook, at_i, ground (arith, q))

pub replace_source-eq-ok :
    (hook : ℕ) (f : DbTargetFile → DbTargetFile) (h h' : Hooks) {u : Unit {0}}
    → replace_source hook f h ≡ ok (u, h')
    → (i : ℕ) × (t : DbTargetFile) × (get_elem? h.hooks hook ≡ some (some i))
      × (get_elem? h.targets i ≡ some t)
      × (h' ≡ record h {
        targets = set h.targets i (f (clear_sources t));
        released = released_by t ++ h.released;
      })
replace_source-eq-ok hook f h h' e =
    let ((i, t), p, q) = >>=-eq-ok (get_this hook h) _ e in
    let (at_hook, at_i) = get_this-eq-ok hook h p in (i, t, at_hook, at_i, ground (arith, q))

pub set_direct_bundle-eq-ok :
    (hook : ℕ) (name_text ext_text : List ℕ) (h h' : Hooks) {u : Unit {0}}
    → set_direct_bundle hook name_text ext_text h ≡ ok (u, h')
    → (file : IdFile) × (parse_hash name_text ≡ ok file.name)
      × (parse_hash ext_text ≡ ok file.ext)
      × (replace_source hook (λ t. record t { direct_bundle = file }) h ≡ ok (u, h'))
unfolding set_direct_bundle
set_direct_bundle-eq-ok hook name_text ext_text h h' e =
    let (_, _, p) = >>=-eq-ok (get_this hook h) _ e in
    let (name, at_name, q) = >>=-eq-ok (parse_hash name_text) _ p in
    let (ext, at_ext, r) = >>=-eq-ok (parse_hash ext_text) _ q in
    (record { name = name; ext = ext }, at_name, at_ext, r)

abbrev absent : Option ℕ → Bool
absent o = elim o [ none ↦ true | some _ ↦ false ]

absent-none : (o : Option ℕ) → absent o ≡ true → o ≡ none
absent-none none e = refl
absent-none (some i) e = cc

pub register-eq-ok :
    (name_text ext_text : List ℕ) (h h' : Hooks) {hook : ℕ}
    → register_asset_hook name_text ext_text h ≡ ok (hook, h')
    → (file : IdFile) × (parse_hash name_text ≡ ok file.name)
      × (parse_hash ext_text ≡ ok file.ext)
      × (lookup file h.overridden_files ≡ none)
      × (hook ≡ length h.hooks)
      × (h' ≡ with_target file h)
unfolding register_asset_hook
register-eq-ok name_text ext_text h h' e =
    let (name, at_name, q) = >>=-eq-ok (parse_hash name_text) _ e in
    let (ext, at_ext, r) = >>=-eq-ok (parse_hash ext_text) _ q in
    let file : IdFile = record { name = name; ext = ext } in
    let (_, free, s) = >>=-eq-ok (require (absent (lookup file h.overridden_files)) aborts) _ r in
    (
      file,
      at_name,
      at_ext,
      absent-none (lookup file h.overridden_files)
          (require-eq-ok (absent (lookup file h.overridden_files)) aborts free),
      ground (arith, s),
      ground (arith, s),
    )
