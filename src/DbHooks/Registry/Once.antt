-- ===== src/DbHooks/Registry/Once.antt =====
-- A key of src/tweaker/db_hooks.cpp is registered once.
use raid_super_blt.Base.{
  ℕ, ◌≡◌, refl, sym, ◌∙◌, subst, inl, inr, Bool-cases, some, List, [], ◌∷◌, length,
}
use raid_super_blt.Outcome.{ok, stop, aborts, >>=-eq-ok, ok-injective}
use raid_super_blt.Idstring.{IdFile, same_file, same_file_refl}
use raid_super_blt.Idstring.FileMap.{lookup, lookup-insert}
use raid_super_blt.Idstring.Hex.{parse_hash}
use raid_super_blt.DbHooks.{
  DbTargetFile, Hooks, register_asset_hook, replace_source, with_target, set_fallback, disable,
  set_plain_file, set_direct_bundle, set_wren_loader, finalise,
}
use raid_super_blt.DbHooks.Registry.{
  Call, registers, sets_fallback, disables, sets_plain_file, sets_direct_bundle, sets_wren_loader,
  finalises, state-eq-ok, step, run,
}
use raid_super_blt.DbHooks.Registry.Inversions.{
  update_this-eq-ok, replace_source-eq-ok, set_direct_bundle-eq-ok, register-eq-ok,
}

abbrev IsRegistered : IdFile → Hooks → Type 0
IsRegistered file h = (i : ℕ) × (lookup file h.overridden_files ≡ some i)

with_target-IsRegistered :
    (file other : IdFile) (h : Hooks)
    → IsRegistered file h
    → IsRegistered file (with_target other h)
with_target-IsRegistered file other h (i, e) =
    let now = lookup-insert other file (length h.targets) h.overridden_files in
    elim (Bool-cases (same_file other file)) [
      | inl same ↦ (length h.targets, now ∙ rw (same) refl)
      | inr differs ↦ (i, now ∙ rw (differs) e)
    ]

with_target_self : (file : IdFile) (h : Hooks) → IsRegistered file (with_target file h)
with_target_self file h =
    let now = lookup-insert file file (length h.targets) h.overridden_files in
    (length h.targets, now ∙ rw (same_file_refl file) refl)

replaced :
    (hook : ℕ) (f : DbTargetFile → DbTargetFile) (h h' : Hooks) (file : IdFile) {u : Unit {0}}
    → replace_source hook f h ≡ ok (u, h')
    → IsRegistered file h
    → IsRegistered file h'
replaced hook f h h' file e r =
    let (_, _, _, _, q) = replace_source-eq-ok hook f h h' e in subst (IsRegistered file) (sym q) r

-- No call takes a key out of the map.
step-IsRegistered :
    (file : IdFile) (h h' : Hooks) (c : Call)
    → step h c ≡ ok h'
    → IsRegistered file h
    → IsRegistered file h'
unfolding step set_fallback disable set_plain_file set_wren_loader finalise
step-IsRegistered file h h' (registers name ext) e r =
    let (_, p) = state-eq-ok (register_asset_hook name ext h) e in
    let (other, _, _, _, _, q) = register-eq-ok name ext h h' p in
    subst (IsRegistered file) (sym q) (with_target-IsRegistered file other h r)
step-IsRegistered file h h' (sets_fallback hook b) e r =
    let (_, p) = state-eq-ok (set_fallback hook b h) e in
    let (_, _, _, _, q) = update_this-eq-ok hook (λ t. record t { fallback = b }) h h' p in
    subst (IsRegistered file) (sym q) r
step-IsRegistered file h h' (disables hook) e r =
    let (_, p) = state-eq-ok (disable hook h) e in replaced hook (λ t. t) h h' file p r
step-IsRegistered file h h' (sets_plain_file hook path) e r =
    let (_, p) = state-eq-ok (set_plain_file hook path h) e in
    replaced hook (λ t. record t { plain_file = some path }) h h' file p r
step-IsRegistered file h h' (sets_direct_bundle hook name ext) e r =
    let (_, p) = state-eq-ok (set_direct_bundle hook name ext h) e in
    let (item, _, _, q) = set_direct_bundle-eq-ok hook name ext h h' p in
    replaced hook (λ t. record t { direct_bundle = item }) h h' file q r
step-IsRegistered file h h' (sets_wren_loader hook handle) e r =
    let (_, p) = state-eq-ok (set_wren_loader hook handle h) e in
    replaced hook (λ t. record t { wren_loader_obj = some handle }) h h' file p r
step-IsRegistered file h h' (finalises hook) e r = subst (IsRegistered file) (ok-injective e) r

run-IsRegistered :
    (file : IdFile) (h h' : Hooks) (cs : List Call)
    → run h cs ≡ ok h'
    → IsRegistered file h
    → IsRegistered file h'
unfolding run
run-IsRegistered file h h' [] e r = subst (IsRegistered file) (ok-injective e) r
run-IsRegistered file h h' (c ∷ cs) e r =
    let (h1, p, q) = >>=-eq-ok (step h c) _ e in
    run-IsRegistered file h1 h' cs q (step-IsRegistered file h h1 c p r)

-- Once a key is registered, any later registration of it stops the process, in whatever form the key
-- is then written and whatever calls are made in between.
pub register_twice :
    (h h1 h2 : Hooks) (name_text ext_text name_again ext_again : List ℕ) (hook : ℕ) (cs : List Call)
    → register_asset_hook name_text ext_text h ≡ ok (hook, h1)
    → run h1 cs ≡ ok h2
    → parse_hash name_again ≡ parse_hash name_text
    → parse_hash ext_again ≡ parse_hash ext_text
    → register_asset_hook name_again ext_again h2 ≡ stop aborts
unfolding register_asset_hook
register_twice h h1 h2 name_text ext_text name_again ext_again hook cs first between p q =
    let (file, at_name, at_ext, _, _, s) = register-eq-ok name_text ext_text h h1 first in
    let (i, e) =
      run-IsRegistered file h1 h2 cs between
        (subst (IsRegistered file) (sym s) (with_target_self file h)) in
    rw (p ∙ at_name, q ∙ at_ext, e) refl
