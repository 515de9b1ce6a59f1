-- ===== src/DbHooks/Load/Decision.antt =====
-- When `hook_asset_load` of src/tweaker/db_hooks.cpp takes an asset over.
use raid_super_blt.Base.{
  ℕ, ◌≡◌, sym, ap, ◌∙◌, subst, Bool, true, false, not, ◌&&◌, none, some, List, get_elem?, ◌∷◌, [],
  length, arith, if◌then◌else◌, Option-cases, Bool-cases, inl, inr, get_elem?-append_length,
  get_elem?-append_left, get_elem?-lt, ◌↔◌,
}
use raid_super_blt.Outcome.{ok}
use raid_super_blt.Idstring.{IdFile, same_file, same_file→eq}
use raid_super_blt.Idstring.FileMap.{lookup, lookup-insert}
use raid_super_blt.DbHooks.{
  DbTargetFile, Hooks, new_target, with_target, register_asset_hook, mode, disabled,
}
use raid_super_blt.DbHooks.Registry.Inversions.{register-eq-ok}
use raid_super_blt.DbHooks.Registry.Invariant.{IsWellFormed}
use raid_super_blt.DbHooks.Load.{World, load_target, hook_asset_load}

-- Why an asset is left to the game.
pub data Declines (h : Hooks) (asset : IdFile) (fallback_mode : Bool) : Type 0 where
  unregistered : lookup asset h.overridden_files ≡ none → Declines h asset fallback_mode
  waits :
      (i : ℕ) (t : DbTargetFile)
      → lookup asset h.overridden_files ≡ some i
      → get_elem? h.targets i ≡ some t
      → t.fallback ≡ true
      → fallback_mode ≡ false
      → Declines h asset fallback_mode
  is_disabled :
      (i : ℕ) (t : DbTargetFile)
      → lookup asset h.overridden_files ≡ some i
      → get_elem? h.targets i ≡ some t
      → mode t ≡ disabled
      → Declines h asset fallback_mode

load_target-none :
    (w : World) (t : DbTargetFile) (asset : IdFile)
    → (load_target w t asset ≡ ok none) ↔ (mode t ≡ disabled)
unfolding load_target mode
load_target-none w t asset = ground arith

module _ (w : World) (h : Hooks) (asset : IdFile) (fallback_mode : Bool) {i : ℕ} {t : DbTargetFile}
    (at_key : lookup asset h.overridden_files ≡ some i)
    (here : get_elem? h.targets i ≡ some t) where
  -- A registered asset: its target decides.
  pub hook_asset_load_registered :
      hook_asset_load w h asset fallback_mode
      ≡ (if t.fallback && not fallback_mode then ok none else load_target w t asset)
  unfolding hook_asset_load
  hook_asset_load_registered = rw (at_key, hook_asset_load, here, hook_asset_load)

  registered-Declines :
      hook_asset_load w h asset fallback_mode ≡ ok none → Declines h asset fallback_mode
  registered-Declines e = elim (Bool-cases (t.fallback && not fallback_mode)) [
    | inl p ↦ waits i t at_key here (ground arith) (ground arith)
    | inr p ↦
        is_disabled i t at_key here
          ((load_target-none w t asset).0 (ground (arith, hook_asset_load_registered)))
  ]

unregistered_lem :
    (w : World) (h : Hooks) (asset : IdFile) (fallback_mode : Bool)
    → lookup asset h.overridden_files ≡ none
    → hook_asset_load w h asset fallback_mode ≡ ok none
unfolding hook_asset_load
unregistered_lem w h asset fallback_mode free = rw (free, hook_asset_load)

-- The game is left to load an asset exactly if it is not registered, or it is a fallback and the
-- game's own file was not tried yet, or no source is set.
pub Declines-iff :
    (w : World) (h : Hooks) (asset : IdFile) (fallback_mode : Bool)
    → IsWellFormed h
    → (hook_asset_load w h asset fallback_mode ≡ ok none) ↔ Declines h asset fallback_mode
Declines-iff w h asset fallback_mode wf = (to, from)
  where
    to : hook_asset_load w h asset fallback_mode ≡ ok none → Declines h asset fallback_mode
    to e = elim (Option-cases (lookup asset h.overridden_files)) [
      | inl free ↦ unregistered free
      | inr (i, at_key) ↦
          let (t, here, _) = wf.keyed asset i at_key in
          registered-Declines w h asset fallback_mode at_key here e
    ]

    from : Declines h asset fallback_mode → hook_asset_load w h asset fallback_mode ≡ ok none
    from (unregistered free) = unregistered_lem w h asset fallback_mode free
    from (waits i t at_key here p q) =
        ground (arith, hook_asset_load_registered w h asset fallback_mode at_key here)
    from (is_disabled i t at_key here p) = ground (
      arith,
      hook_asset_load_registered w h asset fallback_mode at_key here,
      (load_target-none w t asset).1 p,
    )

module _ (w : World) (h : Hooks) (file asset : IdFile) (fallback_mode : Bool)
    (wf : IsWellFormed h) where
  abbrev after : Hooks
  after = with_target file h

  lookup_after :
      lookup asset after.overridden_files
      ≡ (if same_file file asset then some (length h.targets) else lookup asset h.overridden_files)
  lookup_after = lookup-insert file asset (length h.targets) h.overridden_files

  new_is_neutral :
      same_file file asset ≡ true
      → lookup file h.overridden_files ≡ none
      → hook_asset_load w after asset fallback_mode ≡ hook_asset_load w h asset fallback_mode
  unfolding hook_asset_load load_target
  new_is_neutral p free =
      let key : lookup asset after.overridden_files ≡ some (length h.targets) =
        ground (arith, lookup_after) in
      let old : lookup asset h.overridden_files ≡ none =
        subst (λ k. lookup k h.overridden_files ≡ none) (same_file→eq file asset p) free in
      hook_asset_load_registered w after asset fallback_mode key
        (get_elem?-append_length h.targets [] (new_target file))
      ∙ sym (unregistered_lem w h asset fallback_mode old)

  old_is_neutral :
      same_file file asset ≡ false
      → hook_asset_load w after asset fallback_mode ≡ hook_asset_load w h asset fallback_mode
  unfolding hook_asset_load
  old_is_neutral p =
      let key : lookup asset after.overridden_files ≡ lookup asset h.overridden_files =
        ground (arith, lookup_after) in
      elim (Option-cases (lookup asset h.overridden_files)) [
        | inl gone ↦
            unregistered_lem w after asset fallback_mode (key ∙ gone)
            ∙ sym (unregistered_lem w h asset fallback_mode gone)
        | inr (i, at_key) ↦
            let (t, here, _) = wf.keyed asset i at_key in
            let same =
              get_elem?-append_left h.targets (new_target file ∷ []) i
                (get_elem?-lt h.targets i t here) in
            hook_asset_load_registered w after asset fallback_mode (key ∙ at_key) (same ∙ here)
            ∙ sym (hook_asset_load_registered w h asset fallback_mode at_key here)
      ]

  with_target_neutral :
      lookup file h.overridden_files ≡ none
      → hook_asset_load w after asset fallback_mode ≡ hook_asset_load w h asset fallback_mode
  with_target_neutral free = elim (Bool-cases (same_file file asset)) [
    | inl p ↦ new_is_neutral p free
    | inr p ↦ old_is_neutral p
  ]

-- A registration overrides nothing by itself, and changes what is loaded for no other asset.
pub register_is_neutral :
    (w : World) (h h' : Hooks) (name_text ext_text : List ℕ) (hook : ℕ) (asset : IdFile)
    (fallback_mode : Bool)
    → IsWellFormed h
    → register_asset_hook name_text ext_text h ≡ ok (hook, h')
    → hook_asset_load w h' asset fallback_mode ≡ hook_asset_load w h asset fallback_mode
register_is_neutral w h h' name_text ext_text hook asset fallback_mode wf e =
    let (file, _, _, free, _, q) = register-eq-ok name_text ext_text h h' e in
    ap (λ s. hook_asset_load w s asset fallback_mode) q
    ∙ with_target_neutral w h file asset fallback_mode wf free
