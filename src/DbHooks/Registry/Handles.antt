-- ===== src/DbHooks/Registry/Handles.antt =====
-- The Wren handles of src/tweaker/db_hooks.cpp: none leaks and none is released twice.
use raid_super_blt.Base.{
  ℕ, zero, suc, ◌+◌, ◌≤◌, ◌≡◌, refl, sym, ap, ◌∙◌, some, List, [], ◌∷◌, ◌++◌, get_elem?, set, count,
  count-append, some-injective, arith,
}
use raid_super_blt.Outcome.{ok, >>=-eq-ok, ok-injective}
use raid_super_blt.DbHooks.{
  DbTargetFile, new_target, Hooks, no_hooks, clear_sources, released_by, replace_source,
  register_asset_hook, set_fallback, disable, set_plain_file, set_direct_bundle, set_wren_loader,
  finalise,
}
use raid_super_blt.DbHooks.Registry.{
  Call, registers, sets_fallback, disables, sets_plain_file, sets_direct_bundle, sets_wren_loader,
  finalises, state-eq-ok, step, run,
}
use raid_super_blt.DbHooks.Registry.Inversions.{
  update_this-eq-ok, replace_source-eq-ok, set_direct_bundle-eq-ok, register-eq-ok,
}

-- The handles in the targets.
held : List DbTargetFile → List ℕ
held [] = []
held (t ∷ ts) = released_by t ++ held ts

-- Every handle that is held or was released.
pub owned : Hooks → List ℕ
owned h = held h.targets ++ h.released

-- The handles that calls are given by wrenGetSlotHandle.
abbrev pub made : Call → List ℕ
made (sets_wren_loader hook handle) = handle ∷ []
made _ = []

unfoldable pub made_by : List Call → List ℕ
made_by [] = []
made_by (c ∷ cs) = made c ++ made_by cs

module _ (a : ℕ) where
  held-append :
      (ts : List DbTargetFile) (t : DbTargetFile)
      → count a (held (ts ++ t ∷ [])) ≡ count a (held ts) + count a (released_by t)
  unfolding held
  held-append [] t = omega (arith, count-append a (released_by t) [])
  held-append (x ∷ ts) t = omega (
    arith,
    held-append ts t,
    count-append a (released_by x) (held (ts ++ t ∷ [])),
    count-append a (released_by x) (held ts),
  )

  held-set :
      (ts : List DbTargetFile) (i : ℕ) (t t' : DbTargetFile)
      → get_elem? ts i ≡ some t
      → count a (held (set ts i t')) + count a (released_by t)
        ≡ count a (held ts) + count a (released_by t')
  unfolding held
  held-set [] i t t' e = cc
  held-set (x ∷ ts) zero t t' e = omega (
    arith,
    count-append a (released_by t') (held ts),
    count-append a (released_by x) (held ts),
    ap (λ o. count a (released_by o)) (some-injective x t e),
  )
  held-set (x ∷ ts) (suc i) t t' e = omega (
    arith,
    held-set ts i t t' e,
    count-append a (released_by x) (held (set ts i t')),
    count-append a (released_by x) (held ts),
  )

  replaced_owned :
      (hook : ℕ) (f : DbTargetFile → DbTargetFile) (h h' : Hooks) {u : Unit {0}} (new : List ℕ)
      → ((t : DbTargetFile) → released_by (f (clear_sources t)) ≡ new)
      → replace_source hook f h ≡ ok (u, h')
      → count a (owned h') ≡ count a new + count a (owned h)
  unfolding owned
  replaced_owned hook f h h' new holds e =
      let (i, t, _, at_i, q) = replace_source-eq-ok hook f h h' e in
      let t' = f (clear_sources t) in
      ap (λ s. count a (owned s)) q
      ∙ omega (
        arith,
        held-set h.targets i t t' at_i,
        ap (count a) (holds t),
        count-append a (held (set h.targets i t')) (released_by t ++ h.released),
        count-append a (released_by t) h.released,
        count-append a (held h.targets) h.released,
      )

  -- A call adds the handle that it is given to those held or released, and loses none.
  step-owned :
      (h h' : Hooks) (c : Call)
      → step h c ≡ ok h'
      → count a (owned h') ≡ count a (made c) + count a (owned h)
  unfolding step set_fallback disable set_plain_file set_wren_loader owned finalise
  step-owned h h' (registers name ext) e =
      let (_, p) = state-eq-ok (register_asset_hook name ext h) e in
      let (file, _, _, _, _, q) = register-eq-ok name ext h h' p in
      ap (λ s. count a (owned s)) q
      ∙ omega (
        arith,
        held-append h.targets (new_target file),
        count-append a (held (h.targets ++ new_target file ∷ [])) h.released,
        count-append a (held h.targets) h.released,
      )
  step-owned h h' (sets_fallback hook b) e =
      let (_, p) = state-eq-ok (set_fallback hook b h) e in
      let (i, t, _, at_i, q) = update_this-eq-ok hook (λ t. record t { fallback = b }) h h' p in
      let t' : DbTargetFile = record t { fallback = b } in
      ap (λ s. count a (owned s)) q
      ∙ omega (
        arith,
        held-set h.targets i t t' at_i,
        count-append a (held (set h.targets i t')) h.released,
        count-append a (held h.targets) h.released,
      )
  step-owned h h' (disables hook) e =
      let (_, p) = state-eq-ok (disable hook h) e in
      replaced_owned hook (λ t. t) h h' [] (λ t. refl) p
  step-owned h h' (sets_plain_file hook path) e =
      let (_, p) = state-eq-ok (set_plain_file hook path h) e in
      replaced_owned hook (λ t. record t { plain_file = some path }) h h' [] (λ t. refl) p
  step-owned h h' (sets_direct_bundle hook name ext) e =
      let (_, p) = state-eq-ok (set_direct_bundle hook name ext h) e in
      let (file, _, _, q) = set_direct_bundle-eq-ok hook name ext h h' p in
      replaced_owned hook (λ t. record t { direct_bundle = file }) h h' [] (λ t. refl) q
  step-owned h h' (sets_wren_loader hook handle) e =
      let (_, p) = state-eq-ok (set_wren_loader hook handle h) e in
      replaced_owned hook (λ t. record t { wren_loader_obj = some handle }) h h' (handle ∷ [])
        (λ t. refl) p
  step-owned h h' (finalises hook) e =
      ap (λ s. count a (owned s)) (sym (ok-injective e)) ∙ omega arith

-- After any history a handle is held or released exactly as often as it was made.
pub run-owned :
    (h h' : Hooks) (cs : List Call)
    → run h cs ≡ ok h'
    → (a : ℕ) → count a (owned h') ≡ count a (made_by cs) + count a (owned h)
unfolding run made_by
run-owned h h' [] e a = ap (λ s. count a (owned s)) (sym (ok-injective e)) ∙ omega arith
run-owned h h' (c ∷ cs) e a =
    let (h1, p, q) = >>=-eq-ok (step h c) _ e in
    omega
      (arith, step-owned a h h1 c p, run-owned h1 h' cs q a, count-append a (made c) (made_by cs))

-- Where Wren makes every handle once, none is released twice or held after its release.
pub run-released_once :
    (h' : Hooks) (cs : List Call)
    → ((a : ℕ) → count a (made_by cs) ≤ 1)
    → run no_hooks cs ≡ ok h'
    → (a : ℕ) → count a (owned h') ≤ 1
unfolding owned held
run-released_once h' cs once e a = omega (arith, run-owned no_hooks h' cs e a, once a)
