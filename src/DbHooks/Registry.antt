-- ===== src/DbHooks/Registry.antt =====
-- Histories of calls from Wren on the hooks of src/tweaker/db_hooks.cpp, and what they keep.
pub mod Inversions
pub mod Invariant
pub mod Handles
pub mod Once
use raid_super_blt.Base.{ℕ, ◌≡◌, ap, Bool, List, [], ◌∷◌}
use raid_super_blt.Outcome.{Outcome, ok, stop, ◌>>=◌, ok-injective}
use raid_super_blt.DbHooks.{
  Hooks, register_asset_hook, set_fallback, disable, set_plain_file, set_direct_bundle,
  set_wren_loader, finalise,
}

-- The calls that change the hooks; the first number of each but `registers` is the hook.
pub data Call : Type 0 where
  registers : List ℕ → List ℕ → Call
  sets_fallback : ℕ → Bool → Call
  disables : ℕ → Call
  sets_plain_file : ℕ → List ℕ → Call
  sets_direct_bundle : ℕ → List ℕ → List ℕ → Call
  sets_wren_loader : ℕ → ℕ → Call
  finalises : ℕ → Call

-- The state that a method leaves.
abbrev pub state {ℓ} : {A : Type ℓ} → Outcome (A × Hooks) → Outcome Hooks
state (ok (_, h)) = ok h
state (stop s) = stop s

pub state-eq-ok {ℓ} :
    {A : Type ℓ} (m : Outcome (A × Hooks)) {h : Hooks} → state m ≡ ok h → (a : A) × (m ≡ ok (a, h))
state-eq-ok (ok (a, h)) e = (a, ap (λ t. ok (a, t)) (ok-injective e))
state-eq-ok (stop s) e = cc

unfoldable pub step : Hooks → Call → Outcome Hooks
step h (registers name ext) = state (register_asset_hook name ext h)
step h (sets_fallback hook b) = state (set_fallback hook b h)
step h (disables hook) = state (disable hook h)
step h (sets_plain_file hook path) = state (set_plain_file hook path h)
step h (sets_direct_bundle hook name ext) = state (set_direct_bundle hook name ext h)
step h (sets_wren_loader hook handle) = state (set_wren_loader hook handle h)
step h (finalises hook) = ok (finalise hook h)

unfoldable pub run : Hooks → List Call → Outcome Hooks
run h [] = ok h
run h (c ∷ cs) = do h' ← step h c; run h' cs
