-- ===== src/DbHooks/Sources/Setters.antt =====
-- Setting the source of a hook of src/tweaker/db_hooks.cpp: the last call wins, and no other
-- hook changes.
use raid_super_blt.Base.{
  ℕ, ◌≡◌, ◌≢◌, refl, sym, ap, ◌∙◌, subst, Bool, none, some, List, ◌++◌, get_elem?, set,
  get_elem?-lt, get_elem?-set_self, get_elem?-set_ne, arith, Option-cases, inl, inr,
}
use raid_super_blt.Outcome.{ok, ◌>>=◌}
use raid_super_blt.DbHooks.{
  DbTargetFile, Hooks, get_this, replace_source, clear_sources, released_by, disable,
  set_plain_file, set_direct_bundle, set_wren_loader, set_fallback,
}
use raid_super_blt.DbHooks.Registry.{Call, sets_fallback, step, state-eq-ok}
use raid_super_blt.DbHooks.Registry.Inversions.{
  update_this-eq-ok, replace_source-eq-ok, set_direct_bundle-eq-ok,
}
use raid_super_blt.DbHooks.Registry.Invariant.{IsWellFormed}
use raid_super_blt.DbHooks.Sources.{
  Source, nothing, from_file, from_bundle, from_loader, source_of, observe, Sets, by_disable,
  by_plain_file, by_direct_bundle, by_wren_loader,
}

-- The hook's target, where both are known.
pub observe_at :
    (hook : ℕ) (h : Hooks) (i : ℕ) (t : DbTargetFile)
    → get_elem? h.hooks hook ≡ some (some i)
    → get_elem? h.targets i ≡ some t
    → observe hook h ≡ ok (source_of t, t.fallback)
unfolding observe get_this
observe_at hook h i t p q = rw (p, q)

-- What replaces a target in the sight of its own hook.
observe_replaced :
    (hook : ℕ) (f : DbTargetFile → DbTargetFile) (h h' : Hooks) {u : Unit {0}} (source : Source)
    → ((t : DbTargetFile) → source_of (f (clear_sources t)) ≡ source)
    → ((t : DbTargetFile) → (f t).fallback ≡ t.fallback)
    → replace_source hook f h ≡ ok (u, h')
    → (old : Source) × (b : Bool) × (observe hook h ≡ ok (old, b))
      × (observe hook h' ≡ ok (source, b))
observe_replaced hook f h h' source new same e =
    let (i, t, at_hook, at_i, q) = replace_source-eq-ok hook f h h' e in
    let after =
      observe_at hook
        (record h {
          targets = set h.targets i (f (clear_sources t));
          released = released_by t ++ h.released;
        })
        i (f (clear_sources t)) at_hook
        (get_elem?-set_self h.targets i (f (clear_sources t)) (get_elem?-lt h.targets i t at_i)) in
    (
      source_of t,
      t.fallback,
      observe_at hook h i t at_hook at_i,
      subst (λ s. observe hook s ≡ ok (source, t.fallback)) (sym q)
          (after ∙ ground (arith, new t, same (clear_sources t))),
    )

-- A call that sets the source of a hook makes it the hook's source, whatever it was, and leaves
-- the fallback flag.
pub observe-set :
    (h h' : Hooks) (c : Call) (hook : ℕ) (source : Source)
    → Sets c hook source
    → step h c ≡ ok h'
    → (old : Source) × (b : Bool) × (observe hook h ≡ ok (old, b))
      × (observe hook h' ≡ ok (source, b))
unfolding step disable set_plain_file set_wren_loader
observe-set h h' c hook source (by_disable hook') e =
    let (_, p) = state-eq-ok (disable hook h) e in
    observe_replaced hook (λ t. t) h h' nothing (λ t. refl) (λ t. refl) p
observe-set h h' c hook source (by_plain_file hook' path) e =
    let (_, p) = state-eq-ok (set_plain_file hook path h) e in
    observe_replaced hook (λ t. record t { plain_file = some path }) h h' (from_file path)
      (λ t. refl) (λ t. refl) p
observe-set h h' c hook source (by_direct_bundle hook' name ext file p q r) e =
    let (_, d) = state-eq-ok (set_direct_bundle hook name ext h) e in
    let (parsed, p', q', d') = set_direct_bundle-eq-ok hook name ext h h' d in
    let same : parsed ≡ file = ground (arith, p, p', q, q') in
    observe_replaced hook (λ t. record t { direct_bundle = parsed }) h h' (from_bundle file)
      (λ t. ground (arith, same, r)) (λ t. refl) d'
observe-set h h' c hook source (by_wren_loader hook' handle) e =
    let (_, p) = state-eq-ok (set_wren_loader hook handle h) e in
    observe_replaced hook (λ t. record t { wren_loader_obj = some handle }) h h'
      (from_loader handle) (λ t. refl) (λ t. refl) p

module _ (h : Hooks) (i : ℕ) (t' : DbTargetFile) (released : List ℕ) where
  abbrev changed : Hooks
  changed = record h { targets = set h.targets i t'; released = released }

  get_this_other :
      (hook : ℕ)
      → ((j : ℕ) → get_elem? h.hooks hook ≡ some (some j) → i ≢ j)
      → get_this hook changed ≡ get_this hook h
  unfolding get_this
  get_this_other hook apart = elim (Option-cases (get_elem? h.hooks hook)) [
    | inl gone ↦ rw gone
    | inr (none, finalised) ↦ rw finalised
    | inr (some j, live) ↦ rw (live, get_elem?-set_ne h.targets i j t' (apart j live))
  ]

  observe_other :
      (hook hook2 : ℕ)
      → IsWellFormed h
      → get_elem? h.hooks hook ≡ some (some i)
      → hook2 ≢ hook
      → observe hook2 changed ≡ observe hook2 h
  unfolding observe
  observe_other hook hook2 w at_hook differ =
      ap (λ m. m >>= λ (p : ℕ × DbTargetFile). ok (source_of p.1, p.1.fallback))
        (get_this_other hook2 (λ j live same. differ (
          w.unshared hook2 hook i
            (subst (λ n. get_elem? h.hooks hook2 ≡ some (some n)) (sym same) live) at_hook)))

-- The hook that a call names, if it is a call on a hook's target.
pub data CallsOn : Call → ℕ → Type 0 where
  on_source : (c : Call) (hook : ℕ) (source : Source) → Sets c hook source → CallsOn c hook
  on_fallback : (hook : ℕ) (b : Bool) → CallsOn (sets_fallback hook b) hook

replaced_other :
    (hook hook2 : ℕ) (f : DbTargetFile → DbTargetFile) (h h' : Hooks) {u : Unit {0}}
    → IsWellFormed h
    → hook2 ≢ hook
    → replace_source hook f h ≡ ok (u, h')
    → observe hook2 h' ≡ observe hook2 h
replaced_other hook hook2 f h h' w differ e =
    let (i, t, at_hook, _, q) = replace_source-eq-ok hook f h h' e in
    ap (observe hook2) q ∙ observe_other h i _ _ hook hook2 w at_hook differ

-- A call on one hook changes nothing that can be seen of another.
pub observe-set_other :
    (h h' : Hooks) (c : Call) (hook hook2 : ℕ)
    → IsWellFormed h
    → CallsOn c hook
    → hook2 ≢ hook
    → step h c ≡ ok h'
    → observe hook2 h' ≡ observe hook2 h
unfolding step disable set_plain_file set_wren_loader set_fallback
observe-set_other h h' c hook hook2 w (on_source c' hook' source (by_disable hook1)) differ e =
    let (_, p) = state-eq-ok (disable hook h) e in
    replaced_other hook hook2 (λ t. t) h h' w differ p
observe-set_other h h' c hook hook2 w (on_source c' hook' source (by_plain_file hook1 path)) differ
      e =
    let (_, p) = state-eq-ok (set_plain_file hook path h) e in
    replaced_other hook hook2 (λ t. record t { plain_file = some path }) h h' w differ p
observe-set_other h h' c hook hook2 w
      (on_source c' hook' source (by_direct_bundle hook1 name ext file p q r)) differ e =
    let (_, d) = state-eq-ok (set_direct_bundle hook name ext h) e in
    let (parsed, _, _, d') = set_direct_bundle-eq-ok hook name ext h h' d in
    replaced_other hook hook2 (λ t. record t { direct_bundle = parsed }) h h' w differ d'
observe-set_other h h' c hook hook2 w (on_source c' hook' source (by_wren_loader hook1 handle))
      differ e =
    let (_, p) = state-eq-ok (set_wren_loader hook handle h) e in
    replaced_other hook hook2 (λ t. record t { wren_loader_obj = some handle }) h h' w differ p
observe-set_other h h' c hook hook2 w (on_fallback hook' b) differ e =
    let (_, p) = state-eq-ok (set_fallback hook b h) e in
    let (i, t, at_hook, _, q) = update_this-eq-ok hook (λ t. record t { fallback = b }) h h' p in
    ap (observe hook2) q ∙ observe_other h i _ h.released hook hook2 w at_hook differ
