-- ===== src/DbHooks/Registry/Invariant.antt =====
-- What every history of calls keeps true of the hooks of src/tweaker/db_hooks.cpp.
use raid_super_blt.Base.{
  ℕ, ◌+◌, ◌≤◌, ◌<◌, ◌≡◌, refl, sym, ap, ◌∙◌, subst, inl, inr, Option, none, some, List, [], ◌∷◌,
  ◌++◌, length, get_elem?, set, All, All-set, All-append, All-get_elem?, get_elem?-set_self,
  get_elem?-set_ne, get_elem?-lt, get_elem?-append_left, get_elem?-append_length, length-set,
  length-append, get_elem?-set_inv, some-injective, arith, Bool-cases, ◌==◌, ==→eq, if◌then◌else◌,
  get_elem?-append_inv,
}
use raid_super_blt.Outcome.{ok, >>=-eq-ok, ok-injective}
use raid_super_blt.Idstring.{IdFile, is_empty, same_file, same_file→eq, same_file_refl}
use raid_super_blt.Idstring.FileMap.{lookup, lookup-insert}
use raid_super_blt.DbHooks.{
  DbTargetFile, new_target, with_target, Hooks, no_hooks, update_this, replace_source,
  clear_sources, released_by, register_asset_hook, set_fallback, disable, set_plain_file,
  set_direct_bundle, set_wren_loader, finalise,
}
use raid_super_blt.DbHooks.Registry.Inversions.{
  update_this-eq-ok, replace_source-eq-ok, set_direct_bundle-eq-ok, register-eq-ok,
}
use raid_super_blt.DbHooks.Registry.{
  Call, registers, sets_fallback, disables, sets_plain_file, sets_direct_bundle, sets_wren_loader,
  finalises, state-eq-ok, step, run,
}

abbrev is_some {ℓ} : {A : Type ℓ} → Option A → ℕ
is_some none = 0
is_some (some a) = 1

-- At most one source is set.
pub record IsSingle (t : DbTargetFile) : Type 0 where
  pub at_most_one :
      is_some t.plain_file + (if is_empty t.direct_bundle then 0 else 1) + is_some t.wren_loader_obj
      ≤ 1

pub record IsWellFormed (h : Hooks) : Type 0 where
  -- Each target has at most one source.
  pub single : All IsSingle h.targets
  -- What a key is mapped to is the target of that key.
  pub keyed :
      (k : IdFile) (i : ℕ)
      → lookup k h.overridden_files ≡ some i
      → (t : DbTargetFile) × (get_elem? h.targets i ≡ some t) × (t.id ≡ k)
  -- Every target is the one that its key is mapped to.
  pub registered :
      (i : ℕ) (t : DbTargetFile)
      → get_elem? h.targets i ≡ some t
      → lookup t.id h.overridden_files ≡ some i
  -- A live hook has its target.
  pub hooked : (hook i : ℕ) → get_elem? h.hooks hook ≡ some (some i) → i < length h.targets
  -- No two live hooks share a target.
  pub unshared :
      (a b i : ℕ)
      → get_elem? h.hooks a ≡ some (some i)
      → get_elem? h.hooks b ≡ some (some i)
      → a ≡ b

module _ (h : Hooks) (i : ℕ) (t t' : DbTargetFile) (released : List ℕ) (w : IsWellFormed h)
    (here : get_elem? h.targets i ≡ some t) (same : t'.id ≡ t.id) where
  keyed_after :
      (j : ℕ) (k : IdFile) (s : DbTargetFile)
      → get_elem? h.targets j ≡ some s
      → s.id ≡ k
      → (r : DbTargetFile) × (get_elem? (set h.targets i t') j ≡ some r) × (r.id ≡ k)
  keyed_after j k s e q = elim (Bool-cases (i == j)) [
    | inl p ↦ (
      t',
      subst (λ n. get_elem? (set h.targets i t') n ≡ some t') (==→eq i j p)
          (get_elem?-set_self h.targets i t' (get_elem?-lt h.targets i t here)),
      ground (arith, ==→eq i j p),
    )
    | inr p ↦ (s, get_elem?-set_ne h.targets i j t' (ground arith) ∙ e, q)
  ]

  -- Replacing a target by one of the same key with at most one source.
  retarget-IsWellFormed :
      IsSingle t' → IsWellFormed (record h { targets = set h.targets i t'; released = released })
  retarget-IsWellFormed one = record {
    single = All-set IsSingle h.targets i t' w.single one;
    keyed = λ k j e. let (s, at_j, q) = w.keyed k j e in keyed_after j k s at_j q;
    registered = λ j s e. elim (get_elem?-set_inv h.targets i j t' s e) [
      | inl (p, q) ↦ ground (arith, w.registered i t here)
      | inr old ↦ w.registered j s old
    ];
    hooked = λ hook j e. omega (arith, w.hooked hook j e, length-set h.targets i t');
    unshared = w.unshared;
  }

update_this-IsWellFormed :
    (hook : ℕ) (f : DbTargetFile → DbTargetFile) (h h' : Hooks) {u : Unit {0}}
    → ((t : DbTargetFile) → (f t).id ≡ t.id)
    → ((t : DbTargetFile) → IsSingle t → IsSingle (f t))
    → IsWellFormed h
    → update_this hook f h ≡ ok (u, h')
    → IsWellFormed h'
update_this-IsWellFormed hook f h h' same one w e =
    let (i, t, _, at_i, q) = update_this-eq-ok hook f h h' e in
    subst IsWellFormed (sym q) (
      retarget-IsWellFormed h i t (f t) h.released w at_i (same t)
        (one t (All-get_elem? IsSingle h.targets i t w.single at_i)))

replace_source-IsWellFormed :
    (hook : ℕ) (f : DbTargetFile → DbTargetFile) (h h' : Hooks) {u : Unit {0}}
    → ((t : DbTargetFile) → (f t).id ≡ t.id)
    → ((t : DbTargetFile) → IsSingle (f (clear_sources t)))
    → IsWellFormed h
    → replace_source hook f h ≡ ok (u, h')
    → IsWellFormed h'
replace_source-IsWellFormed hook f h h' same one w e =
    let (i, t, _, at_i, q) = replace_source-eq-ok hook f h h' e in
    subst IsWellFormed (sym q) (
      retarget-IsWellFormed h i t (f (clear_sources t)) (released_by t ++ h.released) w at_i
        (same (clear_sources t)) (one t))

-- A new target under a key that was free.
register-IsWellFormed :
    (h : Hooks) (file : IdFile)
    → lookup file h.overridden_files ≡ none
    → IsWellFormed h
    → IsWellFormed (with_target file h)
register-IsWellFormed h file free w = record {
  single = All-append IsSingle h.targets (new_target file ∷ []) w.single (omega arith, tt);
  keyed = λ k i e. elim (Bool-cases (same_file file k)) [
    | inl p ↦ (
      new_target file,
      subst (λ n. get_elem? (h.targets ++ new_target file ∷ []) n ≡ some (new_target file))
          (ground (arith, lookup-insert file k (length h.targets) h.overridden_files))
          (get_elem?-append_length h.targets [] (new_target file)),
      same_file→eq file k p,
    )
    | inr p ↦
        let (s, at_i, q) =
          w.keyed k i
            (ground (arith, lookup-insert file k (length h.targets) h.overridden_files)) in
        (
          s,
          get_elem?-append_left h.targets (new_target file ∷ []) i (get_elem?-lt h.targets i s at_i)
              ∙ at_i,
          q,
        )
  ];
  registered = λ i t e. elim (get_elem?-append_inv h.targets (new_target file) i t e) [
    | inl old ↦ ground (
      arith,
      lookup-insert file t.id (length h.targets) h.overridden_files,
      same_file→eq file t.id,
      w.registered i t old,
    )
    | inr (p, q) ↦ ground (
      arith,
      lookup-insert file t.id (length h.targets) h.overridden_files,
      ap (λ (s : DbTargetFile). same_file file s.id) q,
      same_file_refl file,
    )
  ];
  hooked = λ hook i e.
      elim (get_elem?-append_inv h.hooks (some (length h.targets)) hook (some i) e) [
        | inl old ↦
            omega (arith, w.hooked hook i old, length-append h.targets (new_target file ∷ []))
        | inr (_, q) ↦ omega (
          arith,
          some-injective (length h.targets) i q,
          length-append h.targets (new_target file ∷ []),
        )
      ];
  unshared = λ a b i p q.
      elim (get_elem?-append_inv h.hooks (some (length h.targets)) a (some i) p) [
        | inl old_a ↦ elim (get_elem?-append_inv h.hooks (some (length h.targets)) b (some i) q) [
          | inl old_b ↦ w.unshared a b i old_a old_b
          | inr (_, new_b) ↦
              absurd (omega (arith, w.hooked a i old_a, some-injective (length h.targets) i new_b))
        ]
        | inr (at_a, new_a) ↦
            elim (get_elem?-append_inv h.hooks (some (length h.targets)) b (some i) q) [
              | inl old_b ↦
                  absurd
                    (omega (arith, w.hooked b i old_b, some-injective (length h.targets) i new_a))
              | inr (at_b, _) ↦ at_a ∙ sym at_b
            ]
      ];
}

finalise-IsWellFormed : (hook : ℕ) (h : Hooks) → IsWellFormed h → IsWellFormed (finalise hook h)
unfolding finalise
finalise-IsWellFormed hook h w = record {
  single = w.single;
  keyed = w.keyed;
  registered = w.registered;
  hooked = λ j i e. elim (get_elem?-set_inv h.hooks hook j none (some i) e) [
    | inl (_, q) ↦ cc
    | inr old ↦ w.hooked j i old
  ];
  unshared = λ a b i p q. w.unshared a b i (live_before a i p) (live_before b i q);
}
  where
    live_before :
        (a i : ℕ)
        → get_elem? (set h.hooks hook none) a ≡ some (some i)
        → get_elem? h.hooks a ≡ some (some i)
    live_before a i p = elim (get_elem?-set_inv h.hooks hook a none (some i) p) [
      | inl (_, q) ↦ cc
      | inr old ↦ old
    ]

register_step :
    (name ext : List ℕ) (h h' : Hooks) {hook : ℕ}
    → IsWellFormed h
    → register_asset_hook name ext h ≡ ok (hook, h')
    → IsWellFormed h'
register_step name ext h h' w e =
    let (file, _, _, free, _, q) = register-eq-ok name ext h h' e in
    subst IsWellFormed (sym q) (register-IsWellFormed h file free w)

step-IsWellFormed : (h h' : Hooks) (c : Call) → IsWellFormed h → step h c ≡ ok h' → IsWellFormed h'
unfolding step set_fallback disable set_plain_file set_wren_loader
step-IsWellFormed h h' (registers name ext) w e =
    let (_, p) = state-eq-ok (register_asset_hook name ext h) e in register_step name ext h h' w p
step-IsWellFormed h h' (sets_fallback hook b) w e =
    let (_, p) = state-eq-ok (set_fallback hook b h) e in
    update_this-IsWellFormed hook (λ t. record t { fallback = b }) h h' (λ t. refl)
      (λ t one. omega arith) w p
step-IsWellFormed h h' (disables hook) w e =
    let (_, p) = state-eq-ok (disable hook h) e in
    replace_source-IsWellFormed hook (λ t. t) h h' (λ t. refl) (λ t. omega arith) w p
step-IsWellFormed h h' (sets_plain_file hook path) w e =
    let (_, p) = state-eq-ok (set_plain_file hook path h) e in
    replace_source-IsWellFormed hook (λ t. record t { plain_file = some path }) h h' (λ t. refl)
      (λ t. omega arith) w p
step-IsWellFormed h h' (sets_direct_bundle hook name ext) w e =
    let (_, p) = state-eq-ok (set_direct_bundle hook name ext h) e in
    let (file, _, _, q) = set_direct_bundle-eq-ok hook name ext h h' p in
    replace_source-IsWellFormed hook (λ t. record t { direct_bundle = file }) h h' (λ t. refl)
      (λ t. ground arith) w q
step-IsWellFormed h h' (sets_wren_loader hook handle) w e =
    let (_, p) = state-eq-ok (set_wren_loader hook handle h) e in
    replace_source-IsWellFormed hook (λ t. record t { wren_loader_obj = some handle }) h h'
      (λ t. refl) (λ t. omega arith) w p
step-IsWellFormed h h' (finalises hook) w e =
    subst IsWellFormed (ok-injective e) (finalise-IsWellFormed hook h w)

-- Whatever calls succeed from a well-formed state, the state they leave is well formed.
pub run-IsWellFormed :
    (h h' : Hooks) (cs : List Call) → IsWellFormed h → run h cs ≡ ok h' → IsWellFormed h'
unfolding run
run-IsWellFormed h h' [] w e = subst IsWellFormed (ok-injective e) w
run-IsWellFormed h h' (c ∷ cs) w e =
    let (h1, p, q) = >>=-eq-ok (step h c) _ e in
    run-IsWellFormed h1 h' cs (step-IsWellFormed h h1 c w p) q

pub no_hooks-IsWellFormed : IsWellFormed no_hooks
unfolding lookup
no_hooks-IsWellFormed = record {
  single = tt;
  keyed = λ k i e. cc;
  registered = λ i t e. cc;
  hooked = λ hook i e. cc;
  unshared = λ a b i e. cc;
}
