-- ===== src/ScriptData/Numbers/Walks.antt =====
-- The calls that `Register` in src/scriptdata/ScriptData.cpp makes from one item.
use raid_super_blt.Base.{
  ℕ, zero, suc, ◌≤◌, ◌<◌, ◌≡◌, ◌≢◌, refl, sym, ap, ◌∙◌, subst, inl, inr, Bool, true, false, some,
  some-injective, List, [], ◌∷◌, length, get_elem?, get_elem?-lt, get_elem?-some, All,
  All-get_elem?, All-map, if◌then◌else◌, Bool-cases, arith,
}
use raid_super_blt.Outcome.{Outcome, ok}
use raid_super_blt.ScriptData.{
  Item, Heap, get_id, WriteInfo, add_item, for_each, children, register,
}
use raid_super_blt.ScriptData.Numbers.Reach.{Points, Reach, step, children-Points, IsClosed}
use raid_super_blt.ScriptData.Numbers.Numbering.{
  IsNumbered, IsTyped, add_item-IsTyped, has, same_or_not, has-eq_true, has-eq_false,
  index_of-known, index_of-new, add_item-IsNumbered, has-add_item_self, has-add_item_ne,
}

-- How many of the first `n` numbers fail a test.
pub missing : (ℕ → Bool) → ℕ → ℕ
missing f zero = 0
missing f (suc n) = let rest = missing f n in if f n then rest else suc rest

module _ (f g : ℕ → Bool) (more : (i : ℕ) → f i ≡ true → g i ≡ true) where
  missing_le : (n : ℕ) → missing g n ≤ missing f n
  unfolding missing
  missing_le zero = omega arith
  missing_le (suc n) = ground (arith, missing_le n, more n)

  missing_lt : (n a : ℕ) → a < n → f a ≡ false → g a ≡ true → missing g n < missing f n
  unfolding missing
  missing_lt zero a h e d = absurd (omega arith)
  missing_lt (suc n) a h e d = elim (same_or_not a n) [
    | inl p ↦ rw (sym p, e, d) (omega (arith, missing_le a))
    | inr q ↦ ground (arith, missing_lt n a, more n)
  ]

pub missing_bound : (f : ℕ → Bool) (n : ℕ) → missing f n ≤ n
unfolding missing
missing_bound f zero = omega arith
missing_bound f (suc n) = ground (arith, missing_bound f n)

module _ (heap : Heap) (root : ℕ) (use_32bit : Bool) (closed : IsClosed heap) where
  -- What a walk keeps.
  pub record IsWalk (info : WriteInfo) : Type 0 where
    pub numbered : IsNumbered info
    pub typed : IsTyped heap info
    pub thawed : info.frozen ≡ false
    pub unapplied : info.blocks_applied ≡ false
    pub width : info.use_32bit ≡ use_32bit
    pub reached : (b : ℕ) → has heap info b ≡ true → Reach heap root b

  -- What a walk from `starts` does.
  pub record Visits (info : WriteInfo) (starts : List ℕ) (next : WriteInfo) : Type 0 where
    pub walk : IsWalk next
    pub kept : (b : ℕ) → has heap info b ≡ true → has heap next b ≡ true
    pub covers : All (λ b. has heap next b ≡ true) starts
    pub followed :
        (b : ℕ) (item : Item)
        → get_elem? heap b ≡ some item
        → has heap next b ≡ true
        → has heap info b ≡ false
        → All (λ c. has heap next c ≡ true) (children item)

  abbrev left : WriteInfo → ℕ
  left info = missing (has heap info) (length heap)

  abbrev Walks : (WriteInfo → ℕ → Outcome WriteInfo) → ℕ → Type 0
  Walks walk fuel =
      (info : WriteInfo) (a : ℕ)
      → IsWalk info
      → Reach heap root a
      → a < length heap
      → left info < fuel
      → (next : WriteInfo) × (walk info a ≡ ok next) × Visits info (a ∷ []) next

  Visits-trans :
      (info mid next : WriteInfo) (a : ℕ) (rest : List ℕ)
      → Visits info (a ∷ []) mid
      → Visits mid rest next
      → Visits info (a ∷ rest) next
  Visits-trans info mid next a rest first later = record {
    walk = later.walk;
    kept = λ b h. later.kept b (first.kept b h);
    covers = (later.kept a first.covers.0, later.covers);
    followed = λ b item valid now before. elim (Bool-cases (has heap mid b)) [
      | inl between ↦
          All-map _ _ (children item) (λ c h. later.kept c h)
            (first.followed b item valid between before)
      | inr not_yet ↦ later.followed b item valid now not_yet
    ];
  }

  for_each-Visits :
      (walk : WriteInfo → ℕ → Outcome WriteInfo) (fuel : ℕ)
      → Walks walk fuel
      → (xs : List ℕ) (info : WriteInfo) → IsWalk info
      → All (Reach heap root) xs
      → All (λ c. c < length heap) xs
      → left info < fuel
      → (next : WriteInfo) × (for_each walk info xs ≡ ok next) × Visits info xs next
  unfolding for_each
  for_each-Visits walk fuel walks [] info w r v m = (
    info,
    refl,
    record {
      walk = w;
      kept = λ b h. h;
      covers = tt;
      followed = λ b item valid now before. absurd (cc);
    },
  )
  for_each-Visits walk fuel walks (x ∷ xs) info w r v m =
      let (mid, e, first) = walks info x w r.0 v.0 m in
      let less : left mid ≤ left info =
        missing_le (has heap info) (has heap mid) first.kept (length heap) in
      let (next, d, later) =
        for_each-Visits walk fuel walks xs mid first.walk r.1 v.1 (omega arith) in
      (next, rw e d, Visits-trans info mid next x xs first later)

  -- The item itself is added, and then what it leads to is visited.
  module _ (info : WriteInfo) (a : ℕ) (item : Item) (w : IsWalk info) (reach : Reach heap root a)
      (valid : get_elem? heap a ≡ some item) (absent : has heap info a ≡ false) where
    abbrev added : WriteInfo
    added = add_item info (get_id item) a

    added_self : has heap added a ≡ true
    added_self = has-add_item_self heap info a item valid

    added_kept : (b : ℕ) → has heap info b ≡ true → has heap added b ≡ true
    added_kept b h = elim (same_or_not b a) [
      | inl p ↦ rw p added_self
      | inr n ↦ has-add_item_ne heap info a item valid b n ∙ h
    ]

    added_old : (b : ℕ) → b ≢ a → has heap added b ≡ true → has heap info b ≡ true
    added_old b n h = sym (has-add_item_ne heap info a item valid b n) ∙ h

    added-IsWalk : IsWalk added
    unfolding add_item
    added-IsWalk = record {
      numbered =
          add_item-IsNumbered info (get_id item) a w.numbered
            (has-eq_false heap info a item valid absent);
      typed = add_item-IsTyped heap info a item valid w.typed;
      thawed = w.thawed;
      unapplied = w.unapplied;
      width = w.width;
      reached = λ b h. elim (same_or_not b a) [
        | inl p ↦ rw p reach
        | inr n ↦ w.reached b (added_old b n h)
      ];
    }

    children_reached : All (Reach heap root) (children item)
    children_reached =
        All-map _ _ (children item) (λ c p. step reach item valid c p) (children-Points item)

    added-left : left added < left info
    added-left =
        missing_lt (has heap info) (has heap added) added_kept (length heap) a
          (get_elem?-lt heap a item valid) absent added_self

    added-Visits :
        (next : WriteInfo) → Visits added (children item) next → Visits info (a ∷ []) next
    added-Visits next v = record {
      walk = v.walk;
      kept = λ b h. v.kept b (added_kept b h);
      covers = (v.kept a added_self, tt);
      followed = λ b other there now before. elim (same_or_not b a) [
        | inl p ↦
            let same : item ≡ other =
              some-injective item other (sym valid ∙ (ap (get_elem? heap) (sym p) ∙ there)) in
            subst (λ t. All (λ c. has heap next c ≡ true) (children t)) same v.covers
        | inr n ↦ v.followed b other there now (has-add_item_ne heap info a item valid b n ∙ before)
      ];
    }

  pub register-Visits : (fuel : ℕ) → Walks (register fuel heap) fuel
  unfolding register
  register-Visits zero info a w r v m = absurd (omega arith)
  register-Visits (suc fuel) info a w r v m =
      let (item, valid) = get_elem?-some heap a v in
      elim (Bool-cases (has heap info a)) [
        | inl present ↦
            let (i, e) = has-eq_true heap info a item valid present in
            (
              info,
              rw (register, index_of-known heap info a item valid i e, valid) refl,
              record {
                walk = w;
                kept = λ b h. h;
                covers = (present, tt);
                followed = λ b other there now before. absurd (cc);
              },
            )
        | inr absent ↦
            let (next, e, visited) =
              for_each-Visits (register fuel heap) fuel (register-Visits fuel) (children item)
                (added info a item w r valid absent) (added-IsWalk info a item w r valid absent)
                (children_reached info a item w r valid absent)
                (All-map _ _ (children item)
                  (λ c p.
                    All-get_elem? (λ t. (d : ℕ) → Points t d → d < length heap) heap a item closed
                      valid c p)
                  (children-Points item))
                (omega (arith, added-left info a item w r valid absent)) in
            (
              next,
              rw
                  (
                    register,
                    index_of-new heap info a item valid (has-eq_false heap info a item valid absent)
                        w.thawed,
                    valid,
                  )
                  e,
              added-Visits info a item w r valid absent next visited,
            )
      ]
