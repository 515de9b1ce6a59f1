-- ===== src/ScriptData/Numbers/Numbering.antt =====
-- The numbers that `write_info::IndexOf` of src/scriptdata/ScriptData.cpp gives to items.
use raid_super_blt.Base.{
  ℕ, ◌≡◌, ◌≢◌, refl, sym, ap, ◌∙◌, ◌↔◌, ◌⊎◌, inl, inr, Bool, true, false, none, some,
  some-injective, List, [], ◌∷◌, ◌++◌, length, get_elem?, get_elem?-append_inv,
  get_elem?-append_left, get_elem?-append_length, get_elem?-lt, ◌==◌, ==→eq, Bool-cases,
  Option-cases, arith,
}
use raid_super_blt.Outcome.{ok}
use raid_super_blt.ScriptData.{Item, Heap, get_id, WriteInfo, find_item, update, add_item, index_of}

-- The map from items to indices and the list of items of each type are inverse to each other.
abbrev pub IsNumbered : WriteInfo → Type 0
IsNumbered info =
    (id a i : ℕ)
    → (find_item a (info.item_positions id) ≡ some i) ↔ (get_elem? (info.items id) i ≡ some a)

-- The items of a list have the type of the list.
abbrev pub IsTyped : Heap → WriteInfo → Type 0
IsTyped heap info =
    (id a i : ℕ)
    → find_item a (info.item_positions id) ≡ some i
    → (item : Item) × (get_elem? heap a ≡ some item) × (get_id item ≡ id)

-- Whether an item has a number.
unfoldable pub has : Heap → WriteInfo → ℕ → Bool
has heap info a = elim (get_elem? heap a) [
  | none ↦ false
  | some item ↦ elim (find_item a (info.item_positions (get_id item))) [
    | none ↦ false
    | some idx ↦ true
  ]
]

update_self : {A : Type 0} (f : ℕ → A) (id : ℕ) (v : A) → update f id v id ≡ v
unfolding update
update_self f id v = ground arith

update_ne : {A : Type 0} (f : ℕ → A) (id k : ℕ) (v : A) → k ≢ id → update f id v k ≡ f k
unfolding update
update_ne f id k v h = ground arith

pub same_or_not : (a b : ℕ) → (a ≡ b) ⊎ (a ≢ b)
same_or_not a b = elim (Bool-cases (a == b)) [
  | inl e ↦ inl (==→eq a b e)
  | inr e ↦ inr (λ p. ground arith)
]

find_item_same : (a i : ℕ) (ps : List (ℕ × ℕ)) → find_item a ((a, i) ∷ ps) ≡ some i
unfolding find_item
find_item_same a i ps = ground arith

find_item_other :
    (a b i : ℕ) (ps : List (ℕ × ℕ)) → a ≢ b → find_item a ((b, i) ∷ ps) ≡ find_item a ps
unfolding find_item
find_item_other a b i ps h = ground arith

module _ (xs : List ℕ) (ps : List (ℕ × ℕ))
    (numbered : (b i : ℕ) → (find_item b ps ≡ some i) ↔ (get_elem? xs i ≡ some b)) where
  find_item-get_elem? :
      (a b i : ℕ) → find_item b ((a, length xs) ∷ ps) ≡ some i → get_elem? (xs ++ a ∷ []) i ≡ some b
  find_item-get_elem? a b i e = elim (same_or_not b a) [
    | inl p ↦
        let q : length xs ≡ i = some-injective (length xs) i (
          sym (find_item_same a (length xs) ps)
          ∙ (ap (λ t. find_item t ((a, length xs) ∷ ps)) (sym p) ∙ e)) in
        rw (sym q, p) (get_elem?-append_length xs [] a)
    | inr n ↦
        let old = (numbered b i).0 (sym (find_item_other b a (length xs) ps n) ∙ e) in
        get_elem?-append_left xs (a ∷ []) i (get_elem?-lt xs i b old) ∙ old
  ]

  get_elem?-find_item :
      (a b i : ℕ)
      → find_item a ps ≡ none
      → get_elem? (xs ++ a ∷ []) i ≡ some b
      → find_item b ((a, length xs) ∷ ps) ≡ some i
  get_elem?-find_item a b i new e = elim (get_elem?-append_inv xs a i b e) [
    | inl old ↦
        let found = (numbered b i).1 old in find_item_other b a (length xs) ps (λ p. cc) ∙ found
    | inr (p, q) ↦ rw (sym q, p) (find_item_same a (length xs) ps)
  ]

module _ (info : WriteInfo) (id a : ℕ) (numbered : IsNumbered info)
    (new : find_item a (info.item_positions id) ≡ none) where
  pub add_item-IsNumbered : IsNumbered (add_item info id a)
  unfolding add_item
  add_item-IsNumbered k b i = elim (same_or_not k id) [
    | inl e ↦
        rw (e, update_self info.items id, update_self info.item_positions id)
          (
            find_item-get_elem? (info.items id) (info.item_positions id) (numbered id) a b i,
            get_elem?-find_item (info.items id) (info.item_positions id) (numbered id) a b i new,
          )
    | inr n ↦
        rw (update_ne info.items id k _ n, update_ne info.item_positions id k _ n) (numbered k b i)
  ]

module _ (heap : Heap) (info : WriteInfo) (a : ℕ) (item : Item)
    (valid : get_elem? heap a ≡ some item) where
  pub has-eq_true :
      has heap info a ≡ true → (i : ℕ) × (find_item a (info.item_positions (get_id item)) ≡ some i)
  unfolding has
  has-eq_true e = elim (Option-cases (find_item a (info.item_positions (get_id item)))) [
    | inl missed ↦ absurd (cc (rw (has, valid, missed) at e))
    | inr found ↦ found
  ]

  pub has-eq_false :
      has heap info a ≡ false → find_item a (info.item_positions (get_id item)) ≡ none
  unfolding has
  has-eq_false e = elim (Option-cases (find_item a (info.item_positions (get_id item)))) [
    | inl missed ↦ missed
    | inr (i, found) ↦ absurd (cc (rw (has, valid, found) at e))
  ]

  pub index_of-known :
      (i : ℕ)
      → find_item a (info.item_positions (get_id item)) ≡ some i
      → index_of heap info a ≡ ok (i, false, info)
  unfolding index_of
  index_of-known i e = rw (index_of, valid, e) refl

  pub index_of-new :
      find_item a (info.item_positions (get_id item)) ≡ none
      → info.frozen ≡ false
      → index_of heap info a
        ≡ ok (length (info.items (get_id item)), true, add_item info (get_id item) a)
  unfolding index_of
  index_of-new e thawed = rw (index_of, valid, e, thawed) refl

  pub has-add_item_self : has heap (add_item info (get_id item) a) a ≡ true
  unfolding has add_item
  has-add_item_self =
      rw (has, valid, add_item, update_self info.item_positions (get_id item), find_item_same a)
        refl

  pub has-add_item_ne :
      (b : ℕ) → b ≢ a → has heap (add_item info (get_id item) a) b ≡ has heap info b
  unfolding has add_item
  has-add_item_ne b n = elim (Option-cases (get_elem? heap b)) [
    | inl e ↦ rw (has, e) refl
    | inr (other, e) ↦ elim (same_or_not (get_id other) (get_id item)) [
      | inl p ↦
          rw
            (
              has,
              e,
              add_item,
              p,
              update_self info.item_positions (get_id item),
              find_item_other b a _ _ n,
            )
            refl
      | inr q ↦
          rw (has, e, add_item, update_ne info.item_positions (get_id item) (get_id other) _ q) refl
    ]
  ]

  pub add_item-IsTyped : IsTyped heap info → IsTyped heap (add_item info (get_id item) a)
  unfolding add_item
  add_item-IsTyped typed k b i e = elim (same_or_not k (get_id item)) [
    | inr n ↦
        typed k b i (sym (ap (find_item b) (update_ne info.item_positions (get_id item) k _ n)) ∙ e)
    | inl p ↦ elim (same_or_not b a) [
      | inl q ↦ (item, ap (get_elem? heap) q ∙ valid, sym p)
      | inr n ↦ typed k b i (
          ap (λ t. find_item b (info.item_positions t)) p
          ∙ (sym (
                find_item_other b a (length (info.items (get_id item)))
                  (info.item_positions (get_id item)) n)
              ∙ (sym (
                    ap (find_item b) (
                      ap (update info.item_positions (get_id item) _) p
                      ∙ update_self info.item_positions (get_id item) _))
                  ∙ e)))
    ]
  ]
