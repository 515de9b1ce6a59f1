-- ===== src/ScriptData/Written/Filled.antt =====
-- The blocks that `SItem::Serialise` of src/scriptdata/ScriptData.cpp fills: they are those of
-- Layout with zeros for the addresses.
use raid_super_blt.Base.{
  ℕ, ◌+◌, ◌<◌, ◌≡◌, sym, ap, ◌∙◌, List, [], ◌∷◌, ◌++◌, append_assoc, append-nil, map, length,
  length-append, get_or, get_elem?-get_or, All, arith,
}
use raid_super_blt.Outcome.{ok}
use raid_super_blt.ScriptData.{Item, Heap, nil, Linkage, WriteInfo, for_each}
use raid_super_blt.ScriptData.Writing.{serialise_at}
use raid_super_blt.ScriptData.Written.Layout.{
  raw, own_block, own_links, raws, own_blocks, item_links,
}
use raid_super_blt.ScriptData.Written.Around.{num, ref, around}
use raid_super_blt.ScriptData.Written.Stored.{Written, IsStored, serialise_item-around}

module _ (heap : Heap) (info : WriteInfo) where
  -- The items (at heap info) a list of places.
  abbrev pub item_at : ℕ → Item
  item_at a = get_or heap a nil

  serialise_at-around :
      (a : ℕ) (front : List (List ℕ)) (c : List ℕ) (more : List (List ℕ)) (ln : List Linkage)
      → (a < length heap) × (IsStored heap info) (item_at a)
      → serialise_at heap (length front) (around heap info front c more ln) a
        ≡ ok (Written heap info front c more ln (item_at a))
  unfolding serialise_at
  serialise_at-around a front c more ln h =
      rw (get_elem?-get_or heap a nil h.0)
        (serialise_item-around heap info (item_at a) front c more ln h.1)

  -- A vector's contents.
  abbrev pub Filled :
      ℕ → List (List ℕ) → List ℕ → List (List ℕ) → List Linkage → List Item → WriteInfo
  Filled n front c more ln items =
      (around heap info) front
        (c ++ raws info.use_32bit (num heap info) (ref heap info) (λ _. 0) n items)
        (more ++ own_blocks info.use_32bit (num heap info) (ref heap info) items)
        (ln
          ++ item_links info.use_32bit (num heap info) (ref heap info) (length (front ++ c ∷ more))
              (length front) (length c) items)

  next_block :
      (item : Item) (front : List (List ℕ)) (c d : List ℕ) (more : List (List ℕ))
      → length
          (front ++ d ∷ (more ++ own_block info.use_32bit (num heap info) (ref heap info) item))
        ≡ length (front ++ c ∷ more)
          + length (own_block info.use_32bit (num heap info) (ref heap info) item)
  next_block item front c d more = omega (
    arith,
    length-append front
        (d ∷ (more ++ own_block info.use_32bit (num heap info) (ref heap info) item)),
    length-append front (c ∷ more),
    length-append more (own_block info.use_32bit (num heap info) (ref heap info) item),
  )

  Filled-step :
      (item : Item) (items : List Item) (n : ℕ) (front : List (List ℕ)) (c : List ℕ)
      (more : List (List ℕ)) (ln : List Linkage)
      → Filled
          (n + length (own_block info.use_32bit (num heap info) (ref heap info) item))
          front
          (c ++ raw info.use_32bit (num heap info) (ref heap info) 0 item)
          (more ++ own_block info.use_32bit (num heap info) (ref heap info) item)
          (ln
            ++ own_links info.use_32bit
                (num heap info)
                (ref heap info)
                (length (front ++ c ∷ more))
                (length front)
                (length c)
                item)
          items
        ≡ Filled n front c more ln (item ∷ items)
  unfolding raws own_blocks item_links
  Filled-step item items n front c more ln =
      let x = raw info.use_32bit (num heap info) (ref heap info) 0 item in
      let own = own_block info.use_32bit (num heap info) (ref heap info) item in
      let xs =
        raws info.use_32bit (num heap info) (ref heap info) (λ _. 0) (n + length own) items in
      let owns = own_blocks info.use_32bit (num heap info) (ref heap info) items in
      let first =
        own_links info.use_32bit (num heap info) (ref heap info) (length (front ++ c ∷ more))
          (length front) (length c) item in
      let links = λ (k p : ℕ).
        item_links info.use_32bit (num heap info) (ref heap info) k (length front) p items in
      ap
        (λ t.
          (around heap info) front t ((more ++ own) ++ owns)
            ((ln ++ first) ++ links (length (front ++ (c ++ x) ∷ (more ++ own))) (length (c ++ x))))
        (append_assoc c x xs)
      ∙ (ap
            (λ t. (around heap info) front (c ++ (x ++ xs)) t (
              (ln ++ first)
              ++ links (length (front ++ (c ++ x) ∷ (more ++ own))) (length (c ++ x))))
            (append_assoc more own owns)
          ∙ (ap
                (λ k.
                  (around heap info) front (c ++ (x ++ xs)) (more ++ (own ++ owns))
                    ((ln ++ first) ++ links k (length (c ++ x))))
                (next_block item front c (c ++ x) more)
              ∙ (ap
                    (λ p.
                      (around heap info) front (c ++ (x ++ xs)) (more ++ (own ++ owns))
                        ((ln ++ first) ++ links (length (front ++ c ∷ more) + length own) p))
                    (length-append c x)
                  ∙ ap (λ t. (around heap info) front (c ++ (x ++ xs)) (more ++ (own ++ owns)) t)
                      (append_assoc ln first
                        (links (length (front ++ c ∷ more) + length own) (length c + length x))))))

  pub contents-around :
      (xs : List ℕ) (n : ℕ) (front : List (List ℕ)) (c : List ℕ) (more : List (List ℕ))
      (ln : List Linkage)
      → All (λ a. (a < length heap) × (IsStored heap info) (item_at a)) xs
      → for_each (serialise_at heap (length front)) (around heap info front c more ln) xs
        ≡ ok (Filled n front c more ln (map item_at xs))
  unfolding for_each raws own_blocks item_links
  contents-around [] n front c more ln h = sym (
      ap ok (
        ap (λ t. (around heap info) front t (more ++ []) (ln ++ [])) (append-nil c)
        ∙ (ap (λ t. (around heap info) front c t (ln ++ [])) (append-nil more)
            ∙ ap (λ t. (around heap info) front c more t) (append-nil ln))))
  contents-around (x ∷ xs) n front c more ln h =
      let item = item_at x in
      rw (serialise_at-around x front c more ln h.0) (
        contents-around xs
          (n + length (own_block info.use_32bit (num heap info) (ref heap info) item)) front
          (c ++ raw info.use_32bit (num heap info) (ref heap info) 0 item)
          (more ++ own_block info.use_32bit (num heap info) (ref heap info) item) _ h.1
        ∙ ap ok (Filled-step item (map item_at xs) n front c more ln))
