-- ===== src/ScriptData/Written/Blocks.antt =====
-- The blocks and links that `SItem::Serialise` of src/scriptdata/ScriptData.cpp has made when it
-- comes to `apply_blocks`.
use raid_super_blt.Base.{
  ℕ, suc, ◌≡◌, ◌≢◌, refl, sym, ◌∙◌, subst, Bool, true, false, none, some, List, [], ◌∷◌, ◌++◌,
  length, get_elem?, get_elem?-lt, get_or-get_elem?, le_bytes, All, All-of-get_elem?,
}
use raid_super_blt.Outcome.{ok}
use raid_super_blt.ScriptData.{
  Item, Heap, nil, boolean, number, string, vector, quaternion, idstring, table, get_id, WriteInfo,
  blank, register, children,
}
use raid_super_blt.ScriptData.Numbers.Numbering.{has}
use raid_super_blt.ScriptData.Numbers.Reach.{IsClosed}
use raid_super_blt.ScriptData.Numbers.Walks.{Visits}
use raid_super_blt.ScriptData.Numbers.Registered.{has-blank}
use raid_super_blt.ScriptData.Writing.{
  freeze, create_block, append_to, write_bytes, write_ptr, vector_ids, fill_blocks,
}
use raid_super_blt.ScriptData.Written.Layout.{ptr, header, body, vector_links}
use raid_super_blt.ScriptData.Written.Around.{at, num, ref, write_ref-at}
use raid_super_blt.ScriptData.Written.Stored.{IsStored}
use raid_super_blt.ScriptData.Written.Vectors.{IsGroup, groups, vectors-after}

module _ (heap : Heap) (root : ℕ) (b : Bool) (closed : IsClosed heap) (info : WriteInfo)
    (v : Visits heap root b closed (blank b) (root ∷ []) info) where
  children_known :
      (a : ℕ) (item : Item)
      → get_elem? heap a ≡ some item
      → has heap info a ≡ true
      → All (λ c. has heap info c ≡ true) (children item)
  children_known a item valid known = v.followed a item valid known (has-blank heap root b closed a)

  stored :
      (item : Item)
      → get_id item ≢ 0
      → get_id item ≢ 1
      → get_id item ≢ 2
      → All (λ c. has heap info c ≡ true) (children item)
      → IsStored heap info item
  unfolding get_id children
  stored nil n0 n1 n2 h = n0 refl
  stored (boolean true) n0 n1 n2 h = n1 refl
  stored (boolean false) n0 n1 n2 h = n2 refl
  stored (number val) n0 n1 n2 h = tt
  stored (string val) n0 n1 n2 h = tt
  stored (vector x y z) n0 n1 n2 h = tt
  stored (quaternion x y z w) n0 n1 n2 h = tt
  stored (idstring val) n0 n1 n2 h = tt
  stored (table none items) n0 n1 n2 h = h
  stored (table (some meta) items) n0 n1 n2 h = h

  pub is_group : (id : ℕ) → id ≢ 0 → id ≢ 1 → id ≢ 2 → IsGroup heap info id
  unfolding has
  is_group id n0 n1 n2 = All-of-get_elem? _ (info.items id) (λ i a e.
      let found = (v.walk.numbered id a i).1 e in
      let (item, valid, type) = v.walk.typed id a i found in
      let known : has heap info a ≡ true = rw (has, valid, type, found) refl in
      (
        get_elem?-lt heap a item valid,
        subst (IsStored heap info) (sym (get_or-get_elem? heap a nil item valid)) (
            stored item (λ p. n0 (sym type ∙ p)) (λ p. n1 (sym type ∙ p)) (λ p. n2 (sym type ∙ p))
              (children_known a item valid known)),
      ))

  abbrev pub gs : List (List Item)
  gs = groups heap info vector_ids

  -- The first block, and all blocks.
  abbrev pub first_block : List ℕ
  first_block =
      (ptr info.use_32bit (num heap info) (ref heap info) 0
        ++ header info.use_32bit (num heap info) (ref heap info) (λ _. 0) 1 gs)
      ++ le_bytes 4 (ref heap info root)

  abbrev pub filled : WriteInfo
  filled =
      at heap info (first_block ∷ body info.use_32bit (num heap info) (ref heap info) (λ _. 0) 1 gs)
        (vector_links info.use_32bit (num heap info) (ref heap info) 1
          (length (ptr info.use_32bit (num heap info) (ref heap info) 0)) gs)

  opened : create_block (freeze info) ≡ ok (0, at heap info ([] ∷ []) [])
  unfolding create_block freeze
  opened = rw (create_block, v.walk.unapplied) refl

  groups_stored : All (IsGroup heap info) vector_ids
  groups_stored = (
    is_group 3 (λ e. cc) (λ e. cc) (λ e. cc),
    (
      is_group 4 (λ e. cc) (λ e. cc) (λ e. cc),
      (
        is_group 5 (λ e. cc) (λ e. cc) (λ e. cc),
        (
          is_group 6 (λ e. cc) (λ e. cc) (λ e. cc),
          (
            is_group 7 (λ e. cc) (λ e. cc) (λ e. cc),
            (is_group 8 (λ e. cc) (λ e. cc) (λ e. cc), tt),
          ),
        ),
      ),
    ),
  )

  pub fill_blocks-filled :
      register (suc (length heap)) heap (blank b) root ≡ ok info
      → fill_blocks heap root b ≡ ok filled
  unfolding fill_blocks write_ptr write_bytes append_to
  fill_blocks-filled e =
      let p = ptr info.use_32bit (num heap info) (ref heap info) 0 in
      rw (e, opened, vectors-after heap info vector_ids p [] [] groups_stored)
        (write_ref-at heap info 0 root _ _ v.covers.0)
