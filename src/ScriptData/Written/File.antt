-- ===== src/ScriptData/Written/File.antt =====
-- The whole file that `SItem::Serialise` of src/scriptdata/ScriptData.cpp writes.
use raid_super_blt.Base.{
  ℕ, suc, ◌-◌, ◌^◌, ◌<◌, ◌≡◌, refl, sym, ap, ◌∙◌, subst, Bool, List, [], ◌∷◌, ◌++◌, append_assoc,
  length, flatten, le_bytes,
}
use raid_super_blt.Outcome.{ok, ok-injective, ◌>>=◌}
use raid_super_blt.ScriptData.{Item, Heap, WriteInfo, blank, register, for_each}
use raid_super_blt.ScriptData.Numbers.Reach.{IsClosed}
use raid_super_blt.ScriptData.Numbers.Walks.{Visits}
use raid_super_blt.ScriptData.Numbers.Registered.{register_all}
use raid_super_blt.ScriptData.Writing.{offset_of, link_address, apply_blocks, vector_ids, serialise}
use raid_super_blt.ScriptData.Written.Layout.{ptr, header, body, vector_links}
use raid_super_blt.ScriptData.Written.Around.{num, ref}
use raid_super_blt.ScriptData.Written.Vectors.{groups}
use raid_super_blt.ScriptData.Written.Blocks.{filled, fill_blocks-filled}
use raid_super_blt.ScriptData.Written.Applied.{vectors-linked}

module _ (heap : Heap) (info : WriteInfo) (root : ℕ) where
  abbrev pub w : Bool
  w = info.use_32bit

  abbrev pub nums : ℕ → ℕ
  nums = num heap info

  abbrev pub refs_of : ℕ → ℕ
  refs_of = ref heap info

  abbrev pub items_by_type : List (List Item)
  items_by_type = groups heap info vector_ids

  -- The blocks with some addresses: the header with the reference to the value at its end, and the
  -- contents of the vectors, each followed by the blocks of its items.
  unfoldable pub head_block : (ℕ → ℕ) → List ℕ
  head_block f =
      ptr w nums refs_of 0 ++ (header w nums refs_of f 1 items_by_type ++ le_bytes 4 (refs_of root))

  unfoldable pub blocks_with : (ℕ → ℕ) → List (List ℕ)
  blocks_with f = head_block f ∷ body w nums refs_of f 1 items_by_type

  -- The address of a block.
  unfoldable pub address_of : ℕ → ℕ
  address_of = offset_of (blocks_with (λ _. 0))

  -- The file.
  unfoldable pub layout : List ℕ
  layout = flatten (blocks_with address_of)

  pub apply-layout :
      length (flatten (blocks_with (λ _. 0))) < 2 ^ 32 - 1
      → for_each
          (link_address w (blocks_with (λ _. 0)))
          (flatten (blocks_with (λ _. 0)))
          (vector_links w nums refs_of 1 (length (ptr w nums refs_of 0)) items_by_type)
        ≡ ok layout
  unfolding layout address_of blocks_with head_block
  apply-layout small =
      vectors-linked w nums refs_of (blocks_with (λ _. 0)) items_by_type 1 (ptr w nums refs_of 0)
        (le_bytes 4 (refs_of root)) [] (head_block (λ _. 0) ∷ []) refl refl refl small

module _ (heap : Heap) (root : ℕ) (b : Bool) (closed : IsClosed heap) (info : WriteInfo)
    (v : Visits heap root b closed (blank b) (root ∷ []) info) where
  pub same_blocks : (filled heap root b closed info v).blocks ≡ blocks_with heap info root (λ _. 0)
  unfolding blocks_with head_block
  same_blocks =
      ap
        (λ t.
          t
          ∷ body (w heap info root) (nums heap info root) (refs_of heap info root) (λ _. 0) 1
              (items_by_type heap info root))
        (append_assoc (ptr (w heap info root) (nums heap info root) (refs_of heap info root) 0)
          (header (w heap info root) (nums heap info root) (refs_of heap info root) (λ _. 0) 1
            (items_by_type heap info root))
          (le_bytes 4 (refs_of heap info root root)))

  pub serialise_visited :
      register (suc (length heap)) heap (blank b) root ≡ ok info
      → length (flatten (blocks_with heap info root (λ _. 0))) < 2 ^ 32 - 1
      → serialise heap root b ≡ ok (layout heap info root)
  unfolding serialise apply_blocks
  serialise_visited e small =
      let links =
        vector_links (w heap info root) (nums heap info root) (refs_of heap info root) 1
          (length (ptr (w heap info root) (nums heap info root) (refs_of heap info root) 0))
          (items_by_type heap info root) in
      ap (λ m. m >>= apply_blocks) (fill_blocks-filled heap root b closed info v e)
      ∙ (ap (λ t. for_each (link_address (w heap info root) t) (flatten t) links) same_blocks
          ∙ apply-layout heap info root small)

pub blank-Visits :
    (heap : Heap) (root : ℕ) (b : Bool) (closed : IsClosed heap) (info : WriteInfo)
    → root < length heap
    → register (suc (length heap)) heap (blank b) root ≡ ok info
    → Visits heap root b closed (blank b) (root ∷ []) info
blank-Visits heap root b closed info h e =
    let (next, d, v) = register_all heap root b closed h in
    subst (Visits heap root b closed (blank b) (root ∷ [])) (ok-injective (sym d ∙ e)) v

-- When every pointer leads to an item and the blocks together are shorter than 2 ^ 32 - 1 bytes,
-- `Serialise` returns, and the file is the blocks one behind the other: the header with the six
-- vectors and the reference to the value, and for each vector its contents and the blocks of its
-- strings or tables, where every pointer is the address of the block that it is for.
pub serialise-layout :
    (heap : Heap) (root : ℕ) (b : Bool) (info : WriteInfo)
    → IsClosed heap
    → root < length heap
    → register (suc (length heap)) heap (blank b) root ≡ ok info
    → length (flatten (blocks_with heap info root (λ _. 0))) < 2 ^ 32 - 1
    → serialise heap root b ≡ ok (layout heap info root)
serialise-layout heap root b info closed h e small =
    serialise_visited heap root b closed info (blank-Visits heap root b closed info h e) e small
