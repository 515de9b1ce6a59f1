-- ===== src/ScriptData/Writing.antt =====
-- How src/scriptdata/ScriptData.cpp writes a value: the blocks of the file, with the blocks of
-- src/scriptdata/FormatTools.cpp and their links.
use raid_super_blt.Base.{
  ℕ, zero, suc, ◌+◌, ◌*◌, ◌%◌, ◌^◌, Bool, true, not, Option, none, some, List, [], ◌∷◌, ◌++◌,
  length, get_elem?, get_or, take, flatten, ltb, ◌==◌, if◌then◌else◌, le_bytes,
}
use raid_super_blt.Outcome.{Outcome, ok, stop, throws, undefined, require, value_or, ◌>>=◌, ◌>>◌}
use raid_super_blt.Diesel.Contents.{write_at}
use raid_super_blt.ScriptData.{
  Item, Heap, nil, boolean, number, string, vector, quaternion, idstring, table, get_id, Linkage,
  WriteInfo, blank, index_of, for_each, entry_pointers, register,
}

-- The size of a pointer in the file.
abbrev pub pointer_size : Bool → ℕ
pointer_size is_32bit = if is_32bit then 4 else 8

unfoldable pub freeze : WriteInfo → WriteInfo
freeze info = record info { frozen = true; blocks = []; linkages = [] }

unfoldable pub create_block : WriteInfo → Outcome (ℕ × WriteInfo)
create_block info = do
  require (not info.blocks_applied) throws
  ok (length info.blocks, record info { blocks = info.blocks ++ [] ∷ [] })

unfoldable pub create_linkage : WriteInfo → ℕ → ℕ → ℕ → WriteInfo
create_linkage info block out pos = record info {
  linkages = info.linkages ++ record { block = block; out = out; pos = pos } ∷ [];
}

-- The blocks with more bytes at the end of one of them.
unfoldable pub append_to : List (List ℕ) → ℕ → List ℕ → List (List ℕ)
append_to [] out bytes = []
append_to (block ∷ blocks) zero bytes = (block ++ bytes) ∷ blocks
append_to (block ∷ blocks) (suc out) bytes = block ∷ append_to blocks out bytes

-- `stream` of a block, and `write` on it.
unfoldable pub write_bytes : WriteInfo → ℕ → List ℕ → WriteInfo
write_bytes info out bytes = record info { blocks = append_to info.blocks out bytes }

-- The place in a block, which `link_address` cuts to 32 bits together with the address of the block.
unfoldable pub tellp : WriteInfo → ℕ → ℕ
tellp info out = length (get_or info.blocks out [])

-- `writePtr`
unfoldable pub write_ptr : WriteInfo → ℕ → ℕ → WriteInfo
write_ptr info out val = write_bytes info out (le_bytes (pointer_size info.use_32bit) val)

-- `writeRef`, where `index & 0xFFFFFF` and the type are digits of one number.
unfoldable pub write_ref : Heap → ℕ → WriteInfo → ℕ → Outcome WriteInfo
write_ref heap out info a = do
  item ← value_or (get_elem? heap a) undefined
  let id = get_id item
  if ltb id 3 then ok (write_bytes info out (le_bytes 4 (id * 2 ^ 24))) else (do
    (index, added, next) ← index_of heap info a
    ok (write_bytes next out (le_bytes 4 (index % 2 ^ 24 + id * 2 ^ 24))))

-- A block whose address goes where zeros are written to `out`.
unfoldable pub link_new_block : WriteInfo → ℕ → Outcome (ℕ × WriteInfo)
link_new_block info out = do
  (block, next) ← create_block info
  ok (block, write_ptr (create_linkage next block out (tellp next out)) out 0)

-- The count and the capacity of a vector.
unfoldable pub write_sizes : WriteInfo → ℕ → ℕ → WriteInfo
write_sizes info out count =
    write_bytes (write_bytes info out (le_bytes 4 (count % 2 ^ 32))) out
      (le_bytes 4 (count % 2 ^ 32))

-- The first pointer that `STable::Serialise` writes.
unfoldable pub write_meta : Heap → ℕ → WriteInfo → Option ℕ → Outcome WriteInfo
write_meta heap out info none = ok (write_ptr info out 0xFFFFFFFF)
write_meta heap out info (some meta) = do
  (index, added, next) ← index_of heap info meta
  ok (write_ptr next out index)

-- `Serialise` of an item.
unfoldable pub serialise_item : Heap → ℕ → WriteInfo → Item → Outcome WriteInfo
serialise_item heap out info nil = stop throws
serialise_item heap out info (boolean b) = stop throws
serialise_item heap out info (number val) = ok (write_bytes info out (le_bytes 4 val))
serialise_item heap out info (string val) = do
  (block, next) ← link_new_block (write_ptr info out 0) out
  ok (write_bytes next block (val ++ 0 ∷ []))
serialise_item heap out info (vector x y z) =
    ok (write_bytes info out (le_bytes 4 x ++ (le_bytes 4 y ++ le_bytes 4 z)))
serialise_item heap out info (quaternion x y z w) =
    ok (write_bytes info out (le_bytes 4 x ++ (le_bytes 4 y ++ (le_bytes 4 z ++ le_bytes 4 w))))
serialise_item heap out info (idstring val) = ok (write_bytes info out (le_bytes 8 val))
serialise_item heap out info (table meta items) = do
  headed ← write_meta heap out info meta
  (contents, next) ← link_new_block (write_sizes headed out (length items)) out
  for_each (write_ref heap contents) (write_ptr next out 0) (entry_pointers items)

-- `Serialise` of what a pointer leads to.
unfoldable pub serialise_at : Heap → ℕ → WriteInfo → ℕ → Outcome WriteInfo
serialise_at heap out info a = do
  item ← value_or (get_elem? heap a) undefined
  serialise_item heap out info item

-- `serialise_vector`
unfoldable pub serialise_vector : Heap → ℕ → WriteInfo → ℕ → Outcome WriteInfo
serialise_vector heap out info id = do
  (contents, next) ← link_new_block (write_sizes info out (length (info.items id))) out
  for_each (serialise_at heap contents) (write_ptr next out 0) (next.items id)

-- The address of a block, `write_block::offset`, of 32 bits.
unfoldable pub offset_of : List (List ℕ) → ℕ → ℕ
offset_of blocks block = length (flatten (take block blocks)) % 2 ^ 32

-- `on_address_set` of a linkage: `write_block::seek`, and `writePtr`. A block at 0xFFFFFFFF counts
-- as not located, and its stream is gone.
unfoldable pub link_address : Bool → List (List ℕ) → List ℕ → Linkage → Outcome (List ℕ)
link_address is_32bit blocks main l = do
  require (not (offset_of blocks l.out == 0xFFFFFFFF)) undefined
  ok (
      write_at main ((offset_of blocks l.out + l.pos) % 2 ^ 32)
        (le_bytes (pointer_size is_32bit) (offset_of blocks l.block)))

-- `apply_blocks`
unfoldable pub apply_blocks : WriteInfo → Outcome (List ℕ)
apply_blocks info =
    for_each (link_address info.use_32bit info.blocks) (flatten info.blocks) info.linkages

-- The types of the six vectors of a file.
abbrev pub vector_ids : List ℕ
vector_ids = 3 ∷ 4 ∷ 5 ∷ 6 ∷ 7 ∷ 8 ∷ []

-- `SItem::Serialise` up to `apply_blocks`.
unfoldable pub fill_blocks : Heap → ℕ → Bool → Outcome WriteInfo
fill_blocks heap root use_32bit = do
  registered ← register (suc (length heap)) heap (blank use_32bit) root
  (out, opened) ← create_block (freeze registered)
  filled ← for_each (serialise_vector heap out) (write_ptr opened out 0) vector_ids
  write_ref heap out filled root

-- `SItem::Serialise`
unfoldable pub serialise : Heap → ℕ → Bool → Outcome (List ℕ)
serialise heap root use_32bit = do info ← fill_blocks heap root use_32bit; apply_blocks info
