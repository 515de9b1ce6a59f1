-- ===== src/ScriptData/Written/Layout.antt =====
-- What a file of src/scriptdata/ScriptData.cpp looks like: the bytes of its blocks in order, for
-- any choice of the addresses of the blocks.
use raid_super_blt.Base.{
  ℕ, suc, ◌+◌, ◌*◌, ◌%◌, ◌^◌, ◌≡◌, Bool, Option, none, some, List, [], ◌∷◌, ◌++◌, map, length,
  length-append, get_elem?, ltb, if◌then◌else◌, le_bytes, length-le_bytes, arith,
}
use raid_super_blt.ScriptData.{
  Item, Heap, nil, boolean, number, string, vector, quaternion, idstring, table, get_id, Linkage,
  WriteInfo, find_item, entry_pointers,
}
use raid_super_blt.ScriptData.Writing.{pointer_size}

-- The number of an item, and the reference to it.
unfoldable pub number_of : Heap → WriteInfo → ℕ → ℕ
number_of heap info a = elim (get_elem? heap a) [
  | none ↦ 0
  | some item ↦ elim (find_item a (info.item_positions (get_id item))) [ none ↦ 0 | some idx ↦ idx ]
]

unfoldable pub reference_of : Heap → WriteInfo → ℕ → ℕ
reference_of heap info a = elim (get_elem? heap a) [
  | none ↦ 0
  | some item ↦
      if ltb (get_id item) 3
      then get_id item * 2 ^ 24
      else number_of heap info a % 2 ^ 24 + get_id item * 2 ^ 24
]

-- Pointers of a size, the numbers of metas, and the references.
module _ (b : Bool) (num ref : ℕ → ℕ) where
  abbrev pub ptr : ℕ → List ℕ
  ptr v = le_bytes (pointer_size b) v

  unfoldable pub meta_value : Option ℕ → ℕ
  meta_value none = 0xFFFFFFFF
  meta_value (some meta) = num meta

  -- A vector of `count` elements at an address.
  unfoldable pub vec_bytes : ℕ → ℕ → List ℕ
  vec_bytes count address =
      le_bytes 4 (count % 2 ^ 32) ++ (le_bytes 4 (count % 2 ^ 32) ++ (ptr address ++ ptr 0))

  -- An item in the vector of its type, with the address of its own block if it has one.
  unfoldable pub raw : ℕ → Item → List ℕ
  raw address nil = []
  raw address (boolean v) = []
  raw address (number val) = le_bytes 4 val
  raw address (string val) = ptr 0 ++ ptr address
  raw address (vector x y z) = le_bytes 4 x ++ (le_bytes 4 y ++ le_bytes 4 z)
  raw address (quaternion x y z w) =
      le_bytes 4 x ++ (le_bytes 4 y ++ (le_bytes 4 z ++ le_bytes 4 w))
  raw address (idstring val) = le_bytes 8 val
  raw address (table meta items) = ptr (meta_value meta) ++ vec_bytes (length items) address

  -- The references of a table's entries.
  unfoldable pub refs : List ℕ → List ℕ
  refs [] = []
  refs (a ∷ rest) = le_bytes 4 (ref a) ++ refs rest

  -- The block of a string or of a table.
  unfoldable pub own_block : Item → List (List ℕ)
  own_block nil = []
  own_block (boolean v) = []
  own_block (number val) = []
  own_block (string val) = (val ++ 0 ∷ []) ∷ []
  own_block (vector x y z) = []
  own_block (quaternion x y z w) = []
  own_block (idstring val) = []
  own_block (table meta items) = refs (entry_pointers items) ∷ []

  -- The place of the address in `raw`.
  unfoldable pub link_place : Item → ℕ
  link_place (table meta items) = pointer_size b + 8
  link_place item = pointer_size b

  unfoldable pub own_links : ℕ → ℕ → ℕ → Item → List Linkage
  own_links block out pos item =
      map (λ c. record { block = block; out = out; pos = pos + link_place item }) (own_block item)

  -- The contents of a vector, whose items' own blocks are numbered from `n` on.
  unfoldable pub raws : (ℕ → ℕ) → ℕ → List Item → List ℕ
  raws off n [] = []
  raws off n (item ∷ items) = raw (off n) item ++ raws off (n + length (own_block item)) items

  unfoldable pub own_blocks : List Item → List (List ℕ)
  own_blocks [] = []
  own_blocks (item ∷ items) = own_block item ++ own_blocks items

  unfoldable pub item_links : ℕ → ℕ → ℕ → List Item → List Linkage
  item_links n out pos [] = []
  item_links n out pos (item ∷ items) =
      own_links n out pos item
      ++ item_links (n + length (own_block item)) out (pos + length (raw 0 item)) items

  -- The six vectors of the header, the blocks behind it, and the links, where the contents of the
  -- first vector are block `n`.
  unfoldable pub header : (ℕ → ℕ) → ℕ → List (List Item) → List ℕ
  header off n [] = []
  header off n (items ∷ groups) =
      vec_bytes (length items) (off n) ++ header off (suc n + length (own_blocks items)) groups

  unfoldable pub body : (ℕ → ℕ) → ℕ → List (List Item) → List (List ℕ)
  body off n [] = []
  body off n (items ∷ groups) =
      raws off (suc n) items
      ∷ (own_blocks items ++ body off (suc n + length (own_blocks items)) groups)

  unfoldable pub vector_links : ℕ → ℕ → List (List Item) → List Linkage
  vector_links n pos [] = []
  vector_links n pos (items ∷ groups) =
      record { block = n; out = 0; pos = pos + 8 }
      ∷ (item_links (suc n) n 0 items
          ++ vector_links (suc n + length (own_blocks items)) (pos + length (vec_bytes 0 0)) groups)

  pub length-vec_bytes :
      (count address : ℕ) → length (vec_bytes count address) ≡ 8 + (pointer_size b + pointer_size b)
  unfolding vec_bytes
  length-vec_bytes count address =
      let size = le_bytes 4 (count % 2 ^ 32) in
      omega (
        arith,
        length-append size (size ++ (ptr address ++ ptr 0)),
        length-append size (ptr address ++ ptr 0),
        length-append (ptr address) (ptr 0),
        length-le_bytes 4 (count % 2 ^ 32),
        length-le_bytes (pointer_size b) address,
        length-le_bytes (pointer_size b) 0,
      )
