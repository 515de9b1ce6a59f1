-- ===== src/ScriptData.antt =====
-- src/scriptdata/ScriptData.h and the tables of src/scriptdata/ScriptData.cpp that number the items
-- of a value before it is written.
pub mod Numbers
pub mod Written
pub mod Back
mod Tests
pub mod Reading
pub mod Writing
use raid_super_blt.Base.{
  ℕ, zero, suc, ◌+◌, Bool, true, false, Option, none, some, List, [], ◌∷◌, ◌++◌, length, get_elem?,
  ◌==◌, if◌then◌else◌,
}
use raid_super_blt.Outcome.{Outcome, ok, stop, throws, undefined, out_of_fuel, value_or, ◌>>=◌}

-- `STable::items`: the pairs in the map's order.
abbrev pub Entries : Type 0
Entries = List (ℕ × ℕ)

-- The subclasses of `SItem`. A pointer is the place of an item in the heap, and a float is its 32
-- bits.
pub data Item : Type 0 where
  nil : Item
  boolean : Bool → Item
  number : ℕ → Item
  string : List ℕ → Item
  vector : ℕ → ℕ → ℕ → Item
  quaternion : ℕ → ℕ → ℕ → ℕ → Item
  idstring : ℕ → Item
  table : Option ℕ → Entries → Item

abbrev pub Heap : Type 0
Heap = List Item

-- `GetId`
unfoldable pub get_id : Item → ℕ
get_id nil = 0
get_id (boolean b) = if b then 1 else 2
get_id (number val) = 3
get_id (string val) = 4
get_id (vector x y z) = 5
get_id (quaternion x y z w) = 6
get_id (idstring val) = 7
get_id (table meta items) = 8

-- `linkage`: the place in block `out` that gets the address of block `block`.
pub record Linkage : Type 0 where
  pub block : ℕ
  pub out : ℕ
  pub pos : ℕ

-- `write_info`; a block is its place among the blocks.
pub record WriteInfo : Type 0 where
  pub items : ℕ → List ℕ
  pub item_positions : ℕ → List (ℕ × ℕ)
  pub blocks : List (List ℕ)
  pub linkages : List Linkage
  pub frozen : Bool
  pub blocks_applied : Bool
  pub use_32bit : Bool

unfoldable pub blank : Bool → WriteInfo
blank use_32bit = record {
  items = λ id. [];
  item_positions = λ id. [];
  blocks = [];
  linkages = [];
  frozen = false;
  blocks_applied = false;
  use_32bit = use_32bit;
}

-- `std::map::find`
unfoldable pub find_item : ℕ → List (ℕ × ℕ) → Option ℕ
find_item a [] = none
find_item a ((b, idx) ∷ rest) = let later = find_item a rest in if a == b then some idx else later

-- The map with another value for one type.
unfoldable pub update {ℓ} : {A : Type ℓ} → (ℕ → A) → ℕ → A → ℕ → A
update f id v k = if k == id then v else f k

-- The branch of `IndexOf` that adds an item.
unfoldable pub add_item : WriteInfo → ℕ → ℕ → WriteInfo
add_item info id a = record info {
  items = update info.items id (info.items id ++ a ∷ []);
  item_positions =
      update info.item_positions id ((a, length (info.items id)) ∷ info.item_positions id);
}

-- `IndexOf`: the index, and whether the item was added.
unfoldable pub index_of : Heap → WriteInfo → ℕ → Outcome (ℕ × Bool × WriteInfo)
index_of heap info a = elim (get_elem? heap a) [
  | none ↦ stop undefined
  | some item ↦ elim (find_item a (info.item_positions (get_id item))) [
    | some idx ↦ ok (idx, false, info)
    | none ↦
        if info.frozen
        then stop throws
        else ok (length (info.items (get_id item)), true, add_item info (get_id item) a)
  ]
]

-- A loop that hands its state on and may stop.
unfoldable pub for_each {ℓ κ} :
    {S : Type ℓ} {A : Type κ} → (S → A → Outcome S) → S → List A → Outcome S
for_each step s [] = ok s
for_each step s (x ∷ xs) = step s x >>= λ t. for_each step t xs

-- The pointers in the entries of a table, in the order in which they are visited.
unfoldable pub entry_pointers : Entries → List ℕ
entry_pointers [] = []
entry_pointers ((key, val) ∷ rest) = key ∷ val ∷ entry_pointers rest

-- What `STable::Register` goes on with; the other items have nothing to go on with.
unfoldable pub children : Item → List ℕ
children (table none items) = entry_pointers items
children (table (some meta) items) = meta ∷ entry_pointers items
children item = []

-- `Register` with the receiver of `SItem::Serialise`, on fuel for the depth of the calls.
unfoldable pub register : ℕ → Heap → WriteInfo → ℕ → Outcome WriteInfo
register zero heap info a = stop out_of_fuel
register (suc fuel) heap info a = do
  (idx, added, next) ← index_of heap info a
  item ← value_or (get_elem? heap a) undefined
  elim added [ true ↦ for_each (register fuel heap) next (children item) | false ↦ ok next ]
