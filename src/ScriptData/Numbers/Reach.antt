-- ===== src/ScriptData/Numbers/Reach.antt =====
-- The items that a value of src/scriptdata/ScriptData.cpp leads to.
use raid_super_blt.Base.{
  ℕ, zero, suc, ◌+◌, ◌<◌, ◌≡◌, refl, ap, ◌∙◌, subst, Option, none, some, some-injective, [], ◌∷◌,
  length, get_elem?, All, arith,
}
use raid_super_blt.ScriptData.{Item, Heap, Entries, table, entry_pointers, children}

-- The pointers that an item holds: a table's meta, keys and values.
pub data Points : Item → ℕ → Type 0 where
  at_meta : (meta : ℕ) (items : Entries) → Points (table (some meta) items) meta
  at_key :
      (meta : Option ℕ) (items : Entries) (i key val : ℕ)
      → get_elem? items i ≡ some (key, val)
      → Points (table meta items) key
  at_val :
      (meta : Option ℕ) (items : Entries) (i key val : ℕ)
      → get_elem? items i ≡ some (key, val)
      → Points (table meta items) val

-- The items that pointers lead to from an item.
pub data Reach (heap : Heap) (root : ℕ) : ℕ → Type 0 where
  here : Reach heap root root
  step :
      {a : ℕ}
      → Reach heap root a
      → (item : Item) → get_elem? heap a ≡ some item
      → (b : ℕ) → Points item b
      → Reach heap root b

entry_pointers-Points :
    (meta : Option ℕ) (items rest : Entries) (n : ℕ)
    → ((j : ℕ) (e : ℕ × ℕ) → get_elem? rest j ≡ some e → get_elem? items (n + j) ≡ some e)
    → All (Points (table meta items)) (entry_pointers rest)
unfolding entry_pointers
entry_pointers-Points meta items [] n within = tt
entry_pointers-Points meta items ((key, val) ∷ rest) n within =
    let here = ap (get_elem? items) {x = n} {y = n + 0} (omega arith) ∙ within 0 (key, val) refl in
    (
      at_key meta items n key val here,
      (
        at_val meta items n key val here,
        entry_pointers-Points meta items rest (suc n) (λ j e found.
            ap (get_elem? items) {x = suc n + j} {y = n + suc j} (omega arith)
            ∙ within (suc j) e found),
      ),
    )

pub children-Points : (item : Item) → All (Points item) (children item)
unfolding children
children-Points (table none items) =
    entry_pointers-Points none items items 0
      (λ j e found. ap (get_elem? items) {x = 0 + j} {y = j} (omega arith) ∙ found)
children-Points (table (some meta) items) = (
  at_meta meta items,
  entry_pointers-Points (some meta) items items 0
      (λ j e found. ap (get_elem? items) {x = 0 + j} {y = j} (omega arith) ∙ found),
)
children-Points other = tt

module _ (P : ℕ → Type 0) where
  All-entry_pointers :
      (items : Entries) (i key val : ℕ)
      → All P (entry_pointers items)
      → get_elem? items i ≡ some (key, val)
      → P key × P val
  unfolding entry_pointers
  All-entry_pointers [] i key val h e = cc
  All-entry_pointers ((k, v) ∷ items) zero key val h e =
      let same = some-injective (k, v) (key, val) e in
      (subst P (ap (λ (p : ℕ × ℕ). p.0) same) h.0, subst P (ap (λ (p : ℕ × ℕ). p.1) same) h.1.0)
  All-entry_pointers ((k, v) ∷ items) (suc i) key val h e =
      All-entry_pointers items i key val h.1.1 e

  pub Points-All : (item : Item) (c : ℕ) → Points item c → All P (children item) → P c
  unfolding children
  Points-All item c (at_meta meta items) h = h.0
  Points-All item c (at_key none items i key val e) h = (All-entry_pointers items i key val h e).0
  Points-All item c (at_key (some m) items i key val e) h =
      (All-entry_pointers items i key val h.1 e).0
  Points-All item c (at_val none items i key val e) h = (All-entry_pointers items i key val h e).1
  Points-All item c (at_val (some m) items i key val e) h =
      (All-entry_pointers items i key val h.1 e).1

-- Every pointer leads to an item.
abbrev pub IsClosed : Heap → Type 0
IsClosed heap = All (λ item. (c : ℕ) → Points item c → c < length heap) heap
