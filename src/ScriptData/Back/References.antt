-- ===== src/ScriptData/Back/References.antt =====
-- The references of a written file, as src/scriptdata/ScriptData.cpp reads them.
use raid_super_blt.Base.{
  ℕ, ◌+◌, ◌*◌, ◌/◌, ◌%◌, ◌^◌, ◌<◌, ◌≡◌, refl, sym, ap, ◌∙◌, subst, inl, inr, Bool, true, false,
  Option, none, some, List, [], ◌∷◌, length, get_elem?, get_elem?-lt, get_or-get_elem?, ltb,
  if◌then◌else◌, Option-cases, arith,
}
use raid_super_blt.Outcome.{ok}
use raid_super_blt.ScriptData.{
  Item, Heap, Entries, nil, boolean, number, string, vector, quaternion, idstring, table, get_id,
  WriteInfo,
}
use raid_super_blt.ScriptData.Numbers.Numbering.{IsNumbered, has, has-eq_true}
use raid_super_blt.ScriptData.Writing.{pointer_size}
use raid_super_blt.ScriptData.Written.Layout.{number_of, reference_of, meta_value}
use raid_super_blt.ScriptData.Written.Stored.{Refers}
use raid_super_blt.ScriptData.Reading.{
  Ref, Table, Counts, read_ref, insert_entry, read_meta, vec_size,
}
use raid_super_blt.ScriptData.Back.Placed.{Fits}

-- The pointer to an item of a number.
unfoldable pub pointer_to : Item → ℕ → Ref
pointer_to nil index = Ref.nil
pointer_to (boolean true) index = Ref.yes_ref
pointer_to (boolean false) index = Ref.no_ref
pointer_to item index = Ref.item (get_id item) index

id_small : (item : Item) → get_id item < 9
unfolding get_id
id_small (boolean true) = omega arith
id_small (boolean false) = omega arith
id_small other = omega arith

pub vector_size : (b : Bool) → vec_size b ≡ 8 + (pointer_size b + pointer_size b)
vector_size true = refl
vector_size false = refl

module _ (heap : Heap) (info : WriteInfo) where
  -- What is read for a pointer in the heap.
  unfoldable pub read_back : ℕ → Ref
  read_back a = elim (get_elem? heap a) [
    | none ↦ Ref.nil
    | some item ↦ pointer_to item (number_of heap info a)
  ]

  -- The entries of a table, inserted one after another.
  unfoldable pub insert_all : List (Ref × Ref) → Entries → List (Ref × Ref)
  insert_all out [] = out
  insert_all out ((key, val) ∷ rest) =
      insert_all (insert_entry (read_back key) (read_back val) out) rest

  unfoldable pub meta_number : Option ℕ → Option ℕ
  meta_number none = none
  meta_number (some meta) = some (number_of heap info meta)

  unfoldable pub table_val : Item → Table
  table_val (table meta items) = record { meta = meta_number meta; items = insert_all [] items }
  table_val item = record { meta = none; items = [] }

  module _ (counts : Counts) (numbered : IsNumbered info)
      (counted : (id : ℕ) → 2 < id → id < 9 → counts id ≡ length (info.items id))
      (few : (id : ℕ) → length (info.items id) < 2 ^ 24) where
    number_below :
        (a : ℕ) (item : Item)
        → get_elem? heap a ≡ some item
        → has heap info a ≡ true
        → number_of heap info a < length (info.items (get_id item))
    unfolding number_of
    number_below a item valid known =
        let (i, found) = has-eq_true heap info a item valid known in
        let here : number_of heap info a ≡ i = rw (number_of, valid, found) refl in
        omega (
          arith,
          here,
          get_elem?-lt (info.items (get_id item)) i a ((numbered (get_id item) a i).0 found),
        )

    stored_read :
        (id index : ℕ)
        → 2 < id
        → id < 9
        → index < length (info.items id)
        → read_ref counts (index % 2 ^ 24 + id * 2 ^ 24) ≡ ok (Ref.item id index)
    unfolding read_ref
    stored_read id index low high below =
        let bound = few id in
        let type : (index % 2 ^ 24 + id * 2 ^ 24) / 2 ^ 24 % 2 ^ 8 ≡ id = omega arith in
        let place : (index % 2 ^ 24 + id * 2 ^ 24) % 2 ^ 24 ≡ index = omega arith in
        let size = counted id low high in rw (read_ref, type, place) (ground (arith, size))

    item_read :
        (item : Item) (index : ℕ)
        → index < length (info.items (get_id item))
        → read_ref counts (
            if ltb (get_id item) 3
            then get_id item * 2 ^ 24
            else index % 2 ^ 24 + get_id item * 2 ^ 24)
          ≡ ok (pointer_to item index)
    unfolding pointer_to get_id read_ref
    item_read nil index below = refl
    item_read (boolean true) index below = refl
    item_read (boolean false) index below = refl
    item_read (number val) index below = stored_read 3 index (omega arith) (omega arith) below
    item_read (string val) index below = stored_read 4 index (omega arith) (omega arith) below
    item_read (vector x y z) index below = stored_read 5 index (omega arith) (omega arith) below
    item_read (quaternion x y z u) index below =
        stored_read 6 index (omega arith) (omega arith) below
    item_read (idstring val) index below = stored_read 7 index (omega arith) (omega arith) below
    item_read (table meta items) index below = stored_read 8 index (omega arith) (omega arith) below

    pub reference_read :
        (a : ℕ)
        → has heap info a ≡ true
        → read_ref counts (reference_of heap info a) ≡ ok (read_back a)
    unfolding read_back reference_of has
    reference_read a known = elim (Option-cases (get_elem? heap a)) [
      | inl e ↦ absurd (cc (rw (has, e) at known))
      | inr (item, e) ↦
          rw (reference_of, read_back, e)
            (item_read item (number_of heap info a) (number_below a item e known))
    ]

    pub reference_fits : (a : ℕ) → reference_of heap info a < 2 ^ 32
    unfolding reference_of
    reference_fits a = elim (Option-cases (get_elem? heap a)) [
      | inl e ↦ rw (reference_of, e) (omega arith)
      | inr (item, e) ↦ rw (reference_of, e) (value_fits item (number_of heap info a))
    ]
      where
        value_fits :
            (item : Item) (index : ℕ)
            → (if ltb (get_id item) 3
                then get_id item * 2 ^ 24
                else index % 2 ^ 24 + get_id item * 2 ^ 24)
              < 2 ^ 32
        value_fits item index = ground (arith, id_small item)

    pub meta_read :
        (meta : Option ℕ) (items : Entries)
        → Refers heap info (table meta items)
        → Fits heap (table meta items)
        → (meta_value info.use_32bit (number_of heap info) (reference_of heap info) meta < 2 ^ 32)
          × (read_meta counts
                (meta_value info.use_32bit (number_of heap info) (reference_of heap info) meta)
              ≡ ok (meta_number meta))
    unfolding read_meta meta_value meta_number has
    meta_read none items known fits = (omega arith, refl)
    meta_read (some meta) items known fits = elim (Option-cases (get_elem? heap meta)) [
      | inl e ↦ absurd (cc (rw (has, e) at (known.0)))
      | inr (item, e) ↦
          let type : get_id item ≡ 4 =
            ap get_id (sym (get_or-get_elem? heap meta nil item e)) ∙ fits.1 in
          let below : number_of heap info meta < length (info.items 4) =
            subst (λ k. number_of heap info meta < length (info.items k)) type
              (number_below meta item e known.0) in
          let size = counted 4 (omega arith) (omega arith) in
          let bound = few 4 in (omega arith, ground (arith, size, below, bound))
    ]
