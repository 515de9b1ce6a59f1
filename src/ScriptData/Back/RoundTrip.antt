-- ===== src/ScriptData/Back/RoundTrip.antt =====
-- What src/scriptdata/ScriptData.cpp writes is what it reads.
use raid_super_blt.Base.{
  ℕ, suc, ◌+◌, ◌-◌, ◌*◌, ◌^◌, ◌<◌, ◌≡◌, refl, sym, ap, ◌∙◌, subst, Bool, true, some, List, [], ◌∷◌,
  map, length, flatten, All, All-map, All-get_elem?, All-of-get_elem?, get_or-get_elem?, arith,
}
use raid_super_blt.Outcome.{ok, ◌>>=◌}
use raid_super_blt.ScriptData.{Item, Heap, nil, WriteInfo, blank, register, get_id}
use raid_super_blt.ScriptData.Numbers.Numbering.{IsNumbered, has}
use raid_super_blt.ScriptData.Numbers.Reach.{IsClosed}
use raid_super_blt.ScriptData.Numbers.Walks.{Visits}
use raid_super_blt.ScriptData.Writing.{pointer_size, serialise}
use raid_super_blt.ScriptData.Written.Stored.{IsStored}
use raid_super_blt.ScriptData.Written.Filled.{item_at}
use raid_super_blt.ScriptData.Written.Blocks.{is_group}
use raid_super_blt.ScriptData.Written.Vectors.{group, length-map}
use raid_super_blt.ScriptData.Reading.{
  ScriptData, Counts, read_into_vec, raw_vec, vec_size, counts_of, read_script, read_data,
  read_tables, float_at, string_at, vector_at, quaternion_at, idstring_at,
}
use raid_super_blt.ScriptData.Written.File.{w, blocks_with, layout, blank-Visits, serialise-layout}
use raid_super_blt.ScriptData.Back.Located.{f}
use raid_super_blt.ScriptData.Back.Placed.{
  Fits, number_val, string_val, vector_val, quaternion_val, idstring_val, file,
}
use raid_super_blt.ScriptData.Back.Elements.{
  IsOf, number_reads, string_reads, vector_reads, quaternion_reads, idstring_reads,
}
use raid_super_blt.ScriptData.Back.References.{read_back, table_val, reference_read, reference_fits}
use raid_super_blt.ScriptData.Back.Tables.{tables_read}
use raid_super_blt.ScriptData.Back.Header.{
  VectorsAt, all_vectors, next_vectors, end_word, vector_back, words, place, items_placed,
}
use raid_super_blt.ScriptData.Back.Recognised.{layout_detected}

-- The value that a file is read as: the items of each type in the order of their numbers.
unfoldable pub script_of : Heap → WriteInfo → ℕ → ScriptData
script_of heap info root = record {
  numbers = map number_val (group heap info 3);
  strings = map string_val (group heap info 4);
  vectors = map vector_val (group heap info 5);
  quats = map quaternion_val (group heap info 6);
  idstrings = map idstring_val (group heap info 7);
  tables = map (table_val heap info) (group heap info 8);
  root = read_back heap info root;
}

module _ (heap : Heap) (info : WriteInfo) (root : ℕ)
    (small : length (flatten (blocks_with heap info root (λ _. 0))) < 2 ^ 32 - 1) where
  abbrev b : Bool
  b = w heap info root

  abbrev bytes : List ℕ
  bytes = file heap info root

  module _ (numbered : IsNumbered info) (few : (id : ℕ) → length (info.items id) < 2 ^ 24)
      (valid : (id : ℕ)
        → 2 < id
        → All (λ item. IsOf heap info root id item × IsStored heap info item) (group heap info id))
      (known : has heap info root ≡ true) where
    abbrev g : ℕ → List Item
    g id = group heap info id

    counts : Counts
    counts =
        counts_of (length (map number_val (g 3))) (length (map string_val (g 4)))
          (length (map vector_val (g 5))) (length (map quaternion_val (g 6)))
          (length (map idstring_val (g 7))) (length (g 8))

    same_length :
        {A : Type 0} (val : Item → A) (id : ℕ) → length (map val (g id)) ≡ length (info.items id)
    same_length val id = length-map val (g id) ∙ length-map (item_at heap info) (info.items id)

    counted : (id : ℕ) → 2 < id → id < 9 → counts id ≡ length (info.items id)
    unfolding counts counts_of
    counted id low high =
        let l3 = same_length number_val 3 in
        let l4 = same_length string_val 4 in
        let l5 = same_length vector_val 5 in
        let l6 = same_length quaternion_val 6 in
        let l7 = same_length idstring_val 7 in
        let l8 : length (g 8) ≡ length (info.items 8) =
          length-map (item_at heap info) (info.items 8) in
        ground (arith, l3, l4, l5, l6, l7, l8)

    abbrev start : ℕ
    start = pointer_size b

    at_strings :
        VectorsAt heap info root small (start + vec_size b) (g 4 ∷ g 5 ∷ g 6 ∷ g 7 ∷ g 8 ∷ [])
    at_strings =
        next_vectors heap info root small start _ (g 3) _ (all_vectors heap info root small) refl

    at_vectors :
        VectorsAt heap info root small (start + 2 * vec_size b) (g 5 ∷ g 6 ∷ g 7 ∷ g 8 ∷ [])
    at_vectors =
        next_vectors heap info root small (start + vec_size b) _ (g 4) _ at_strings (omega arith)

    at_quats : VectorsAt heap info root small (start + 3 * vec_size b) (g 6 ∷ g 7 ∷ g 8 ∷ [])
    at_quats =
        next_vectors heap info root small (start + 2 * vec_size b) _ (g 5) _ at_vectors
          (omega arith)

    at_idstrings : VectorsAt heap info root small (start + 4 * vec_size b) (g 7 ∷ g 8 ∷ [])
    at_idstrings =
        next_vectors heap info root small (start + 3 * vec_size b) _ (g 6) _ at_quats (omega arith)

    at_tables : VectorsAt heap info root small (start + 5 * vec_size b) (g 8 ∷ [])
    at_tables =
        next_vectors heap info root small (start + 4 * vec_size b) _ (g 7) _ at_idstrings
          (omega arith)

    at_end : VectorsAt heap info root small (start + 6 * vec_size b) []
    at_end =
        next_vectors heap info root small (start + 5 * vec_size b) _ (g 8) _ at_tables (omega arith)

    count_fits : (id : ℕ) → length (g id) < 2 ^ 32
    count_fits id = omega (arith, few id, length-map (item_at heap info) (info.items id))

    only : (id : ℕ) → 2 < id → All (IsOf heap info root id) (g id)
    only id low = All-map _ _ (g id) (λ item h. h.0) (valid id low)

    numbers_back : read_into_vec 4 float_at b bytes start ≡ ok (map number_val (g 3))
    numbers_back =
        vector_back heap info root small 4 float_at number_val (IsOf heap info root 3)
          (number_reads heap info root) (g 3) _ start (all_vectors heap info root small)
          (only 3 (omega arith)) (count_fits 3)

    strings_back :
        read_into_vec (2 * pointer_size b) (string_at b) b bytes (start + vec_size b)
        ≡ ok (map string_val (g 4))
    strings_back =
        vector_back heap info root small (2 * pointer_size b) (string_at b) string_val
          (IsOf heap info root 4) (string_reads heap info root small) (g 4) _ _ at_strings
          (only 4 (omega arith)) (count_fits 4)

    vectors_back :
        read_into_vec 12 vector_at b bytes (start + 2 * vec_size b) ≡ ok (map vector_val (g 5))
    vectors_back =
        vector_back heap info root small 12 vector_at vector_val (IsOf heap info root 5)
          (vector_reads heap info root) (g 5) _ _ at_vectors (only 5 (omega arith)) (count_fits 5)

    quats_back :
        read_into_vec 16 quaternion_at b bytes (start + 3 * vec_size b)
        ≡ ok (map quaternion_val (g 6))
    quats_back =
        vector_back heap info root small 16 quaternion_at quaternion_val (IsOf heap info root 6)
          (quaternion_reads heap info root) (g 6) _ _ at_quats (only 6 (omega arith)) (count_fits 6)

    idstrings_back :
        read_into_vec 8 idstring_at b bytes (start + 4 * vec_size b) ≡ ok (map idstring_val (g 7))
    idstrings_back =
        vector_back heap info root small 8 idstring_at idstring_val (IsOf heap info root 7)
          (idstring_reads heap info root) (g 7) _ _ at_idstrings (only 7 (omega arith))
          (count_fits 7)

    raw_back :
        raw_vec b bytes (start + 5 * vec_size b)
        ≡ some (record { count = length (g 8); offset = f heap info root at_tables.block })
    raw_back =
        ap (raw_vec b bytes) at_tables.position
        ∙ words heap info root small (g 8) [] at_tables.block at_tables.before at_tables.at
            (count_fits 8)

    tables_back :
        read_tables b counts bytes (length (g 8)) (f heap info root at_tables.block)
        ≡ ok (map (table_val heap info) (g 8))
    tables_back =
        ap (read_tables b counts bytes (length (g 8)))
          (place heap info root small (g 8) [] at_tables.block at_tables.before at_tables.at).0
        ∙ tables_read heap info counts numbered counted few root small (g 8) _ _
            (valid 8 (omega arith))
            (items_placed heap info root small (g 8) [] at_tables.block at_tables.before
              at_tables.at)

    script_back : read_script b bytes ≡ ok (script_of heap info root)
    unfolding read_script script_of counts
    script_back =
        rw
          (
            read_script,
            numbers_back,
            strings_back,
            vectors_back,
            quats_back,
            idstrings_back,
            raw_back,
            tables_back,
            end_word heap info root small _ at_end
                (reference_fits heap info counts numbered counted few root),
            reference_read heap info counts numbered counted few root known,
          )
          refl

All-map_of :
    {A B : Type 0} (P : B → Type 0) (h : A → B) (xs : List A)
    → All (λ a. P (h a)) xs
    → All P (map h xs)
All-map_of P h [] k = tt
All-map_of P h (x ∷ xs) k = (k.0, All-map_of P h xs k.1)

module _ (heap : Heap) (root : ℕ) (use_32bit : Bool) (closed : IsClosed heap) (info : WriteInfo)
    (v : Visits heap root use_32bit closed (blank use_32bit) (root ∷ []) info)
    (fits : All (Fits heap) heap) where
  group_valid :
      (id : ℕ)
      → 2 < id
      → All (λ item. IsOf heap info root id item × IsStored heap info item) (group heap info id)
  group_valid id low =
      let stored =
        is_group heap root use_32bit closed info v id (λ e. absurd (omega arith))
          (λ e. absurd (omega arith)) (λ e. absurd (omega arith)) in
      All-map_of _ (item_at heap info) (info.items id) (
        All-of-get_elem? _ (info.items id) (λ i a e.
          let found = (v.walk.numbered id a i).1 e in
          let (item, valid, type) = v.walk.typed id a i found in
          let here = get_or-get_elem? heap a nil item valid in
          (
            (
              ap get_id here ∙ type,
              subst (Fits heap) (sym here) (All-get_elem? (Fits heap) heap a item fits valid),
            ),
            (All-get_elem? _ (info.items id) i a stored e).1,
          )))

  data_back :
      length (flatten (blocks_with heap info root (λ _. 0))) < 2 ^ 32 - 1
      → ((id : ℕ) → length (info.items id) < 2 ^ 24)
      → read_data (layout heap info root) ≡ ok (script_of heap info root)
  unfolding read_data
  data_back small few =
      rw (layout_detected heap info root small)
        (script_back heap info root small v.walk.numbered few group_valid v.covers.0)

-- A file that is written is read back, for either size of pointers, as the items that pointers lead
-- to from the given one: those of each type in the order of their numbers, and each pointer as the
-- type and the number of what it leads to, or as the nil or the boolean itself. A pair of a table
-- whose key comes again, as two pointers to the same boolean, gives its value to the earlier key.
-- Every pointer has to lead to an item. The numbers, the coordinates and the counts of tables have
-- to be below 2 ^ 32 and the ids below 2 ^ 64; no string may contain a zero byte, and the meta of a
-- table has to be a string; each type has to have fewer than 2 ^ 24 items, and the file to be
-- shorter than 2 ^ 32 - 1 bytes.
pub read_data-serialise :
    (heap : Heap) (root : ℕ) (use_32bit : Bool) (info : WriteInfo)
    → IsClosed heap
    → root < length heap
    → register (suc (length heap)) heap (blank use_32bit) root ≡ ok info
    → All (Fits heap) heap
    → ((id : ℕ) → length (info.items id) < 2 ^ 24)
    → length (flatten (blocks_with heap info root (λ _. 0))) < 2 ^ 32 - 1
    → (serialise heap root use_32bit >>= read_data) ≡ ok (script_of heap info root)
read_data-serialise heap root use_32bit info closed h e fits few small =
    ap (λ m. m >>= read_data) (serialise-layout heap root use_32bit info closed h e small)
    ∙ data_back heap root use_32bit closed info (blank-Visits heap root use_32bit closed info h e)
        fits small few
