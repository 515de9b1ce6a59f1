-- ===== src/ScriptData/Back/Tables.antt =====
-- The tables of a written file, as src/scriptdata/ScriptData.cpp reads them.
use raid_super_blt.Base.{
  ℕ, ◌+◌, ◌-◌, ◌%◌, ◌^◌, ◌<◌, ◌≡◌, refl, sym, ap, ◌∙◌, true, false, Option, none, some, List, [],
  ◌∷◌, ◌++◌, map, length, length-append, flatten, le_bytes, length-le_bytes, All, arith,
}
use raid_super_blt.Outcome.{ok}
use raid_super_blt.ScriptData.{
  Item, Heap, Entries, boolean, table, get_id, WriteInfo, entry_pointers,
}
use raid_super_blt.ScriptData.Numbers.Numbering.{IsNumbered}
use raid_super_blt.ScriptData.Writing.{pointer_size}
use raid_super_blt.ScriptData.Written.Layout.{
  number_of, reference_of, ptr, meta_value, vec_bytes, length-vec_bytes, raw, refs, own_block,
}
use raid_super_blt.ScriptData.Written.Stored.{Refers, IsStored}
use raid_super_blt.ScriptData.Written.Around.{IsKnown}
use raid_super_blt.ScriptData.Reading.{
  Ref, Counts, RawVec, insert_entry, read_entries, read_table, vec_size, raw_table, read_tables,
}
use raid_super_blt.ScriptData.Written.File.{w, nums, refs_of, blocks_with}
use raid_super_blt.ScriptData.Back.Located.{f, located}
use raid_super_blt.ScriptData.Back.Words.{pointer_fits, cut, first_part, word, pair, vector_words}
use raid_super_blt.ScriptData.Back.Placed.{Fits, file, raw_at, IsPlaced, ArePlaced, first-IsPlaced}
use raid_super_blt.ScriptData.Back.Elements.{IsOf, address_fits}
use raid_super_blt.ScriptData.Back.References.{
  read_back, insert_all, table_val, reference_read, reference_fits, meta_read, vector_size,
}

module _ (heap : Heap) (info : WriteInfo) where
  module _ (counts : Counts) (numbered : IsNumbered info)
      (counted : (id : ℕ) → 2 < id → id < 9 → counts id ≡ length (info.items id))
      (few : (id : ℕ) → length (info.items id) < 2 ^ 24) where
    module _ (bytes : List ℕ) where
      entries_read :
          (es : Entries) (z y : List ℕ) (out : List (Ref × Ref))
          → bytes
            ≡ z
              ++ (refs info.use_32bit
                    (number_of heap info)
                    (reference_of heap info)
                    (entry_pointers es)
                  ++ y)
          → All (IsKnown heap info) (entry_pointers es)
          → read_entries counts bytes (length es) (length z) out ≡ ok (insert_all heap info out es)
      unfolding read_entries refs entry_pointers insert_all
      entries_read [] z y out e known = refl
      entries_read ((key, val) ∷ es) z y out e known =
          let lk = le_bytes 4 (reference_of heap info key) in
          let lv = le_bytes 4 (reference_of heap info val) in
          let rest =
            refs info.use_32bit (number_of heap info) (reference_of heap info)
              (entry_pointers es) in
          let later = cut bytes (z ++ lk) lv rest y (cut bytes z lk (lv ++ rest) y e) in
          let behind : length z + 8 ≡ length ((z ++ lk) ++ lv) = omega (
            arith,
            length-append (z ++ lk) lv,
            length-append z lk,
            length-le_bytes 4 (reference_of heap info key),
            length-le_bytes 4 (reference_of heap info val),
          ) in
          rw
            (
              pair bytes (length z) (reference_of heap info key) (reference_of heap info val) z rest
                  y e refl (reference_fits heap info counts numbered counted few key)
                  (reference_fits heap info counts numbered counted few val),
              (reference_read heap info counts numbered counted few) key known.0,
              (reference_read heap info counts numbered counted few) val known.1.0,
              behind,
            )
            (entries_read es ((z ++ lk) ++ lv) y
              (insert_entry (read_back heap info key) (read_back heap info val) out) later
              known.1.1)

    module _ (root : ℕ)
        (small : length (flatten (blocks_with heap info root (λ _. 0))) < 2 ^ 32 - 1) where
      -- A table is read, and the next one stands behind it.
      table_reads :
          (meta : Option ℕ) (items : Entries) (n : ℕ) (x : List ℕ)
          → Fits heap (table meta items)
          → Refers heap info (table meta items)
          → IsPlaced heap info root (table meta items) n x
          → (m : ℕ) × (contents : RawVec) × (raw_table
                (w heap info root)
                (file heap info root)
                (length x)
              ≡ some (m, contents))
            × (read_table counts (file heap info root) contents m
                ≡ ok (table_val heap info (table meta items)))
      unfolding raw_table raw own_block read_table table_val
      table_reads meta items n x fits known p =
          let b = w heap info root in
          let m = meta_value b (nums heap info root) (refs_of heap info root) meta in
          let lm = ptr b (nums heap info root) (refs_of heap info root) m in
          let address = f heap info root n in
          let vec =
            vec_bytes b (nums heap info root) (refs_of heap info root) (length items) address in
          let own = refs b (nums heap info root) (refs_of heap info root) (entry_pointers items) in
          let contents : RawVec = record { count = length items; offset = address } in
          let (meta_fits, meta_back) =
            meta_read heap info counts numbered counted few meta items known fits in
          let (place, whole) =
            located heap info root small p.front (own ∷ p.rest) n p.blocks p.number in
          let address_small =
            address_fits heap info root small p.front (own ∷ p.rest) n p.blocks p.number in
          let whole_meta : m % 2 ^ 32 ≡ m = omega arith in
          let words : raw_table b (file heap info root) (length x) ≡ some (m, contents) =
            rw
              (
                raw_table,
                word (file heap info root) (length x) (pointer_size b) m x _
                    (first_part (file heap info root) x lm vec p.y p.bytes) refl
                    (pointer_fits b m meta_fits),
                vector_words (file heap info root) b (nums heap info root) (refs_of heap info root)
                    (length x + pointer_size b) (length items) address (x ++ lm) p.y
                    (cut (file heap info root) x lm vec p.y p.bytes)
                    (omega (arith, length-append x lm, length-le_bytes (pointer_size b) m))
                    (count_fits meta items fits) address_small,
                whole_meta,
              )
              refl in
          let entries : read_entries counts (file heap info root) (length items) address []
              ≡ ok (insert_all heap info [] items) =
            ap (λ k. read_entries counts (file heap info root) (length items) k []) place
            ∙ entries_read (file heap info root) items (flatten p.front) (flatten p.rest) [] whole
                (entries_known meta items known) in
          (m, contents, words, rw (read_table, entries, meta_back) refl)
        where
          count_fits :
              (meta : Option ℕ) (items : Entries)
              → Fits heap (table meta items)
              → length items < 2 ^ 32
          count_fits none items fits = fits
          count_fits (some meta) items fits = fits.0

          entries_known :
              (meta : Option ℕ) (items : Entries)
              → Refers heap info (table meta items)
              → All (IsKnown heap info) (entry_pointers items)
          entries_known none items known = known
          entries_known (some meta) items known = known.1

      table_size :
          (meta : Option ℕ) (items : Entries) (n : ℕ)
          → length (raw_at heap info root n (table meta items))
            ≡ pointer_size (w heap info root)
              + (8 + (pointer_size (w heap info root) + pointer_size (w heap info root)))
      unfolding raw
      table_size meta items n =
          let b = w heap info root in
          let lm =
            ptr b (nums heap info root) (refs_of heap info root)
              (meta_value b (nums heap info root) (refs_of heap info root) meta) in
          let address = f heap info root n in
          length-append lm
            (vec_bytes b (nums heap info root) (refs_of heap info root) (length items) address)
          ∙ omega (
            arith,
            length-le_bytes (pointer_size b)
                (meta_value b (nums heap info root) (refs_of heap info root) meta),
            length-vec_bytes b (nums heap info root) (refs_of heap info root) (length items)
                address,
          )

      pub tables_read :
          (items : List Item) (n : ℕ) (x : List ℕ)
          → All (λ item. (IsOf heap info root 8 item) × IsStored heap info item) items
          → ArePlaced heap info root items n x
          → read_tables (w heap info root) counts (file heap info root) (length items) (length x)
            ≡ ok (map (table_val heap info) items)
      unfolding read_tables get_id
      tables_read [] n x h p = refl
      tables_read (table meta items ∷ rest) n x h p =
          let (here, later) = first-IsPlaced heap info root (table meta items) rest n x p in
          let (m, contents, words, read) = table_reads meta items n x h.0.0.1 h.0.1 here in
          let behind : length x + pointer_size (w heap info root) + vec_size (w heap info root)
              ≡ length (x ++ raw_at heap info root n (table meta items)) =
            sym (
              length-append x (raw_at heap info root n (table meta items))
              ∙ (ap (λ k. length x + k) (table_size meta items n)
                  ∙ omega (arith, vector_size (w heap info root)))) in
          let rest_read =
            ap (λ k. read_tables (w heap info root) counts (file heap info root) (length rest) k)
              behind
            ∙ tables_read rest _ (x ++ raw_at heap info root n (table meta items)) h.1 later in
          rw (words, read, rest_read) refl
      tables_read (boolean true ∷ rest) n x ((e, _), h) p = absurd (cc)
      tables_read (boolean false ∷ rest) n x ((e, _), h) p = absurd (cc)
      tables_read (other ∷ rest) n x ((e, _), h) p = absurd (cc)
