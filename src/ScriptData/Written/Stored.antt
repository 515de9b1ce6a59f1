-- ===== src/ScriptData/Written/Stored.antt =====
-- What `SItem::Serialise` of src/scriptdata/ScriptData.cpp adds to the blocks and links for one item.
use raid_super_blt.Base.{
  ℕ, ◌+◌, ◌≡◌, sym, ap, ◌∙◌, Option, none, some, List, [], ◌∷◌, ◌++◌, append_assoc, append-nil,
  length, length-append, length-le_bytes, All, arith,
}
use raid_super_blt.Outcome.{ok}
use raid_super_blt.ScriptData.{
  Item, Heap, Entries, nil, boolean, number, string, vector, quaternion, idstring, table, Linkage,
  WriteInfo, for_each, entry_pointers,
}
use raid_super_blt.ScriptData.Writing.{
  pointer_size, write_bytes, write_ptr, write_ref, link_new_block, write_meta, serialise_item,
}
use raid_super_blt.ScriptData.Written.Layout.{
  ptr, meta_value, vec_bytes, raw, refs, own_block, link_place, own_links,
}
use raid_super_blt.ScriptData.Written.Around.{
  at, num, ref, IsKnown, index_of-at, around, write_bytes-around, link_new_block-around,
  entries-around, same_place, open_vector, vector_written,
}

module _ (heap : Heap) (info : WriteInfo) where
  -- Whether what is written for an item refers to items that have numbers.
  abbrev pub Refers : Item → Type 0
  Refers (table none items) = All (IsKnown heap info) (entry_pointers items)
  Refers (table (some meta) items) =
      IsKnown heap info meta × All (IsKnown heap info) (entry_pointers items)
  Refers item = Unit {0}

  write_meta-around :
      (meta : Option ℕ) (items : Entries) (front : List (List ℕ)) (c : List ℕ)
      (more : List (List ℕ)) (ln : List Linkage)
      → Refers (table meta items)
      → write_meta heap (length front) (around heap info front c more ln) meta
        ≡ ok (
            around heap info front
              (c
                ++ ptr info.use_32bit
                    (num heap info)
                    (ref heap info)
                    (meta_value info.use_32bit (num heap info) (ref heap info) meta))
              more
              ln)
  unfolding write_meta meta_value write_ptr
  write_meta-around none items front c more ln h =
      ap ok (write_bytes-around heap info front c more ln _)
  write_meta-around (some meta) items front c more ln h =
      rw (index_of-at heap info meta (front ++ c ∷ more) ln h.0) (
        ap ok (
          write_bytes-around heap info front c more ln
            (ptr info.use_32bit (num heap info) (ref heap info) (num heap info meta))))

  -- What an item adds to a state: its bytes, its own block, and the link_address to that.
  abbrev pub Written : (List (List ℕ)) → List ℕ → List (List ℕ) → List Linkage → Item → WriteInfo
  Written front c more ln item =
      (around heap info) front (c ++ raw info.use_32bit (num heap info) (ref heap info) 0 item)
        (more ++ own_block info.use_32bit (num heap info) (ref heap info) item)
        (ln
          ++ own_links info.use_32bit (num heap info) (ref heap info) (length (front ++ c ∷ more))
              (length front) (length c) item)

  -- The items that go into a vector.
  abbrev pub IsStored : Item → Type 0
  IsStored nil = ⊥
  IsStored (boolean v) = ⊥
  IsStored item = Refers item

  plain :
      (front : List (List ℕ)) (c : List ℕ) (more : List (List ℕ)) (ln : List Linkage) (x : List ℕ)
      → write_bytes (around heap info front c more ln) (length front) x
        ≡ around heap info front (c ++ x) (more ++ []) (ln ++ [])
  plain front c more ln x =
      (write_bytes-around heap info) front c more ln x
      ∙ (ap (λ t. (around heap info) front (c ++ x) t ln) (sym (append-nil more))
          ∙ ap (λ t. (around heap info) front (c ++ x) (more ++ []) t) (sym (append-nil ln)))

  -- The last block, which an item has opened, seen behind all others.
  last_block :
      (front : List (List ℕ)) (c : List ℕ) (more : List (List ℕ)) (x : List ℕ)
      → front ++ c ∷ (more ++ x ∷ []) ≡ (front ++ c ∷ more) ++ x ∷ []
  last_block front c more x = sym (append_assoc front (c ∷ more) (x ∷ []))

  last_written :
      (front : List (List ℕ)) (e d : List ℕ) (more : List (List ℕ)) (ln : List Linkage) (x : List ℕ)
      → write_bytes (around heap info front e (more ++ [] ∷ []) ln) (length (front ++ d ∷ more)) x
        ≡ around heap info front e (more ++ x ∷ []) ln
  last_written front e d more ln x =
      ap (λ n. write_bytes (around heap info front e (more ++ [] ∷ []) ln) n x)
        (same_place heap info front d e more)
      ∙ (ap (λ t. write_bytes (at heap info t ln) (length (front ++ e ∷ more)) x)
            (last_block front e more [])
          ∙ (write_bytes-around heap info (front ++ e ∷ more) [] [] ln x
              ∙ ap (λ t. (at heap info) t ln) (sym (last_block front e more x))))

  string-around :
      (val : List ℕ) (front : List (List ℕ)) (c : List ℕ) (more : List (List ℕ)) (ln : List Linkage)
      → serialise_item heap (length front) (around heap info front c more ln) (string val)
        ≡ ok (Written front c more ln (string val))
  unfolding serialise_item raw own_block own_links link_place write_ptr
  string-around val front c more ln =
      let p = ptr info.use_32bit (num heap info) (ref heap info) 0 in
      let d = c ++ p in
      let linked =
        ln
        ++ record { block = length (front ++ d ∷ more); out = length front; pos = length d } ∷ [] in
      let opened : link_new_block (write_ptr (around heap info front c more ln) (length front) 0)
            (length front)
          ≡ ok (
            length (front ++ d ∷ more),
            (around heap info) front (d ++ p) (more ++ [] ∷ []) linked,
          ) =
        ap (λ t. link_new_block t (length front)) (write_bytes-around heap info front c more ln p)
        ∙ link_new_block-around heap info front d more ln in
      let x = val ++ 0 ∷ [] in
      rw opened (
        ap ok (
          last_written front (d ++ p) d more linked x
          ∙ (ap (λ t. (around heap info) front t (more ++ x ∷ []) linked) (append_assoc c p p)
              ∙ (ap
                    (λ n.
                      (around heap info) front (c ++ (p ++ p)) (more ++ x ∷ [])
                        (ln ++ record { block = n; out = length front; pos = length d } ∷ []))
                    (same_place heap info front d c more)
                  ∙ ap
                      (λ n. (around heap info) front (c ++ (p ++ p)) (more ++ x ∷ []) (
                        ln
                        ++ record {
                          block = length (front ++ c ∷ more);
                          out = length front;
                          pos = n;
                        }
                          ∷ []))
                      (length-append c p
                        ∙ ap (λ n. length c + n)
                            (length-le_bytes (pointer_size info.use_32bit) 0))))))

  table-around :
      (meta : Option ℕ) (items : Entries) (front : List (List ℕ)) (c : List ℕ)
      (more : List (List ℕ)) (ln : List Linkage)
      → Refers (table meta items)
      → All (IsKnown heap info) (entry_pointers items)
      → serialise_item heap (length front) (around heap info front c more ln) (table meta items)
        ≡ ok (Written front c more ln (table meta items))
  unfolding serialise_item raw own_block own_links link_place
  table-around meta items front c more ln h known =
      let m =
        ptr info.use_32bit (num heap info) (ref heap info)
          (meta_value info.use_32bit (num heap info) (ref heap info) meta) in
      let d = c ++ m in
      let e = d ++ vec_bytes info.use_32bit (num heap info) (ref heap info) (length items) 0 in
      let linked =
        ln
        ++ record { block = length (front ++ d ∷ more); out = length front; pos = length d + 8 }
          ∷ [] in
      let entries : for_each (write_ref heap (length (front ++ d ∷ more)))
            (around heap info front e (more ++ [] ∷ []) linked) (entry_pointers items)
          ≡ ok (
              around heap info front e
                (more
                  ++ refs info.use_32bit (num heap info) (ref heap info) (entry_pointers items)
                    ∷ [])
                linked) =
        ap
          (λ n.
            for_each (write_ref heap n) (around heap info front e (more ++ [] ∷ []) linked)
              (entry_pointers items))
          (same_place heap info front d e more)
        ∙ (ap
              (λ t.
                for_each (write_ref heap (length (front ++ e ∷ more))) (at heap info t linked)
                  (entry_pointers items))
              (last_block front e more [])
            ∙ (entries-around heap info (entry_pointers items) (front ++ e ∷ more) [] linked known
                ∙ ap (λ t. ok (at heap info t linked))
                    (sym (
                      last_block front e more (
                        refs info.use_32bit (num heap info) (ref heap info)
                          (entry_pointers items)))))) in
      let blocks =
        more ++ refs info.use_32bit (num heap info) (ref heap info) (entry_pointers items) ∷ [] in
      let place : length d + 8 ≡ length c + (pointer_size info.use_32bit + 8) = omega (
        arith,
        length-append c m,
        length-le_bytes (pointer_size info.use_32bit)
            (meta_value info.use_32bit (num heap info) (ref heap info) meta),
      ) in
      rw
        (
          write_meta-around meta items front c more ln h,
          (open_vector heap info) front d more ln (length items),
          (vector_written heap info) front d (more ++ [] ∷ []) linked (length items),
          entries,
        )
        (ap ok (
          ap (λ t. (around heap info) front t blocks linked)
            (append_assoc c m
              (vec_bytes info.use_32bit (num heap info) (ref heap info) (length items) 0))
          ∙ (ap
                (λ n.
                  (around heap info) front
                    (c
                      ++ (m
                          ++ vec_bytes info.use_32bit (num heap info) (ref heap info) (length items)
                              0))
                    blocks
                    (ln ++ record { block = n; out = length front; pos = length d + 8 } ∷ []))
                (same_place heap info front d c more)
              ∙ ap
                  (λ n.
                    (around heap info) front
                      (c
                        ++ (m
                            ++ vec_bytes info.use_32bit (num heap info) (ref heap info)
                                (length items) 0))
                      blocks
                      (ln
                        ++ record {
                          block = length (front ++ c ∷ more);
                          out = length front;
                          pos = n;
                        }
                          ∷ []))
                  place)))

  pub serialise_item-around :
      (item : Item) (front : List (List ℕ)) (c : List ℕ) (more : List (List ℕ)) (ln : List Linkage)
      → IsStored item
      → serialise_item heap (length front) (around heap info front c more ln) item
        ≡ ok (Written front c more ln item)
  unfolding serialise_item raw own_block own_links
  serialise_item-around nil front c more ln h = absurd h
  serialise_item-around (boolean v) front c more ln h = absurd h
  serialise_item-around (number val) front c more ln h = ap ok (plain front c more ln _)
  serialise_item-around (vector x y z) front c more ln h = ap ok (plain front c more ln _)
  serialise_item-around (quaternion x y z w) front c more ln h = ap ok (plain front c more ln _)
  serialise_item-around (idstring val) front c more ln h = ap ok (plain front c more ln _)
  serialise_item-around (string val) front c more ln h = string-around val front c more ln
  serialise_item-around (table none items) front c more ln h =
      table-around none items front c more ln h h
  serialise_item-around (table (some meta) items) front c more ln h =
      table-around (some meta) items front c more ln h h.1
