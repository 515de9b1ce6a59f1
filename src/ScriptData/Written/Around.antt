-- ===== src/ScriptData/Written/Around.antt =====
-- The calls by which `SItem::Serialise` of src/scriptdata/ScriptData.cpp writes to a block, when
-- other blocks stand before and behind it.
use raid_super_blt.Base.{
  ℕ, ◌+◌, ◌%◌, ◌^◌, ◌≡◌, refl, sym, ap, ◌∙◌, inl, inr, Bool, true, false, List, [], ◌∷◌, ◌++◌,
  append_assoc, append-nil, length, length-append, get_elem?, get_or, ltb, le_bytes,
  length-le_bytes, All, Bool-cases, Option-cases, arith,
}
use raid_super_blt.Outcome.{ok}
use raid_super_blt.ScriptData.{Heap, get_id, Linkage, WriteInfo, index_of, for_each}
use raid_super_blt.ScriptData.Numbers.Numbering.{has, has-eq_true}
use raid_super_blt.ScriptData.Writing.{
  create_block, create_linkage, append_to, write_bytes, tellp, write_ptr, write_ref, link_new_block,
  write_sizes,
}
use raid_super_blt.ScriptData.Written.Layout.{number_of, reference_of, ptr, vec_bytes, refs}

append_to-front :
    (front : List (List ℕ)) (c : List ℕ) (more : List (List ℕ)) (x : List ℕ)
    → append_to (front ++ c ∷ more) (length front) x ≡ front ++ (c ++ x) ∷ more
unfolding append_to
append_to-front [] c more x = refl
append_to-front (f ∷ front) c more x = ap (λ t. f ∷ t) (append_to-front front c more x)

get_or-front :
    (front : List (List ℕ)) (c : List ℕ) (more : List (List ℕ))
    → get_or (front ++ c ∷ more) (length front) [] ≡ c
get_or-front [] c more = refl
get_or-front (f ∷ front) c more = get_or-front front c more

module _ (heap : Heap) (info : WriteInfo) where
  -- The states of the writing: only the blocks and the links change.
  abbrev pub at : List (List ℕ) → List Linkage → WriteInfo
  at blocks linkages = record info {
    blocks = blocks;
    linkages = linkages;
    frozen = true;
    blocks_applied = false;
  }

  abbrev pub num : ℕ → ℕ
  num = number_of heap info

  abbrev pub ref : ℕ → ℕ
  ref = reference_of heap info

  -- A pointer to an item that has a number.
  abbrev pub IsKnown : ℕ → Type 0
  IsKnown a = has heap info a ≡ true

  pub index_of-at :
      (a : ℕ) (bl : List (List ℕ)) (ln : List Linkage)
      → IsKnown a
      → index_of heap (at bl ln) a ≡ ok (num a, false, at bl ln)
  unfolding index_of number_of has
  index_of-at a bl ln h = elim (Option-cases (get_elem? heap a)) [
    | inl e ↦ absurd (cc (rw (has, e) at h))
    | inr (item, e) ↦
        let (i, found) = has-eq_true heap info a item e h in rw (index_of, number_of, e, found) refl
  ]

  pub write_ref-at :
      (out a : ℕ) (bl : List (List ℕ)) (ln : List Linkage)
      → IsKnown a
      → write_ref heap out (at bl ln) a ≡ ok (at (append_to bl out (le_bytes 4 (ref a))) ln)
  unfolding write_ref write_bytes reference_of has
  write_ref-at out a bl ln h = elim (Option-cases (get_elem? heap a)) [
    | inl e ↦ absurd (cc (rw (has, e) at h))
    | inr (item, e) ↦ elim (Bool-cases (ltb (get_id item) 3)) [
      | inl small ↦ rw (write_ref, reference_of, e, small) refl
      | inr large ↦ rw (write_ref, reference_of, e, large, index_of-at a bl ln h) refl
    ]
  ]

  -- A state whose block `out` stands behind others.
  abbrev pub around : List (List ℕ) → List ℕ → List (List ℕ) → List Linkage → WriteInfo
  around front c more ln = at (front ++ c ∷ more) ln

  pub write_bytes-around :
      (front : List (List ℕ)) (c : List ℕ) (more : List (List ℕ)) (ln : List Linkage) (x : List ℕ)
      → write_bytes (around front c more ln) (length front) x ≡ around front (c ++ x) more ln
  unfolding write_bytes
  write_bytes-around front c more ln x = ap (λ t. at t ln) (append_to-front front c more x)

  abbrev pub b : Bool
  b = info.use_32bit

  pub link_new_block-around :
      (front : List (List ℕ)) (c : List ℕ) (more : List (List ℕ)) (ln : List Linkage)
      → link_new_block (around front c more ln) (length front)
        ≡ ok (
          length (front ++ c ∷ more),
          around front (c ++ ptr b num ref 0) (more ++ [] ∷ []) (
              ln
              ++ record { block = length (front ++ c ∷ more); out = length front; pos = length c }
                ∷ []),
        )
  unfolding link_new_block create_block create_linkage tellp write_ptr
  link_new_block-around front c more ln =
      let split : (front ++ c ∷ more) ++ [] ∷ [] ≡ front ++ c ∷ (more ++ [] ∷ []) =
        append_assoc front (c ∷ more) ([] ∷ []) in
      let linked = λ (t : List (List ℕ)) (p : ℕ).
        write_bytes
          (at t
            (ln ++ record { block = length (front ++ c ∷ more); out = length front; pos = p } ∷ []))
          (length front) (ptr b num ref 0) in
      ap (λ t. ok (length (front ++ c ∷ more), t))
        (ap (λ t. linked t (length (get_or t (length front) []))) split
          ∙ (ap (λ t. linked (front ++ c ∷ (more ++ [] ∷ [])) (length t))
                (get_or-front front c (more ++ [] ∷ []))
              ∙ write_bytes-around front c (more ++ [] ∷ []) _ (ptr b num ref 0)))

  -- The references of a table, written to a block at the end.
  pub entries-around :
      (xs : List ℕ) (front : List (List ℕ)) (c : List ℕ) (ln : List Linkage)
      → All IsKnown xs
      → for_each (write_ref heap (length front)) (around front c [] ln) xs
        ≡ ok (around front (c ++ refs b num ref xs) [] ln)
  unfolding for_each refs
  entries-around [] front c ln h = ap (λ t. ok (around front t [] ln)) (sym (append-nil c))
  entries-around (x ∷ xs) front c ln h =
      let e =
        write_ref-at (length front) x (front ++ c ∷ []) ln h.0
        ∙ ap (λ t. ok (at t ln)) (append_to-front front c [] (le_bytes 4 (ref x))) in
      rw e (
        entries-around xs front (c ++ le_bytes 4 (ref x)) ln h.1
        ∙ ap (λ t. ok (around front t [] ln))
            (append_assoc c (le_bytes 4 (ref x)) (refs b num ref xs)))

  write_sizes-around :
      (front : List (List ℕ)) (c : List ℕ) (more : List (List ℕ)) (ln : List Linkage) (count : ℕ)
      → write_sizes (around front c more ln) (length front) count
        ≡ around front ((c ++ le_bytes 4 (count % 2 ^ 32)) ++ le_bytes 4 (count % 2 ^ 32)) more ln
  unfolding write_sizes
  write_sizes-around front c more ln count =
      let size = le_bytes 4 (count % 2 ^ 32) in
      ap (λ t. write_bytes t (length front) size) (write_bytes-around front c more ln size)
      ∙ write_bytes-around front (c ++ size) more ln size

  -- A vector's sizes and address, whose contents get a new block.
  abbrev pub sized : List ℕ → ℕ → List ℕ
  sized c count = (c ++ le_bytes 4 (count % 2 ^ 32)) ++ le_bytes 4 (count % 2 ^ 32)

  sized_length : (c : List ℕ) (count : ℕ) → length (sized c count) ≡ length c + 8
  sized_length c count =
      let size = le_bytes 4 (count % 2 ^ 32) in
      omega (
        arith,
        length-append (c ++ size) size,
        length-append c size,
        length-le_bytes 4 (count % 2 ^ 32),
      )

  pub same_place :
      (front : List (List ℕ)) (c d : List ℕ) (more : List (List ℕ))
      → length (front ++ c ∷ more) ≡ length (front ++ d ∷ more)
  same_place front c d more = length-append front (c ∷ more) ∙ sym (length-append front (d ∷ more))

  pub open_vector :
      (front : List (List ℕ)) (c : List ℕ) (more : List (List ℕ)) (ln : List Linkage) (count : ℕ)
      → link_new_block (write_sizes (around front c more ln) (length front) count) (length front)
        ≡ ok (
          length (front ++ c ∷ more),
          around front (sized c count ++ ptr b num ref 0) (more ++ [] ∷ []) (
              ln
              ++ record {
                block = length (front ++ c ∷ more);
                out = length front;
                pos = length c + 8;
              }
                ∷ []),
        )
  open_vector front c more ln count =
      let d = sized c count in
      ap (λ t. link_new_block t (length front)) (write_sizes-around front c more ln count)
      ∙ (link_new_block-around front d more ln
          ∙ (ap
                (λ n. ok (
                  n,
                  around front (d ++ ptr b num ref 0) (more ++ [] ∷ [])
                      (ln ++ record { block = n; out = length front; pos = length d } ∷ []),
                ))
                (same_place front d c more)
              ∙ ap
                  (λ n. ok (
                    length (front ++ c ∷ more),
                    around front (d ++ ptr b num ref 0) (more ++ [] ∷ []) (
                        ln
                        ++ record {
                          block = length (front ++ c ∷ more);
                          out = length front;
                          pos = n;
                        }
                          ∷ []),
                  ))
                  (sized_length c count)))

  pub vector_written :
      (front : List (List ℕ)) (c : List ℕ) (more : List (List ℕ)) (ln : List Linkage) (count : ℕ)
      → write_ptr (around front (sized c count ++ ptr b num ref 0) more ln) (length front) 0
        ≡ around front (c ++ vec_bytes b num ref count 0) more ln
  unfolding vec_bytes write_ptr
  vector_written front c more ln count =
      let size = le_bytes 4 (count % 2 ^ 32) in
      let p = ptr b num ref 0 in
      write_bytes-around front (sized c count ++ p) more ln p
      ∙ ap (λ t. around front t more ln)
          (append_assoc (sized c count) p p
            ∙ (append_assoc (c ++ size) size (p ++ p) ∙ append_assoc c size (size ++ (p ++ p))))
