-- ===== src/ScriptData/Written/Vectors.antt =====
-- The six vectors of a file of src/scriptdata/ScriptData.cpp, filled one after another.
use raid_super_blt.Base.{
  ℕ, suc, ◌+◌, ◌<◌, ◌≡◌, refl, sym, ap, ◌∙◌, Bool, List, [], ◌∷◌, ◌++◌, append_assoc, append-nil,
  map, length, length-append, All, arith,
}
use raid_super_blt.Outcome.{ok}
use raid_super_blt.ScriptData.{Item, Heap, Linkage, WriteInfo, for_each}
use raid_super_blt.ScriptData.Writing.{serialise_vector}
use raid_super_blt.ScriptData.Written.Layout.{
  vec_bytes, length-vec_bytes, raws, own_blocks, item_links, header, body, vector_links,
}
use raid_super_blt.ScriptData.Written.Around.{at, num, ref, open_vector, vector_written}
use raid_super_blt.ScriptData.Written.Stored.{IsStored}
use raid_super_blt.ScriptData.Written.Filled.{item_at, contents-around}

pub length-map : {A B : Type 0} (f : A → B) (xs : List A) → length (map f xs) ≡ length xs
length-map f [] = refl
length-map f (x ∷ xs) = ap suc (length-map f xs)

module _ (heap : Heap) (info : WriteInfo) where
  abbrev b : Bool
  b = info.use_32bit

  abbrev pub group : ℕ → List Item
  group id = map (item_at heap info) (info.items id)

  abbrev pub IsGroup : ℕ → Type 0
  IsGroup id =
      All (λ a. (a < length heap) × IsStored heap info (item_at heap info a)) (info.items id)

  abbrev after_vector : List ℕ → List (List ℕ) → List Linkage → List Item → WriteInfo
  after_vector h rest ln items =
      let n = suc (length rest) in
      at heap info
        ((h ++ vec_bytes b (num heap info) (ref heap info) (length items) 0)
          ∷ (rest
              ++ raws b (num heap info) (ref heap info) (λ _. 0) (suc n) items
                ∷ own_blocks b (num heap info) (ref heap info) items))
        (ln
          ++ record { block = n; out = 0; pos = length h + 8 }
            ∷ item_links b (num heap info) (ref heap info) (suc n) n 0 items)

  serialise_vector-after :
      (id : ℕ) (h : List ℕ) (rest : List (List ℕ)) (ln : List Linkage)
      → IsGroup id
      → serialise_vector heap 0 (at heap info (h ∷ rest) ln) id
        ≡ ok (after_vector h rest ln (group id))
  unfolding serialise_vector
  serialise_vector-after id h rest ln stored =
      let n = suc (length rest) in
      let count = length (info.items id) in
      let head = h ++ vec_bytes b (num heap info) (ref heap info) count 0 in
      let linked = ln ++ record { block = n; out = 0; pos = length h + 8 } ∷ [] in
      let xs = raws b (num heap info) (ref heap info) (λ _. 0) (suc n) (group id) in
      let owns = own_blocks b (num heap info) (ref heap info) (group id) in
      let links = λ (k : ℕ). item_links b (num heap info) (ref heap info) k n 0 (group id) in
      rw
        (
          open_vector heap info [] h rest ln count,
          vector_written heap info [] h (rest ++ [] ∷ []) linked count,
        )
        (contents-around heap info (info.items id) (suc n) (head ∷ rest) [] [] linked stored
          ∙ (ap (λ k. ok (at heap info (head ∷ (rest ++ xs ∷ owns)) (linked ++ links (suc k))))
                {x = length (rest ++ [] ∷ [])} {y = n} (omega (arith, length-append rest ([] ∷ [])))
              ∙ (ap
                    (λ k. ok (
                      at heap info
                        ((h ++ vec_bytes b (num heap info) (ref heap info) k 0)
                          ∷ (rest ++ xs ∷ owns))
                        (linked ++ links (suc n))))
                    (sym (length-map (item_at heap info) (info.items id)))
                  ∙ ap
                      (λ t. ok (
                        at heap info
                          ((h ++ vec_bytes b (num heap info) (ref heap info) (length (group id)) 0)
                            ∷ (rest ++ xs ∷ owns))
                          t))
                      (append_assoc ln (record { block = n; out = 0; pos = length h + 8 } ∷ [])
                        (links (suc n))))))

  abbrev pub groups : List ℕ → List (List Item)
  groups ids = map group ids

  pub vectors-after :
      (ids : List ℕ) (h : List ℕ) (rest : List (List ℕ)) (ln : List Linkage)
      → All IsGroup ids
      → for_each (serialise_vector heap 0) (at heap info (h ∷ rest) ln) ids
        ≡ ok (
            at heap info
              ((h
                  ++ header b
                      (num heap info)
                      (ref heap info)
                      (λ _. 0)
                      (suc (length rest))
                      (groups ids))
                ∷ (rest
                    ++ body b
                        (num heap info)
                        (ref heap info)
                        (λ _. 0)
                        (suc (length rest))
                        (groups ids)))
              (ln
                ++ vector_links b
                    (num heap info)
                    (ref heap info)
                    (suc (length rest))
                    (length h)
                    (groups ids)))
  unfolding for_each header body vector_links
  vectors-after [] h rest ln stored = sym (
      ap ok (
        ap (λ t. at heap info (t ∷ (rest ++ [])) (ln ++ [])) (append-nil h)
        ∙ (ap (λ t. at heap info (h ∷ t) (ln ++ [])) (append-nil rest)
            ∙ ap (λ t. at heap info (h ∷ rest) t) (append-nil ln))))
  vectors-after (id ∷ ids) h rest ln stored =
      let n = suc (length rest) in
      let items = group id in
      let gs = groups ids in
      let vec = vec_bytes b (num heap info) (ref heap info) (length items) 0 in
      let xs = raws b (num heap info) (ref heap info) (λ _. 0) (suc n) items in
      let owns = own_blocks b (num heap info) (ref heap info) items in
      let first : List Linkage =
        record { block = n; out = 0; pos = length h + 8 }
        ∷ item_links b (num heap info) (ref heap info) (suc n) n 0 items in
      let heads = λ (k : ℕ). header b (num heap info) (ref heap info) (λ _. 0) k gs in
      let bodies = λ (k : ℕ). body b (num heap info) (ref heap info) (λ _. 0) k gs in
      let links = λ (k p : ℕ). vector_links b (num heap info) (ref heap info) k p gs in
      let k : suc (length (rest ++ xs ∷ owns)) ≡ suc n + length owns =
        omega (arith, length-append rest (xs ∷ owns)) in
      let p : length (h ++ vec)
          ≡ length h + length (vec_bytes b (num heap info) (ref heap info) 0 0) =
        omega (
          arith,
          length-append h vec,
          length-vec_bytes b (num heap info) (ref heap info) (length items) 0,
          length-vec_bytes b (num heap info) (ref heap info) 0 0,
        ) in
      rw (serialise_vector-after id h rest ln stored.0) (
        vectors-after ids (h ++ vec) (rest ++ xs ∷ owns) (ln ++ first) stored.1
        ∙ ap ok (
            ap
              (λ m.
                at heap info (((h ++ vec) ++ heads m) ∷ ((rest ++ xs ∷ owns) ++ bodies m))
                  ((ln ++ first) ++ links m (length (h ++ vec))))
              k
            ∙ (ap
                  (λ t.
                    at heap info (t ∷ ((rest ++ xs ∷ owns) ++ bodies (suc n + length owns)))
                      ((ln ++ first) ++ links (suc n + length owns) (length (h ++ vec))))
                  (append_assoc h vec (heads (suc n + length owns)))
                ∙ (ap
                      (λ t.
                        at heap info ((h ++ (vec ++ heads (suc n + length owns))) ∷ t)
                          ((ln ++ first) ++ links (suc n + length owns) (length (h ++ vec))))
                      (append_assoc rest (xs ∷ owns) (bodies (suc n + length owns)))
                    ∙ (ap
                          (λ m.
                            at heap info
                              ((h ++ (vec ++ heads (suc n + length owns)))
                                ∷ (rest ++ xs ∷ (owns ++ bodies (suc n + length owns))))
                              ((ln ++ first) ++ links (suc n + length owns) m))
                          p
                        ∙ ap
                            (λ t.
                              at heap info
                                ((h ++ (vec ++ heads (suc n + length owns)))
                                  ∷ (rest ++ xs ∷ (owns ++ bodies (suc n + length owns))))
                                t)
                            (append_assoc ln first (links (suc n + length owns) _)))))))
