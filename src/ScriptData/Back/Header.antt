-- ===== src/ScriptData/Back/Header.antt =====
-- The six vectors in the header of a written file, as src/scriptdata/ScriptData.cpp reads them.
use raid_super_blt.Base.{
  ℕ, suc, ◌+◌, ◌-◌, ◌^◌, ◌<◌, ◌≡◌, refl, sym, ap, ◌∙◌, Bool, true, false, Option, some, List, [],
  ◌∷◌, ◌++◌, append_assoc, map, length, length-append, flatten, le_bytes, length-le_bytes, All,
  read_le?, arith,
}
use raid_super_blt.Outcome.{ok, undefined}
use raid_super_blt.Diesel.Vectors.{elements}
use raid_super_blt.ScriptData.{Item, Heap, WriteInfo}
use raid_super_blt.ScriptData.Writing.{pointer_size}
use raid_super_blt.ScriptData.Written.Layout.{ptr, vec_bytes, length-vec_bytes, header, body}
use raid_super_blt.ScriptData.Written.Vectors.{group}
use raid_super_blt.ScriptData.Reading.{read_into_vec, raw_vec, vec_size}
use raid_super_blt.ScriptData.Written.File.{
  w, nums, refs_of, items_by_type, head_block, blocks_with, layout,
}
use raid_super_blt.ScriptData.Back.Located.{f, linked, located}
use raid_super_blt.ScriptData.Back.Words.{word, vector_words, cut, first_part}
use raid_super_blt.ScriptData.Back.Placed.{
  file, raws_from, owns_of, IsPlaced, ArePlaced, raw_at, elements-raws,
}
use raid_super_blt.ScriptData.Back.Elements.{address_fits}
use raid_super_blt.ScriptData.Back.References.{vector_size}

pointer_not_empty : (b : Bool) → 0 < pointer_size b
pointer_not_empty true = omega arith
pointer_not_empty false = omega arith

module _ (heap : Heap) (info : WriteInfo) (root : ℕ)
    (small : length (flatten (blocks_with heap info root (λ _. 0))) < 2 ^ 32 - 1) where
  abbrev pub b : Bool
  b = w heap info root

  abbrev pub bytes : List ℕ
  bytes = file heap info root

  -- What stands behind the six vectors of the header.
  abbrev pub ending : List ℕ
  ending =
      le_bytes 4 (refs_of heap info root root)
      ++ flatten (
          body b (nums heap info root) (refs_of heap info root) (f heap info root) 1
            (items_by_type heap info root))

  abbrev pub head_from : ℕ → List (List Item) → List ℕ
  head_from n gs = header b (nums heap info root) (refs_of heap info root) (f heap info root) n gs

  pub record HeaderAt (n : ℕ) (before : List ℕ) (gs : List (List Item)) : Type 0 where
    pub front : List (List ℕ)
    pub bytes_at : bytes ≡ before ++ (head_from n gs ++ ending)
    pub blocks_at :
        linked heap info root
        ≡ front ++ body b (nums heap info root) (refs_of heap info root) (f heap info root) n gs
    pub number : length front ≡ n

  whole_header :
      HeaderAt 1
        (ptr b (nums heap info root) (refs_of heap info root) 0)
        (items_by_type heap info root)
  unfolding layout blocks_with head_block
  whole_header =
      let start = ptr b (nums heap info root) (refs_of heap info root) 0 in
      let hs = head_from 1 (items_by_type heap info root) in
      let e = le_bytes 4 (refs_of heap info root root) in
      let rest = flatten (
        body b (nums heap info root) (refs_of heap info root) (f heap info root) 1
          (items_by_type heap info root)) in
      record {
        front = head_block heap info root (f heap info root) ∷ [];
        bytes_at =
            append_assoc start (hs ++ e) rest ∙ ap (λ t. start ++ t) (append_assoc hs e rest);
        blocks_at = refl;
        number = refl;
      }

  -- One vector of the header: its words, its items, and the next vector.
  module _ (items : List Item) (gs : List (List Item)) (n : ℕ) (before : List ℕ)
      (at : HeaderAt n before (items ∷ gs)) where
    abbrev pub vec : List ℕ
    vec =
        vec_bytes b (nums heap info root) (refs_of heap info root) (length items)
          (f heap info root n)

    abbrev pub next : ℕ
    next = suc n + length (owns_of heap info root items)

    abbrev pub contents_at : List ℕ
    contents_at = flatten at.front

    unfoldable pub next_bodies : List (List ℕ)
    next_bodies = body b (nums heap info root) (refs_of heap info root) (f heap info root) next gs

    abbrev pub contents : List ℕ
    contents = raws_from heap info root (suc n) items

    pub place :
        (f heap info root n ≡ length contents_at)
        × (bytes
            ≡ contents_at ++ (contents ++ flatten (owns_of heap info root items ++ next_bodies)))
    unfolding body next_bodies
    place =
        located heap info root small at.front
          (contents ∷ (owns_of heap info root items ++ next_bodies)) n at.blocks_at at.number

    pub items_placed : ArePlaced heap info root items (suc n) contents_at
    unfolding body next_bodies
    items_placed = record {
      y = flatten (owns_of heap info root items ++ next_bodies);
      front = at.front ++ contents ∷ [];
      rest = next_bodies;
      bytes = place.1;
      blocks =
          at.blocks_at
          ∙ sym
              (append_assoc at.front (contents ∷ []) (owns_of heap info root items ++ next_bodies));
      number = omega (arith, length-append at.front (contents ∷ []), at.number);
    }

    pub words :
        length items < 2 ^ 32
        → raw_vec b bytes (length before)
          ≡ some (record { count = length items; offset = f heap info root n })
    unfolding header body next_bodies
    words count =
        vector_words bytes b (nums heap info root) (refs_of heap info root) (length before)
          (length items) (f heap info root n) before (head_from next gs ++ ending)
          (first_part bytes before vec (head_from next gs) ending at.bytes_at) refl count
          (address_fits heap info root small at.front
            (contents ∷ (owns_of heap info root items ++ next_bodies)) n at.blocks_at at.number)

    next_header : HeaderAt next (before ++ vec) gs
    unfolding header body next_bodies
    next_header = record {
      front = at.front ++ (contents ∷ owns_of heap info root items);
      bytes_at = cut bytes before vec (head_from next gs) ending at.bytes_at;
      blocks_at =
          at.blocks_at
          ∙ sym (append_assoc at.front (contents ∷ owns_of heap info root items) next_bodies);
      number =
          omega
            (arith, length-append at.front (contents ∷ owns_of heap info root items), at.number);
    }

    next_position : length (before ++ vec) ≡ length before + vec_size b
    next_position = omega (
      arith,
      length-append before vec,
      length-vec_bytes b (nums heap info root) (refs_of heap info root) (length items)
          (f heap info root n),
      vector_size b,
    )

  -- The vectors from some position of the header on.
  pub record VectorsAt (pos : ℕ) (gs : List (List Item)) : Type 0 where
    pub block : ℕ
    pub before : List ℕ
    pub at : HeaderAt block before gs
    pub position : pos ≡ length before

  pub all_vectors : VectorsAt (pointer_size b) (items_by_type heap info root)
  all_vectors = record {
    block = 1;
    before = ptr b (nums heap info root) (refs_of heap info root) 0;
    at = whole_header;
    position = sym (length-le_bytes (pointer_size b) 0);
  }

  pub next_vectors :
      (pos next_pos : ℕ) (items : List Item) (gs : List (List Item))
      → VectorsAt pos (items ∷ gs)
      → next_pos ≡ pos + vec_size b
      → VectorsAt next_pos gs
  next_vectors pos next_pos items gs v e = record {
    block = next items gs v.block v.before v.at;
    before = v.before ++ vec items gs v.block v.before v.at;
    at = next_header items gs v.block v.before v.at;
    position = e ∙ omega (arith, v.position, next_position items gs v.block v.before v.at);
  }

  pub end_word :
      (pos : ℕ)
      → VectorsAt pos []
      → refs_of heap info root root < 2 ^ 32
      → read_le? pos 4 bytes ≡ some (refs_of heap info root root)
  unfolding header
  end_word pos v fits =
      word bytes pos 4 (refs_of heap info root root) v.before _ v.at.bytes_at v.position
        (omega arith)

  -- The second vector has contents at an address that is not zero.
  pub second_address :
      (0 < f heap info root (suc 1 + length (owns_of heap info root (group heap info 3))))
      × (f heap info root (suc 1 + length (owns_of heap info root (group heap info 3))) < 2 ^ 32)
  unfolding blocks_with body head_block
  second_address =
      let first = head_block heap info root (f heap info root) in
      let start = ptr b (nums heap info root) (refs_of heap info root) 0 in
      let behind =
        raws_from heap info root 2 (group heap info 3)
        ∷ owns_of heap info root (group heap info 3) in
      let n = suc 1 + length (owns_of heap info root (group heap info 3)) in
      let gs =
        group heap info 4
        ∷ group heap info 5
        ∷ group heap info 6
        ∷ group heap info 7
        ∷ group heap info 8
        ∷ [] in
      let rest = body b (nums heap info root) (refs_of heap info root) (f heap info root) n gs in
      let (at_place, _) = located heap info root small (first ∷ behind) rest n refl (omega arith) in
      (
        omega (
          arith,
          at_place,
          length-append first (flatten behind),
          length-append start (
              head_from 1 (items_by_type heap info root)
              ++ le_bytes 4 (refs_of heap info root root)),
          length-le_bytes (pointer_size b) 0,
          pointer_not_empty b,
        ),
        address_fits heap info root small (first ∷ behind) rest n refl (omega arith),
      )

  module _ {A : Type 0} (size : ℕ) (element_at : List ℕ → ℕ → Option A) (val : Item → A)
      (P : Item → Type 0)
      (reads : (item : Item) (n : ℕ) (x : List ℕ)
        → P item
        → IsPlaced heap info root item n x
        → (element_at bytes (length x) ≡ some (val item))
          × (length (raw_at heap info root n item) ≡ size)) where
    pub vector_back :
        (items : List Item) (gs : List (List Item)) (pos : ℕ)
        → VectorsAt pos (items ∷ gs)
        → All P items
        → length items < 2 ^ 32
        → read_into_vec size element_at b bytes pos ≡ ok (map val items)
    unfolding read_into_vec
    vector_back items gs pos v valid count =
        let (at_place, split) = place items gs v.block v.before v.at in
        let elements_back =
          ap (λ k. elements undefined size (element_at bytes) (length items) k) at_place
          ∙ elements-raws heap info root size (element_at bytes) val P reads items (suc v.block)
              (contents_at items gs v.block v.before v.at) valid
              (items_placed items gs v.block v.before v.at) in
        ap (λ k. read_into_vec size element_at b bytes k) v.position
        ∙ rw (read_into_vec, words items gs v.block v.before v.at count) elements_back
