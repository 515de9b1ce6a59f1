-- ===== src/ScriptData/Back/Placed.antt =====
-- An item at its place in a file that src/scriptdata/ScriptData.cpp has written.
use raid_super_blt.Base.{
  ℕ, ◌+◌, ◌^◌, ◌<◌, ◌≡◌, ◌≢◌, refl, sym, ap, ◌∙◌, Option, none, some, List, [], ◌∷◌, ◌++◌,
  append_assoc, map, length, length-append, All, get_or, arith,
}
use raid_super_blt.Outcome.{ok, undefined}
use raid_super_blt.Diesel.Vectors.{elements}
use raid_super_blt.ScriptData.{
  Item, Heap, nil, boolean, number, string, vector, quaternion, idstring, table, get_id, WriteInfo,
}
use raid_super_blt.ScriptData.Written.Layout.{raw, raws, own_block, own_blocks}
use raid_super_blt.ScriptData.Written.File.{w, nums, refs_of, layout}
use raid_super_blt.ScriptData.Back.Located.{f, linked}
use raid_super_blt.ScriptData.Back.Words.{cut, first_part}

-- What a file has room for: words of 32 and 64 bits, strings without a zero, and a meta that is a
-- string.
abbrev pub Fits : Heap → Item → Type 0
Fits heap nil = Unit {0}
Fits heap (boolean v) = Unit {0}
Fits heap (number val) = val < 2 ^ 32
Fits heap (string val) = All (λ c. c ≢ 0) val
Fits heap (vector x y z) = (x < 2 ^ 32) × (y < 2 ^ 32) × (z < 2 ^ 32)
Fits heap (quaternion x y z u) = (x < 2 ^ 32) × (y < 2 ^ 32) × (z < 2 ^ 32) × (u < 2 ^ 32)
Fits heap (idstring val) = val < 2 ^ 64
Fits heap (table none items) = length items < 2 ^ 32
Fits heap (table (some meta) items) = (length items < 2 ^ 32) × (get_id (get_or heap meta nil) ≡ 4)

-- The values of items by type.
unfoldable pub number_val : Item → ℕ
number_val (number val) = val
number_val item = 0

unfoldable pub string_val : Item → List ℕ
string_val (string val) = val
string_val item = []

unfoldable pub vector_val : Item → ℕ × ℕ × ℕ
vector_val (vector x y z) = (x, y, z)
vector_val item = (0, 0, 0)

unfoldable pub quaternion_val : Item → ℕ × ℕ × ℕ × ℕ
quaternion_val (quaternion x y z u) = (x, y, z, u)
quaternion_val item = (0, 0, 0, 0)

unfoldable pub idstring_val : Item → ℕ
idstring_val (idstring val) = val
idstring_val item = 0

module _ (heap : Heap) (info : WriteInfo) (root : ℕ) where
  abbrev pub file : List ℕ
  file = layout heap info root

  abbrev pub raw_at : ℕ → Item → List ℕ
  raw_at n item =
      raw (w heap info root) (nums heap info root) (refs_of heap info root) (f heap info root n)
        item

  abbrev pub own_of : Item → List (List ℕ)
  own_of item = own_block (w heap info root) (nums heap info root) (refs_of heap info root) item

  abbrev pub raws_from : ℕ → List Item → List ℕ
  raws_from n items =
      raws (w heap info root) (nums heap info root) (refs_of heap info root) (f heap info root) n
        items

  abbrev pub owns_of : List Item → List (List ℕ)
  owns_of items = own_blocks (w heap info root) (nums heap info root) (refs_of heap info root) items

  -- An item that stands behind `x`, with its own block at the number `n`.
  pub record IsPlaced (item : Item) (n : ℕ) (x : List ℕ) : Type 0 where
    pub y : List ℕ
    pub front : List (List ℕ)
    pub rest : List (List ℕ)
    pub bytes : file ≡ x ++ (raw_at n item ++ y)
    pub blocks : linked heap info root ≡ front ++ (own_of item ++ rest)
    pub number : length front ≡ n

  pub record ArePlaced (items : List Item) (n : ℕ) (x : List ℕ) : Type 0 where
    pub y : List ℕ
    pub front : List (List ℕ)
    pub rest : List (List ℕ)
    pub bytes : file ≡ x ++ (raws_from n items ++ y)
    pub blocks : linked heap info root ≡ front ++ (owns_of items ++ rest)
    pub number : length front ≡ n

  pub first-IsPlaced :
      (item : Item) (items : List Item) (n : ℕ) (x : List ℕ)
      → ArePlaced (item ∷ items) n x
      → IsPlaced item n x × ArePlaced items (n + length (own_of item)) (x ++ raw_at n item)
  unfolding raws own_blocks
  first-IsPlaced item items n x p =
      let k = n + length (own_of item) in
      (
        record {
          y = raws_from k items ++ p.y;
          front = p.front;
          rest = owns_of items ++ p.rest;
          bytes = first_part file x (raw_at n item) (raws_from k items) p.y p.bytes;
          blocks = first_blocks;
          number = p.number;
        },
        record {
          y = p.y;
          front = p.front ++ own_of item;
          rest = p.rest;
          bytes = cut file x (raw_at n item) (raws_from k items) p.y p.bytes;
          blocks =
              first_blocks ∙ sym (append_assoc p.front (own_of item) (owns_of items ++ p.rest));
          number = omega (arith, length-append p.front (own_of item), p.number);
        },
      )
    where
      first_blocks : linked heap info root ≡ p.front ++ (own_of item ++ (owns_of items ++ p.rest))
      first_blocks =
          p.blocks ∙ ap (λ t. p.front ++ t) (append_assoc (own_of item) (owns_of items) p.rest)

  module _ {A : Type 0} (size : ℕ) (read_at : ℕ → Option A) (val : Item → A) (P : Item → Type 0)
      (reads : (item : Item) (n : ℕ) (x : List ℕ)
        → P item
        → IsPlaced item n x
        → (read_at (length x) ≡ some (val item)) × (length (raw_at n item) ≡ size)) where
    pub elements-raws :
        (items : List Item) (n : ℕ) (x : List ℕ)
        → All P items
        → ArePlaced items n x
        → elements undefined size read_at (length items) (length x) ≡ ok (map val items)
    unfolding elements
    elements-raws [] n x h p = refl
    elements-raws (item ∷ items) n x h p =
        let (here, later) = first-IsPlaced item items n x p in
        let (read, sized) = reads item n x h.0 here in
        let rest =
          ap (λ k. elements undefined size read_at (length items) k)
            (sym (length-append x (raw_at n item) ∙ ap (λ k. length x + k) sized))
          ∙ elements-raws items _ (x ++ raw_at n item) h.1 later in
        rw (read, rest) refl
