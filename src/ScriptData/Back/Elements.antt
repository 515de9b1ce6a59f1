-- ===== src/ScriptData/Back/Elements.antt =====
-- The elements of the vectors of a written file, as src/scriptdata/ScriptData.cpp reads them.
use raid_super_blt.Base.{
  ℕ, ◌+◌, ◌-◌, ◌*◌, ◌^◌, ◌<◌, ◌≡◌, refl, sym, ap, ◌∙◌, true, false, some, List, [], ◌∷◌, ◌++◌,
  append-nil, length, length-append, drop, drop-append_length, flatten, le_bytes, length-le_bytes,
  arith,
}
use raid_super_blt.ScriptData.{
  Item, Heap, boolean, number, string, vector, quaternion, idstring, get_id, WriteInfo,
}
use raid_super_blt.ScriptData.Writing.{pointer_size}
use raid_super_blt.ScriptData.Written.Layout.{ptr, raw, own_block}
use raid_super_blt.ScriptData.Reading.{float_at, idstring_at, vector_at, quaternion_at, string_at}
use raid_super_blt.ScriptData.Written.File.{w, nums, refs_of, blocks_with}
use raid_super_blt.ScriptData.Back.Located.{f, linked, located, length-layout}
use raid_super_blt.ScriptData.Back.Words.{pointer_fits, cut, word, pair, c_string?-append}
use raid_super_blt.ScriptData.Back.Placed.{
  Fits, number_val, string_val, vector_val, quaternion_val, idstring_val, file, raw_at, IsPlaced,
}

module _ (heap : Heap) (info : WriteInfo) (root : ℕ) where
  -- An item of a type.
  abbrev pub IsOf : ℕ → Item → Type 0
  IsOf id item = (get_id item ≡ id) × Fits heap item

  pub number_reads :
      (item : Item) (n : ℕ) (x : List ℕ)
      → IsOf 3 item
      → IsPlaced heap info root item n x
      → (float_at (file heap info root) (length x) ≡ some (number_val item))
        × (length (raw_at heap info root n item) ≡ 4)
  unfolding float_at number_val get_id raw
  number_reads (number val) n x (e, h) p = (
    word (file heap info root) (length x) 4 val x p.y p.bytes refl (omega arith),
    length-le_bytes 4 val,
  )
  number_reads (boolean true) n x (e, h) p = absurd (cc)
  number_reads (boolean false) n x (e, h) p = absurd (cc)
  number_reads other n x (e, h) p = absurd (cc)

  pub idstring_reads :
      (item : Item) (n : ℕ) (x : List ℕ)
      → IsOf 7 item
      → IsPlaced heap info root item n x
      → (idstring_at (file heap info root) (length x) ≡ some (idstring_val item))
        × (length (raw_at heap info root n item) ≡ 8)
  unfolding idstring_at idstring_val get_id raw
  idstring_reads (idstring val) n x (e, h) p = (
    word (file heap info root) (length x) 8 val x p.y p.bytes refl (omega arith),
    length-le_bytes 8 val,
  )
  idstring_reads (boolean true) n x (e, h) p = absurd (cc)
  idstring_reads (boolean false) n x (e, h) p = absurd (cc)
  idstring_reads other n x (e, h) p = absurd (cc)

  pub vector_reads :
      (item : Item) (n : ℕ) (x : List ℕ)
      → IsOf 5 item
      → IsPlaced heap info root item n x
      → (vector_at (file heap info root) (length x) ≡ some (vector_val item))
        × (length (raw_at heap info root n item) ≡ 12)
  unfolding vector_at vector_val get_id raw
  vector_reads (vector a b c) n x (e, (ha, hb, hc)) p =
      let la = le_bytes 4 a in
      let lb = le_bytes 4 b in
      let lc = le_bytes 4 c in
      let second =
        cut (file heap info root) (x ++ la) lb lc p.y
          (cut (file heap info root) x la (lb ++ lc) p.y p.bytes) in
      (
        rw
            (
              vector_at,
              pair (file heap info root) (length x) a b x lc p.y p.bytes refl ha hb,
              word (file heap info root) (length x + 8) 4 c ((x ++ la) ++ lb) p.y second
                  (omega (
                    arith,
                    length-append (x ++ la) lb,
                    length-append x la,
                    length-le_bytes 4 a,
                    length-le_bytes 4 b,
                  ))
                  (omega arith),
            )
            refl,
        omega (
          arith,
          length-append la (lb ++ lc),
          length-append lb lc,
          length-le_bytes 4 a,
          length-le_bytes 4 b,
          length-le_bytes 4 c,
        ),
      )
  vector_reads (boolean true) n x (e, h) p = absurd (cc)
  vector_reads (boolean false) n x (e, h) p = absurd (cc)
  vector_reads other n x (e, h) p = absurd (cc)

  pub quaternion_reads :
      (item : Item) (n : ℕ) (x : List ℕ)
      → IsOf 6 item
      → IsPlaced heap info root item n x
      → (quaternion_at (file heap info root) (length x) ≡ some (quaternion_val item))
        × (length (raw_at heap info root n item) ≡ 16)
  unfolding quaternion_at quaternion_val get_id raw
  quaternion_reads (quaternion a b c d) n x (e, (ha, hb, hc, hd)) p =
      let la = le_bytes 4 a in
      let lb = le_bytes 4 b in
      let lc = le_bytes 4 c in
      let ld = le_bytes 4 d in
      let second =
        cut (file heap info root) (x ++ la) lb (lc ++ ld) p.y
          (cut (file heap info root) x la (lb ++ (lc ++ ld)) p.y p.bytes) in
      let padded : (file heap info root) ≡ ((x ++ la) ++ lb) ++ ((lc ++ (ld ++ [])) ++ p.y) =
        second ∙ ap (λ t. ((x ++ la) ++ lb) ++ ((lc ++ t) ++ p.y)) (sym (append-nil ld)) in
      (
        rw
            (
              quaternion_at,
              pair (file heap info root) (length x) a b x (lc ++ ld) p.y p.bytes refl ha hb,
              pair (file heap info root) (length x + 8) c d ((x ++ la) ++ lb) [] p.y padded
                  (omega (
                    arith,
                    length-append (x ++ la) lb,
                    length-append x la,
                    length-le_bytes 4 a,
                    length-le_bytes 4 b,
                  ))
                  hc hd,
            )
            refl,
        omega (
          arith,
          length-append la (lb ++ (lc ++ ld)),
          length-append lb (lc ++ ld),
          length-append lc ld,
          length-le_bytes 4 a,
          length-le_bytes 4 b,
          length-le_bytes 4 c,
          length-le_bytes 4 d,
        ),
      )
  quaternion_reads (boolean true) n x (e, h) p = absurd (cc)
  quaternion_reads (boolean false) n x (e, h) p = absurd (cc)
  quaternion_reads other n x (e, h) p = absurd (cc)

  module _ (small : length (flatten (blocks_with heap info root (λ _. 0))) < 2 ^ 32 - 1) where
    pub address_fits :
        (front rest : List (List ℕ)) (n : ℕ)
        → linked heap info root ≡ front ++ rest
        → length front ≡ n
        → f heap info root n < 2 ^ 32
    address_fits front rest n e at =
        let (place, whole) = located heap info root small front rest n e at in
        omega (
          arith,
          place,
          small,
          length-layout heap info root,
          ap length whole,
          length-append (flatten front) (flatten rest),
        )

    pub string_reads :
        (item : Item) (n : ℕ) (x : List ℕ)
        → IsOf 4 item
        → IsPlaced heap info root item n x
        → (string_at (w heap info root) (file heap info root) (length x) ≡ some (string_val item))
          × (length (raw_at heap info root n item) ≡ 2 * pointer_size (w heap info root))
    unfolding string_at string_val get_id raw own_block
    string_reads (string val) n x (e, h) p =
        let zero_ptr = ptr (w heap info root) (nums heap info root) (refs_of heap info root) 0 in
        let address =
          ptr (w heap info root) (nums heap info root) (refs_of heap info root)
            (f heap info root n) in
        let size = length-le_bytes (pointer_size (w heap info root)) 0 in
        let fits = address_fits p.front ((val ++ 0 ∷ []) ∷ p.rest) n p.blocks p.number in
        let (place, whole) =
          located heap info root small p.front ((val ++ 0 ∷ []) ∷ p.rest) n p.blocks p.number in
        let text : drop (f heap info root n) (file heap info root)
            ≡ (val ++ 0 ∷ []) ++ flatten p.rest =
          ap (λ k. drop k (file heap info root)) place
          ∙ (ap (λ t. drop (length (flatten p.front)) t) whole
              ∙ drop-append_length (flatten p.front) ((val ++ 0 ∷ []) ++ flatten p.rest)) in
        (
          rw
              (
                string_at,
                word (file heap info root) (length x + pointer_size (w heap info root))
                    (pointer_size (w heap info root)) (f heap info root n) (x ++ zero_ptr) p.y
                    (cut (file heap info root) x zero_ptr address p.y p.bytes)
                    (omega (arith, length-append x zero_ptr, size))
                    (pointer_fits (w heap info root) (f heap info root n) fits),
                text,
              )
              (c_string?-append val (flatten p.rest) h),
          omega (
            arith,
            length-append zero_ptr address,
            size,
            length-le_bytes (pointer_size (w heap info root)) (f heap info root n),
          ),
        )
    string_reads (boolean true) n x (e, h) p = absurd (cc)
    string_reads (boolean false) n x (e, h) p = absurd (cc)
    string_reads other n x (e, h) p = absurd (cc)
