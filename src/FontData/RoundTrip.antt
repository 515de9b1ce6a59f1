-- ===== src/FontData/RoundTrip.antt =====
-- Fonts that src/scriptdata/FontData.cpp writes and reads back.
use raid_super_blt.Base.{
  ℕ, ◌+◌, ◌%◌, ◌^◌, ◌<◌, ◌≤◌, ◌≡◌, refl, ap, ◌∙◌, true, List, [], ◌∷◌, ◌++◌, length, take, drop,
  arith, le_bytes, of_le, of_le-le_bytes, le→leb, lt→ltb, Option,
}
use raid_super_blt.Outcome.{ok, undefined}
use raid_super_blt.Diesel.Contents.{write_at}
use raid_super_blt.Diesel.Vectors.{elements}
use raid_super_blt.FontData.{
  FontData, read_val, read_ptr, read_vec, glyph_at, char_def_at, kerning_at, c_string, is_32bit,
  parse, write_main, write_vec, link_block,
}
use raid_super_blt.FontData.Detection.{out32, read_within}

read_val_within :
    (n : ℕ) (bytes : List ℕ) (offset : ℕ) (word : List ℕ)
    → offset + n ≤ length bytes
    → take n (drop offset bytes) ≡ word
    → read_val n bytes offset ≡ ok (of_le word, offset + n)
unfolding read_val
read_val_within n bytes offset word fits e =
    rw (le→leb (offset + n) (length bytes) fits, read_within offset n bytes word fits e) refl

read_ptr_within :
    (bytes : List ℕ) (offset : ℕ) (word : List ℕ)
    → offset + 4 ≤ length bytes
    → take 4 (drop offset bytes) ≡ word
    → read_ptr true bytes offset ≡ ok (of_le word % 2 ^ 32, offset + 4)
unfolding read_ptr
read_ptr_within bytes offset word fits e = rw (read_val_within 4 bytes offset word fits e) refl

-- A vector whose four words are in place.
read_vec_within :
    {A : Type 0} (width : ℕ) (element_at : List ℕ → ℕ → Option A) (bytes : List ℕ)
    (offset count pointer : ℕ) (capacity allocator : List ℕ) (xs : List A)
    → offset + 16 ≤ length bytes
    → take 4 (drop offset bytes) ≡ le_bytes 4 count
    → take 4 (drop (offset + 4) bytes) ≡ capacity
    → take 4 (drop (offset + 4 + 4) bytes) ≡ le_bytes 4 pointer
    → take 4 (drop (offset + 4 + 4 + 4) bytes) ≡ allocator
    → count < 2 ^ 31
    → pointer < 2 ^ 32
    → elements undefined width (element_at (bytes ++ 0 ∷ [])) count pointer ≡ ok xs
    → read_vec width element_at true bytes offset ≡ ok (xs, offset + 4 + 4 + 4 + 4)
unfolding read_vec
read_vec_within width element_at bytes offset count pointer capacity allocator xs fits e0 e1 e2 e3
      small near all =
    let counted =
      read_val_within 4 bytes offset (le_bytes 4 count) (omega arith) e0
      ∙ ap (λ n. ok (n, offset + 4)) (of_le-le_bytes 4 count (omega arith)) in
    let linked =
      read_ptr_within bytes (offset + 4 + 4) (le_bytes 4 pointer) (omega arith) e2
      ∙ ap (λ n. ok (n, offset + 4 + 4 + 4)) {y = pointer}
          (ap (λ n. n % 2 ^ 32) (of_le-le_bytes 4 pointer near) ∙ omega arith) in
    rw
      (
        counted,
        read_val_within 4 bytes (offset + 4) capacity (omega arith) e1,
        linked,
        read_ptr_within bytes (offset + 4 + 4 + 4) allocator (omega arith) e3,
        lt→ltb count (2 ^ 31) small,
        all,
      )
      refl

module _ (font : FontData) (a b c d : ℕ) (tail : List ℕ) where
  abbrev pub out : List ℕ
  out = out32 font a b c d tail

  pub long : 96 ≤ length out
  unfolding out32 write_main write_vec link_block write_at le_bytes
  long = omega arith

  -- The main block is in front.
  pub in_front : take 96 out ++ tail ≡ out
  unfolding out32 write_main write_vec link_block write_at le_bytes
  in_front = refl

  -- The vectors, where the blocks lie as the links say.
  pub glyphs_read :
      length font.glyphs < 2 ^ 31
      → a < 2 ^ 32
      → elements undefined 10 (glyph_at (out ++ 0 ∷ [])) (length font.glyphs) a ≡ ok font.glyphs
      → read_vec 10 glyph_at true out 0 ≡ ok (font.glyphs, 16)
  unfolding out32 write_main write_vec link_block write_at le_bytes
  glyphs_read small near all =
      read_vec_within 10 glyph_at out 0 (length font.glyphs) a _ _ font.glyphs (omega (arith, long))
        (ap (le_bytes 4) {x = length font.glyphs % 2 ^ 32} {y = length font.glyphs} (omega arith))
        refl (ap (le_bytes 4) {x = a % 2 ^ 32} {y = a} (omega arith)) refl small near all

  pub codepoints_read :
      length font.codepoints < 2 ^ 31
      → b < 2 ^ 32
      → elements undefined 8 (char_def_at (out ++ 0 ∷ [])) (length font.codepoints) b
        ≡ ok font.codepoints
      → read_vec 8 char_def_at true out 20 ≡ ok (font.codepoints, 36)
  unfolding out32 write_main write_vec link_block write_at le_bytes
  codepoints_read small near all =
      read_vec_within 8 char_def_at out 20 (length font.codepoints) b _ _ font.codepoints
        (omega (arith, long))
        (ap (le_bytes 4) {x = length font.codepoints % 2 ^ 32} {y = length font.codepoints}
          (omega arith))
        refl (ap (le_bytes 4) {x = b % 2 ^ 32} {y = b} (omega arith)) refl small near all

  pub kernings_read :
      length font.kernings < 2 ^ 31
      → c < 2 ^ 32
      → elements undefined 12 (kerning_at (out ++ 0 ∷ [])) (length font.kernings) c
        ≡ ok font.kernings
      → read_vec 12 kerning_at true out 44 ≡ ok (font.kernings, 60)
  unfolding out32 write_main write_vec link_block write_at le_bytes
  kernings_read small near all =
      read_vec_within 12 kerning_at out 44 (length font.kernings) c _ _ font.kernings
        (omega (arith, long))
        (ap (le_bytes 4) {x = length font.kernings % 2 ^ 32} {y = length font.kernings}
          (omega arith))
        refl (ap (le_bytes 4) {x = c % 2 ^ 32} {y = c} (omega arith)) refl small near all

  number :
      (offset v : ℕ)
      → offset + 4 ≤ 96
      → take 4 (drop offset out) ≡ le_bytes 4 v
      → v < 2 ^ 32
      → read_val 4 out offset ≡ ok (v, offset + 4)
  number offset v fits e small =
      read_val_within 4 out offset (le_bytes 4 v) (omega (arith, long)) e
      ∙ ap (λ n. ok (n, offset + 4)) (of_le-le_bytes 4 v small)

  flag_read : font.ukn_bool < 256 → read_val 1 out 60 ≡ ok (font.ukn_bool, 61)
  unfolding out32 write_main write_vec link_block write_at le_bytes
  flag_read small =
      read_val_within 1 out 60 (le_bytes 1 font.ukn_bool) (omega (arith, long)) refl
      ∙ ap (λ n. ok (n, 61)) (of_le-le_bytes 1 font.ukn_bool small)

  name_read : d < 2 ^ 32 → read_ptr true out 68 ≡ ok (d, 72)
  unfolding out32 write_main write_vec link_block write_at le_bytes
  name_read near =
      read_ptr_within out 68 (le_bytes 4 d) (omega (arith, long))
        (ap (le_bytes 4) {x = d % 2 ^ 32} {y = d} (omega arith))
      ∙ ap (λ n. ok (n, 72)) {y = d} (ap (λ n. n % 2 ^ 32) (of_le-le_bytes 4 d near) ∙ omega arith)

  unused_read :
      (offset : ℕ)
      → offset + 4 ≤ 96
      → read_ptr true out offset ≡ ok (of_le (take 4 (drop offset out)) % 2 ^ 32, offset + 4)
  unused_read offset fits = read_ptr_within out offset _ (omega (arith, long)) refl

  last_read : read_val 4 out 92 ≡ ok (of_le (take 4 (drop 92 out)), 96)
  last_read = read_val_within 4 out 92 _ (omega (arith, long)) refl

  size_bytes : take 4 (drop 72 out) ≡ le_bytes 4 font.size
  unfolding out32 write_main write_vec link_block write_at le_bytes
  size_bytes = refl

  width_bytes : take 4 (drop 76 out) ≡ le_bytes 4 font.texture_width
  unfolding out32 write_main write_vec link_block write_at le_bytes
  width_bytes = refl

  height_bytes : take 4 (drop 80 out) ≡ le_bytes 4 font.texture_height
  unfolding out32 write_main write_vec link_block write_at le_bytes
  height_bytes = refl

  ukn5_bytes : take 4 (drop 84 out) ≡ le_bytes 4 font.ukn5
  unfolding out32 write_main write_vec link_block write_at le_bytes
  ukn5_bytes = refl

  line_bytes : take 4 (drop 88 out) ≡ le_bytes 4 font.line_height
  unfolding out32 write_main write_vec link_block write_at le_bytes
  line_bytes = refl

  -- The five numbers, where they fit.
  module _ (s : font.size < 2 ^ 32) (w : font.texture_width < 2 ^ 32)
      (h : font.texture_height < 2 ^ 32) (u : font.ukn5 < 2 ^ 32)
      (l : font.line_height < 2 ^ 32) where
    pub parse_32 :
        is_32bit out ≡ ok true
        → read_vec 10 glyph_at true out 0 ≡ ok (font.glyphs, 16)
        → read_vec 8 char_def_at true out 20 ≡ ok (font.codepoints, 36)
        → read_vec 12 kerning_at true out 44 ≡ ok (font.kernings, 60)
        → font.ukn_bool < 256
        → d < 2 ^ 32
        → d ≤ length out
        → c_string (drop d out) ≡ font.name
        → parse out ≡ ok font
    unfolding parse
    parse_32 kind g c k flag near inside named =
        rw
          (
            kind,
            g,
            unused_read 16 (omega arith),
            c,
            unused_read 36 (omega arith),
            unused_read 40 (omega arith),
            k,
            flag_read flag,
            unused_read 64 (omega arith),
            name_read near,
            le→leb d (length out) inside,
            size_word,
            width_word,
            height_word,
            ukn5_word,
            line_word,
            last_read,
            named,
          )
          refl
      where
        size_word : read_val 4 out 72 ≡ ok (font.size, 76)
        size_word = number 72 font.size (omega arith) size_bytes s

        width_word : read_val 4 out 76 ≡ ok (font.texture_width, 80)
        width_word = number 76 font.texture_width (omega arith) width_bytes w

        height_word : read_val 4 out 80 ≡ ok (font.texture_height, 84)
        height_word = number 80 font.texture_height (omega arith) height_bytes h

        ukn5_word : read_val 4 out 84 ≡ ok (font.ukn5, 88)
        ukn5_word = number 84 font.ukn5 (omega arith) ukn5_bytes u

        line_word : read_val 4 out 88 ≡ ok (font.line_height, 92)
        line_word = number 88 font.line_height (omega arith) line_bytes l
