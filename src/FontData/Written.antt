-- ===== src/FontData/Written.antt =====
-- Fonts that src/scriptdata/FontData.cpp writes for 32-bit games are read back.
use raid_super_blt.Base.{
  ℕ, ◌+◌, ◌*◌, ◌≤◌, ◌≡◌, ◌≢◌, refl, sym, ap, ◌∙◌, subst, true, List, [], ◌∷◌, ◌++◌, append_assoc,
  map, length, length-append, take, drop, drop-append_length, flatten, arith, All, le_bytes,
}
use raid_super_blt.Outcome.{ok, undefined}
use raid_super_blt.Diesel.Contents.{write_at}
use raid_super_blt.Diesel.Vectors.{elements}
use raid_super_blt.FontData.{
  FontData, CharDef, Kerning, export, write_main, write_vec, link_block, glyphs_block,
  codepoints_block, kernings_block, glyph_at, char_def_at, kerning_at, c_string,
}
use raid_super_blt.FontData.Detection.{out32}
use raid_super_blt.FontData.Elements.{
  elements-flatten, glyph_reads, char_def_reads, kerning_reads, char_def_bytes, kerning_bytes,
  IsCharDef, IsKerning,
}
use raid_super_blt.FontData.RoundTrip.{in_front}

c_string-append : (name : List ℕ) → All (λ c. c ≢ 0) name → c_string (name ++ 0 ∷ []) ≡ name
unfolding c_string
c_string-append [] h = refl
c_string-append (c ∷ name) h = ground (arith, h.0, c_string-append name h.1)

pub map_self : (xs : List (List ℕ)) → map (λ g. g) xs ≡ xs
map_self [] = refl
map_self (x ∷ xs) = ap (λ t. x ∷ t) (map_self xs)

-- Four blocks behind a first one, as they are written and as they are read.
module _ (f g c k r : List ℕ) where
  from_second : f ++ (((g ++ c) ++ k) ++ r) ≡ f ++ (g ++ (c ++ (k ++ r)))
  from_second = ap (λ t. f ++ t) (append_assoc (g ++ c) k r ∙ append_assoc g c (k ++ r))

  from_third : f ++ (((g ++ c) ++ k) ++ r) ≡ (f ++ g) ++ (c ++ (k ++ r))
  from_third = from_second ∙ sym (append_assoc f g (c ++ (k ++ r)))

  from_fourth : f ++ (((g ++ c) ++ k) ++ r) ≡ ((f ++ g) ++ c) ++ (k ++ r)
  from_fourth = from_third ∙ sym (append_assoc (f ++ g) c (k ++ r))

  from_last : f ++ (((g ++ c) ++ k) ++ r) ≡ (((f ++ g) ++ c) ++ k) ++ r
  from_last = from_fourth ∙ sym (append_assoc ((f ++ g) ++ c) k r)

pub length-flatten-map :
    {A : Type 0} (width : ℕ) (enc : A → List ℕ) (P : A → Type 0)
    → ((x : A) → P x → length (enc x) ≡ width)
    → (xs : List A) → All P xs
    → length (flatten (map enc xs)) ≡ width * length xs
length-flatten-map width enc P sized [] valid = omega arith
length-flatten-map width enc P sized (x ∷ xs) valid =
    length-append (enc x) (flatten (map enc xs))
    ∙ omega (arith, sized x valid.0, length-flatten-map width enc P sized xs valid.1)

pub char_def_size : (c : CharDef) → IsCharDef c → length (char_def_bytes c) ≡ 8
unfolding le_bytes
char_def_size c fits = refl

pub kerning_size : (k : Kerning) → IsKerning k → length (kerning_bytes k) ≡ 12
unfolding le_bytes
kerning_size k fits = omega (arith, fits.2)

module _ (font : FontData) where
  pub main_size : length (write_main font true).bytes ≡ 96
  unfolding write_main write_vec le_bytes
  main_size = refl

  abbrev pub main : List ℕ
  main = (write_main font true).bytes

  abbrev pub codepoints_at : ℕ
  codepoints_at = length (main ++ glyphs_block font)

  abbrev pub kernings_at : ℕ
  kernings_at = length ((main ++ glyphs_block font) ++ codepoints_block font)

  abbrev pub name_at : ℕ
  name_at = length (((main ++ glyphs_block font) ++ codepoints_block font) ++ kernings_block font)

  abbrev pub tail : List ℕ
  tail =
      ((glyphs_block font ++ codepoints_block font) ++ kernings_block font) ++ (font.name ++ 0 ∷ [])

  abbrev pub written : List ℕ
  written = out32 font (length main) codepoints_at kernings_at name_at tail

  pub exported : export font true ≡ ok written
  unfolding export out32 write_main write_vec le_bytes
  exported = refl

  abbrev front : List ℕ
  front = take 96 written

  front_size : length front ≡ 96
  unfolding out32 write_main write_vec link_block write_at le_bytes
  front_size = refl

  same_lengths :
      (length (front ++ glyphs_block font) ≡ codepoints_at)
      × (length ((front ++ glyphs_block font) ++ codepoints_block font) ≡ kernings_at)
      × (length (((front ++ glyphs_block font) ++ codepoints_block font) ++ kernings_block font)
          ≡ name_at)
  same_lengths =
      let first =
        length-append front (glyphs_block font)
        ∙ (ap (λ n. n + length (glyphs_block font)) (front_size ∙ sym main_size)
            ∙ sym (length-append main (glyphs_block font))) in
      let second =
        length-append (front ++ glyphs_block font) (codepoints_block font)
        ∙ (ap (λ n. n + length (codepoints_block font)) first
            ∙ sym (length-append (main ++ glyphs_block font) (codepoints_block font))) in
      (
        first,
        second,
        length-append ((front ++ glyphs_block font) ++ codepoints_block font) (kernings_block font)
            ∙ (ap (λ n. n + length (kernings_block font)) second
                ∙ sym (
                    length-append ((main ++ glyphs_block font) ++ codepoints_block font)
                      (kernings_block font))),
      )

  abbrev behind : List ℕ
  behind = (font.name ++ 0 ∷ []) ++ 0 ∷ []

  -- The buffer, block by block.
  buffer :
      written ++ 0 ∷ []
      ≡ front ++ (((glyphs_block font ++ codepoints_block font) ++ kernings_block font) ++ behind)
  buffer =
      ap (λ t. t ++ 0 ∷ [])
        (sym (in_front font (length main) codepoints_at kernings_at name_at tail))
      ∙ (append_assoc front tail (0 ∷ [])
          ∙ ap (λ t. front ++ t)
              (append_assoc ((glyphs_block font ++ codepoints_block font) ++ kernings_block font)
                (font.name ++ 0 ∷ []) (0 ∷ [])))

  pub glyphs_elements :
      All (λ g. length g ≡ 10) font.glyphs
      → elements undefined 10 (glyph_at (written ++ 0 ∷ [])) (length font.glyphs) (length main)
        ≡ ok font.glyphs
  unfolding glyphs_block
  glyphs_elements valid =
      subst
        (λ n.
          elements undefined 10 (glyph_at (written ++ 0 ∷ [])) (length font.glyphs) n
          ≡ ok font.glyphs)
        (front_size ∙ sym main_size)
        (subst
          (λ t.
            elements undefined 10 (glyph_at t) (length font.glyphs) (length front) ≡ ok font.glyphs)
          (ap
              (λ gs.
                front ++ (flatten gs ++ (codepoints_block font ++ (kernings_block font ++ behind))))
              (map_self font.glyphs)
            ∙ sym (
                buffer
                ∙ from_second front (glyphs_block font) (codepoints_block font)
                    (kernings_block font) behind))
          (elements-flatten undefined 10 glyph_at (λ g. g) (λ g. length g ≡ 10) (λ g e. e)
            (λ g before after e. glyph_reads g before after e) font.glyphs front
            (codepoints_block font ++ (kernings_block font ++ behind)) valid))

  pub codepoints_elements :
      All IsCharDef font.codepoints
      → elements undefined 8
          (char_def_at (written ++ 0 ∷ []))
          (length font.codepoints)
          codepoints_at
        ≡ ok font.codepoints
  unfolding codepoints_block
  codepoints_elements valid =
      subst
        (λ n.
          elements undefined 8 (char_def_at (written ++ 0 ∷ [])) (length font.codepoints) n
          ≡ ok font.codepoints)
        same_lengths.0
        (subst
          (λ t.
            elements undefined 8 (char_def_at t) (length font.codepoints)
              (length (front ++ glyphs_block font))
            ≡ ok font.codepoints)
          (sym (
            buffer
            ∙ from_third front (glyphs_block font) (codepoints_block font) (kernings_block font)
                behind))
          (elements-flatten undefined 8 char_def_at char_def_bytes IsCharDef char_def_size
            (λ c before after e. char_def_reads c before after e) font.codepoints
            (front ++ glyphs_block font) (kernings_block font ++ behind) valid))

  pub kernings_elements :
      All IsKerning font.kernings
      → elements undefined 12 (kerning_at (written ++ 0 ∷ [])) (length font.kernings) kernings_at
        ≡ ok font.kernings
  unfolding kernings_block
  kernings_elements valid =
      let before = (front ++ glyphs_block font) ++ codepoints_block font in
      subst
        (λ n.
          elements undefined 12 (kerning_at (written ++ 0 ∷ [])) (length font.kernings) n
          ≡ ok font.kernings)
        same_lengths.1
        (subst
          (λ t.
            elements undefined 12 (kerning_at t) (length font.kernings) (length before)
            ≡ ok font.kernings)
          (sym (
            buffer
            ∙ from_fourth front (glyphs_block font) (codepoints_block font) (kernings_block font)
                behind))
          (elements-flatten undefined 12 kerning_at kerning_bytes IsKerning kerning_size
            (λ k before after e. kerning_reads k before after e) font.kernings before behind valid))

  pub name_found : All (λ c. c ≢ 0) font.name → c_string (drop name_at written) ≡ font.name
  name_found valid =
      let before = ((front ++ glyphs_block font) ++ codepoints_block font) ++ kernings_block font in
      let whole : written ≡ before ++ (font.name ++ 0 ∷ []) =
        sym (in_front font (length main) codepoints_at kernings_at name_at tail)
        ∙ from_last front (glyphs_block font) (codepoints_block font) (kernings_block font)
            (font.name ++ 0 ∷ []) in
      ap (λ t. c_string (drop name_at t)) whole
      ∙ (ap (λ n. c_string (drop n (before ++ (font.name ++ 0 ∷ [])))) (sym same_lengths.2)
          ∙ (ap c_string (drop-append_length before (font.name ++ 0 ∷ []))
              ∙ c_string-append font.name valid))

  pub name_within : name_at ≤ length written
  name_within =
      let before = ((front ++ glyphs_block font) ++ codepoints_block font) ++ kernings_block font in
      let whole : written ≡ before ++ (font.name ++ 0 ∷ []) =
        sym (in_front font (length main) codepoints_at kernings_at name_at tail)
        ∙ from_last front (glyphs_block font) (codepoints_block font) (kernings_block font)
            (font.name ++ 0 ∷ []) in
      omega (arith, ap length whole, length-append before (font.name ++ 0 ∷ []), same_lengths.2)
