-- ===== src/FontData/Exported.antt =====
-- What src/scriptdata/FontData.cpp writes for a 32-bit game is read back as the same font.
use raid_super_blt.Base.{
  ◌+◌, ◌*◌, ◌^◌, ◌<◌, ◌≡◌, ◌≢◌, sym, ap, ◌∙◌, true, ◌++◌, length, length-append, flatten, arith,
  All,
}
use raid_super_blt.Outcome.{ok, ◌>>=◌}
use raid_super_blt.FontData.{
  FontData, export, parse, is_32bit, glyphs_block, codepoints_block, kernings_block,
}
use raid_super_blt.FontData.Detection.{export-is_32bit}
use raid_super_blt.FontData.Elements.{char_def_bytes, kerning_bytes, IsCharDef, IsKerning}
use raid_super_blt.FontData.RoundTrip.{glyphs_read, codepoints_read, kernings_read, parse_32}
use raid_super_blt.FontData.Written.{
  map_self, length-flatten-map, char_def_size, kerning_size, main, main_size, codepoints_at,
  kernings_at, name_at, tail, written, exported, glyphs_elements, codepoints_elements,
  kernings_elements, name_found, name_within,
}

-- A font whose parts fit in the file: ten bytes for a glyph, four for the end of a kerning,
-- 32-bit numbers, and a name without a zero byte.
pub record IsFont (font : FontData) : Type 0 where
  pub glyphs_fit : All (λ g. length g ≡ 10) font.glyphs
  pub codepoints_fit : All IsCharDef font.codepoints
  pub kernings_fit : All IsKerning font.kernings
  pub flag_fits : font.ukn_bool < 256
  pub name_fits : All (λ c. c ≢ 0) font.name
  pub size_fits : font.size < 2 ^ 32
  pub width_fits : font.texture_width < 2 ^ 32
  pub height_fits : font.texture_height < 2 ^ 32
  pub ukn5_fits : font.ukn5 < 2 ^ 32
  pub line_fits : font.line_height < 2 ^ 32
  pub file_fits :
      96 + 10 * length font.glyphs + 8 * length font.codepoints + 12 * length font.kernings < 2 ^ 32

module _ (font : FontData) (i : IsFont font) where
  glyphs_size : length (glyphs_block font) ≡ 10 * length font.glyphs
  unfolding glyphs_block
  glyphs_size =
      ap (λ gs. length (flatten gs)) (sym (map_self font.glyphs))
      ∙ length-flatten-map 10 (λ g. g) (λ g. length g ≡ 10) (λ g e. e) font.glyphs i.glyphs_fit

  codepoints_size : length (codepoints_block font) ≡ 8 * length font.codepoints
  unfolding codepoints_block
  codepoints_size =
      length-flatten-map 8 char_def_bytes IsCharDef char_def_size font.codepoints i.codepoints_fit

  kernings_size : length (kernings_block font) ≡ 12 * length font.kernings
  unfolding kernings_block
  kernings_size =
      length-flatten-map 12 kerning_bytes IsKerning kerning_size font.kernings i.kernings_fit

  places_fit :
      (codepoints_at font ≡ 96 + 10 * length font.glyphs)
      × (kernings_at font ≡ 96 + 10 * length font.glyphs + 8 * length font.codepoints)
      × (name_at font
          ≡ 96 + 10 * length font.glyphs + 8 * length font.codepoints + 12 * length font.kernings)
  places_fit =
      let first : codepoints_at font ≡ 96 + 10 * length font.glyphs =
        length-append (main font) (glyphs_block font)
        ∙ omega (arith, main_size font, glyphs_size) in
      let second : kernings_at font ≡ 96 + 10 * length font.glyphs + 8 * length font.codepoints =
        length-append (main font ++ glyphs_block font) (codepoints_block font)
        ∙ omega (arith, first, codepoints_size) in
      (
        first,
        second,
        length-append ((main font ++ glyphs_block font) ++ codepoints_block font)
              (kernings_block font)
            ∙ omega (arith, second, kernings_size),
      )

  module _ (counts : length font.glyphs ≡ length font.codepoints) where
    kind : is_32bit (written font) ≡ ok true
    kind =
        sym (ap (λ m. m >>= is_32bit) (exported font))
        ∙ (export-is_32bit font true ∙ ap ok (ground (arith, counts)))

    parse-written : parse (written font) ≡ ok font
    parse-written =
        let a = length (main font) in
        let b = codepoints_at font in
        let c = kernings_at font in
        let d = name_at font in
        parse_32 font a b c d (tail font) i.size_fits i.width_fits i.height_fits i.ukn5_fits
          i.line_fits kind
          (glyphs_read font a b c d (tail font) (omega (arith, i.file_fits))
            (omega (arith, main_size font)) (glyphs_elements font i.glyphs_fit))
          (codepoints_read font a b c d (tail font) (omega (arith, i.file_fits))
            (omega (arith, i.file_fits, places_fit.0)) (codepoints_elements font i.codepoints_fit))
          (kernings_read font a b c d (tail font) (omega (arith, i.file_fits))
            (omega (arith, i.file_fits, places_fit.1)) (kernings_elements font i.kernings_fit))
          i.flag_fits (omega (arith, i.file_fits, places_fit.2)) (name_within font)
          (name_found font i.name_fits)

-- A font that is written for a 32-bit game is read back unchanged, if it has as many glyphs as
-- code points, by which the reader knows the word size, and its parts fit in the file.
pub parse-export :
    (font : FontData)
    → IsFont font
    → length font.glyphs ≡ length font.codepoints
    → (export font true >>= parse) ≡ ok font
parse-export font i counts = ap (λ m. m >>= parse) (exported font) ∙ parse-written font i counts
