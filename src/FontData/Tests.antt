-- ===== src/FontData/Tests.antt =====
-- A font of one glyph, written by src/scriptdata/FontData.cpp.
use raid_super_blt.Base.{refl, arith, ◌≡◌, true, [], ◌∷◌}
use raid_super_blt.Outcome.{ok, ◌>>=◌}
use raid_super_blt.FontData.{FontData, export, parse, is_32bit}
use raid_super_blt.FontData.Detection.{export-is_32bit}
use raid_super_blt.FontData.Exported.{parse-export}

abbrev font : FontData
font = record {
  glyphs = (0 ∷ 1 ∷ 2 ∷ 3 ∷ 4 ∷ 5 ∷ 6 ∷ 7 ∷ 8 ∷ 9 ∷ []) ∷ [];
  codepoints = record { codepoint = 65; id = 0 } ∷ [];
  kernings = [];
  ukn_bool = 1;
  name = 102 ∷ 111 ∷ 110 ∷ 116 ∷ [];
  size = 12;
  texture_width = 64;
  texture_height = 64;
  ukn5 = 0;
  line_height = 14;
}

export-is_32bit_example : (export font true >>= is_32bit) ≡ ok true
export-is_32bit_example = export-is_32bit font true

parse-export_example : (export font true >>= parse) ≡ ok font
parse-export_example =
    parse-export font
      (record {
        glyphs_fit = (refl, tt);
        codepoints_fit = omega arith;
        kernings_fit = tt;
        flag_fits = omega arith;
        name_fits = (
          (λ e. absurd (omega arith)),
          (
            (λ e. absurd (omega arith)),
            ((λ e. absurd (omega arith)), ((λ e. absurd (omega arith)), tt)),
          ),
        );
        size_fits = omega arith;
        width_fits = omega arith;
        height_fits = omega arith;
        ukn5_fits = omega arith;
        line_fits = omega arith;
        file_fits = omega arith;
      })
      refl
