-- ===== src/FontData/Detection.antt =====
-- How fonts that src/scriptdata/FontData.cpp writes are recognised when they are read.
use raid_super_blt.Base.{
  ℕ, ◌+◌, ◌%◌, ◌^◌, ◌≤◌, ◌≡◌, refl, ap, ◌∙◌, Bool, true, false, ◌&&◌, some, List, [], ◌∷◌, ◌++◌,
  length, take, drop, ◌==◌, arith, le_bytes, of_le, of_le-le_bytes, slice?, read_le?, le→leb,
}
use raid_super_blt.Outcome.{ok, ◌>>=◌}
use raid_super_blt.Diesel.Contents.{write_at}
use raid_super_blt.FontData.{
  FontData, export, is_32bit, write_main, write_vec, link_block, int_at, glyphs_block,
  codepoints_block, kernings_block,
}

-- A read within the bytes.
pub read_within :
    (i n : ℕ) (bytes word : List ℕ)
    → i + n ≤ length bytes
    → take n (drop i bytes) ≡ word
    → read_le? i n bytes ≡ some (of_le word)
unfolding read_le? slice?
read_within i n bytes word fits e =
    rw (le→leb (i + n) (length bytes) fits) (ap (λ t. some (of_le t)) e)

-- The four pointers, written over the placeholders.
abbrev linked32 : ℕ → ℕ → ℕ → ℕ → List ℕ → List ℕ
linked32 a b c d out =
    link_block true 68 d (link_block true 52 c (link_block true 28 b (link_block true 8 a out)))

module _ (font : FontData) (a b c d : ℕ) (tail : List ℕ) where
  unfoldable pub out32 : List ℕ
  out32 = linked32 a b c d ((write_main font true).bytes ++ tail)

  word_0 : take 4 (drop 0 out32) ≡ le_bytes 4 (length font.glyphs % 2 ^ 32)
  unfolding out32 write_main write_vec link_block write_at le_bytes
  word_0 = refl

  word_5 : take 4 (drop 20 out32) ≡ le_bytes 4 (length font.codepoints % 2 ^ 32)
  unfolding out32 write_main write_vec link_block write_at le_bytes
  word_5 = refl

  word_1 : take 4 (drop 4 out32) ≡ le_bytes 4 (length font.glyphs % 2 ^ 32)
  unfolding out32 write_main write_vec link_block write_at le_bytes
  word_1 = refl

  word_6 : take 4 (drop 24 out32) ≡ le_bytes 4 (length font.codepoints % 2 ^ 32)
  unfolding out32 write_main write_vec link_block write_at le_bytes
  word_6 = refl

  long_32 : 50 ≤ length out32
  unfolding out32 write_main write_vec link_block write_at le_bytes
  long_32 = omega arith

  abbrev out64 : List ℕ
  out64 = link_block false 112 d (
      link_block false 80 c
        (link_block false 40 b (link_block false 8 a ((write_main font false).bytes ++ tail))))

  long_64 : 50 ≤ length out64
  unfolding write_main write_vec link_block write_at le_bytes
  long_64 = omega arith

  word64_0 : take 4 (drop 0 out64) ≡ le_bytes 4 (length font.glyphs % 2 ^ 32)
  unfolding write_main write_vec link_block write_at le_bytes
  word64_0 = refl

  word64_1 : take 4 (drop 4 out64) ≡ le_bytes 4 (length font.glyphs % 2 ^ 32)
  unfolding write_main write_vec link_block write_at le_bytes
  word64_1 = refl

  word64_5 : take 4 (drop 20 out64) ≡ 0 ∷ 0 ∷ 0 ∷ 0 ∷ []
  unfolding write_main write_vec link_block write_at le_bytes
  word64_5 = refl

  word64_6 : take 4 (drop 24 out64) ≡ 0xDE ∷ 0xAD ∷ 0xBE ∷ 0xEF ∷ []
  unfolding write_main write_vec link_block write_at le_bytes
  word64_6 = refl

exported32 :
    (font : FontData)
    → (a b c d : ℕ) × (tail : List ℕ) × (export font true ≡ ok (out32 font a b c d tail))
unfolding export out32 write_main write_vec le_bytes
exported32 font =
    let g = (write_main font true).bytes ++ glyphs_block font in
    (
      length (write_main font true).bytes,
      length g,
      length (g ++ codepoints_block font),
      length ((g ++ codepoints_block font) ++ kernings_block font),
      ((glyphs_block font ++ codepoints_block font) ++ kernings_block font)
          ++ (font.name ++ 0 ∷ []),
      refl,
    )

exported64 :
    (font : FontData)
    → (a b c d : ℕ) × (tail : List ℕ) × (export font false ≡ ok (out64 font a b c d tail))
unfolding export write_main write_vec le_bytes
exported64 font =
    let g = (write_main font false).bytes ++ glyphs_block font in
    (
      length (write_main font false).bytes,
      length g,
      length (g ++ codepoints_block font),
      length ((g ++ codepoints_block font) ++ kernings_block font),
      ((glyphs_block font ++ codepoints_block font) ++ kernings_block font)
          ++ (font.name ++ 0 ∷ []),
      refl,
    )

-- The test on a file, from its four words.
detects :
    (bytes w0 w1 w5 w6 : List ℕ)
    → 50 ≤ length bytes
    → take 4 (drop 0 bytes) ≡ w0
    → take 4 (drop 4 bytes) ≡ w1
    → take 4 (drop 20 bytes) ≡ w5
    → take 4 (drop 24 bytes) ≡ w6
    → is_32bit bytes ≡ ok ((of_le w0 == of_le w5) && (of_le w1 == of_le w6))
unfolding is_32bit int_at
detects bytes w0 w1 w5 w6 long e0 e1 e5 e6 =
    rw
      (
        le→leb 50 (length bytes) long,
        read_within 0 4 bytes w0 (omega arith) e0,
        read_within 4 4 bytes w1 (omega arith) e1,
        read_within 20 4 bytes w5 (omega arith) e5,
        read_within 24 4 bytes w6 (omega arith) e6,
      )
      refl

fits_word : (n : ℕ) → of_le (le_bytes 4 (n % 2 ^ 32)) ≡ n % 2 ^ 32
fits_word n = of_le-le_bytes 4 (n % 2 ^ 32) (omega arith)

detects_32 :
    (font : FontData)
    → (export font true >>= is_32bit)
      ≡ ok (length font.glyphs % 2 ^ 32 == length font.codepoints % 2 ^ 32)
detects_32 font =
    let (a, b, c, d, tail, e) = exported32 font in
    let same = length font.glyphs % 2 ^ 32 == length font.codepoints % 2 ^ 32 in
    ap (λ m. m >>= is_32bit) e
    ∙ (detects (out32 font a b c d tail) _ _ _ _ (long_32 font a b c d tail)
          (word_0 font a b c d tail) (word_1 font a b c d tail) (word_5 font a b c d tail)
          (word_6 font a b c d tail)
        ∙ rw (fits_word (length font.glyphs), fits_word (length font.codepoints))
            (ap ok (both_same same)))
  where
    both_same : (x : Bool) → (x && x) ≡ x
    both_same x = ground arith

detects_64 : (font : FontData) → (export font false >>= is_32bit) ≡ ok false
unfolding of_le
detects_64 font =
    let (a, b, c, d, tail, e) = exported64 font in
    ap (λ m. m >>= is_32bit) e
    ∙ (detects (out64 font a b c d tail) _ _ _ _ (long_64 font a b c d tail)
          (word64_0 font a b c d tail) (word64_1 font a b c d tail) (word64_5 font a b c d tail)
          (word64_6 font a b c d tail)
        ∙ ap ok (apart (of_le (le_bytes 4 (length font.glyphs % 2 ^ 32)))))
  where
    apart : (n : ℕ) → ((n == 0) && (n == 0xEFBEADDE)) ≡ false
    apart n = ground arith

-- A font that is written is recognised by its word size, but for a 32-bit one whose glyphs and
-- code points differ in number, which is taken for a 64-bit file.
pub export-is_32bit :
    (font : FontData) (b : Bool)
    → (export font b >>= is_32bit)
      ≡ ok (b && (length font.glyphs % 2 ^ 32 == length font.codepoints % 2 ^ 32))
export-is_32bit font true = detects_32 font
export-is_32bit font false = detects_64 font
