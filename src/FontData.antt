-- ===== src/FontData.antt =====
-- src/scriptdata/FontData.cpp and src/scriptdata/FormatTools.cpp: the game's fonts, read from and
-- written to files for 32-bit and 64-bit games.
pub mod Detection
pub mod Elements
pub mod RoundTrip
pub mod Written
pub mod Exported
mod Tests
use raid_super_blt.Base.{
  ℕ, ◌+◌, ◌%◌, ◌^◌, Bool, ◌&&◌, Option, none, some, List, [], ◌∷◌, ◌++◌, length, drop, flatten, map,
  ltb, leb, ◌==◌, if◌then◌else◌, slice?, read_le?, le_bytes,
}
use raid_super_blt.Outcome.{Outcome, ok, aborts, throws, undefined, require, value_or, ◌>>=◌, ◌>>◌}
use raid_super_blt.Diesel.Contents.{write_at}
use raid_super_blt.Diesel.Vectors.{elements}

-- `kerning` and `char_def`; a `glyph` is its ten bytes.
pub record Kerning : Type 0 where
  pub val1 : ℕ
  pub val2 : ℕ
  pub ukn : List ℕ

pub record CharDef : Type 0 where
  pub codepoint : ℕ
  pub id : ℕ

-- `FontData`
pub record FontData : Type 0 where
  pub glyphs : List (List ℕ)
  pub codepoints : List CharDef
  pub kernings : List Kerning
  pub ukn_bool : ℕ
  pub name : List ℕ
  pub size : ℕ
  pub texture_width : ℕ
  pub texture_height : ℕ
  pub ukn5 : ℕ
  pub line_height : ℕ

-- `read<T>` of a number of `width` bytes: the number, and the offset behind it.
read_val : ℕ → List ℕ → ℕ → Outcome (ℕ × ℕ)
read_val width bytes offset = do
  require (leb (offset + width) (length bytes)) aborts
  v ← value_or (read_le? offset width bytes) undefined
  ok (v, offset + width)

-- The size of a pointer in the file.
abbrev ptr_size : Bool → ℕ
ptr_size is_32bit = if is_32bit then 4 else 8

-- `readPtr`, whose result is cut to 32 bits.
pub read_ptr : Bool → List ℕ → ℕ → Outcome (ℕ × ℕ)
read_ptr is_32bit bytes offset = do
  (v, next) ← read_val (ptr_size is_32bit) bytes offset
  ok (v % 2 ^ 32, next)

-- `readVec`: the elements, copied from where the pointer leads in the buffer, which ends in a
-- zero byte; a negative size cannot be resized to.
pub read_vec {ℓ} :
    {A : Type ℓ} → ℕ → (List ℕ → ℕ → Option A) → Bool → List ℕ → ℕ → Outcome (List A × ℕ)
read_vec width element_at is_32bit bytes offset = do
  (count, offset1) ← read_val 4 bytes offset
  (capacity, offset2) ← read_val 4 bytes offset1
  (contents_offset, offset3) ← read_ptr is_32bit bytes offset2
  (allocator, offset4) ← read_ptr is_32bit bytes offset3
  require (ltb count (2 ^ 31)) throws
  out ← elements undefined width (element_at (bytes ++ 0 ∷ [])) count contents_offset
  ok (out, offset4)

pub glyph_at : List ℕ → ℕ → Option (List ℕ)
glyph_at bytes pos = slice? pos 10 bytes

pub char_def_at : List ℕ → ℕ → Option CharDef
char_def_at bytes pos = elim (read_le? pos 4 bytes) [
  | none ↦ none
  | some codepoint ↦ elim (read_le? (pos + 4) 4 bytes) [
    | none ↦ none
    | some id ↦ some (record { codepoint = codepoint; id = id })
  ]
]

pub kerning_at : List ℕ → ℕ → Option Kerning
kerning_at bytes pos = elim (char_def_at bytes pos) [
  | none ↦ none
  | some c ↦ elim (slice? (pos + 8) 4 bytes) [
    | none ↦ none
    | some ukn ↦ some (record { val1 = c.codepoint; val2 = c.id; ukn = ukn })
  ]
]

-- A C string: the bytes before the first zero.
unfoldable pub c_string : List ℕ → List ℕ
c_string [] = []
c_string (c ∷ cs) = if c == 0 then [] else c ∷ c_string cs

-- `ints[i]` of is32bit
int_at : List ℕ → ℕ → Outcome ℕ
int_at bytes i = value_or (read_le? i 4 bytes) undefined

-- `is32bit`: whether two pairs of words are the same, where a 32-bit file has the sizes and
-- capacities of the glyphs and of the code points.
pub is_32bit : List ℕ → Outcome Bool
is_32bit bytes = do
  require (leb 50 (length bytes)) aborts
  w0 ← int_at bytes 0
  w1 ← int_at bytes 4
  w5 ← int_at bytes 20
  w6 ← int_at bytes 24
  ok ((w0 == w5) && (w1 == w6))

-- The constructor, which reads a file.
pub parse : List ℕ → Outcome FontData
parse bytes = do
  b ← is_32bit bytes
  (glyphs, o1) ← read_vec 10 glyph_at b bytes 0
  (unused1, o2) ← read_ptr b bytes o1
  (codepoints, o3) ← read_vec 8 char_def_at b bytes o2
  (unused2, o4) ← read_ptr b bytes o3
  (unused3, o5) ← read_ptr b bytes o4
  (kernings, o6) ← read_vec 12 kerning_at b bytes o5
  (ukn_bool, o7) ← read_val 1 bytes o6
  let o8 = o7 + (if b then 3 else 7)
  (allocator, o9) ← read_ptr b bytes o8
  (name_ptr, o10) ← read_ptr b bytes o9
  require (leb name_ptr (length bytes)) undefined
  (size, o11) ← read_val 4 bytes o10
  (texture_width, o12) ← read_val 4 bytes o11
  (texture_height, o13) ← read_val 4 bytes o12
  (ukn5, o14) ← read_val 4 bytes o13
  (line_height, o15) ← read_val 4 bytes o14
  (unused4, o16) ← read_val 4 bytes o15
  require (o16 == (if b then 96 else 144)) aborts
  ok (record {
    glyphs = glyphs;
    codepoints = codepoints;
    kernings = kernings;
    ukn_bool = ukn_bool;
    name = c_string (drop name_ptr bytes);
    size = size;
    texture_width = texture_width;
    texture_height = texture_height;
    ukn5 = ukn5;
    line_height = line_height;
  })

-- `write_to_block` of a uint32_t, and `writePtr`, at the end of a block.
abbrev put32 : ℕ → List ℕ → List ℕ
put32 v block = block ++ le_bytes 4 v

abbrev put_ptr : Bool → ℕ → List ℕ → List ℕ
put_ptr is_32bit v block = block ++ le_bytes (ptr_size is_32bit) v

abbrev replaced_later : ℕ
replaced_later = 0xDEC0EDFE

abbrev unused : ℕ
unused = 0xEFBEADDE

-- `write_vec`: the size twice, the pointer, whose place is the second result, and an unused one.
write_vec : Bool → ℕ → List ℕ → List ℕ × ℕ
write_vec is_32bit count block =
    let sized = put32 (count % 2 ^ 32) (put32 (count % 2 ^ 32) block) in
    (put_ptr is_32bit unused (put_ptr is_32bit replaced_later sized), length sized)

-- The main block with the places of its four pointers.
pub record MainBlock : Type 0 where
  pub bytes : List ℕ
  pub glyphs_p : ℕ
  pub codepoints_p : ℕ
  pub kernings_p : ℕ
  pub name_p : ℕ

pub write_main : FontData → Bool → MainBlock
write_main font is_32bit =
    let (b1, glyphs_p) = write_vec is_32bit (length font.glyphs) [] in
    let b2 = put_ptr is_32bit unused b1 in
    let (b3, codepoints_p) = write_vec is_32bit (length font.codepoints) b2 in
    let b4 = put_ptr is_32bit unused (put_ptr is_32bit unused b3) in
    let (b5, kernings_p) = write_vec is_32bit (length font.kernings) b4 in
    let b6 = b5 ++ le_bytes 1 font.ukn_bool in
    let b7 = b6 ++ le_bytes (if is_32bit then 3 else 7) 0 in
    let b8 = put_ptr is_32bit unused b7 in
    let b9 = put_ptr is_32bit replaced_later b8 in
    let b10 = put32 font.texture_height (put32 font.texture_width (put32 font.size b9)) in
    let b11 = put32 unused (put32 font.line_height (put32 font.ukn5 b10)) in
    record {
      bytes = b11;
      glyphs_p = glyphs_p;
      codepoints_p = codepoints_p;
      kernings_p = kernings_p;
      name_p = length b8;
    }

pub glyphs_block : FontData → List ℕ
glyphs_block font = flatten font.glyphs

pub codepoints_block : FontData → List ℕ
codepoints_block font =
    flatten (map (λ c. le_bytes 4 c.codepoint ++ le_bytes 4 c.id) font.codepoints)

pub kernings_block : FontData → List ℕ
kernings_block font =
    flatten (map (λ k. le_bytes 4 k.val1 ++ (le_bytes 4 k.val2 ++ k.ukn)) font.kernings)

-- `seek` on the written main block, and `writePtr` of the offset of another block.
pub link_block : Bool → ℕ → ℕ → List ℕ → List ℕ
link_block is_32bit at offset out = write_at out at (le_bytes (ptr_size is_32bit) (offset % 2 ^ 32))

-- `Export`
pub export : FontData → Bool → Outcome (List ℕ)
export font is_32bit = do
  let main = write_main font is_32bit
  require (length main.bytes == (if is_32bit then 96 else 144)) aborts
  let out1 = main.bytes ++ glyphs_block font
  let out2 = out1 ++ codepoints_block font
  let out3 = out2 ++ kernings_block font
  let out4 = out3 ++ (font.name ++ 0 ∷ [])
  let out5 = link_block is_32bit main.glyphs_p (length main.bytes) out4
  let out6 = link_block is_32bit main.codepoints_p (length out1) out5
  let out7 = link_block is_32bit main.kernings_p (length out2) out6
  ok (link_block is_32bit main.name_p (length out3) out7)
