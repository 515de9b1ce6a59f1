-- ===== src/FontData/Elements.antt =====
-- The vectors of src/scriptdata/FontData.cpp, written and read back.
use raid_super_blt.Base.{
  ℕ, ◌+◌, ◌^◌, ◌<◌, ◌≡◌, refl, sym, ap, ◌∙◌, subst, Option, some, List, [], ◌∷◌, ◌++◌, append_assoc,
  map, length, length-append, flatten, All, arith, le_bytes, length-le_bytes, slice?, slice?-append,
  read_le?, read_le?-append,
}
use raid_super_blt.Outcome.{Stop, ok}
use raid_super_blt.Diesel.Vectors.{elements}
use raid_super_blt.FontData.{CharDef, Kerning, glyph_at, char_def_at, kerning_at}

module _ {A : Type 0} (fails : Stop) (width : ℕ) (read_at : List ℕ → ℕ → Option A)
    (enc : A → List ℕ) (P : A → Type 0) (sized : (x : A) → P x → length (enc x) ≡ width)
    (reads : (x : A) (before after : List ℕ)
      → P x
      → read_at (before ++ (enc x ++ after)) (length before) ≡ some x) where
  pub elements-flatten :
      (xs : List A) (before after : List ℕ)
      → All P xs
      → elements fails width
          (read_at (before ++ (flatten (map enc xs) ++ after)))
          (length xs)
          (length before)
        ≡ ok xs
  unfolding elements
  elements-flatten [] before after valid = refl
  elements-flatten (x ∷ xs) before after valid =
      let rest = flatten (map enc xs) ++ after in
      let inner = ap (λ t. before ++ t) (append_assoc (enc x) (flatten (map enc xs)) after) in
      let outer = sym (append_assoc before (enc x) rest) in
      let at : length (before ++ enc x) ≡ length before + width =
        length-append before (enc x) ∙ ap (λ n. length before + n) (sized x valid.0) in
      let later =
        subst
          (λ n.
            elements fails width (read_at (before ++ ((enc x ++ flatten (map enc xs)) ++ after)))
              (length xs) n
            ≡ ok xs)
          at
          (subst
            (λ t. elements fails width (read_at t) (length xs) (length (before ++ enc x)) ≡ ok xs)
            (sym (inner ∙ outer)) (elements-flatten xs (before ++ enc x) after valid.1)) in
      let first =
        subst (λ t. read_at t (length before) ≡ some x) (sym inner) (reads x before rest valid.0) in
      rw (first, later) refl

-- The bytes of the elements.
abbrev pub char_def_bytes : CharDef → List ℕ
char_def_bytes c = le_bytes 4 c.codepoint ++ le_bytes 4 c.id

abbrev pub kerning_bytes : Kerning → List ℕ
kerning_bytes k = le_bytes 4 k.val1 ++ (le_bytes 4 k.val2 ++ k.ukn)

abbrev pub IsCharDef : CharDef → Type 0
IsCharDef c = (c.codepoint < 2 ^ 32) × (c.id < 2 ^ 32)

abbrev pub IsKerning : Kerning → Type 0
IsKerning k = (k.val1 < 2 ^ 32) × (k.val2 < 2 ^ 32) × (length k.ukn ≡ 4)

pub glyph_reads :
    (g before after : List ℕ)
    → length g ≡ 10
    → glyph_at (before ++ (g ++ after)) (length before) ≡ some g
unfolding glyph_at
glyph_reads g before after e =
    subst (λ n. slice? (length before) n (before ++ (g ++ after)) ≡ some g) e
      (slice?-append before g after)

two_words :
    (v w : ℕ) (before after : List ℕ)
    → v < 2 ^ 32
    → w < 2 ^ 32
    → char_def_at (before ++ (le_bytes 4 v ++ (le_bytes 4 w ++ after))) (length before)
      ≡ some (record { codepoint = v; id = w })
unfolding char_def_at
two_words v w before after hv hw =
    let second =
      subst (λ n. read_le? n 4 (before ++ (le_bytes 4 v ++ (le_bytes 4 w ++ after))) ≡ some w)
        (length-append before (le_bytes 4 v) ∙ ap (λ n. length before + n) (length-le_bytes 4 v))
        (subst (λ t. read_le? (length (before ++ le_bytes 4 v)) 4 t ≡ some w)
          (append_assoc before (le_bytes 4 v) (le_bytes 4 w ++ after))
          (read_le?-append (before ++ le_bytes 4 v) after 4 w hw)) in
    rw (char_def_at, read_le?-append before (le_bytes 4 w ++ after) 4 v hv, second) refl

pub char_def_reads :
    (c : CharDef) (before after : List ℕ)
    → IsCharDef c
    → char_def_at (before ++ (char_def_bytes c ++ after)) (length before) ≡ some c
char_def_reads c before after (hv, hw) =
    ap (λ t. char_def_at (before ++ t) (length before))
      (append_assoc (le_bytes 4 c.codepoint) (le_bytes 4 c.id) after)
    ∙ two_words c.codepoint c.id before after hv hw

pub kerning_reads :
    (k : Kerning) (before after : List ℕ)
    → IsKerning k
    → kerning_at (before ++ (kerning_bytes k ++ after)) (length before) ≡ some k
unfolding kerning_at
kerning_reads k before after (hv, hw, hu) =
    let v = le_bytes 4 k.val1 in
    let w = le_bytes 4 k.val2 in
    let flat = append_assoc v (w ++ k.ukn) after ∙ ap (λ t. v ++ t) (append_assoc w k.ukn after) in
    let words =
      ap (λ t. char_def_at (before ++ t) (length before)) flat
      ∙ two_words k.val1 k.val2 before (k.ukn ++ after) hv hw in
    let head = before ++ (v ++ w) in
    let at : length head ≡ length before + 8 = omega (
      arith,
      length-append before (v ++ w),
      length-append v w,
      length-le_bytes 4 k.val1,
      length-le_bytes 4 k.val2,
    ) in
    let behind : head ++ (k.ukn ++ after) ≡ before ++ (kerning_bytes k ++ after) =
      append_assoc before (v ++ w) (k.ukn ++ after)
      ∙ ap (λ t. before ++ t) (append_assoc v w (k.ukn ++ after) ∙ sym flat) in
    let ukn =
      subst (λ n. slice? (length before + 8) n (before ++ (kerning_bytes k ++ after)) ≡ some k.ukn)
        hu
        (subst (λ n. slice? n (length k.ukn) (before ++ (kerning_bytes k ++ after)) ≡ some k.ukn) at
          (subst (λ t. slice? (length head) (length k.ukn) t ≡ some k.ukn) behind
            (slice?-append head k.ukn after))) in
    rw (kerning_at, words, ukn) refl
