-- ===== src/ScriptData/Back/Words.antt =====
-- Words and vectors that stand somewhere in a file, as src/scriptdata/ScriptData.cpp reads them.
use raid_super_blt.Base.{
  ℕ, ◌+◌, ◌%◌, ◌^◌, ◌<◌, ◌≡◌, ◌≢◌, refl, sym, ap, ◌∙◌, Bool, true, false, some, List, [], ◌∷◌, ◌++◌,
  append_assoc, length, length-append, le_bytes, length-le_bytes, read_le?, read_le?-append, All,
  ◌==◌, arith,
}
use raid_super_blt.ScriptData.Writing.{pointer_size}
use raid_super_blt.ScriptData.Written.Layout.{ptr, vec_bytes}
use raid_super_blt.ScriptData.Reading.{raw_vec, pair_at, c_string?}

pub pointer_fits : (b : Bool) (v : ℕ) → v < 2 ^ 32 → v < 256 ^ pointer_size b
pointer_fits true v h = omega arith
pointer_fits false v h = omega arith

module _ (file : List ℕ) where
  -- The file is cut between the parts of what stands behind `x`.
  pub cut : (x a r y : List ℕ) → file ≡ x ++ ((a ++ r) ++ y) → file ≡ (x ++ a) ++ (r ++ y)
  cut x a r y e = e ∙ (ap (λ t. x ++ t) (append_assoc a r y) ∙ sym (append_assoc x a (r ++ y)))

  pub first_part : (x a r y : List ℕ) → file ≡ x ++ ((a ++ r) ++ y) → file ≡ x ++ (a ++ (r ++ y))
  first_part x a r y e = e ∙ ap (λ t. x ++ t) (append_assoc a r y)

  pub word :
      (pos n v : ℕ) (x y : List ℕ)
      → file ≡ x ++ (le_bytes n v ++ y)
      → pos ≡ length x
      → v < 256 ^ n
      → read_le? pos n file ≡ some v
  word pos n v x y e at fits =
      ap (λ t. read_le? t n file) at
      ∙ (ap (λ t. read_le? (length x) n t) e ∙ read_le?-append x y n v fits)

  pub pair :
      (pos v u : ℕ) (x r y : List ℕ)
      → file ≡ x ++ ((le_bytes 4 v ++ (le_bytes 4 u ++ r)) ++ y)
      → pos ≡ length x
      → v < 2 ^ 32
      → u < 2 ^ 32
      → pair_at file pos ≡ some (v, u)
  unfolding pair_at
  pair pos v u x r y e at hv hu =
      let later = cut x (le_bytes 4 v) (le_bytes 4 u ++ r) y e in
      rw
        (
          pair_at,
          word pos 4 v x _ (first_part x (le_bytes 4 v) (le_bytes 4 u ++ r) y e) at (omega arith),
          word (pos + 4) 4 u (x ++ le_bytes 4 v) _
              (first_part (x ++ le_bytes 4 v) (le_bytes 4 u) r y later)
              (omega (arith, length-append x (le_bytes 4 v), length-le_bytes 4 v)) (omega arith),
        )
        refl

  pub vector_words :
      (b : Bool) (num ref : ℕ → ℕ) (pos count address : ℕ) (x y : List ℕ)
      → file ≡ x ++ (vec_bytes b num ref count address ++ y)
      → pos ≡ length x
      → count < 2 ^ 32
      → address < 2 ^ 32
      → raw_vec b file pos ≡ some (record { count = count; offset = address })
  unfolding raw_vec vec_bytes
  vector_words b num ref pos count address x y e at hc ha =
      let size = le_bytes 4 (count % 2 ^ 32) in
      let p = ptr b num ref address in
      let z = ptr b num ref 0 in
      let whole : count % 2 ^ 32 ≡ count = omega arith in
      let e2 = cut x size (size ++ (p ++ z)) y e in
      let e3 = cut (x ++ size) size (p ++ z) y e2 in
      rw
        (
          raw_vec,
          word pos 4 (count % 2 ^ 32) x _ (first_part x size (size ++ (p ++ z)) y e) at
              (omega arith),
          word (pos + 8) (pointer_size b) address ((x ++ size) ++ size) _
              (first_part ((x ++ size) ++ size) p z y e3)
              (omega (
                arith,
                length-append (x ++ size) size,
                length-append x size,
                length-le_bytes 4 (count % 2 ^ 32),
              ))
              (pointer_fits b address ha),
          whole,
        )
        refl

pub c_string?-append :
    (val rest : List ℕ) → All (λ c. c ≢ 0) val → c_string? ((val ++ 0 ∷ []) ++ rest) ≡ some val
unfolding c_string?
c_string?-append [] rest h = refl
c_string?-append (c ∷ val) rest h =
    let nonzero : (c == 0) ≡ false = ground (arith, h.0) in
    rw (nonzero, c_string?-append val rest h.1) refl
