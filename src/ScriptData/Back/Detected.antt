-- ===== src/ScriptData/Back/Detected.antt =====
-- How `determine_is_32bit` of src/scriptdata/ScriptData.cpp takes a file that has the header of a
-- written one.
use raid_super_blt.Base.{
  ℕ, suc, ◌+◌, ◌*◌, ◌%◌, ◌^◌, ◌≤◌, ◌<◌, ◌≡◌, refl, sym, ap, ◌∙◌, inl, inr, Bool, true, false, List,
  [], ◌∷◌, ◌++◌, length, take, drop, ltb, ltb→lt, ◌==◌, le_bytes, of_le, of_le-le_bytes, Bool-cases,
  arith,
}
use raid_super_blt.Outcome.{ok}
use raid_super_blt.ScriptData.{Item}
use raid_super_blt.FontData.Detection.{read_within}
use raid_super_blt.ScriptData.Written.Layout.{ptr, vec_bytes, header, own_blocks}
use raid_super_blt.ScriptData.Reading.{word_at, any_nonzero, allocator_places, determine_is_32bit}

int_within :
    (bytes word : List ℕ) (i : ℕ)
    → 4 * i + 4 ≤ length bytes
    → take 4 (drop (4 * i) bytes) ≡ word
    → word_at bytes i ≡ ok (of_le word)
unfolding word_at
int_within bytes word i fits e = rw (read_within (4 * i) 4 bytes word fits e) refl

-- A file that the words decide about.
long_or_not :
    (bytes : List ℕ) (b : Bool)
    → (length bytes < 152 → b ≡ true)
    → any_nonzero bytes allocator_places ≡ ok b
    → determine_is_32bit bytes ≡ ok b
unfolding determine_is_32bit
long_or_not bytes b short long = elim (Bool-cases (ltb (length bytes) 152)) [
  | inl e ↦ rw (determine_is_32bit, e) (ap ok (sym (short (ltb→lt (length bytes) 152 e))))
  | inr e ↦ rw (determine_is_32bit, e) long
]

module _ (num ref f : ℕ → ℕ) (n : ℕ) (g3 g4 g5 g6 g7 g8 : List Item) (e rest : List ℕ) where
  abbrev file : Bool → List ℕ
  file b =
      (ptr b num ref 0 ++ (header b num ref f n (g3 ∷ g4 ∷ g5 ∷ g6 ∷ g7 ∷ g8 ∷ []) ++ e)) ++ rest

  zero_word : List ℕ
  zero_word = 0 ∷ 0 ∷ 0 ∷ 0 ∷ []

  long_64 : 152 ≤ length (file false)
  unfolding header vec_bytes le_bytes
  long_64 = omega arith

  zero_64 :
      (take 4 (drop 0 (file false)) ≡ zero_word)
      × (take 4 (drop 4 (file false)) ≡ zero_word)
      × (take 4 (drop 24 (file false)) ≡ zero_word)
      × (take 4 (drop 28 (file false)) ≡ zero_word)
      × (take 4 (drop 48 (file false)) ≡ zero_word)
      × (take 4 (drop 52 (file false)) ≡ zero_word)
      × (take 4 (drop 72 (file false)) ≡ zero_word)
      × (take 4 (drop 76 (file false)) ≡ zero_word)
      × (take 4 (drop 96 (file false)) ≡ zero_word)
      × (take 4 (drop 100 (file false)) ≡ zero_word)
      × (take 4 (drop 120 (file false)) ≡ zero_word)
      × (take 4 (drop 124 (file false)) ≡ zero_word)
      × (take 4 (drop 144 (file false)) ≡ zero_word)
      × (take 4 (drop 148 (file false)) ≡ zero_word)
  unfolding header vec_bytes le_bytes zero_word
  zero_64 = (refl, refl, refl, refl, refl, refl, refl, refl, refl, refl, refl, refl, refl, refl)

  long_32 : 104 ≤ length (file true) + 4
  unfolding header vec_bytes le_bytes
  long_32 = omega arith

  words_32 :
      (take 4 (drop 0 (file true)) ≡ zero_word)
      × (take 4 (drop 4 (file true)) ≡ le_bytes 4 (length g3 % 2 ^ 32))
      × (take 4 (drop 24 (file true)) ≡ le_bytes 4 (length g4 % 2 ^ 32))
      × (take 4 (drop 28 (file true))
          ≡ le_bytes 4 (f (suc n + length (own_blocks true num ref g3))))
  unfolding header vec_bytes le_bytes zero_word
  words_32 = (refl, refl, refl, refl)

  zero_at :
      (b : Bool) (i : ℕ)
      → 4 * i + 4 ≤ length (file b)
      → take 4 (drop (4 * i) (file b)) ≡ zero_word
      → word_at (file b) i ≡ ok 0
  unfolding zero_word of_le
  zero_at b i fits z = int_within (file b) zero_word i fits z

  detects_64 : determine_is_32bit (file false) ≡ ok false
  unfolding any_nonzero
  detects_64 =
      let long = long_64 in
      let (z0, z1, z6, z7, z12, z13, z18, z19, z24, z25, z30, z31, z36, z37) = zero_64 in
      let checked : any_nonzero (file false) allocator_places ≡ ok false =
        rw
          (
            any_nonzero,
            zero_at false 0 (omega arith) z0,
            zero_at false 1 (omega arith) z1,
            zero_at false 6 (omega arith) z6,
            zero_at false 7 (omega arith) z7,
            zero_at false 12 (omega arith) z12,
            zero_at false 13 (omega arith) z13,
            zero_at false 18 (omega arith) z18,
            zero_at false 19 (omega arith) z19,
            zero_at false 24 (omega arith) z24,
            zero_at false 25 (omega arith) z25,
            zero_at false 30 (omega arith) z30,
            zero_at false 31 (omega arith) z31,
            zero_at false 36 (omega arith) z36,
            zero_at false 37 (omega arith) z37,
          )
          refl in
      long_or_not (file false) false (λ h. absurd (omega arith)) checked

  detects_32 :
      0 < f (suc n + length (own_blocks true num ref g3))
      → f (suc n + length (own_blocks true num ref g3)) < 2 ^ 32
      → determine_is_32bit (file true) ≡ ok true
  unfolding any_nonzero
  detects_32 some_address fits =
      let long = long_32 in
      let (z0, z1, z6, z7) = words_32 in
      let a = f (suc n + length (own_blocks true num ref g3)) in
      let address : word_at (file true) 7 ≡ ok a =
        int_within (file true) _ 7 (omega arith) z7 ∙ ap ok (of_le-le_bytes 4 a fits) in
      let nonzero : (a == 0) ≡ false = ground arith in
      elim (Bool-cases (of_le (le_bytes 4 (length g3 % 2 ^ 32)) == 0)) [
        | inl none ↦
            let checked : any_nonzero (file true) allocator_places ≡ ok true =
              rw
                (
                  any_nonzero,
                  zero_at true 0 (omega arith) z0,
                  int_within (file true) _ 1 (omega arith) z1,
                  none,
                  int_within (file true) _ 6 (omega arith) z6,
                  address,
                  nonzero,
                )
                (ground arith) in
            long_or_not (file true) true (λ h. refl) checked
        | inr any ↦
            let checked : any_nonzero (file true) allocator_places ≡ ok true =
              rw
                (
                  any_nonzero,
                  zero_at true 0 (omega arith) z0,
                  int_within (file true) _ 1 (omega arith) z1,
                  any,
                )
                refl in
            long_or_not (file true) true (λ h. refl) checked
      ]

  -- A file with such a header is taken for one of the size of pointers that it has, if the address
  -- of the second vector is one of 32 bits and not zero.
  pub header-determine_is_32bit :
      (b : Bool)
      → 0 < f (suc n + length (own_blocks b num ref g3))
      → f (suc n + length (own_blocks b num ref g3)) < 2 ^ 32
      → determine_is_32bit (file b) ≡ ok b
  header-determine_is_32bit true some_address fits = detects_32 some_address fits
  header-determine_is_32bit false some_address fits = detects_64
