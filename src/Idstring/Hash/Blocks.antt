-- ===== src/Idstring/Hash/Blocks.antt =====
-- The hash of src/util/idstring_hash.cpp, as its reference describes it: the text is cut into words
-- of eight bytes, the lowest first, which are added to a, b and c, three for each mixing. The last
-- block is filled up with zeros, and its c has the length in the place of the lowest byte.
use raid_super_blt.Base.{
  ℕ, zero, suc, ◌+◌, ◌-◌, ◌*◌, ◌/◌, ◌%◌, ◌≤◌, ◌<◌, ◌≡◌, refl, sym, ap, ◌∙◌, subst, List, [], ◌∷◌,
  length, drop, length-drop, arith,
}
use raid_super_blt.Idstring.Hash.{u64, Words, mix64, add_block, hash_blocks, hash_tail, hash64}
use raid_super_blt.Idstring.Hash.Range.{Words64, hash_blocks-Words64}
use raid_super_blt.Idstring.Hash.Tail.{part, with_block, add_block-with_block, plus_all, tail_parts}

-- The last block of a text of `n` bytes.
unfoldable pub with_last : ℕ → List ℕ → Words → Words
with_last n k w = record {
  a = (w.a + part 0 8 k) % u64;
  b = (w.b + part 8 8 k) % u64;
  c = (w.c + (n + 256 * part 16 7 k)) % u64;
}

-- The words after `n` blocks.
unfoldable pub absorb : ℕ → List ℕ → Words → Words
absorb zero k w = w
absorb (suc n) k w = absorb n (drop 24 k) (mix64 (with_block k w))

-- The bytes behind `n` blocks.
skip : ℕ → List ℕ → List ℕ
skip zero k = k
skip (suc n) k = skip n (drop 24 k)

shorter : (n rest : ℕ) → suc n * 24 + rest - 24 ≡ n * 24 + rest
shorter n rest = omega arith

hash_blocks_steps :
    (f n : ℕ) (k : List ℕ) (rest : ℕ) (w : Words)
    → rest < 24
    → n ≤ f
    → hash_blocks f k (n * 24 + rest) w ≡ (skip n k, rest, absorb n k w)
unfolding hash_blocks absorb skip
hash_blocks_steps zero zero k rest w small enough = ap (λ t. (k, t, w)) (omega arith)
hash_blocks_steps zero (suc n) k rest w small enough = absurd (omega arith)
hash_blocks_steps (suc f) zero k rest w small enough = ground arith
hash_blocks_steps (suc f) (suc n) k rest w small enough = ground (
  arith,
  ap (λ t. hash_blocks f (drop 24 k) (n * 24 + rest) (mix64 t)) (add_block-with_block k w),
  hash_blocks_steps f n (drop 24 k) rest (mix64 (with_block k w)) small (omega arith),
  ap (λ t. hash_blocks f (drop 24 k) t (mix64 (add_block k w))) (shorter n rest),
)

-- The loop of hash64, whose fuel is the length: it takes all the whole blocks.
hash_blocks_all :
    (n : ℕ) (k : List ℕ) (w : Words)
    → hash_blocks n k n w ≡ (skip (n / 24) k, n % 24, absorb (n / 24) k w)
hash_blocks_all n k w =
    ap (λ t. hash_blocks n k t w) whole
    ∙ hash_blocks_steps n (n / 24) k (n % 24) w (omega arith) (omega arith)
  where
    whole : n ≡ n / 24 * 24 + n % 24
    whole = omega arith

drop_nil : (n : ℕ) → drop {A = ℕ} n [] ≡ []
drop_nil zero = refl
drop_nil (suc n) = refl

drop-drop_add : (m n : ℕ) (k : List ℕ) → drop n (drop m k) ≡ drop (m + n) k
drop-drop_add zero n k = ap (λ t. drop t k) {x = n} {y = 0 + n} (omega arith)
drop-drop_add (suc m) n [] = drop_nil n ∙ sym (drop_nil (suc m + n))
drop-drop_add (suc m) n (b ∷ k) =
    drop-drop_add m n k ∙ ap (λ t. drop t (b ∷ k)) {x = suc (m + n)} {y = suc m + n} (omega arith)

skip-drop : (n : ℕ) (k : List ℕ) → skip n k ≡ drop (24 * n) k
unfolding skip
skip-drop zero k = refl
skip-drop (suc n) k =
    skip-drop n (drop 24 k)
    ∙ (drop-drop_add 24 (24 * n) k
        ∙ ap (λ t. drop t k) {x = 24 + 24 * n} {y = 24 * suc n} (omega arith))

-- The words before the first block.
abbrev pub first_words : ℕ → Words
first_words level = record { a = level; b = level; c = 0x9e3779b97f4a7c13 }

hash_tail-with_last :
    (n : ℕ) (k : List ℕ) (w : Words)
    → length k < 24
    → Words64 w
    → hash_tail n (k, length k, w) ≡ mix64 (with_last n k w)
unfolding hash_tail with_last plus_all
hash_tail-with_last n k w short small =
    let begun : Words = record w { c = (w.c + n) % u64 } in
    let fits : Words64 begun = record {
      a_lt = small.a_lt;
      b_lt = small.b_lt;
      c_lt = omega arith;
    } in
    ap mix64 (
      tail_parts k begun fits short
      ∙ ap (λ t. record { a = (w.a + part 0 8 k) % u64; b = (w.b + part 8 8 k) % u64; c = t })
          (omega arith))

-- The hash of a text is that of its blocks of 24 bytes, each of which adds three words of eight
-- bytes, the lowest first, to a, b and c, which are then mixed; the last block, of fewer than 24
-- bytes, has zeros behind its end, and its third word is the length and 256 times its last seven
-- bytes. The words wrap modulo 2 ^ 64.
pub hash64-absorb :
    (k : List ℕ) (level : ℕ)
    → level < u64
    → hash64 k (length k) level
      ≡ (mix64 (
          with_last
            (length k)
            (drop (24 * (length k / 24)) k)
            (absorb (length k / 24) k (first_words level)))).c
unfolding hash64
hash64-absorb k level h =
    let n = length k in
    let start = first_words level in
    let rest = drop (24 * (n / 24)) k in
    let size : n % 24 ≡ length rest = omega (arith, length-drop (24 * (n / 24)) k) in
    let blocks : hash_blocks n k n start ≡ (rest, length rest, absorb (n / 24) k start) =
      hash_blocks_all n k start
      ∙ (ap (λ t. (t, n % 24, absorb (n / 24) k start)) (skip-drop (n / 24) k)
          ∙ ap (λ t. (rest, t, absorb (n / 24) k start)) size) in
    let fits : Words64 start = record { a_lt = h; b_lt = h; c_lt = omega arith } in
    ap (λ t. (hash_tail n t).c) blocks
    ∙ ap (λ (t : Words). t.c)
        (hash_tail-with_last n rest (absorb (n / 24) k start) (omega (arith, size))
          (subst (λ t. Words64 t.2) blocks (hash_blocks-Words64 n k n start fits)))
