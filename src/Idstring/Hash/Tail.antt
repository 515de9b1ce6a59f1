-- ===== src/Idstring/Hash/Tail.antt =====
-- The bytes that src/util/idstring_hash.cpp adds to the words, for a whole block and for the last one.
use raid_super_blt.Base.{
  ℕ, zero, true, false, suc, ◌+◌, ◌-◌, ◌*◌, ◌%◌, ◌^◌, ◌≤◌, ◌<◌, ◌≡◌, refl, sym, ap, ◌∙◌, List, [],
  ◌∷◌, length, take, drop, Bool-cases, take_all, length-drop, get_or, of_le, leb, arith, inl, inr,
}
use raid_super_blt.Idstring.Hash.{u64, Words, word_at, add_block, add_byte, add_tail}
use raid_super_blt.Idstring.Hash.Range.{Words64}
use native.Mathlib.Nat.{pow-suc}

-- The number of `n` bytes from place `i`, of which those behind the end are zero.
abbrev pub part : ℕ → ℕ → List ℕ → ℕ
part i n k = of_le (take n (drop i k))

-- A whole block.
unfoldable pub with_block : List ℕ → Words → Words
with_block k w = record {
  a = (w.a + part 0 8 k) % u64;
  b = (w.b + part 8 8 k) % u64;
  c = (w.c + part 16 8 k) % u64;
}

part-last :
    (n : ℕ) (k : List ℕ) → of_le (take (suc n) k) ≡ of_le (take n k) + 256 ^ n * get_or k n 0
unfolding of_le
part-last zero [] = omega arith
part-last (suc n) [] = omega arith
part-last zero (b ∷ k) = omega arith
part-last (suc n) (b ∷ k) =
    omega (arith, part-last n k, ap (λ (t : ℕ). t * get_or k n 0) (pow-suc 256 n))

get_or-drop : (i j : ℕ) (k : List ℕ) → get_or (drop i k) j 0 ≡ get_or k (i + j) 0
get_or-drop zero j k = ap (λ t. get_or k t 0) {x = j} {y = 0 + j} (omega arith)
get_or-drop (suc i) j [] = refl
get_or-drop (suc i) j (b ∷ k) =
    get_or-drop i j k ∙ ap (λ t. get_or (b ∷ k) t 0) {x = suc (i + j)} {y = suc i + j} (omega arith)

part_next : (i n : ℕ) (k : List ℕ) → part i (suc n) k ≡ part i n k + 256 ^ n * get_or k (i + n) 0
part_next i n k = part-last n (drop i k) ∙ ap (λ t. part i n k + 256 ^ n * t) (get_or-drop i n k)

word_at-part : (k : List ℕ) (i : ℕ) → word_at k i ≡ part i 8 k
unfolding word_at of_le
word_at-part k i = omega (
  arith,
  ap (λ t. get_or k t 0) {x = i + 0} {y = i} (omega arith),
  part_next i 0 k,
  part_next i 1 k,
  part_next i 2 k,
  part_next i 3 k,
  part_next i 4 k,
  part_next i 5 k,
  part_next i 6 k,
  part_next i 7 k,
)

pub add_block-with_block : (k : List ℕ) (w : Words) → add_block k w ≡ with_block k w
unfolding add_block with_block
add_block-with_block k w =
    rw (add_block, with_block, word_at-part k 0, word_at-part k 8, word_at-part k 16) refl

pow_bytes : (i : ℕ) → 2 ^ (8 * i) ≡ 256 ^ i
pow_bytes zero = refl
pow_bytes (suc i) =
    ap (λ t. 2 ^ t) {x = 8 * suc i} {y = suc (suc (suc (suc (suc (suc (suc (suc (8 * i))))))))}
      (omega arith)
    ∙ omega (
      arith,
      pow_bytes i,
      pow-suc 256 i,
      pow-suc 2 (8 * i),
      pow-suc 2 (suc (8 * i)),
      pow-suc 2 (suc (suc (8 * i))),
      pow-suc 2 (suc (suc (suc (8 * i)))),
      pow-suc 2 (suc (suc (suc (suc (8 * i))))),
      pow-suc 2 (suc (suc (suc (suc (suc (8 * i)))))),
      pow-suc 2 (suc (suc (suc (suc (suc (suc (8 * i))))))),
      pow-suc 2 (suc (suc (suc (suc (suc (suc (suc (8 * i)))))))),
    )

-- The words to which bytes are added one by one, from the last to the first.
abbrev plus_a : ℕ → Words → Words
plus_a n w = record w { a = (w.a + n) % u64 }

abbrev plus_b : ℕ → Words → Words
plus_b n w = record w { b = (w.b + n) % u64 }

abbrev plus_c : ℕ → Words → Words
plus_c n w = record w { c = (w.c + n) % u64 }

add_byte_a :
    (j : ℕ) (k : List ℕ) (w : Words) → j < 8 → add_byte j k w ≡ plus_a (256 ^ j * get_or k j 0) w
unfolding add_byte
add_byte_a j k w h =
    let below_c : leb 16 j ≡ false = ground arith in
    let below_b : leb 8 j ≡ false = ground arith in
    rw (add_byte, below_c, below_b)
      (ap (λ t. plus_a t w) (omega (arith, ap (λ (t : ℕ). get_or k j 0 * t) (pow_bytes j))))

add_byte_b :
    (j : ℕ) (k : List ℕ) (w : Words)
    → j < 8
    → add_byte (8 + j) k w ≡ plus_b (256 ^ j * get_or k (8 + j) 0) w
unfolding add_byte
add_byte_b j k w h =
    let below_c : leb 16 (8 + j) ≡ false = ground arith in
    let in_b : leb 8 (8 + j) ≡ true = ground arith in
    let byte = get_or k (8 + j) 0 in
    rw (add_byte, below_c, in_b)
      (ap (λ t. plus_b t w)
        (ap (λ t. byte * 2 ^ (8 * t)) {x = 8 + j - 8} {y = j} (omega arith)
          ∙ omega (arith, ap (λ (t : ℕ). byte * t) (pow_bytes j))))

add_byte_c :
    (j : ℕ) (k : List ℕ) (w : Words)
    → add_byte (16 + j) k w ≡ plus_c (256 * (256 ^ j * get_or k (16 + j) 0)) w
unfolding add_byte
add_byte_c j k w =
    let in_c : leb 16 (16 + j) ≡ true = ground arith in
    let byte = get_or k (16 + j) 0 in
    rw (add_byte, in_c)
      (ap (λ t. plus_c t w)
        (ap (λ t. byte * 2 ^ (8 * t)) {x = 16 + j - 15} {y = suc j} (omega arith)
          ∙ omega (
            arith,
            ap (λ (t : ℕ). byte * t) (pow_bytes (suc j)),
            ap (λ (t : ℕ). byte * t) (pow-suc 256 j),
          )))

add_tail_step :
    (i j : ℕ) (k : List ℕ) (w : Words) → i ≡ suc j → add_tail i k w ≡ add_tail j k (add_byte j k w)
unfolding add_tail
add_tail_step i j k w e = ap (λ t. add_tail t k w) e

-- Cases of the switch that add to the same word.
add_tail_a :
    (j : ℕ) (k : List ℕ) (w : Words) → j ≤ 8 → w.a < u64 → add_tail j k w ≡ plus_a (part 0 j k) w
unfolding add_tail of_le
add_tail_a zero k w h small = ap (λ t. record w { a = t }) (omega arith)
add_tail_a (suc j) k w h small =
    ap (add_tail j k) (add_byte_a j k w (omega arith))
    ∙ (add_tail_a j k (plus_a (256 ^ j * get_or k j 0) w) (omega arith) (omega arith)
        ∙ ap (λ t. record w { a = t }) (omega (arith, part-last j k)))

add_tail_b :
    (j : ℕ) (k : List ℕ) (w : Words)
    → j ≤ 8
    → w.b < u64
    → add_tail (8 + j) k w ≡ add_tail 8 k (plus_b (part 8 j k) w)
unfolding of_le
add_tail_b zero k w h small =
    ap (λ t. add_tail t k w) {x = 8 + 0} {y = 8} (omega arith)
    ∙ ap (λ t. add_tail 8 k (record w { b = t })) (omega arith)
add_tail_b (suc j) k w h small =
    add_tail_step (8 + suc j) (8 + j) k w (omega arith)
    ∙ (ap (add_tail (8 + j) k) (add_byte_b j k w (omega arith))
        ∙ (add_tail_b j k (plus_b (256 ^ j * get_or k (8 + j) 0) w) (omega arith) (omega arith)
            ∙ ap (λ t. add_tail 8 k (record w { b = t })) (omega (arith, part_next 8 j k))))

add_tail_c :
    (j : ℕ) (k : List ℕ) (w : Words)
    → w.c < u64
    → add_tail (16 + j) k w ≡ add_tail 16 k (plus_c (256 * part 16 j k) w)
unfolding of_le
add_tail_c zero k w small =
    ap (λ t. add_tail t k w) {x = 16 + 0} {y = 16} (omega arith)
    ∙ ap (λ t. add_tail 16 k (record w { c = t })) (omega arith)
add_tail_c (suc j) k w small =
    add_tail_step (16 + suc j) (16 + j) k w (omega arith)
    ∙ (ap (add_tail (16 + j) k) (add_byte_c j k w)
        ∙ (add_tail_c j k (plus_c (256 * (256 ^ j * get_or k (16 + j) 0)) w) (omega arith)
            ∙ ap (λ t. add_tail 16 k (record w { c = t })) (omega (arith, part_next 16 j k))))

-- No bytes stand behind the end.
part_all : (i n m : ℕ) (k : List ℕ) → length k ≤ i + n → length k ≤ i + m → part i n k ≡ part i m k
part_all i n m k hn hm = ap of_le (
    take_all n (drop i k) (omega (arith, length-drop i k))
    ∙ sym (take_all m (drop i k) (omega (arith, length-drop i k))))

unfoldable pub plus_all : ℕ → ℕ → ℕ → Words → Words
plus_all x y z w = record { a = (w.a + x) % u64; b = (w.b + y) % u64; c = (w.c + z) % u64 }

plus_one_more :
    (x y z x' y' z' : ℕ) (w : Words)
    → x ≡ x'
    → y ≡ y'
    → z ≡ z'
    → plus_all x y z w ≡ plus_all x' y' z' w
plus_one_more x y z x' y' z' w p q r = rw (p, q, r) refl

module _ (k : List ℕ) (w : Words) (small : Words64 w) where
  tail_a : (j : ℕ) → j ≤ 8 → add_tail j k w ≡ plus_all (part 0 j k) 0 0 w
  unfolding plus_all
  tail_a j h =
      add_tail_a j k w h small.a_lt
      ∙ ap (λ t. record { a = (w.a + part 0 j k) % u64; b = t; c = w.c })
          (omega (arith, small.b_lt))
      ∙ ap (λ t. record { a = (w.a + part 0 j k) % u64; b = (w.b + 0) % u64; c = t })
          (omega (arith, small.c_lt))

  tail_b : (j : ℕ) → j ≤ 8 → add_tail (8 + j) k w ≡ plus_all (part 0 8 k) (part 8 j k) 0 w
  unfolding plus_all
  tail_b j h =
      add_tail_b j k w h small.b_lt
      ∙ (add_tail_a 8 k (plus_b (part 8 j k) w) (omega arith) small.a_lt
          ∙ ap (λ t. record { a = (w.a + part 0 8 k) % u64; b = (w.b + part 8 j k) % u64; c = t })
              (omega (arith, small.c_lt)))

  tail_c :
      (j : ℕ) → add_tail (16 + j) k w ≡ plus_all (part 0 8 k) (part 8 8 k) (256 * part 16 j k) w
  unfolding plus_all
  tail_c j =
      add_tail_c j k w small.c_lt
      ∙ (add_tail_b 8 k (plus_c (256 * part 16 j k) w) (omega arith) small.b_lt
          ∙ add_tail_a 8 k (plus_b (part 8 8 k) (plus_c (256 * part 16 j k) w)) (omega arith)
              small.a_lt)

  -- The cases of the switch together.
  pub tail_parts :
      length k < 24
      → add_tail (length k) k w ≡ plus_all (part 0 8 k) (part 8 8 k) (256 * part 16 7 k) w
  unfolding of_le
  tail_parts short = elim (Bool-cases (leb (length k) 8)) [
    | inl in_a ↦
        tail_a (length k) (ground arith)
        ∙ plus_one_more _ _ _ _ _ _ w (part_all 0 (length k) 8 k (omega arith) (ground arith))
            (part_all 8 0 8 k (ground arith) (ground arith))
            (ap (λ (t : ℕ). 256 * t) (part_all 16 0 7 k (ground arith) (omega arith)))
    | inr more ↦ elim (Bool-cases (leb (length k) 16)) [
      | inl in_b ↦
          ap (λ t. add_tail t k w) {x = length k} {y = 8 + (length k - 8)} (ground arith)
          ∙ (tail_b (length k - 8) (ground arith)
              ∙ plus_one_more _ _ _ _ _ _ w refl
                  (part_all 8 (length k - 8) 8 k (ground arith) (ground arith))
                  (ap (λ (t : ℕ). 256 * t) (part_all 16 0 7 k (ground arith) (omega arith))))
      | inr in_c ↦
          ap (λ t. add_tail t k w) {x = length k} {y = 16 + (length k - 16)} (ground arith)
          ∙ (tail_c (length k - 16)
              ∙ plus_one_more _ _ _ _ _ _ w refl refl (
                  ap (λ (t : ℕ). 256 * t)
                    (part_all 16 (length k - 16) 7 k (ground arith) (omega arith))))
    ]
  ]
