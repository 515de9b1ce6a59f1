-- ===== src/Idstring/Hash/Range.antt =====
-- Every word of src/util/idstring_hash.cpp stays below 2 ^ 64.
use raid_super_blt.Base.{
  ℕ, zero, suc, ◌-◌, ◌*◌, ◌/◌, ◌%◌, ◌^◌, ◌<◌, List, drop, xor-lt, arith, leb, Bool-cases, inl, inr,
}
use raid_super_blt.Idstring.Hash.{
  u64, Words, sub64, mix_right, mix_left, mix_round, mix64, add_block, hash_blocks,
}

pub record Words64 (w : Words) : Type 0 where
  pub a_lt : w.a < u64
  pub b_lt : w.b < u64
  pub c_lt : w.c < u64

pub mix_right-lt : (x y z k : ℕ) → z < u64 → mix_right x y z k < u64
unfolding mix_right
mix_right-lt x y z k h = xor-lt 64 (sub64 (sub64 x y) z) (z / 2 ^ k) (omega arith) (omega arith)

pub mix_left-lt : (x y z k : ℕ) → mix_left x y z k < u64
unfolding mix_left
mix_left-lt x y z k =
    xor-lt 64 (sub64 (sub64 x y) z) ((z * 2 ^ k) % u64) (omega arith) (omega arith)

pub mix_round-Words64 : (i j k : ℕ) (w : Words) → Words64 w → Words64 (mix_round i j k w)
unfolding mix_round
mix_round-Words64 i j k w h = record { a_lt = a; b_lt = b; c_lt = mix_right-lt _ _ _ k b }
  where
    a : mix_right w.a w.b w.c i < u64
    a = mix_right-lt w.a w.b w.c i h.c_lt

    b : mix_left w.b w.c (mix_right w.a w.b w.c i) j < u64
    b = mix_left-lt w.b w.c _ j

pub mix64-Words64 : (w : Words) → Words64 w → Words64 (mix64 w)
unfolding mix64
mix64-Words64 w h =
    mix_round-Words64 12 18 22 _
      (mix_round-Words64 35 49 11 _ (mix_round-Words64 38 23 5 _ (mix_round-Words64 43 9 8 w h)))

add_block-Words64 : (k : List ℕ) (w : Words) → Words64 (add_block k w)
unfolding add_block
add_block-Words64 k w = omega arith

pub hash_blocks-Words64 :
    (f : ℕ) (k : List ℕ) (len : ℕ) (w : Words) → Words64 w → Words64 (hash_blocks f k len w).2
unfolding hash_blocks
hash_blocks-Words64 zero k len w h = h
hash_blocks-Words64 (suc f) k len w h = elim (Bool-cases (leb 24 len)) [
  | inl more ↦
      rw (more, hash_blocks)
        (hash_blocks-Words64 f (drop 24 k) (len - 24) (mix64 (add_block k w))
          (mix64-Words64 _ (add_block-Words64 k w)))
  | inr done ↦ rw (done, hash_blocks) h
]
