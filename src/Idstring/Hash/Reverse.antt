-- ===== src/Idstring/Hash/Reverse.antt =====
-- mix64 of src/util/idstring_hash.cpp loses nothing: it can be undone.
use raid_super_blt.Base.{ℕ, ◌*◌, ◌/◌, ◌%◌, ◌^◌, ◌<◌, ◌≡◌, sym, ap, ◌∙◌, bit_xor, xor_cancel, arith}
use raid_super_blt.Idstring.Hash.{u64, Words, add64, sub64, mix_right, mix_left, mix_round, mix64}
use raid_super_blt.Idstring.Hash.Range.{Words64, mix_right-lt, mix_left-lt, mix_round-Words64}

-- Subtraction is undone by addition.
add64-sub64 : (x y : ℕ) → x < u64 → y < u64 → add64 (sub64 x y) y ≡ x
add64-sub64 x y hx hy = omega arith

unmix : ℕ → ℕ → ℕ → ℕ → ℕ
unmix m y z t = add64 (add64 (bit_xor m t) z) y

unmix-xor :
    (x y z t : ℕ)
    → x < u64
    → y < u64
    → z < u64
    → t < u64
    → unmix (bit_xor (sub64 (sub64 x y) z) t) y z t ≡ x
unfolding unmix
unmix-xor x y z t hx hy hz ht =
    rw (xor_cancel 64 (sub64 (sub64 x y) z) t (omega arith) ht) (omega arith)

unmix-mix_right :
    (x y z k : ℕ) → x < u64 → y < u64 → z < u64 → unmix (mix_right x y z k) y z (z / 2 ^ k) ≡ x
unfolding mix_right
unmix-mix_right x y z k hx hy hz = unmix-xor x y z (z / 2 ^ k) hx hy hz (omega arith)

unmix-mix_left :
    (x y z k : ℕ)
    → x < u64
    → y < u64
    → z < u64
    → unmix (mix_left x y z k) y z ((z * 2 ^ k) % u64) ≡ x
unfolding mix_left
unmix-mix_left x y z k hx hy hz = unmix-xor x y z ((z * 2 ^ k) % u64) hx hy hz (omega arith)

-- The inverse of one round of mix64.
unmix_round : ℕ → ℕ → ℕ → Words → Words
unmix_round i j k w =
    let c = unmix w.c w.a w.b (w.b / 2 ^ k) in
    let b = unmix w.b c w.a ((w.a * 2 ^ j) % u64) in
    let a = unmix w.a b c (c / 2 ^ i) in record { a = a; b = b; c = c }

unmix_round-mix_round :
    (i j k : ℕ) (w : Words) → Words64 w → unmix_round i j k (mix_round i j k w) ≡ w
unfolding unmix_round mix_round
unmix_round-mix_round i j k w h =
    let a = mix_right w.a w.b w.c i in
    let b = mix_left w.b w.c a j in
    let a_lt : a < u64 = mix_right-lt w.a w.b w.c i h.c_lt in
    let b_lt : b < u64 = mix_left-lt w.b w.c a j in
    rw (
      unmix-mix_right w.c a b k h.c_lt a_lt b_lt,
      unmix-mix_left w.b w.c a j h.b_lt h.c_lt a_lt,
      unmix-mix_right w.a w.b w.c i h.a_lt h.b_lt h.c_lt,
    )

mix_round-injective :
    (i j k : ℕ) (v w : Words)
    → Words64 v
    → Words64 w
    → mix_round i j k v ≡ mix_round i j k w
    → v ≡ w
mix_round-injective i j k v w hv hw e =
    sym (unmix_round-mix_round i j k v hv)
    ∙ (ap (unmix_round i j k) e ∙ unmix_round-mix_round i j k w hw)

-- mix64 sends different words to different words.
pub mix64-injective : (v w : Words) → Words64 v → Words64 w → mix64 v ≡ mix64 w → v ≡ w
unfolding mix64
mix64-injective v w hv hw e = mix_round-injective 43 9 8 v w hv hw (
    mix_round-injective 38 23 5 _ _ hv1 hw1 (
      mix_round-injective 35 49 11 _ _ hv2 hw2 (
        mix_round-injective 12 18 22 _ _ (mix_round-Words64 35 49 11 _ hv2)
          (mix_round-Words64 35 49 11 _ hw2) e)))
  where
    hv1 : Words64 (mix_round 43 9 8 v)
    hv1 = mix_round-Words64 43 9 8 v hv

    hw1 : Words64 (mix_round 43 9 8 w)
    hw1 = mix_round-Words64 43 9 8 w hw

    hv2 : Words64 (mix_round 38 23 5 (mix_round 43 9 8 v))
    hv2 = mix_round-Words64 38 23 5 _ hv1

    hw2 : Words64 (mix_round 38 23 5 (mix_round 43 9 8 w))
    hw2 = mix_round-Words64 38 23 5 _ hw1
