-- ===== src/AssetDb/Literals.antt =====
-- Id literals of src/luautil/LuaAssetDb.cpp.
use raid_super_blt.Base.{
  ℕ, zero, suc, ◌+◌, ◌*◌, ◌/◌, ◌%◌, ◌^◌, ◌<◌, ◌≡◌, refl, sym, ap, ◌∙◌, reverse, reverse-cons, of_le,
  le_bytes, List, [], ◌∷◌, ◌++◌, true, length, length-append, get_or, arith,
}
use raid_super_blt.Outcome.{ok}
use raid_super_blt.Idstring.Hash.{u64}
use raid_super_blt.Idstring.Hex.{print_id}
use raid_super_blt.Idstring.Hex.RoundTrip.{
  length-print_id, strtoull16-print_id, strtoull16-append, digit_run-mark,
}
use raid_super_blt.AssetDb.{swap_bytes, is_literal, literal, to_idstring}
use native.Mathlib.Nat.{pow-suc}

below_power : (d p y : ℕ) → d < 256 → y < p → d * p + y < 256 * p
below_power d p y hd hy = grind arith

swap_bytes-lt : (n v : ℕ) → swap_bytes n v < 256 ^ n
unfolding swap_bytes
swap_bytes-lt zero v = omega arith
swap_bytes-lt (suc n) v = omega (
  arith,
  pow-suc 256 n,
  below_power (v % 256) (256 ^ n) (swap_bytes n (v / 256)) (omega arith)
      (swap_bytes-lt n (v / 256)),
)

-- The highest byte becomes the lowest.
swap_bytes_high :
    (n d v : ℕ)
    → d < 256
    → v < 256 ^ n
    → swap_bytes (suc n) (d * 256 ^ n + v) ≡ d + 256 * swap_bytes n v
unfolding swap_bytes
swap_bytes_high zero d v hd hv = omega arith
swap_bytes_high (suc n) d v hd hv =
    let whole : d * 256 ^ suc n + v ≡ 256 * (d * 256 ^ n) + v =
      omega (arith, ap (λ (t : ℕ). d * t) (pow-suc 256 n)) in
    let low : (d * 256 ^ suc n + v) % 256 ≡ v % 256 = omega (arith, whole) in
    let high : (d * 256 ^ suc n + v) / 256 ≡ d * 256 ^ n + v / 256 = omega (arith, whole) in
    omega (
      arith,
      ap (λ (t : ℕ). t * 256 ^ suc n) low,
      ap (swap_bytes (suc n)) high,
      ap (λ (t : ℕ). (v % 256) * t) (pow-suc 256 n),
      swap_bytes_high n d (v / 256) hd (omega (arith, pow-suc 256 n)),
    )

-- Swapped twice, the bytes are as they were.
swap_bytes_involutive : (n v : ℕ) → v < 256 ^ n → swap_bytes n (swap_bytes n v) ≡ v
unfolding swap_bytes
swap_bytes_involutive zero v h = omega arith
swap_bytes_involutive (suc n) v h =
    let inner = swap_bytes_involutive n (v / 256) (omega (arith, pow-suc 256 n)) in
    swap_bytes_high n (v % 256) (swap_bytes n (v / 256)) (omega arith) (swap_bytes-lt n (v / 256))
    ∙ omega (arith, inner)

get_or-mark : (cs : List ℕ) (n : ℕ) → length cs ≡ n → get_or (cs ++ 33 ∷ []) n 0 ≡ 33
get_or-mark [] zero e = refl
get_or-mark [] (suc n) e = absurd (omega arith)
get_or-mark (c ∷ cs) zero e = absurd (omega arith)
get_or-mark (c ∷ cs) (suc n) e = get_or-mark cs n (omega arith)

is_literal_plain : (cs : List ℕ) → length cs ≡ 16 → is_literal (35 ∷ cs) ≡ true
unfolding is_literal
is_literal_plain cs e = ground (arith, e)

is_literal_marked : (cs : List ℕ) → length cs ≡ 16 → is_literal (35 ∷ (cs ++ 33 ∷ [])) ≡ true
unfolding is_literal
is_literal_marked cs e =
    let long : length (cs ++ 33 ∷ []) ≡ 17 = omega (arith, length-append cs (33 ∷ []), e) in
    ground (arith, long, get_or-mark cs 16 e)

to_idstring_plain : (v : ℕ) → v < u64 → to_idstring (35 ∷ print_id v) ≡ ok v
unfolding to_idstring literal
to_idstring_plain v h =
    rw
      (
        to_idstring,
        is_literal_plain (print_id v) (length-print_id v),
        literal,
        strtoull16-print_id v h,
        length-print_id v,
      )
      refl

to_idstring_marked :
    (v : ℕ) → v < u64 → to_idstring (35 ∷ (print_id v ++ 33 ∷ [])) ≡ ok (swap_bytes 8 v)
unfolding to_idstring literal
to_idstring_marked v h =
    let long : length (print_id v ++ 33 ∷ []) ≡ 17 =
      omega (arith, length-append (print_id v) (33 ∷ []), length-print_id v) in
    rw
      (
        to_idstring,
        is_literal_marked (print_id v) (length-print_id v),
        literal,
        strtoull16-append v (33 ∷ []) h (digit_run-mark v),
        long,
      )
      refl

of_le-append : (bs cs : List ℕ) → of_le (bs ++ cs) ≡ of_le bs + 256 ^ length bs * of_le cs
unfolding of_le
of_le-append [] cs = omega arith
of_le-append (b ∷ bs) cs =
    omega (arith, of_le-append bs cs, ap (λ (t : ℕ). t * of_le cs) (pow-suc 256 (length bs)))

length-reverse_bytes : (n v : ℕ) → length (reverse (le_bytes n v)) ≡ n
unfolding le_bytes
length-reverse_bytes zero v = refl
length-reverse_bytes (suc n) v =
    ap length (reverse-cons (v % 256) (le_bytes n (v / 256)))
    ∙ (length-append (reverse (le_bytes n (v / 256))) ((v % 256) ∷ [])
        ∙ omega (arith, length-reverse_bytes n (v / 256)))

-- The swap is the number of the same bytes from the last to the first.
swap_bytes-reverse : (n v : ℕ) → swap_bytes n v ≡ of_le (reverse (le_bytes n v))
unfolding swap_bytes le_bytes of_le
swap_bytes-reverse zero v = refl
swap_bytes-reverse (suc n) v =
    let others = reverse (le_bytes n (v / 256)) in
    let size = length-reverse_bytes n (v / 256) in
    omega (
      arith,
      ap of_le (reverse-cons (v % 256) (le_bytes n (v / 256))),
      of_le-append others ((v % 256) ∷ []),
      ap (λ (t : ℕ). 256 ^ t * (v % 256)) size,
      swap_bytes-reverse n (v / 256),
    )

-- `#` and a printed id stand for the id, and with a `!` behind it for the id with its eight bytes
-- from the last to the first, so that an id whose bytes were reversed before it was printed comes
-- back.
pub to_idstring-print_id :
    (v : ℕ)
    → v < u64
    → (to_idstring (35 ∷ print_id v) ≡ ok v)
      × (to_idstring (35 ∷ (print_id v ++ 33 ∷ [])) ≡ ok (of_le (reverse (le_bytes 8 v))))
      × (to_idstring (35 ∷ (print_id (of_le (reverse (le_bytes 8 v))) ++ 33 ∷ [])) ≡ ok v)
to_idstring-print_id v h =
    let reversed = swap_bytes-reverse 8 v in
    (
      to_idstring_plain v h,
      to_idstring_marked v h ∙ ap ok reversed,
      ap (λ t. to_idstring (35 ∷ (print_id t ++ 33 ∷ []))) (sym reversed)
          ∙ (to_idstring_marked (swap_bytes 8 v) (swap_bytes-lt 8 v)
              ∙ ap ok (swap_bytes_involutive 8 v h)),
    )
