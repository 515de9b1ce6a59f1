-- ===== src/Idstring/Hash.antt =====
-- src/util/idstring_hash.cpp: Bob Jenkins' lookup8 over 64-bit words, which wrap modulo 2 ^ 64.
pub mod Range
pub mod Reverse
pub mod Blocks
pub mod Tail
mod Tests
use raid_super_blt.Base.{
  ℕ, zero, suc, ◌+◌, ◌-◌, ◌*◌, ◌/◌, ◌%◌, ◌^◌, Bool, true, false, List, length, get_or, drop,
  bit_xor, leb, ltb, if◌then◌else◌,
}

-- The words' modulus.
abbrev pub u64 : ℕ
u64 = 2 ^ 64

-- The three words a, b and c.
pub record Words : Type 0 where
  pub a : ℕ
  pub b : ℕ
  pub c : ℕ

-- `x += y` and `x -= y` on ub8
abbrev add64 : ℕ → ℕ → ℕ
add64 x y = (x + y) % u64

abbrev sub64 : ℕ → ℕ → ℕ
sub64 x y = (x + u64 - y) % u64

-- `x -= y; x -= z; x ^= (z >> k);`, one line of mix64
pub mix_right : ℕ → ℕ → ℕ → ℕ → ℕ
mix_right x y z k = bit_xor (sub64 (sub64 x y) z) (z / 2 ^ k)

-- `x -= y; x -= z; x ^= (z << k);`
pub mix_left : ℕ → ℕ → ℕ → ℕ → ℕ
mix_left x y z k = bit_xor (sub64 (sub64 x y) z) ((z * 2 ^ k) % u64)

-- Three lines of mix64, with their shifts.
pub mix_round : ℕ → ℕ → ℕ → Words → Words
mix_round i j k w =
    let a = mix_right w.a w.b w.c i in
    let b = mix_left w.b w.c a j in let c = mix_right w.c a b k in record { a = a; b = b; c = c }

-- The macro mix64.
pub mix64 : Words → Words
mix64 w = mix_round 12 18 22 (mix_round 35 49 11 (mix_round 38 23 5 (mix_round 43 9 8 w)))

-- k[i] + ((ub8)k[i+1] << 8) + … + ((ub8)k[i+7] << 56)
pub word_at : List ℕ → ℕ → ℕ
word_at k i =
    get_or k i 0
    + get_or k (i + 1) 0 * 2 ^ 8
    + get_or k (i + 2) 0 * 2 ^ 16
    + get_or k (i + 3) 0 * 2 ^ 24
    + get_or k (i + 4) 0 * 2 ^ 32
    + get_or k (i + 5) 0 * 2 ^ 40
    + get_or k (i + 6) 0 * 2 ^ 48
    + get_or k (i + 7) 0 * 2 ^ 56

-- The body of the loop over the blocks of 24 bytes.
pub add_block : List ℕ → Words → Words
add_block k w = record {
  a = add64 w.a (word_at k 0);
  b = add64 w.b (word_at k 8);
  c = add64 w.c (word_at k 16);
}

-- `while (len >= 24)`; the fuel bounds the rounds. It returns k, len and the words after the loop.
pub hash_blocks : ℕ → List ℕ → ℕ → Words → List ℕ × ℕ × Words
hash_blocks zero k len w = (k, len, w)
hash_blocks (suc f) k len w = elim (leb 24 len) [
  | true ↦ hash_blocks f (drop 24 k) (len - 24) (mix64 (add_block k w))
  | false ↦ (k, len, w)
]

-- The statement of `case i + 1`: byte i goes into c above its lowest byte, into b, or into a.
pub add_byte : ℕ → List ℕ → Words → Words
add_byte i k w =
    let byte = get_or k i 0 in
    if leb 16 i
    then record w { c = add64 w.c (byte * 2 ^ (8 * (i - 15))) }
    else if leb 8 i
    then record w { b = add64 w.b (byte * 2 ^ (8 * (i - 8))) }
    else record w { a = add64 w.a (byte * 2 ^ (8 * i)) }

-- The switch on len, all of whose cases fall through to the next lower one.
pub add_tail : ℕ → List ℕ → Words → Words
add_tail zero k w = w
add_tail (suc i) k w = add_tail i k (add_byte i k w)

-- What is done with the last bytes: add the length, the bytes, and mix.
pub hash_tail : ℕ → List ℕ × ℕ × Words → Words
hash_tail total (k, len, w) = mix64 (add_tail len k (record w { c = add64 w.c total }))

pub hash64 : List ℕ → ℕ → ℕ → ℕ
hash64 k total level =
    (hash_tail total
      (hash_blocks total k total (record { a = level; b = level; c = 0x9e3779b97f4a7c13 }))).c

-- `blt::idstring_hash`
pub idstring_hash : List ℕ → ℕ
idstring_hash text = hash64 text (length text) 0
