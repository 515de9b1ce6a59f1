-- ===== src/Idstring/Tests.antt =====
-- Runs of src/util/idstring_hash.cpp and of the id literals of src/tweaker/db_hooks.cpp.
use raid_super_blt.Base.{ℕ, ◌≡◌, refl, List, ◌∷◌, codes, arith}
use raid_super_blt.Outcome.{ok}
use raid_super_blt.Idstring.Hash.{Words, mix64, hash64}
use raid_super_blt.Idstring.Hash.Range.{Words64}
use raid_super_blt.Idstring.Hash.Reverse.{mix64-injective}
use raid_super_blt.Idstring.Hash.Blocks.{with_last, absorb, first_words, hash64-absorb}
use raid_super_blt.Idstring.Hex.{print_id, parse_hash}
use raid_super_blt.Idstring.Hex.RoundTrip.{parse_hash-print_id}

abbrev long_text : List ℕ
long_text = codes "units/payday2/characters/ene"

abbrev words : Words
words = record { a = 1; b = 2; c = 3 }

mix64-injective_example : words ≡ words
mix64-injective_example = mix64-injective words words small small refl
  where
    small : Words64 words
    small = record { a_lt = omega arith; b_lt = omega arith; c_lt = omega arith }

hash64-absorb_example :
    hash64 long_text 28 0
    ≡ (mix64 (with_last 28 (codes "/ene") (absorb 1 long_text (first_words 0)))).c
hash64-absorb_example = hash64-absorb long_text 0 (omega arith)

parse_hash-print_id_example : parse_hash (64 ∷ print_id 0x11df684c9591b7e0) ≡ ok 0x11df684c9591b7e0
parse_hash-print_id_example = parse_hash-print_id 0x11df684c9591b7e0 (omega arith)
