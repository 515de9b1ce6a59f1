-- ===== src/Idstring/Hash/Tests.antt =====
-- Runs of the hash of src/util/idstring_hash.cpp.
use raid_super_blt.Base.{◌≡◌, refl, codes}
use raid_super_blt.Idstring.Hash.{
  idstring_hash, hash64, hash_tail, hash_blocks, add_tail, add_byte, mix64, mix_round, mix_left,
  mix_right,
}

short_hash : idstring_hash (codes "unit") ≡ 9060302748687361679
unfolding idstring_hash hash64 hash_tail hash_blocks add_tail add_byte mix64 mix_round mix_left
    mix_right
short_hash = refl
