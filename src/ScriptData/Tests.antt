-- ===== src/ScriptData/Tests.antt =====
-- A table that holds itself, written by src/scriptdata/ScriptData.cpp and read back.
use raid_super_blt.Base.{
  ℕ, ◌-◌, ◌^◌, ◌<◌, ◌≡◌, ◌≢◌, refl, ◌↔◌, le_bytes, true, false, some, [], ◌∷◌, length, flatten, All,
  arith,
}
use raid_super_blt.Outcome.{ok, ◌>>=◌}
use raid_super_blt.ScriptData.{
  Heap, WriteInfo, boolean, number, string, table, get_id, blank, find_item, update, add_item,
  index_of, for_each, entry_pointers, children, register,
}
use raid_super_blt.ScriptData.Numbers.Numbering.{IsNumbered, IsTyped, has}
use raid_super_blt.ScriptData.Numbers.Reach.{Reach, IsClosed, Points-All}
use raid_super_blt.ScriptData.Numbers.Registered.{register-Reach}
use raid_super_blt.ScriptData.Written.Layout.{
  number_of, reference_of, vec_bytes, meta_value, raw, refs, own_block, raws, own_blocks, header,
  body,
}
use raid_super_blt.ScriptData.Writing.{serialise}
use raid_super_blt.ScriptData.Reading.{read_data, determine_is_32bit}
use raid_super_blt.ScriptData.Written.File.{blocks_with, head_block, layout, serialise-layout}
use raid_super_blt.ScriptData.Back.Placed.{Fits}
use raid_super_blt.ScriptData.Back.RoundTrip.{script_of, read_data-serialise}
use raid_super_blt.ScriptData.Back.Recognised.{serialise-determine_is_32bit}

abbrev heap : Heap
heap =
    table (some 1) ((2, 3) ∷ (4, 0) ∷ [])
    ∷ string (109 ∷ [])
    ∷ string (107 ∷ 101 ∷ [])
    ∷ number 7
    ∷ boolean true
    ∷ []

-- The items are numbered in the order in which the table leads to them.
abbrev info : WriteInfo
info = add_item (add_item (add_item (add_item (add_item (blank false) 8 0) 4 1) 4 2) 3 3) 1 4

heap-IsClosed : IsClosed heap
unfolding children entry_pointers
heap-IsClosed = (
  λ c p.
      Points-All (λ d. d < 5) (table (some 1) ((2, 3) ∷ (4, 0) ∷ [])) c p
        (omega arith, (omega arith, (omega arith, (omega arith, (omega arith, tt))))),
  (
    λ c p. absurd (Points-All (λ _. ⊥) (string (109 ∷ [])) c p tt),
    (
      λ c p. absurd (Points-All (λ _. ⊥) (string (107 ∷ 101 ∷ [])) c p tt),
      (
        λ c p. absurd (Points-All (λ _. ⊥) (number 7) c p tt),
        (λ c p. absurd (Points-All (λ _. ⊥) (boolean true) c p tt), tt),
      ),
    ),
  ),
)

registered : register 6 heap (blank false) 0 ≡ ok info
unfolding register index_of for_each children entry_pointers get_id blank find_item update add_item
registered = refl

nonzero : (c : ℕ) → 0 < c → c ≢ 0
nonzero c h e = absurd (omega arith)

heap-Fits : All (Fits heap) heap
unfolding get_id
heap-Fits = (
  (omega arith, refl),
  (
    (nonzero 109 (omega arith), tt),
    ((nonzero 107 (omega arith), (nonzero 101 (omega arith), tt)), (omega arith, (tt, tt))),
  ),
)

few : (id : ℕ) → length (info.items id) < 2 ^ 24
unfolding add_item update blank
few id = ground arith

small : length (flatten (blocks_with heap info 0 (λ _. 0))) < 2 ^ 32 - 1
unfolding blocks_with head_block header body vec_bytes meta_value raw refs own_block raws own_blocks
    number_of reference_of add_item update blank find_item get_id entry_pointers le_bytes
small = omega arith

register-Reach_example :
    (next : WriteInfo) × (register 6 heap (blank false) 0 ≡ ok next)
    × ((a : ℕ) → (has heap next a ≡ true) ↔ Reach heap 0 a)
    × IsNumbered next
    × IsTyped heap next
register-Reach_example = register-Reach heap 0 false heap-IsClosed (omega arith)

serialise-layout_example : serialise heap 0 false ≡ ok (layout heap info 0)
serialise-layout_example =
    serialise-layout heap 0 false info heap-IsClosed (omega arith) registered small

read_data-serialise_example : (serialise heap 0 false >>= read_data) ≡ ok (script_of heap info 0)
read_data-serialise_example =
    read_data-serialise heap 0 false info heap-IsClosed (omega arith) registered heap-Fits few small

serialise-determine_is_32bit_example : (serialise heap 0 false >>= determine_is_32bit) ≡ ok false
serialise-determine_is_32bit_example =
    serialise-determine_is_32bit heap 0 false info heap-IsClosed (omega arith) registered small
