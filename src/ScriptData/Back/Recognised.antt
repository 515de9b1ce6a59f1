-- ===== src/ScriptData/Back/Recognised.antt =====
-- How src/scriptdata/ScriptData.cpp takes the files that it writes.
use raid_super_blt.Base.{ℕ, suc, ◌-◌, ◌^◌, ◌<◌, ◌≡◌, ap, ◌∙◌, Bool, length, flatten, le_bytes}
use raid_super_blt.Outcome.{ok, ◌>>=◌}
use raid_super_blt.ScriptData.{Heap, WriteInfo, blank, register}
use raid_super_blt.ScriptData.Numbers.Reach.{IsClosed}
use raid_super_blt.ScriptData.Writing.{serialise}
use raid_super_blt.ScriptData.Written.Layout.{body}
use raid_super_blt.ScriptData.Written.Vectors.{group}
use raid_super_blt.ScriptData.Reading.{determine_is_32bit}
use raid_super_blt.ScriptData.Written.File.{
  w, nums, refs_of, items_by_type, head_block, blocks_with, layout, blank-Visits, serialise-layout,
}
use raid_super_blt.ScriptData.Back.Located.{f}
use raid_super_blt.ScriptData.Back.Detected.{header-determine_is_32bit}
use raid_super_blt.ScriptData.Back.Header.{second_address}

pub layout_detected :
    (heap : Heap) (info : WriteInfo) (root : ℕ)
    → length (flatten (blocks_with heap info root (λ _. 0))) < 2 ^ 32 - 1
    → determine_is_32bit (layout heap info root) ≡ ok (w heap info root)
unfolding layout blocks_with head_block
layout_detected heap info root small =
    header-determine_is_32bit (nums heap info root) (refs_of heap info root) (f heap info root) 1
      (group heap info 3) (group heap info 4) (group heap info 5) (group heap info 6)
      (group heap info 7) (group heap info 8) (le_bytes 4 (refs_of heap info root root))
      (flatten (
        body (w heap info root) (nums heap info root) (refs_of heap info root) (f heap info root) 1
          (items_by_type heap info root)))
      (w heap info root) (second_address heap info root small).0
      (second_address heap info root small).1

-- A written file of fewer than 2 ^ 32 - 1 bytes is taken for one of the size of pointers that it was
-- written with. Where that is 64 bits, it is because the slots of its allocators, which are written
-- as zeros, are found empty.
pub serialise-determine_is_32bit :
    (heap : Heap) (root : ℕ) (use_32bit : Bool) (info : WriteInfo)
    → IsClosed heap
    → root < length heap
    → register (suc (length heap)) heap (blank use_32bit) root ≡ ok info
    → length (flatten (blocks_with heap info root (λ _. 0))) < 2 ^ 32 - 1
    → (serialise heap root use_32bit >>= determine_is_32bit) ≡ ok use_32bit
serialise-determine_is_32bit heap root use_32bit info closed h e small =
    let v = blank-Visits heap root use_32bit closed info h e in
    ap (λ m. m >>= determine_is_32bit) (serialise-layout heap root use_32bit info closed h e small)
    ∙ (layout_detected heap info root small ∙ ap ok v.walk.width)
