-- ===== src/Diesel/Vectors.antt =====
-- dsl_Vector and loadVector of src/dbutil/DB.cpp: the sequences of records in the game's files.
use raid_super_blt.Base.{ℕ, zero, suc, ◌+◌, Option, List, [], ◌∷◌, read_le?}
use raid_super_blt.Outcome.{Outcome, Stop, ok, value_or, ◌>>=◌}

-- `dsl_Vector`
pub record DslVector : Type 0 where
  pub element_count : ℕ
  pub element_capacity : ℕ
  pub element_offset : ℕ

-- The three uint64_t of a dsl_Vector; `fails` is how a read beyond the end goes wrong.
unfoldable pub read_vector : Stop → List ℕ → ℕ → Outcome DslVector
read_vector fails bytes pos = do
  count ← value_or (read_le? pos 8 bytes) fails
  capacity ← value_or (read_le? (pos + 8) 8 bytes) fails
  offset ← value_or (read_le? (pos + 16) 8 bytes) fails
  ok (record { element_count = count; element_capacity = capacity; element_offset = offset })

module _ {ℓ} {A : Type ℓ} (fails : Stop) (size : ℕ) (read_at : ℕ → Option A) where
  -- The elements from a place on, each of `size` bytes.
  unfoldable pub elements : ℕ → ℕ → Outcome (List A)
  elements zero pos = ok []
  elements (suc n) pos = do
    x ← value_or (read_at pos) fails
    xs ← elements n (pos + size)
    ok (x ∷ xs)

  -- `loadVector` with the metadata in hand; offsets count from `base`.
  unfoldable pub load_elements : ℕ → DslVector → Outcome (List A)
  load_elements base vec = elements vec.element_count (base + vec.element_offset)

-- `loadVector` with the metadata at `base`, in memory.
unfoldable pub load_vector {ℓ} :
    {A : Type ℓ} → Stop → ℕ → (ℕ → Option A) → List ℕ → ℕ → Outcome (List A)
load_vector fails size read_at bytes base = do
  vec ← read_vector fails bytes base
  load_elements fails size read_at base vec
