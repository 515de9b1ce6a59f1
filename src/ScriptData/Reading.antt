-- ===== src/ScriptData/Reading.antt =====
-- How src/scriptdata/ScriptData.cpp reads a file into numbered items.
use raid_super_blt.Base.{
  ℕ, zero, suc, ◌+◌, ◌*◌, ◌/◌, ◌%◌, ◌^◌, Bool, true, false, ◌&&◌, ◌||◌, not, Option, none, some,
  List, [], ◌∷◌, length, drop, ltb, ◌==◌, if◌then◌else◌, read_le?,
}
use raid_super_blt.Outcome.{Outcome, ok, stop, throws, undefined, value_or, ◌>>=◌}
use raid_super_blt.Diesel.Vectors.{elements}
use raid_super_blt.ScriptData.Writing.{pointer_size}

-- A word of `determine_is_32bit`, by its place.
unfoldable pub word_at : List ℕ → ℕ → Outcome ℕ
word_at bytes i = value_or (read_le? (4 * i) 4 bytes) undefined

-- `CHECK_ZERO_64_PTR` for each place in turn: whether a check decides for 32 bits.
unfoldable pub any_nonzero : List ℕ → List ℕ → Outcome Bool
any_nonzero bytes [] = ok false
any_nonzero bytes (i ∷ is) = do
  low ← word_at bytes i
  high ← word_at bytes (i + 1)
  if not (low == 0) || not (high == 0) then ok true else any_nonzero bytes is

abbrev pub allocator_places : List ℕ
allocator_places = 0 ∷ 6 ∷ 12 ∷ 18 ∷ 24 ∷ 30 ∷ 36 ∷ []

unfoldable pub determine_is_32bit : List ℕ → Outcome Bool
determine_is_32bit bytes =
    if ltb (length bytes) 152 then ok true else any_nonzero bytes allocator_places

-- A pointer to an item that was read: its type, and its place in the vector of that type.
pub data Ref : Type 0 where
  nil yes_ref no_ref : Ref
  item : ℕ → ℕ → Ref

-- `STable`
pub record Table : Type 0 where
  pub meta : Option ℕ
  pub items : List (Ref × Ref)

pub record ScriptData : Type 0 where
  pub numbers : List ℕ
  pub strings : List (List ℕ)
  pub vectors : List (ℕ × ℕ × ℕ)
  pub quats : List (ℕ × ℕ × ℕ × ℕ)
  pub idstrings : List ℕ
  pub tables : List Table
  pub root : Ref

-- How many items there are of each type.
abbrev pub Counts : Type 0
Counts = ℕ → ℕ

-- `ScriptData::Read`: a pointer past the end of a vector is none that C++ gives a meaning to.
unfoldable pub read_ref : Counts → ℕ → Outcome Ref
read_ref counts val =
    let type = val / 2 ^ 24 % 2 ^ 8 in
    let index = val % 2 ^ 24 in
    if type == 0
    then ok nil
    else if type == 2
    then ok no_ref
    else if type == 1
    then ok yes_ref
    else if ltb 8 type
    then stop throws
    else if ltb index (counts type)
    then ok (item type index)
    else stop undefined

unfoldable pub same_ref : Ref → Ref → Bool
same_ref nil nil = true
same_ref yes_ref yes_ref = true
same_ref no_ref no_ref = true
same_ref (item type index) (item type2 index2) = (type == type2) && (index == index2)
same_ref x y = false

-- `out.items[key] = val`; the keys stand in the order in which they came.
unfoldable pub insert_entry : Ref → Ref → List (Ref × Ref) → List (Ref × Ref)
insert_entry key val [] = (key, val) ∷ []
insert_entry key val ((k, v) ∷ rest) =
    let later = (k, v) ∷ insert_entry key val rest in
    if same_ref key k then (k, val) ∷ rest else later

-- The end of `ReadTable`.
unfoldable pub read_meta : Counts → ℕ → Outcome (Option ℕ)
read_meta counts meta =
    if meta == 0xFFFFFFFF
    then ok none
    else if ltb meta (counts 4)
    then ok (some meta)
    else stop undefined

-- A C string: the bytes before the first zero, if there is one.
unfoldable pub c_string? : List ℕ → Option (List ℕ)
c_string? [] = none
c_string? (c ∷ cs) =
    let rest = c_string? cs in
    if c == 0 then some [] else elim rest [ none ↦ none | some s ↦ some (c ∷ s) ]

-- `RawVec`
pub record RawVec : Type 0 where
  pub count : ℕ
  pub offset : ℕ

-- `sizeof(RawVec)`
abbrev pub vec_size : Bool → ℕ
vec_size is_32bit = if is_32bit then 16 else 24

unfoldable pub raw_vec : Bool → List ℕ → ℕ → Option RawVec
raw_vec is_32bit bytes pos = elim (read_le? pos 4 bytes) [
  | none ↦ none
  | some count ↦ elim (read_le? (pos + 8) (pointer_size is_32bit) bytes) [
    | none ↦ none
    | some offset ↦ some (record { count = count; offset = offset })
  ]
]

-- `readIntoVec`: the elements, each of `width` bytes.
unfoldable pub read_into_vec {ℓ} :
    {A : Type ℓ} → ℕ → (List ℕ → ℕ → Option A) → Bool → List ℕ → ℕ → Outcome (List A)
read_into_vec width element_at is_32bit bytes pos = do
  vec ← value_or (raw_vec is_32bit bytes pos) undefined
  elements undefined width (element_at bytes) vec.count vec.offset

-- The elements of the vectors: a `RawStr` gives its string, and a `RawTable` its meta and pairs.
unfoldable pub float_at : List ℕ → ℕ → Option ℕ
float_at bytes pos = read_le? pos 4 bytes

unfoldable pub idstring_at : List ℕ → ℕ → Option ℕ
idstring_at bytes pos = read_le? pos 8 bytes

unfoldable pub pair_at : List ℕ → ℕ → Option (ℕ × ℕ)
pair_at bytes pos = elim (read_le? pos 4 bytes) [
  | none ↦ none
  | some x ↦ elim (read_le? (pos + 4) 4 bytes) [ none ↦ none | some y ↦ some (x, y) ]
]

unfoldable pub vector_at : List ℕ → ℕ → Option (ℕ × ℕ × ℕ)
vector_at bytes pos = elim (pair_at bytes pos) [
  | none ↦ none
  | some (x, y) ↦ elim (read_le? (pos + 8) 4 bytes) [ none ↦ none | some z ↦ some (x, y, z) ]
]

unfoldable pub quaternion_at : List ℕ → ℕ → Option (ℕ × ℕ × ℕ × ℕ)
quaternion_at bytes pos = elim (pair_at bytes pos) [
  | none ↦ none
  | some (x, y) ↦ elim (pair_at bytes (pos + 8)) [ none ↦ none | some (z, w) ↦ some (x, y, z, w) ]
]

unfoldable pub string_at : Bool → List ℕ → ℕ → Option (List ℕ)
string_at is_32bit bytes pos =
    elim (read_le? (pos + pointer_size is_32bit) (pointer_size is_32bit) bytes) [
      | none ↦ none
      | some str ↦ c_string? (drop str bytes)
    ]

-- The meta, which `ReadTable` takes as a uint32_t, and the vector of a `RawTable`.
unfoldable pub raw_table : Bool → List ℕ → ℕ → Option (ℕ × RawVec)
raw_table is_32bit bytes pos = elim (read_le? pos (pointer_size is_32bit) bytes) [
  | none ↦ none
  | some meta ↦ elim (raw_vec is_32bit bytes (pos + pointer_size is_32bit)) [
    | none ↦ none
    | some contents ↦ some (meta % 2 ^ 32, contents)
  ]
]

-- The loop of `ReadTable`, over `n` pairs from a place on.
unfoldable pub read_entries :
    Counts → List ℕ → ℕ → ℕ → List (Ref × Ref) → Outcome (List (Ref × Ref))
read_entries counts bytes zero pos out = ok out
read_entries counts bytes (suc n) pos out = do
  (first, second) ← value_or (pair_at bytes pos) undefined
  key ← read_ref counts first
  val ← read_ref counts second
  read_entries counts bytes n (pos + 8) (insert_entry key val out)

-- `ReadTable`
unfoldable pub read_table : Counts → List ℕ → RawVec → ℕ → Outcome Table
read_table counts bytes contents meta = do
  items ← read_entries counts bytes contents.count contents.offset []
  m ← read_meta counts meta
  ok (record { meta = m; items = items })

-- `readIntoVec` for the tables, from a place on.
unfoldable pub read_tables : Bool → Counts → List ℕ → ℕ → ℕ → Outcome (List Table)
read_tables b counts bytes zero pos = ok []
read_tables b counts bytes (suc n) pos = do
  (meta, contents) ← value_or (raw_table b bytes pos) undefined
  table ← read_table counts bytes contents meta
  tables ← read_tables b counts bytes n (pos + pointer_size b + vec_size b)
  ok (table ∷ tables)

-- The sizes of the vectors when the tables are read.
unfoldable pub counts_of : ℕ → ℕ → ℕ → ℕ → ℕ → ℕ → Counts
counts_of numbers strings vectors quats idstrings tables type =
    if type == 3
    then numbers
    else if type == 4
    then strings
    else if type == 5
    then vectors
    else if type == 6
    then quats
    else if type == 7
    then idstrings
    else tables

-- The constructor for a known size of pointers.
unfoldable pub read_script : Bool → List ℕ → Outcome ScriptData
read_script b bytes = do
  let start = pointer_size b
  numbers ← read_into_vec 4 float_at b bytes start
  strings ← read_into_vec (2 * pointer_size b) (string_at b) b bytes (start + vec_size b)
  vectors ← read_into_vec 12 vector_at b bytes (start + 2 * vec_size b)
  quats ← read_into_vec 16 quaternion_at b bytes (start + 3 * vec_size b)
  idstrings ← read_into_vec 8 idstring_at b bytes (start + 4 * vec_size b)
  raw ← value_or (raw_vec b bytes (start + 5 * vec_size b)) undefined
  let counts =
      counts_of (length numbers) (length strings) (length vectors) (length quats) (length idstrings)
        raw.count
  tables ← read_tables b counts bytes raw.count raw.offset
  val ← value_or (read_le? (start + 6 * vec_size b) 4 bytes) undefined
  root ← read_ref counts val
  ok (record {
    numbers = numbers;
    strings = strings;
    vectors = vectors;
    quats = quats;
    idstrings = idstrings;
    tables = tables;
    root = root;
  })

-- The constructor
unfoldable pub read_data : List ℕ → Outcome ScriptData
read_data bytes = do b ← determine_is_32bit bytes; read_script b bytes
