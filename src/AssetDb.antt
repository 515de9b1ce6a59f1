-- ===== src/AssetDb.antt =====
-- src/luautil/LuaAssetDb.cpp: the functions by which Lua scripts read the game's assets.
pub mod Find
pub mod Literals
mod Tests
use raid_super_blt.Base.{
  ℕ, zero, suc, ◌+◌, ◌-◌, ◌*◌, ◌/◌, ◌%◌, ◌^◌, Bool, true, false, ◌&&◌, ◌||◌, not, Option, none,
  some, List, [], ◌∷◌, ◌++◌, length, get_elem?, get_or, ◌==◌, if◌then◌else◌,
}
use raid_super_blt.Outcome.{
  Outcome, ok, stop, io_fails, undefined, raises, out_of_fuel, value_or, ◌>>=◌,
}
use raid_super_blt.Datastore.{Disk}
use raid_super_blt.FontData.{c_string}
use raid_super_blt.Idstring.Hash.{idstring_hash}
use raid_super_blt.Idstring.Hex.{Conversion, strtoull16}
use raid_super_blt.Diesel.{DieselDb, DslFile, FilePtr, find, deref}
use raid_super_blt.Diesel.Contents.{Uncompress, read_contents}

-- What Lua passes: a number has the text that lua_tostring makes of it, and a table the values of
-- its fields `language` and `optional`.
pub data Value : Type 0 where
  nil_value other_value : Value
  boolean_value : Bool → Value
  string_value number_value : List ℕ → Value
  table_value : Value → Value → Value

-- lua_toboolean
unfoldable pub to_boolean : Value → Bool
to_boolean nil_value = false
to_boolean (boolean_value b) = b
to_boolean other = true

-- luaL_checkstring, as a C string
unfoldable pub check_string : Value → Outcome (List ℕ)
check_string (string_value text) = ok (c_string text)
check_string (number_value text) = ok (c_string text)
check_string other = stop raises

-- The string of an option, which a number is not taken for.
unfoldable pub option_string : Value → Outcome (List ℕ)
option_string (string_value text) = ok (c_string text)
option_string other = stop raises

-- The loop that swaps the bytes: the lowest of `n` bytes becomes the highest.
unfoldable pub swap_bytes : ℕ → ℕ → ℕ
swap_bytes zero value = 0
swap_bytes (suc n) value = (value % 256) * 256 ^ n + swap_bytes n (value / 256)

-- A text of `#` and 16 characters, or of those and a `!`.
unfoldable pub is_literal : List ℕ → Bool
is_literal str =
    (get_or str 0 0 == 35)
    && ((length str == 17) || ((length str == 18) && (get_or str 17 0 == 33)))

-- The conversion of a literal, of which `digits` is what stands behind the `#`.
unfoldable pub literal : ℕ → List ℕ → Outcome ℕ
literal len digits =
    let c = strtoull16 digits in
    let stops_early = not (length c.rest == 0) && not (len - length c.rest == 17) in
    if stops_early then stop raises else if len == 17 then ok c.value else ok (swap_bytes 8 c.value)

-- `to_idstring` on the string of its argument
unfoldable pub to_idstring : List ℕ → Outcome ℕ
to_idstring [] = ok (idstring_hash [])
to_idstring (c ∷ cs) =
    if is_literal (c ∷ cs) then literal (length (c ∷ cs)) cs else ok (idstring_hash (c ∷ cs))

-- The language that the options ask for.
unfoldable pub wanted_language : Value → Outcome ℕ
wanted_language (table_value language optional) =
    if to_boolean language then (do str ← option_string language; to_idstring str) else ok 0
wanted_language other = ok 0

-- The loop over the versions of a file, on fuel for its rounds.
unfoldable pub in_language : ℕ → DieselDb → ℕ → Option FilePtr → Outcome (Option DslFile)
in_language fuel db lang none = ok none
in_language zero db lang (some fi) = stop out_of_fuel
in_language (suc fuel) db lang (some fi) = do
  file ← deref db fi
  elim (file.lang_id == lang) [ true ↦ ok (some file) | false ↦ in_language fuel db lang file.next ]

-- `find_file`
unfoldable pub find_file : DieselDb → Value → Value → Value → Outcome (Option DslFile)
find_file db name_arg ext_arg options = do
  name_str ← check_string name_arg
  name ← to_idstring name_str
  ext_str ← check_string ext_arg
  ext ← to_idstring ext_str
  lang ← wanted_language options
  in_language (length db.files_list) db lang (find db name ext)

-- `ldb_has`
unfoldable pub ldb_has : DieselDb → Value → Value → Value → Outcome Bool
ldb_has db name_arg ext_arg options = do
  file ← find_file db name_arg ext_arg options
  ok (elim file [ none ↦ false | some f ↦ true ])

unfoldable pub is_optional : Value → Bool
is_optional (table_value language optional) = to_boolean optional
is_optional other = false

-- The catch of std::ios::failure in `ldb_load`; other exceptions pass.
unfoldable pub catch_failure : Outcome (List ℕ) → Outcome (Option (List ℕ))
catch_failure (ok contents) = ok (some contents)
catch_failure (stop io_fails) = stop raises
catch_failure (stop s) = stop s

-- `ldb_load` for a file that was found
unfoldable pub read_found : Uncompress → Disk → DieselDb → DslFile → Outcome (Option (List ℕ))
read_found uncompress disk db file = elim file.bundle [
  | none ↦ stop raises
  | some b ↦ do
    bundle ← value_or (get_elem? db.bundles b) undefined
    elim (disk bundle.path) [
      | none ↦ stop raises
      | some fi ↦ catch_failure (read_contents uncompress file bundle fi)
    ]
]

-- `ldb_load`, whose result is nil or a string
unfoldable pub ldb_load :
    Uncompress → Disk → DieselDb → Value → Value → Value → Outcome (Option (List ℕ))
ldb_load uncompress disk db name_arg ext_arg options = do
  name_str ← check_string name_arg
  name ← to_idstring name_str
  ext_str ← check_string ext_arg
  ext ← to_idstring ext_str
  file ← find_file db name_arg ext_arg options
  elim file [
    | none ↦ if is_optional options then ok none else stop raises
    | some f ↦ read_found uncompress disk db f
  ]
