-- ===== src/Idstring/Hex.antt =====
-- The text of idstrings: `%016llx` of snprintf, strtoull at base 16, and parseHash of
-- src/tweaker/db_hooks.cpp. A text is the list of its bytes, none of which is 0.
pub mod RoundTrip
use raid_super_blt.Base.{
  ℕ, zero, suc, ◌+◌, ◌-◌, ◌*◌, ◌/◌, ◌%◌, ◌^◌, Bool, true, false, ◌&&◌, ◌||◌, Option, none, some,
  List, [], ◌∷◌, ◌++◌, length, ltb, leb, ◌==◌, if◌then◌else◌,
}
use raid_super_blt.Outcome.{Outcome, ok, stop, aborts}
use raid_super_blt.Idstring.Hash.{u64, idstring_hash}

-- A lower-case digit of `%llx`.
hex_char : ℕ → ℕ
hex_char d = if ltb d 10 then 48 + d else 87 + d

pub hex_digits : ℕ → ℕ → List ℕ
hex_digits zero n = []
hex_digits (suc k) n = hex_digits k (n / 16) ++ hex_char (n % 16) ∷ []

-- snprintf with IDPF, `%016llx`.
pub print_id : ℕ → List ℕ
print_id n = hex_digits 16 n

digit_value : ℕ → Option ℕ
digit_value c =
    if leb 48 c && leb c 57
    then some (c - 48)
    else if leb 97 c && leb c 102
    then some (c - 87)
    else if leb 65 c && leb c 70
    then some (c - 55)
    else none

is_digit : ℕ → Bool
is_digit c = elim (digit_value c) [ none ↦ false | some _ ↦ true ]

-- The longest run of hexadecimal digits, as a number, and what follows it.
pub digit_run : ℕ → List ℕ → ℕ × List ℕ
digit_run n [] = (n, [])
digit_run n (c ∷ cs) = elim (digit_value c) [
  | none ↦ (n, c ∷ cs)
  | some d ↦ digit_run (n * 16 + d) cs
]

-- isspace in the C locale
skip_spaces : List ℕ → List ℕ
skip_spaces [] = []
skip_spaces (c ∷ cs) = if (c == 32) || (leb 9 c && leb c 13) then skip_spaces cs else c ∷ cs

-- An optional `-` or `+`: whether the number is negated, and the rest.
take_sign : List ℕ → Bool × List ℕ
take_sign [] = (false, [])
take_sign (c ∷ cs) =
    if c == 45 then (true, cs) else if c == 43 then (false, cs) else (false, c ∷ cs)

-- An optional `0x` or `0X`, taken only before a digit.
skip_prefix : List ℕ → List ℕ
skip_prefix (z ∷ x ∷ d ∷ cs) =
    if (z == 48) && (((x == 120) || (x == 88)) && is_digit d) then d ∷ cs else z ∷ x ∷ d ∷ cs
skip_prefix cs = cs

-- What strtoull leaves behind: its value, where it stopped, and whether errno is ERANGE.
pub record Conversion : Type 0 where
  pub value : ℕ
  pub rest : List ℕ
  pub range_error : Bool

finish : Bool → ℕ → List ℕ → Conversion
finish negated n rest =
    if ltb n u64
    then record { value = if negated then (u64 - n) % u64 else n; rest = rest; range_error = false }
    else record { value = u64 - 1; rest = rest; range_error = true }

-- With no digit there is no conversion: the value is 0 and the end pointer is the start.
convert : List ℕ → Bool → List ℕ → Conversion
convert start negated [] = record { value = 0; rest = start; range_error = false }
convert start negated (c ∷ cs) =
    if is_digit c
    then (let (n, rest) = digit_run 0 (c ∷ cs) in finish negated n rest)
    else record { value = 0; rest = start; range_error = false }

-- strtoull(text, &end, 16)
pub strtoull16 : List ℕ → Conversion
strtoull16 text =
    let (negated, digits) = take_sign (skip_spaces text) in
    convert text negated (skip_prefix digits)

-- The two errors of parseHash: a number out of range, and an end before the 17th byte.
checked : Conversion → Outcome ℕ
checked c =
    if c.range_error then stop aborts else elim c.rest [ [] ↦ ok c.value | _ ∷ _ ↦ stop aborts ]

-- `parseHash`: an id literal is an `@` and 16 bytes; any other text is hashed.
pub parse_hash : List ℕ → Outcome ℕ
parse_hash [] = ok (idstring_hash [])
parse_hash (c ∷ cs) =
    if (length (c ∷ cs) == 17) && (c == 64)
    then checked (strtoull16 cs)
    else ok (idstring_hash (c ∷ cs))
