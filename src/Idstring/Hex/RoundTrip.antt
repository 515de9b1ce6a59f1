-- ===== src/Idstring/Hex/RoundTrip.antt =====
-- Id literals that the code prints are read back by parseHash of src/tweaker/db_hooks.cpp.
use raid_super_blt.Base.{
  ℕ, zero, suc, ◌+◌, ◌*◌, ◌/◌, ◌%◌, ◌^◌, ◌≤◌, ◌<◌, ◌≡◌, ◌≢◌, refl, ap, ◌∙◌, sym, false, some, List,
  [], ◌∷◌, ◌++◌, append_assoc, append-nil, length, length-append, arith,
}
use raid_super_blt.Outcome.{ok}
use raid_super_blt.Idstring.Hash.{u64, idstring_hash}
use raid_super_blt.Idstring.Hex.{
  hex_char, hex_digits, print_id, digit_value, digit_run, skip_spaces, take_sign, skip_prefix,
  finish, convert, strtoull16, checked, parse_hash, is_digit,
}
use native.Mathlib.Nat.{pow-suc}

digit_value-hex_char : (d : ℕ) → d < 16 → digit_value (hex_char d) ≡ some d
unfolding digit_value hex_char
digit_value-hex_char d h = ground arith

digit_run_step :
    (acc d : ℕ) (rest : List ℕ)
    → d < 16
    → digit_run acc (hex_char d ∷ rest) ≡ digit_run (acc * 16 + d) rest
unfolding digit_run
digit_run_step acc d rest h = rw (digit_value-hex_char d h, digit_run)

-- Reading the printed digits of a number that fits, before any text.
digit_run-hex_digits :
    (k acc n : ℕ) (rest : List ℕ)
    → n < 16 ^ k
    → digit_run acc (hex_digits k n ++ rest) ≡ digit_run (acc * 16 ^ k + n) rest
unfolding hex_digits digit_run
digit_run-hex_digits zero acc n rest h = ap (λ t. digit_run t rest) (omega arith)
digit_run-hex_digits (suc k) acc n rest h =
    ap (digit_run acc) (append_assoc (hex_digits k (n / 16)) (hex_char (n % 16) ∷ []) rest)
    ∙ (digit_run-hex_digits k acc (n / 16) (hex_char (n % 16) ∷ rest) (omega (arith, pow-suc 16 k))
        ∙ (digit_run_step (acc * 16 ^ k + n / 16) (n % 16) rest (omega arith)
            ∙ ap (λ t. digit_run t rest) (omega (arith, ap (λ (t : ℕ). acc * t) (pow-suc 16 k)))))

abbrev IsHex : ℕ → Type 0
IsHex c = (d : ℕ) × (d < 16) × (c ≡ hex_char d)

abbrev AllHex : List ℕ → Type 0
AllHex [] = Unit {0}
AllHex (c ∷ cs) = IsHex c × AllHex cs

AllHex-append : (xs ys : List ℕ) → AllHex xs → AllHex ys → AllHex (xs ++ ys)
AllHex-append [] ys hx hy = hy
AllHex-append (x ∷ xs) ys hx hy = (hx.0, AllHex-append xs ys hx.1 hy)

hex_digits-AllHex : (k n : ℕ) → AllHex (hex_digits k n)
unfolding hex_digits
hex_digits-AllHex zero n = tt
hex_digits-AllHex (suc k) n =
    AllHex-append (hex_digits k (n / 16)) (hex_char (n % 16) ∷ []) (hex_digits-AllHex k (n / 16))
      ((n % 16, omega arith, refl), tt)

pub length-hex_digits : (k n : ℕ) → length (hex_digits k n) ≡ k
unfolding hex_digits
length-hex_digits zero n = refl
length-hex_digits (suc k) n = omega (
  arith,
  length-append (hex_digits k (n / 16)) (hex_char (n % 16) ∷ []),
  length-hex_digits k (n / 16),
)

-- What stands in front of the digits is looked for in vain, whatever is behind them.
module _ (c : ℕ) (cs : List ℕ) (hex : IsHex c) where
  skip_spaces-IsHex : skip_spaces (c ∷ cs) ≡ c ∷ cs
  unfolding skip_spaces hex_char
  skip_spaces-IsHex = ground arith

  take_sign-IsHex : take_sign (c ∷ cs) ≡ (false, c ∷ cs)
  unfolding take_sign hex_char
  take_sign-IsHex = ground arith

  convert-IsHex :
      (start rest : List ℕ) (n : ℕ)
      → digit_run 0 (c ∷ cs) ≡ (n, rest)
      → n < u64
      → convert start false (c ∷ cs) ≡ record { value = n; rest = rest; range_error = false }
  unfolding convert finish is_digit
  convert-IsHex start rest n e fits = ground (arith, digit_value-hex_char hex.0 hex.1, e)

skip_prefix-IsHex :
    (z x d : ℕ) (cs : List ℕ) → IsHex x → skip_prefix (z ∷ x ∷ d ∷ cs) ≡ z ∷ x ∷ d ∷ cs
unfolding skip_prefix hex_char
skip_prefix-IsHex z x d cs hex = ground arith

-- The conversion of at least three digits and what is behind them.
strtoull16-AllHex :
    (cs rest : List ℕ) (n : ℕ)
    → AllHex cs
    → 3 ≤ length cs
    → digit_run 0 (cs ++ rest) ≡ (n, rest)
    → n < u64
    → strtoull16 (cs ++ rest) ≡ record { value = n; rest = rest; range_error = false }
unfolding strtoull16
strtoull16-AllHex [] rest n h long e fits = absurd (omega arith)
strtoull16-AllHex (z ∷ []) rest n h long e fits = absurd (omega arith)
strtoull16-AllHex (z ∷ x ∷ []) rest n h long e fits = absurd (omega arith)
strtoull16-AllHex (z ∷ x ∷ d ∷ cs) rest n h long e fits =
    rw
      (
        skip_spaces-IsHex z (x ∷ d ∷ (cs ++ rest)) h.0,
        take_sign-IsHex z (x ∷ d ∷ (cs ++ rest)) h.0,
        skip_prefix-IsHex z x d (cs ++ rest) h.1.0,
      )
      (convert-IsHex z (x ∷ d ∷ (cs ++ rest)) h.0 (z ∷ x ∷ d ∷ (cs ++ rest)) rest n e fits)

-- A printed id in front of a text that goes on with no digit.
pub strtoull16-append :
    (n : ℕ) (rest : List ℕ)
    → n < u64
    → digit_run n rest ≡ (n, rest)
    → strtoull16 (print_id n ++ rest) ≡ record { value = n; rest = rest; range_error = false }
unfolding print_id
strtoull16-append n rest h stops =
    strtoull16-AllHex (hex_digits 16 n) rest n (hex_digits-AllHex 16 n)
      (omega (arith, length-hex_digits 16 n))
      (digit_run-hex_digits 16 0 n rest h
        ∙ (ap (λ t. digit_run t rest) {x = 0 * 16 ^ 16 + n} {y = n} (omega arith) ∙ stops))
      h

pub strtoull16-print_id :
    (n : ℕ)
    → n < u64
    → strtoull16 (print_id n) ≡ record { value = n; rest = []; range_error = false }
unfolding digit_run
strtoull16-print_id n h =
    ap strtoull16 (sym (append-nil (print_id n))) ∙ strtoull16-append n [] h refl

-- A `!` is no digit.
pub digit_run-mark : (n : ℕ) → digit_run n (33 ∷ []) ≡ (n, 33 ∷ [])
unfolding digit_run digit_value
digit_run-mark n = refl

parse_hash_literal : (cs : List ℕ) → length cs ≡ 16 → parse_hash (64 ∷ cs) ≡ checked (strtoull16 cs)
unfolding parse_hash
parse_hash_literal cs e = rw (e, parse_hash)

-- A text that is not 17 bytes long is hashed.
pub parse_hash_other : (cs : List ℕ) → length cs ≢ 17 → parse_hash cs ≡ ok (idstring_hash cs)
unfolding parse_hash
parse_hash_other [] h = refl
parse_hash_other (c ∷ cs) h = ground arith

pub length-print_id : (n : ℕ) → length (print_id n) ≡ 16
unfolding print_id
length-print_id n = length-hex_digits 16 n

-- What `@` and a printed id stand for is that id.
pub parse_hash-print_id : (n : ℕ) → n < u64 → parse_hash (64 ∷ print_id n) ≡ ok n
unfolding checked
parse_hash-print_id n h =
    parse_hash_literal (print_id n) (length-print_id n) ∙ ap checked (strtoull16-print_id n h)

-- A printed id without the `@` is hashed like any other text.
pub parse_hash-print_id_bare : (n : ℕ) → parse_hash (print_id n) ≡ ok (idstring_hash (print_id n))
parse_hash-print_id_bare n =
    parse_hash_other (print_id n) (λ e. absurd (omega (arith, length-print_id n)))
