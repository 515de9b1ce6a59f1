-- ===== src/Base/Bytes.antt =====
-- Byte sequences: little-endian words, and slices that fail out of range.
use Prim.Native.Nat.{ℕ, zero, suc, ◌+◌, ◌*◌, ◌/◌, ◌%◌, ◌^◌, ◌<◌}
use mathlib.Core.Path.{◌≡◌, refl, ap, ◌∙◌, subst}
use mathlib.Core.List.{List, [], ◌∷◌, ◌++◌}
use mathlib.Core.Option
use mathlib.Core.Option.{Option, none, some}
use native.Mathlib.Nat.{pow-suc}
use native.Mathlib.Omega.{arith}
use raid_super_blt.Base.Tests.{leb, if◌then◌else◌, le→leb}
use raid_super_blt.Base.Lists.{
  length, take, drop, take-append_length, drop-append_length, length-append,
}

-- The number that little-endian bytes stand for.
unfoldable pub of_le : List ℕ → ℕ
of_le [] = 0
of_le (b ∷ bs) = b + 256 * of_le bs

-- The low `n` bytes of a number, least significant first.
unfoldable pub le_bytes : ℕ → ℕ → List ℕ
le_bytes zero v = []
le_bytes (suc n) v = (v % 256) ∷ le_bytes n (v / 256)

-- `len` bytes from `offset`, or none if they are not all there.
unfoldable pub slice? : ℕ → ℕ → List ℕ → Option (List ℕ)
slice? offset len xs =
    if leb (offset + len) (length xs) then some (take len (drop offset xs)) else none

unfoldable pub read_le? : ℕ → ℕ → List ℕ → Option ℕ
unfolding slice? of_le
read_le? offset len xs = Option.map of_le (slice? offset len xs)

abbrev pub AllBytes : List ℕ → Type 0
AllBytes [] = Unit {0}
AllBytes (b ∷ bs) = (b < 256) × AllBytes bs

pub length-le_bytes : (n v : ℕ) → length (le_bytes n v) ≡ n
unfolding le_bytes
length-le_bytes zero v = refl
length-le_bytes (suc n) v = ap suc (length-le_bytes n (v / 256))

pub le_bytes-AllBytes : (n v : ℕ) → AllBytes (le_bytes n v)
unfolding le_bytes
le_bytes-AllBytes zero v = tt
le_bytes-AllBytes (suc n) v = (omega arith, le_bytes-AllBytes n (v / 256))

pub of_le-lt : (bs : List ℕ) → AllBytes bs → of_le bs < 256 ^ length bs
unfolding of_le
of_le-lt [] h = omega arith
of_le-lt (b ∷ bs) h = omega (arith, of_le-lt bs h.1, h.0, pow-suc 256 (length bs))

-- A value that fits is read back from its bytes.
pub of_le-le_bytes : (n v : ℕ) → v < 256 ^ n → of_le (le_bytes n v) ≡ v
unfolding of_le le_bytes
of_le-le_bytes zero v h = omega arith
of_le-le_bytes (suc n) v h =
    omega (arith, of_le-le_bytes n (v / 256) (omega (arith, pow-suc 256 n)))

pub slice?-append :
    (xs ys zs : List ℕ) → slice? (length xs) (length ys) (xs ++ (ys ++ zs)) ≡ some ys
unfolding slice?
slice?-append xs ys zs = rw (
  le→leb (length xs + length ys) (length (xs ++ (ys ++ zs)))
      (omega (arith, length-append xs (ys ++ zs), length-append ys zs)),
  drop-append_length xs (ys ++ zs),
  take-append_length ys zs,
)

-- A word that stands behind other bytes.
pub read_le?-append :
    (before after : List ℕ) (n v : ℕ)
    → v < 256 ^ n
    → read_le? (length before) n (before ++ (le_bytes n v ++ after)) ≡ some v
unfolding read_le?
read_le?-append before after n v h =
    ap (Option.map of_le) (
      subst
        (λ k. slice? (length before) k (before ++ (le_bytes n v ++ after)) ≡ some (le_bytes n v))
        (length-le_bytes n v) (slice?-append before (le_bytes n v) after))
    ∙ ap some (of_le-le_bytes n v h)
