-- ===== src/Idstring.antt =====
-- src/platform.h: idstrings and asset identifiers. An idstring is a native number below 2 ^ 64.
pub mod Hash
pub mod Hex
pub mod FileMap
mod Tests
use raid_super_blt.Base.{ℕ, ◌<◌, ◌^◌, ◌≡◌, Bool, true, ◌&&◌, ◌==◌, arith, refl}

-- `idfile`: the hashed name and the hashed extension of an asset.
pub record IdFile : Type 0 where
  pub name : ℕ
  pub ext : ℕ

-- `operator ==` of idfile
abbrev pub same_file : IdFile → IdFile → Bool
same_file a b = (b.name == a.name) && (b.ext == a.ext)

-- `idfile::is_empty`
abbrev pub is_empty : IdFile → Bool
is_empty f = (f.name == 0) && (f.ext == 0)

abbrev pub no_file : IdFile
no_file = record { name = 0; ext = 0 }

pub same_file→eq : (a b : IdFile) → same_file a b ≡ true → a ≡ b
same_file→eq a b h = ground arith

pub same_file_refl : (a : IdFile) → same_file a a ≡ true
same_file_refl a = ground arith
