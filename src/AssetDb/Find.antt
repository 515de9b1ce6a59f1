-- ===== src/AssetDb/Find.antt =====
-- Which file src/luautil/LuaAssetDb.cpp finds in a database that src/dbutil/DB.cpp has built.
use raid_super_blt.Base.{
  ℕ, zero, suc, ◌+◌, ◌^◌, ◌≤◌, ◌<◌, ◌≡◌, refl, ap, ◌∙◌, inl, inr, Bool, true, false, Option, none,
  some, List, [], ◌∷◌, length, ◌==◌, if◌then◌else◌, ==→eq, Bool-cases, arith,
}
use raid_super_blt.Outcome.{ok, ◌>>=◌, >>=-eq-ok}
use raid_super_blt.Idstring.{IdFile}
use raid_super_blt.Diesel.{DieselDb, DslFile, FilePtr, MiniFile, deref, find, build, language_of}
use raid_super_blt.Diesel.Files.{pointer_to, entry_for}
use raid_super_blt.Diesel.Files.Chains.{
  Chain, with_key, reverse_onto, InRange, Distinct, build-IsBuilt,
}
use raid_super_blt.AssetDb.{
  Value, check_string, to_idstring, wanted_language, in_language, find_file, ldb_has,
}

module _ (langs : List (ℕ × ℕ)) (lang : ℕ) where
  -- The first mini file of a list that is in a language.
  unfoldable pub first_in : List MiniFile → Option MiniFile
  first_in [] = none
  first_in (m ∷ ms) =
      let rest = first_in ms in if language_of langs m.lang_id == lang then some m else rest

  -- Whether a search ended with the entry of a mini file, or with nothing where there is none.
  abbrev pub Answers : Option MiniFile → Option DslFile → Type 0
  Answers none none = Unit
  Answers none (some f) = ⊥
  Answers (some m) none = ⊥
  Answers (some m) (some f) =
      (f.name ≡ m.name) × (f.type ≡ m.type) × (f.file_id ≡ m.file_id) × (f.lang_id ≡ lang)

  -- A round on a file: it is the one, or the search goes on behind it.
  found_round :
      (fuel : ℕ) (db : DieselDb) (fi : FilePtr) (f : DslFile)
      → deref db fi ≡ ok f
      → (f.lang_id == lang) ≡ true
      → in_language (suc fuel) db lang (some fi) ≡ ok (some f)
  unfolding in_language
  found_round fuel db fi f d e = ground (arith, d, e)

  other_round :
      (fuel : ℕ) (db : DieselDb) (fi : FilePtr) (f : DslFile)
      → deref db fi ≡ ok f
      → (f.lang_id == lang) ≡ false
      → in_language (suc fuel) db lang (some fi) ≡ in_language fuel db lang f.next
  unfolding in_language
  other_round fuel db fi f d e = ground (arith, d, e)

  in_language-Chain :
      (fuel : ℕ) (db : DieselDb) (p : Option FilePtr) (ms : List MiniFile)
      → db.allocation ≡ 0
      → length ms ≤ fuel
      → Chain langs db.files_list p ms
      → (file : Option DslFile) × (in_language fuel db lang p ≡ ok file)
        × Answers (first_in ms) file
  unfolding in_language Chain first_in deref
  in_language-Chain fuel db p [] first enough c = (none, rw (c, in_language) refl, tt)
  in_language-Chain zero db p (m ∷ ms) first enough c = absurd (omega arith)
  in_language-Chain (suc fuel) db p (m ∷ ms) first enough (old, next, at, there, rest) =
      let f = entry_for langs m next old in
      let at_first : deref db (pointer_to m.file_id) ≡ ok f = rw (deref, first, there) refl in
      elim (Bool-cases (language_of langs m.lang_id == lang)) [
        | inl e ↦ (
          some f,
          rw at (found_round fuel db (pointer_to m.file_id) f at_first e),
          rw (first_in, e) (refl, refl, refl, ==→eq _ lang e),
        )
        | inr e ↦
            let (file, found, answers) =
              in_language-Chain fuel db next ms first (omega arith) rest in
            (
              file,
              rw at (other_round fuel db (pointer_to m.file_id) f at_first e ∙ found),
              rw (first_in, e) answers,
            )
      ]

length-with_key : (k : IdFile) (ms : List MiniFile) → length (with_key k ms) ≤ length ms
unfolding with_key
length-with_key k [] = omega arith
length-with_key k (m ∷ ms) = ground (arith, length-with_key k ms)

length-reverse_onto :
    (ms past : List MiniFile) → length (reverse_onto ms past) ≡ length ms + length past
length-reverse_onto [] past = omega arith
length-reverse_onto (m ∷ ms) past = omega (arith, length-reverse_onto ms (m ∷ past))

-- In a database that was built from files whose ids are those of a sequence from 1, in any order,
-- the search of `find_file` ends, and finds the last of the files that has the name, the type and
-- the language that the arguments ask for, or nothing if there is none, which is also what
-- `has_file` answers.
pub find_file-build :
    (langs : List (ℕ × ℕ)) (minis : List MiniFile) (db : DieselDb)
    (name_arg ext_arg options : Value) (name ext lang : ℕ)
    → length minis < 2 ^ 32
    → InRange (length minis) minis
    → Distinct minis
    → build langs minis ≡ ok db
    → (check_string name_arg >>= to_idstring) ≡ ok name
    → (check_string ext_arg >>= to_idstring) ≡ ok ext
    → wanted_language options ≡ ok lang
    → (file : Option DslFile) × (find_file db name_arg ext_arg options ≡ ok file)
      × Answers langs lang
          (first_in langs lang
            (with_key (record { name = name; ext = ext }) (reverse_onto minis [])))
          file
      × (ldb_has db name_arg ext_arg options ≡ ok (elim file [ none ↦ false | some f ↦ true ]))
unfolding find_file ldb_has find
find_file-build langs minis db name_arg ext_arg options name ext lang small r distinct e named typed
      wanted =
    let b = build-IsBuilt langs minis db small r distinct e in
    let k : IdFile = record { name = name; ext = ext } in
    let (name_str, name_read, name_id) = >>=-eq-ok (check_string name_arg) to_idstring named in
    let (ext_str, ext_read, ext_id) = >>=-eq-ok (check_string ext_arg) to_idstring typed in
    let (file, found, answers) =
      in_language-Chain langs lang (length db.files_list) db (find db name ext)
        (with_key k (reverse_onto minis [])) b.first_allocation
        (omega
          (arith, b.sized, length-with_key k (reverse_onto minis []), length-reverse_onto minis []))
        (b.chains k) in
    let whole : find_file db name_arg ext_arg options ≡ ok file =
      rw (name_read, name_id, ext_read, ext_id, wanted) found in
    (
      file,
      whole,
      answers,
      ap (λ m. m >>= λ f. ok (elim f as (λ _. Bool) [ none ↦ false | some g ↦ true ])) whole,
    )
