-- ===== src/Diesel/Files/Returns.antt =====
-- The constructor of src/dbutil/DB.cpp builds its list from files whose ids are in order and
-- whose translations differ.
use raid_super_blt.Base.{
  ℕ, ◌-◌, ◌≤◌, ◌<◌, ◌^◌, ◌≡◌, ◌≢◌, refl, ◌∙◌, subst, true, some, List, [], ◌∷◌, length, get_elem?,
  get_elem?-some, get_elem?-set_ne, arith, All, Option-cases, inl, inr, ◌==◌, ◌&&◌,
}
use raid_super_blt.Outcome.{ok}
use raid_super_blt.Idstring.FileMap.{lookup, insert}
use raid_super_blt.Diesel.{
  DieselDb, DslFile, FilePtr, MiniFile, mini_key, deref, grow, place_of, fill, link, add_file,
  add_files, build, find, resized, language_of, key,
}
use raid_super_blt.Diesel.Files.{grow_none, place_in_range, written, relinked}
use raid_super_blt.Diesel.Files.Chains.{
  with_key, Chain, Differ, InRange, Distinct, IsBuilt, reverse_onto, with_key-All, add_file-IsBuilt,
  still_fresh, nothing_past, resized-IsBuilt,
}

-- The words that the loop asserts to be zero.
abbrev pub IsPadded : MiniFile → Type 0
IsPadded m = (m.zero_1 ≡ 0) × (m.zero_2 ≡ 0)

-- Each file is in another language than the files of its key before it, those of `past` first.
abbrev pub Translations : List (ℕ × ℕ) → List MiniFile → List MiniFile → Type 0
Translations langs past [] = Unit {0}
Translations langs past (m ∷ minis) =
    All (λ o. language_of langs o.lang_id ≢ language_of langs m.lang_id)
      (with_key (mini_key m) past)
    × Translations langs (m ∷ past) minis

module _ (langs : List (ℕ × ℕ)) (db : DieselDb) (m : MiniFile) (n : ℕ) (past : List MiniFile)
    (b : IsBuilt langs n past db) (old : DslFile) (positive : 0 < m.file_id) where
  -- The earlier file of the key, where there is one, is at another place and in another language.
  link_again_ok :
      (earlier : List MiniFile) (prev : FilePtr)
      → Chain langs db.files_list (some prev) earlier
      → All (λ o. (0 < o.file_id) × (o.file_id ≤ n)) earlier
      → Differ m.file_id earlier
      → All (λ o. language_of langs o.lang_id ≢ language_of langs m.lang_id) earlier
      → lookup (mini_key m) db.files ≡ some prev
      → (db2 : DieselDb) × (link
            (written langs db m (m.file_id - 1) (fill langs m old))
            (m.file_id - 1)
            (fill langs m old)
          ≡ ok db2)
  unfolding link fill deref Chain
  link_again_ok [] prev c r d l at_key = cc
  link_again_ok (o ∷ earlier) prev (before, next, at_p, here, rest) r d l at_key =
      let kept =
        get_elem?-set_ne db.files_list (m.file_id - 1) (o.file_id - 1) (fill langs m old)
          (λ e. d.0 (omega (arith, r.0.0)))
        ∙ here in
      (
        relinked langs db m (m.file_id - 1) (fill langs m old) prev,
        ground (arith, at_key, at_p, b.first_allocation, kept, l.0),
      )

  link_ok :
      InRange n past
      → Differ m.file_id past
      → All
          (λ o. language_of langs o.lang_id ≢ language_of langs m.lang_id)
          (with_key (mini_key m) past)
      → (db2 : DieselDb) × (link
            (written langs db m (m.file_id - 1) (fill langs m old))
            (m.file_id - 1)
            (fill langs m old)
          ≡ ok db2)
  unfolding link fill
  link_ok r d l = elim (Option-cases (lookup (mini_key m) db.files)) [
    | inl first ↦ (written langs db m (m.file_id - 1) (fill langs m old), ground (arith, first))
    | inr (prev, again) ↦
        link_again_ok (with_key (mini_key m) past) prev
          (subst (λ p. Chain langs db.files_list p (with_key (mini_key m) past)) again
            (b.chains (mini_key m)))
          (with_key-All (λ o. (0 < o.file_id) × (o.file_id ≤ n)) (mini_key m) past r)
          (with_key-All (λ o. o.file_id ≢ m.file_id) (mini_key m) past d) l again
  ]

added_db : List (ℕ × ℕ) → MiniFile → DslFile → DieselDb → DieselDb
added_db langs m old db2 = record db2 {
  files =
      insert (key (fill langs m old))
        (record { allocation = db2.allocation; index = m.file_id - 1 }) db2.files;
}

add_file_linked :
    (langs : List (ℕ × ℕ)) (db : DieselDb) (m : MiniFile) (old : DslFile) (db2 : DieselDb)
    → IsPadded m
    → grow db m.file_id ≡ db
    → place_of m.file_id ≡ m.file_id - 1
    → get_elem? db.files_list (m.file_id - 1) ≡ some old
    → link
        (written langs db m (m.file_id - 1) (fill langs m old))
        (m.file_id - 1)
        (fill langs m old)
      ≡ ok db2
    → add_file langs db m ≡ ok (added_db langs m old db2)
unfolding add_file added_db
add_file_linked langs db m old db2 padded grown place here linked =
    rw (grown, place, zeros, here, linked) refl
  where
    zeros : ((m.zero_1 == 0) && (m.zero_2 == 0)) ≡ true
    zeros = ground (arith, padded.0, padded.1)

add_file_ok :
    (langs : List (ℕ × ℕ)) (n : ℕ) (past : List MiniFile) (db : DieselDb) (m : MiniFile)
    → n < 2 ^ 32
    → InRange n past
    → 0 < m.file_id
    → m.file_id ≤ n
    → Differ m.file_id past
    → IsPadded m
    → All
        (λ o. language_of langs o.lang_id ≢ language_of langs m.lang_id)
        (with_key (mini_key m) past)
    → IsBuilt langs n past db
    → (db' : DieselDb) × (add_file langs db m ≡ ok db')
add_file_ok langs n past db m small r positive fits d padded l b =
    let (old, here) = get_elem?-some db.files_list (m.file_id - 1) (omega (arith, b.sized)) in
    let (db2, linked) = link_ok langs db m n past b old positive r d l in
    (
      added_db langs m old db2,
      add_file_linked langs db m old db2 padded (grow_none langs db m (omega (arith, b.sized)))
          (place_in_range langs db m positive (omega arith)) here linked,
    )

add_files_ok :
    (langs : List (ℕ × ℕ)) (n : ℕ) (past minis : List MiniFile) (db : DieselDb)
    → n < 2 ^ 32
    → InRange n past
    → InRange n minis
    → Distinct minis
    → All (λ m. Differ m.file_id past) minis
    → All IsPadded minis
    → Translations langs past minis
    → IsBuilt langs n past db
    → (db' : DieselDb) × (add_files langs db minis ≡ ok db')
      × IsBuilt langs n (reverse_onto minis past) db'
unfolding add_files
add_files_ok langs n past [] db small r rs distinct fresh padded l b = (db, refl, b)
add_files_ok langs n past (m ∷ minis) db small r rs distinct fresh padded l b =
    let (db1, p) = add_file_ok langs n past db m small r rs.0.0 rs.0.1 fresh.0 padded.0 l.0 b in
    let (db', q, b') =
      add_files_ok langs n (m ∷ past) minis db1 small (rs.0, r) rs.1 distinct.1
        (still_fresh m past minis distinct.0 fresh.1) padded.1 l.1
        (add_file-IsBuilt langs n past db m db1 small r rs.0.0 rs.0.1 fresh.0 b p) in
    (db', rw p q, b')

-- Where the ids are those of a sequence from 1 to the number of files, in any order, the words
-- asserted to be zero are, and the files of one key are in different languages, the list is
-- built, and following `next` from what Find returns visits the files of the key, the last one
-- first, and ends.
pub build_succeeds :
    (langs : List (ℕ × ℕ)) (minis : List MiniFile) (name type : ℕ)
    → length minis < 2 ^ 32
    → InRange (length minis) minis
    → Distinct minis
    → All IsPadded minis
    → Translations langs [] minis
    → (db : DieselDb) × (build langs minis ≡ ok db)
      × Chain langs db.files_list
          (find db name type)
          (with_key (record { name = name; ext = type }) (reverse_onto minis []))
unfolding build find
build_succeeds langs minis name type small r distinct padded l =
    let (db, e, b) =
      add_files_ok langs (length minis) [] minis (resized (length minis)) small tt r distinct
        (nothing_past minis) padded l (resized-IsBuilt langs (length minis)) in
    (db, e, b.chains (record { name = name; ext = type }))
