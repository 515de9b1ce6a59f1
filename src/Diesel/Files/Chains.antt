-- ===== src/Diesel/Files/Chains.antt =====
-- The file list of src/dbutil/DB.cpp once it is built: a key leads to all its files.
use raid_super_blt.Base.{
  ℕ, zero, suc, ◌-◌, ◌≤◌, ◌<◌, ◌^◌, ◌≡◌, ◌≢◌, refl, sym, ap, ◌∙◌, subst, Option, none, some, List,
  [], ◌∷◌, length, get_elem?, replicate, length-replicate, arith, if◌then◌else◌, All,
  some-injective, Bool-cases, inl, inr,
}
use raid_super_blt.Outcome.{ok, >>=-eq-ok, ok-injective}
use raid_super_blt.Idstring.{IdFile, same_file, same_file→eq}
use raid_super_blt.Idstring.FileMap.{lookup, lookup-insert}
use raid_super_blt.Diesel.{
  DieselDb, DslFile, FilePtr, MiniFile, mini_key, new_file, resized, add_file, add_files, build,
}
use raid_super_blt.Diesel.Files.{entry_for, pointer_to, Added, add_file-Added}

-- The mini files of a key.
unfoldable pub with_key : IdFile → List MiniFile → List MiniFile
with_key k [] = []
with_key k (m ∷ ms) = if same_file (mini_key m) k then m ∷ with_key k ms else with_key k ms

-- `Chain langs fs p ms`: the pointer leads to the entries of the mini files in turn, and then to
-- null.
unfoldable pub Chain : List (ℕ × ℕ) → List DslFile → Option FilePtr → List MiniFile → Type 0
Chain langs fs p [] = p ≡ none
Chain langs fs p (m ∷ ms) =
    (old : DslFile) × (next : Option FilePtr) × (p ≡ some (pointer_to m.file_id))
    × (get_elem? fs (m.file_id - 1) ≡ some (entry_for langs m next old))
    × Chain langs fs next ms

-- The ids of the mini files differ from this one.
abbrev pub Differ : ℕ → List MiniFile → Type 0
Differ id = All (λ m. m.file_id ≢ id)

-- Ids that form a sequence from 1 to the number of files, in any order.
abbrev pub InRange : ℕ → List MiniFile → Type 0
InRange n = All (λ m. (0 < m.file_id) × (m.file_id ≤ n))

abbrev pub Distinct : List MiniFile → Type 0
Distinct [] = Unit {0}
Distinct (m ∷ ms) = Differ m.file_id ms × Distinct ms

-- A write at the place of another id leaves a chain as it is.
Chain-other :
    (langs : List (ℕ × ℕ)) (fs gs : List DslFile) (id n : ℕ) (p : Option FilePtr)
    (ms : List MiniFile)
    → 0 < id
    → ((j : ℕ) → id - 1 ≢ j → get_elem? gs j ≡ get_elem? fs j)
    → InRange n ms
    → Differ id ms
    → Chain langs fs p ms
    → Chain langs gs p ms
unfolding Chain
Chain-other langs fs gs id n p [] positive same r d c = c
Chain-other langs fs gs id n p (m ∷ ms) positive same r d (old, next, at_p, here, rest) = (
  old,
  next,
  at_p,
  same (m.file_id - 1) (λ e. d.0 (omega arith)) ∙ here,
  Chain-other langs fs gs id n next ms positive same r.1 d.1 rest,
)

pub with_key-All {ℓ} :
    (P : MiniFile → Type ℓ) (k : IdFile) (ms : List MiniFile) → All P ms → All P (with_key k ms)
unfolding with_key
with_key-All P k [] h = h
with_key-All P k (m ∷ ms) h = elim (Bool-cases (same_file (mini_key m) k)) [
  | inl p ↦ rw p (h.0, with_key-All P k ms h.1)
  | inr p ↦ rw p (with_key-All P k ms h.1)
]

-- What holds after the mini files of `past`, the last of them first.
pub record IsBuilt (langs : List (ℕ × ℕ)) (n : ℕ) (past : List MiniFile) (db : DieselDb)
    : Type 0 where
  pub sized : length db.files_list ≡ n
  pub first_allocation : db.allocation ≡ 0
  pub chains : (k : IdFile) → Chain langs db.files_list (lookup k db.files) (with_key k past)
  pub untouched :
      (id : ℕ) (f : DslFile)
      → 0 < id
      → Differ id past
      → get_elem? db.files_list (id - 1) ≡ some f
      → f.next ≡ none

module _ (langs : List (ℕ × ℕ)) (n : ℕ) (past : List MiniFile) (db : DieselDb) (m : MiniFile)
    (db' : DieselDb) (r : InRange n past) (positive : 0 < m.file_id) (fresh : Differ m.file_id past)
    (b : IsBuilt langs n past db) (a : Added langs db m db') where
  lookup_now :
      (k : IdFile)
      → lookup k db'.files
        ≡ (if same_file (mini_key m) k then some (pointer_to m.file_id) else lookup k db.files)
  lookup_now k =
      ap (lookup k) a.files_now ∙ lookup-insert (mini_key m) k (pointer_to m.file_id) db.files

  old-Chain : (k : IdFile) → Chain langs db'.files_list (lookup k db.files) (with_key k past)
  old-Chain k =
      Chain-other langs db.files_list db'.files_list m.file_id n (lookup k db.files)
        (with_key k past) positive a.others
        (with_key-All (λ m. (0 < m.file_id) × (m.file_id ≤ n)) k past r)
        (with_key-All (λ o. o.file_id ≢ m.file_id) k past fresh) (b.chains k)

  Chain-now : (k : IdFile) → Chain langs db'.files_list (lookup k db'.files) (with_key k (m ∷ past))
  unfolding Chain with_key
  Chain-now k = elim (Bool-cases (same_file (mini_key m) k)) [
    | inl p ↦
        rw (lookup_now k, p, with_key)
          (
            a.old,
            lookup (mini_key m) db.files,
            refl,
            a.is_now,
            subst (λ j. Chain langs db'.files_list (lookup (mini_key m) db.files) (with_key j past))
                (same_file→eq (mini_key m) k p) (old-Chain (mini_key m)),
          )
    | inr p ↦ rw (lookup_now k, p, with_key) (old-Chain k)
  ]

  untouched_now :
      (id : ℕ) (f : DslFile)
      → 0 < id
      → Differ id (m ∷ past)
      → get_elem? db'.files_list (id - 1) ≡ some f
      → f.next ≡ none
  untouched_now id f pos d here =
      b.untouched id f pos d.1 (sym (a.others (id - 1) (λ e. d.0 (omega arith))) ∙ here)

pub add_file-IsBuilt :
    (langs : List (ℕ × ℕ)) (n : ℕ) (past : List MiniFile) (db : DieselDb) (m : MiniFile)
    (db' : DieselDb)
    → n < 2 ^ 32
    → InRange n past
    → 0 < m.file_id
    → m.file_id ≤ n
    → Differ m.file_id past
    → IsBuilt langs n past db
    → add_file langs db m ≡ ok db'
    → IsBuilt langs n (m ∷ past) db'
add_file-IsBuilt langs n past db m db' small r positive fits fresh b e = record {
  sized = a.same_length ∙ b.sized;
  first_allocation = a.same_allocation ∙ b.first_allocation;
  chains = Chain-now langs n past db m db' r positive fresh b a;
  untouched = untouched_now langs n past db m db' r positive fresh b a;
}
  where
    a : Added langs db m db'
    a =
        add_file-Added langs db m db' positive (omega (arith, b.sized)) (omega arith)
          b.first_allocation (λ old here. b.untouched m.file_id old positive fresh here) e

-- `minis` in reverse before `past`.
abbrev pub reverse_onto : List MiniFile → List MiniFile → List MiniFile
reverse_onto [] past = past
reverse_onto (m ∷ ms) past = reverse_onto ms (m ∷ past)

pub still_fresh :
    (m : MiniFile) (past minis : List MiniFile)
    → Differ m.file_id minis
    → All (λ o. Differ o.file_id past) minis
    → All (λ o. Differ o.file_id (m ∷ past)) minis
still_fresh m past [] d fresh = tt
still_fresh m past (o ∷ minis) d fresh =
    ((λ e. d.0 (sym e), fresh.0), still_fresh m past minis d.1 fresh.1)

pub nothing_past : (minis : List MiniFile) → All (λ o. Differ o.file_id []) minis
nothing_past [] = tt
nothing_past (m ∷ minis) = (tt, nothing_past minis)

new_next : (n i : ℕ) (f : DslFile) → get_elem? (replicate n new_file) i ≡ some f → f.next ≡ none
new_next zero i f e = cc
new_next (suc n) zero f e = ap (λ (g : DslFile). g.next) (sym (some-injective new_file f e))
new_next (suc n) (suc i) f e = new_next n i f e

add_files-IsBuilt :
    (langs : List (ℕ × ℕ)) (n : ℕ) (past minis : List MiniFile) (db db' : DieselDb)
    → n < 2 ^ 32
    → InRange n past
    → InRange n minis
    → Distinct minis
    → All (λ m. Differ m.file_id past) minis
    → IsBuilt langs n past db
    → add_files langs db minis ≡ ok db'
    → IsBuilt langs n (reverse_onto minis past) db'
unfolding add_files
add_files-IsBuilt langs n past [] db db' small r rs distinct fresh b e =
    subst (IsBuilt langs n past) (ok-injective e) b
add_files-IsBuilt langs n past (m ∷ minis) db db' small r rs distinct fresh b e =
    let (db1, p, q) = >>=-eq-ok (add_file langs db m) _ e in
    add_files-IsBuilt langs n (m ∷ past) minis db1 db' small (rs.0, r) rs.1 distinct.1
      (still_fresh m past minis distinct.0 fresh.1)
      (add_file-IsBuilt langs n past db m db1 small r rs.0.0 rs.0.1 fresh.0 b p) q

pub resized-IsBuilt : (langs : List (ℕ × ℕ)) (n : ℕ) → IsBuilt langs n [] (resized n)
unfolding Chain with_key lookup
resized-IsBuilt langs n = record {
  sized = length-replicate n new_file;
  first_allocation = refl;
  chains = λ k. refl;
  untouched = λ id f pos d here. new_next n (id - 1) f here;
}

pub build-IsBuilt :
    (langs : List (ℕ × ℕ)) (minis : List MiniFile) (db : DieselDb)
    → length minis < 2 ^ 32
    → InRange (length minis) minis
    → Distinct minis
    → build langs minis ≡ ok db
    → IsBuilt langs (length minis) (reverse_onto minis []) db
unfolding build
build-IsBuilt langs minis db small r distinct e =
    add_files-IsBuilt langs (length minis) [] minis (resized (length minis)) db small tt r distinct
      (nothing_past minis) (resized-IsBuilt langs (length minis)) e
