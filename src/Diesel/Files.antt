-- ===== src/Diesel/Files.antt =====
-- One round of the loop that fills the file list of src/dbutil/DB.cpp.
pub mod Chains
pub mod Returns
use raid_super_blt.Base.{
  ℕ, zero, suc, ◌+◌, ◌-◌, ◌≤◌, ◌<◌, ◌^◌, ◌≡◌, ◌≢◌, refl, sym, ap, ◌∙◌, subst, Bool, true, false,
  not, ◌&&◌, Option, none, some, List, [], ◌∷◌, ◌++◌, ◌==◌, length, get_elem?, set, get_elem?-lt,
  get_elem?-some, get_elem?-set_self, get_elem?-set_ne, length-set, arith, if◌then◌else◌,
  some-injective, Option-cases, inl, inr,
}
use raid_super_blt.Outcome.{
  Outcome, Stop, ok, stop, aborts, throws, undefined, require, value_or, ◌>>=◌, >>=-eq-ok,
  ok-injective, require-eq-ok,
}
use raid_super_blt.Idstring.{IdFile}
use raid_super_blt.Idstring.FileMap.{FileMap, lookup, insert}
use raid_super_blt.Diesel.{
  DieselDb, DslFile, FilePtr, MiniFile, mini_key, deref, grow, place_of, fill, link, add_file, key,
  language_of,
}

-- The entry that the loop leaves for a mini file: it comes before the earlier file of its key.
abbrev pub entry_for : List (ℕ × ℕ) → MiniFile → Option FilePtr → DslFile → DslFile
entry_for langs mini prev old = record old {
  name = mini.name;
  type = mini.type;
  file_id = mini.file_id;
  raw_lang_id = mini.lang_id;
  lang_id = language_of langs mini.lang_id;
  next = prev;
}

-- A pointer to the entry of a file id, in the first allocation.
abbrev pub pointer_to : ℕ → FilePtr
pointer_to id = record { allocation = 0; index = id - 1 }

-- What one round leaves, where the id is in range and the entry was not linked before.
pub record Added (langs : List (ℕ × ℕ)) (db : DieselDb) (mini : MiniFile) (db' : DieselDb)
    : Type 0 where
  pub old : DslFile
  pub was : get_elem? db.files_list (mini.file_id - 1) ≡ some old
  pub is_now :
      get_elem? db'.files_list (mini.file_id - 1)
      ≡ some (entry_for langs mini (lookup (mini_key mini) db.files) old)
  pub others :
      (j : ℕ) → mini.file_id - 1 ≢ j → get_elem? db'.files_list j ≡ get_elem? db.files_list j
  pub same_length : length db'.files_list ≡ length db.files_list
  pub same_allocation : db'.allocation ≡ db.allocation
  pub files_now : db'.files ≡ insert (mini_key mini) (pointer_to mini.file_id) db.files

module _ (langs : List (ℕ × ℕ)) (db : DieselDb) (mini : MiniFile) where
  pub grow_none : mini.file_id ≤ length db.files_list → grow db mini.file_id ≡ db
  unfolding grow
  grow_none h = ground arith

  pub place_in_range :
      0 < mini.file_id → mini.file_id < 2 ^ 32 → place_of mini.file_id ≡ mini.file_id - 1
  unfolding place_of
  place_in_range h k = omega arith

  -- The database while the entry is written, and once it is linked to an earlier file.
  abbrev pub written : ℕ → DslFile → DieselDb
  written i f = record db { files_list = set db.files_list i f }

  abbrev pub relinked : ℕ → DslFile → FilePtr → DieselDb
  relinked i f prev = record db {
    files_list = set (set db.files_list i f) i (record f { next = some prev });
  }

  link_first :
      (i : ℕ) (old : DslFile) (db2 : DieselDb)
      → lookup (mini_key mini) db.files ≡ none
      → link (written i (fill langs mini old)) i (fill langs mini old) ≡ ok db2
      → db2 ≡ written i (fill langs mini old)
  unfolding link fill
  link_first i old db2 first e = ground (arith, first)

  link_again :
      (i : ℕ) (old : DslFile) (db2 : DieselDb) (prev : FilePtr)
      → lookup (mini_key mini) db.files ≡ some prev
      → link (written i (fill langs mini old)) i (fill langs mini old) ≡ ok db2
      → db2 ≡ relinked i (fill langs mini old) prev
  unfolding link fill
  link_again i old db2 prev again e = ground (arith, again)

  -- What a link leaves of the list, in both cases.
  record Linked (i : ℕ) (old : DslFile) (db2 : DieselDb) : Type 0 where
    at_place :
        get_elem? db2.files_list i
        ≡ some (entry_for langs mini (lookup (mini_key mini) db.files) old)
    elsewhere : (j : ℕ) → i ≢ j → get_elem? db2.files_list j ≡ get_elem? db.files_list j
    as_long : length db2.files_list ≡ length db.files_list
    same_place : db2.allocation ≡ db.allocation
    same_files : db2.files ≡ db.files

  linked :
      (i : ℕ) (old : DslFile) (db2 : DieselDb)
      → get_elem? db.files_list i ≡ some old
      → old.next ≡ none
      → link (written i (fill langs mini old)) i (fill langs mini old) ≡ ok db2
      → Linked i old db2
  unfolding fill
  linked i old db2 here free e =
      let fits = get_elem?-lt db.files_list i old here in
      let f = fill langs mini old in
      elim (Option-cases (lookup (mini_key mini) db.files)) [
        | inl first ↦ subst (Linked i old) (sym (link_first i old db2 first e)) (record {
          at_place = get_elem?-set_self db.files_list i f fits ∙ ground (arith, free, first);
          elsewhere = λ j apart. get_elem?-set_ne db.files_list i j f apart;
          as_long = length-set db.files_list i f;
          same_place = refl;
          same_files = refl;
        })
        | inr (prev, again) ↦
            let g : DslFile = record f { next = some prev } in
            subst (Linked i old) (sym (link_again i old db2 prev again e)) (record {
              at_place =
                  get_elem?-set_self (set db.files_list i f) i g
                    (omega (arith, length-set db.files_list i f, fits))
                  ∙ ground (arith, again);
              elsewhere = λ j apart.
                  get_elem?-set_ne (set db.files_list i f) i j g apart
                  ∙ get_elem?-set_ne db.files_list i j f apart;
              as_long = length-set (set db.files_list i f) i g ∙ length-set db.files_list i f;
              same_place = refl;
              same_files = refl;
            })
      ]

value_or-eq-ok {ℓ} :
    {A : Type ℓ} (o : Option A) (s : Stop) {a : A} → value_or o s ≡ ok a → o ≡ some a
value_or-eq-ok none s e = cc
value_or-eq-ok (some a) s e = ap some (ok-injective e)

-- The entry is put into the map under its key.
added :
    (langs : List (ℕ × ℕ)) (db : DieselDb) (mini : MiniFile) (old : DslFile) (db2 : DieselDb)
    → get_elem? db.files_list (mini.file_id - 1) ≡ some old
    → db.allocation ≡ 0
    → Linked langs db mini (mini.file_id - 1) old db2
    → Added langs db mini (record db2 {
      files =
          insert
            (key (fill langs mini old))
            (record { allocation = db2.allocation; index = mini.file_id - 1 })
            db2.files;
    })
unfolding fill
added langs db mini old db2 here first_allocation l = record {
  old = old;
  was = here;
  is_now = l.at_place;
  others = l.elsewhere;
  same_length = l.as_long;
  same_allocation = l.same_place;
  files_now = cc (l.same_files, l.same_place, first_allocation);
}

-- A round that succeeds does what `Added` says.
pub add_file-Added :
    (langs : List (ℕ × ℕ)) (db : DieselDb) (mini : MiniFile) (db' : DieselDb)
    → 0 < mini.file_id
    → mini.file_id ≤ length db.files_list
    → mini.file_id < 2 ^ 32
    → db.allocation ≡ 0
    → ((old : DslFile) → get_elem? db.files_list (mini.file_id - 1) ≡ some old → old.next ≡ none)
    → add_file langs db mini ≡ ok db'
    → Added langs db mini db'
unfolding add_file
add_file-Added langs db mini db' positive fits small first_allocation free e =
    let e1 = rw (grow_none langs db mini fits, place_in_range langs db mini positive small) at e in
    let (_, _, e2) = >>=-eq-ok (require ((mini.zero_1 == 0) && (mini.zero_2 == 0)) aborts) _ e1 in
    let (old, found_old, e3) =
      >>=-eq-ok (value_or (get_elem? db.files_list (mini.file_id - 1)) throws) _ e2 in
    let (db2, is_linked, e4) =
      >>=-eq-ok
        (link (written langs db mini (mini.file_id - 1) (fill langs mini old)) (mini.file_id - 1)
          (fill langs mini old))
        _ e3 in
    let here = value_or-eq-ok (get_elem? db.files_list (mini.file_id - 1)) throws found_old in
    subst (Added langs db mini) (ok-injective e4) (
      added langs db mini old db2 here first_allocation
        (linked langs db mini (mini.file_id - 1) old db2 here (free old here) is_linked))
