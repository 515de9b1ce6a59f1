-- ===== src/Diesel/Headers/Positions.antt =====
-- What loadPackageHeader of src/dbutil/DB.cpp does to the place of every file.
use raid_super_blt.Base.{
  ℕ, zero, suc, ◌+◌, ◌-◌, ◌%◌, ◌^◌, ◌≡◌, refl, sym, ap, ◌∙◌, subst, Bool, true, false, Option, none,
  some, List, [], ◌∷◌, get_elem?, set, ◌==◌, ==→eq, if◌then◌else◌, arith, Bool-cases, Option-cases,
  inl, inr,
}
use mathlib.Core.Option
use raid_super_blt.Outcome.{ok, undefined, value_or, >>=-eq-ok, ok-injective}
use raid_super_blt.Diesel.{DslFile}
use raid_super_blt.Diesel.Headers.{
  FilePos, file_at, set_length, place_file, fix_previous, place_files, end_files, apply_positions,
}
use raid_super_blt.Diesel.Headers.Placed.{seen-set}

-- Where a file is: its bundle, and its offset there.
abbrev pub Place : Type 0
Place = Option ℕ × ℕ

abbrev pub place : DslFile → Place
place f = (f.bundle, f.offset)

-- The places that can be seen in a list.
abbrev pub places : List DslFile → ℕ → Option Place
places files j = Option.map place (get_elem? files j)

-- What the place of an entry becomes under the positions of its id: the last of them counts.
pub position_place : ℕ → List FilePos → ℕ → Place → Place
position_place bundle [] j old = old
position_place bundle (p ∷ ps) j old =
    position_place bundle ps j (if p.file_id - 1 == j then (some bundle, p.offset) else old)

file_at-eq-ok :
    (files : List DslFile) (id : ℕ) {f : DslFile}
    → file_at files id ≡ ok f
    → get_elem? files (id - 1) ≡ some f
unfolding file_at
file_at-eq-ok files id e = ground arith

-- A write that leaves the place of its entry leaves all places.
kept :
    (files : List DslFile) (i : ℕ) (f g : DslFile) (j : ℕ)
    → get_elem? files i ≡ some f
    → place g ≡ place f
    → places (set files i g) j ≡ places files j
kept files i f g j here same = seen-set place files i j f g here ∙ elim (Bool-cases (i == j)) [
  | inl p ↦ rw p (
      ap some same
      ∙ sym (ap (Option.map place) (subst (λ n. get_elem? files n ≡ some f) (==→eq i j p) here)))
  | inr p ↦ rw p refl
]

set_length-places :
    (files files' : List DslFile) (id len j : ℕ)
    → set_length files id len ≡ ok files'
    → places files' j ≡ places files j
unfolding set_length
set_length-places files files' id len j e =
    let (f, p, q) = >>=-eq-ok (file_at files id) _ e in
    ap (λ fs. places fs j) (sym (ok-injective q))
    ∙ kept files (id - 1) f (record f { length = len }) j (file_at-eq-ok files id p) refl

-- A write of the length that waits on a test.
conditional-places :
    (files files' : List DslFile) (id len j : ℕ) (f : DslFile) (b : Bool)
    → get_elem? files (id - 1) ≡ some f
    → (if b then ok (set files (id - 1) (record f { length = len })) else ok files) ≡ ok files'
    → places files' j ≡ places files j
conditional-places files files' id len j f true here e =
    ap (λ fs. places fs j) (sym (ok-injective e))
    ∙ kept files (id - 1) f (record f { length = len }) j here refl
conditional-places files files' id len j f false here e =
    ap (λ fs. places fs j) (sym (ok-injective e))

fix_previous-places :
    (files files' : List DslFile) (i : ℕ) (p : FilePos) (len j : ℕ)
    → fix_previous files i p len ≡ ok files'
    → places files' j ≡ places files j
unfolding fix_previous
fix_previous-places files files' zero p len j e = ap (λ fs. places fs j) (sym (ok-injective e))
fix_previous-places files files' (suc i) p len j e =
    let (prev_file, _, e1) = >>=-eq-ok (value_or (get_elem? files i) undefined) _ e in
    let (prev, found, e2) = >>=-eq-ok (file_at files prev_file.file_id) _ e1 in
    conditional-places files files' prev_file.file_id len j prev (p.offset == prev_file.offset)
      (file_at-eq-ok files prev_file.file_id found) e2

place_file-places :
    (bundle : ℕ) (files files' : List DslFile) (p : FilePos) (j : ℕ)
    → place_file bundle files p ≡ ok files'
    → places files' j
      ≡ Option.map
          (λ (old : Place). if p.file_id - 1 == j then (some bundle, p.offset) else old)
          (places files j)
unfolding place_file
place_file-places bundle files files' p j e =
    let (f, found, q) = >>=-eq-ok (file_at files p.file_id) _ e in
    let here = file_at-eq-ok files p.file_id found in
    let g : DslFile = record f { bundle = some bundle; offset = p.offset } in
    ap (λ fs. places fs j) (sym (ok-injective q))
    ∙ (seen-set place files (p.file_id - 1) j f g here ∙ elim (Bool-cases (p.file_id - 1 == j)) [
      | inl at_j ↦
          rw (at_j, subst (λ n. get_elem? files n ≡ some f) (==→eq (p.file_id - 1) j at_j) here)
            refl
      | inr apart ↦ elim (Option-cases (get_elem? files j)) [
        | inl gone ↦ rw (apart, gone) refl
        | inr (o, there) ↦ rw (apart, there) refl
      ]
    ])

end_files-places :
    (size : ℕ) (files files' : List DslFile) (ps : List FilePos) (j : ℕ)
    → end_files size files ps ≡ ok files'
    → places files' j ≡ places files j
unfolding end_files
end_files-places size files files' [] j e = ap (λ fs. places fs j) (sym (ok-injective e))
end_files-places size files files' (last ∷ []) j e =
    set_length-places files files' last.file_id _ j e
end_files-places size files files' (second_last ∷ last ∷ []) j e =
    let (files1, p, e1) = >>=-eq-ok (set_length files last.file_id _) _ e in
    let (f, found, e2) = >>=-eq-ok (file_at files1 second_last.file_id) _ e1 in
    conditional-places files1 files' second_last.file_id _ j f (second_last.offset == last.offset)
      (file_at-eq-ok files1 second_last.file_id found) e2
    ∙ set_length-places files files1 last.file_id _ j p
end_files-places size files files' (p ∷ q ∷ r ∷ ps) j e =
    end_files-places size files files' (q ∷ r ∷ ps) j e

map-map :
    {A B C : Type 0} (f : A → B) (g : B → C) (h : A → C) (o : Option A)
    → ((a : A) → g (f a) ≡ h a)
    → Option.map g (Option.map f o) ≡ Option.map h o
map-map f g h none same = refl
map-map f g h (some a) same = ap some (same a)

place_files-places :
    (bundle i : ℕ) (files files' : List DslFile) (ps : List FilePos) (j : ℕ)
    → place_files bundle i files ps ≡ ok files'
    → places files' j ≡ Option.map (position_place bundle ps j) (places files j)
unfolding place_files position_place
place_files-places bundle i files files' [] j e =
    ap (λ fs. places fs j) (sym (ok-injective e))
    ∙ sym (map-map place (λ p. p) place (get_elem? files j) (λ a. refl))
place_files-places bundle i files files' (p ∷ []) j e = place_file-places bundle files files' p j e
place_files-places bundle i files files' (p ∷ next ∷ ps) j e =
    let len = (next.offset + 2 ^ 32 - p.offset) % 2 ^ 32 in
    let (files1, e1, r1) = >>=-eq-ok (place_file bundle files p) _ e in
    let (files2, e2, r2) = >>=-eq-ok (set_length files1 p.file_id len) _ r1 in
    let (files3, e3, r3) = >>=-eq-ok (fix_previous files2 i p len) _ r2 in
    place_files-places bundle (suc i) files3 files' (next ∷ ps) j r3
    ∙ (ap (Option.map (position_place bundle (next ∷ ps) j)) (
          fix_previous-places files2 files3 i p len j e3
          ∙ (set_length-places files1 files2 p.file_id len j e2
              ∙ place_file-places bundle files files1 p j e1))
        ∙ map-map (λ (old : Place). if p.file_id - 1 == j then (some bundle, p.offset) else old)
            (position_place bundle (next ∷ ps) j) (position_place bundle (p ∷ next ∷ ps) j)
            (places files j) (λ old. refl))

-- A package header that is applied puts every file at the last of its positions, in this bundle,
-- and leaves the place of a file without a position; the lengths that it corrects move no file.
pub apply_positions-places :
    (bundle size : ℕ) (files files' : List DslFile) (ps : List FilePos) (j : ℕ)
    → apply_positions bundle size files ps ≡ ok files'
    → places files' j ≡ Option.map (position_place bundle ps j) (places files j)
unfolding apply_positions
apply_positions-places bundle size files files' ps j e =
    let (placed, p, q) = >>=-eq-ok (place_files bundle 0 files ps) _ e in
    end_files-places size placed files' ps j q ∙ place_files-places bundle 0 files placed ps j p
