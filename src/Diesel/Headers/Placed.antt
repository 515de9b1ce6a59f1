-- ===== src/Diesel/Headers/Placed.antt =====
-- Where the headers of src/dbutil/DB.cpp put the files: what each entry of the list holds after
-- a header is applied.
use raid_super_blt.Base.{
  ℕ, ◌+◌, ◌-◌, ◌%◌, ◌^◌, ◌≤◌, ◌<◌, ◌≡◌, refl, sym, ap, ◌∙◌, subst, some, List, [], ◌∷◌, length,
  get_elem?, set, get_elem?-some, get_elem?-lt, get_elem?-set_self, get_elem?-set_ne, length-set,
  ◌==◌, ==→eq, if◌then◌else◌, arith, All, Bool-cases, Option-cases, inl, inr,
}
use mathlib.Core.Option
use raid_super_blt.Outcome.{ok}
use raid_super_blt.Diesel.{DslFile}
use raid_super_blt.Diesel.Headers.{ItemInfo, item_at, apply_items}

-- What an entry becomes under the items of its id: the last of them counts.
pub item_entry : ℕ → List ItemInfo → ℕ → DslFile → DslFile
item_entry bundle [] j f = f
item_entry bundle (item ∷ items) j f = item_entry bundle items j (
    if item.file_id - 1 == j
    then record f { bundle = some bundle; offset = item.offset; length = item.length }
    else f)

-- What can be seen at a place of the list after a write at another, or at this one.
pub seen-set {ℓ} :
    {V : Type ℓ} (view : DslFile → V) (files : List DslFile) (i j : ℕ) (f g : DslFile)
    → get_elem? files i ≡ some f
    → Option.map view (get_elem? (set files i g) j)
      ≡ (if i == j then some (view g) else Option.map view (get_elem? files j))
seen-set view files i j f g here = elim (Bool-cases (i == j)) [
  | inl p ↦ rw p (
      ap (Option.map view) (
        subst (λ n. get_elem? (set files i g) n ≡ some g) (==→eq i j p)
          (get_elem?-set_self files i g (get_elem?-lt files i f here))))
  | inr p ↦ rw p (ap (Option.map view) (get_elem?-set_ne files i j g (ground arith)))
]

abbrev ItemsInRange : ℕ → List ItemInfo → Type 0
ItemsInRange n = All (λ (item : ItemInfo). (0 < item.file_id) × (item.file_id ≤ n))

-- The entry that an item finds.
item_at-some :
    (files : List DslFile) (id : ℕ)
    → 0 < id
    → id ≤ length files
    → length files < 2 ^ 32
    → (f : DslFile) × (get_elem? files (id - 1) ≡ some f)
      × (item_at files id ≡ ok f)
      × ((id + 2 ^ 32 - 1) % 2 ^ 32 ≡ id - 1)
unfolding item_at
item_at-some files id positive fits small =
    let (f, here) = get_elem?-some files (id - 1) (omega arith) in
    let place : (id + 2 ^ 32 - 1) % 2 ^ 32 ≡ id - 1 = omega arith in
    (f, here, rw (place, here), place)

item_step :
    (bundle : ℕ) (files : List DslFile) (item : ItemInfo) (items : List ItemInfo) (j : ℕ)
    (f : DslFile)
    → get_elem? files (item.file_id - 1) ≡ some f
    → Option.map (item_entry bundle items j) (
        get_elem?
          (set files
            (item.file_id - 1)
            (record f { bundle = some bundle; offset = item.offset; length = item.length }))
          j)
      ≡ Option.map (item_entry bundle (item ∷ items) j) (get_elem? files j)
unfolding item_entry
item_step bundle files item items j f here = elim (Bool-cases (item.file_id - 1 == j)) [
  | inl p ↦
      let g : DslFile = record f {
        bundle = some bundle;
        offset = item.offset;
        length = item.length;
      } in
      let at_j = subst (λ n. get_elem? files n ≡ some f) (==→eq (item.file_id - 1) j p) here in
      let now =
        subst (λ n. get_elem? (set files (item.file_id - 1) g) n ≡ some g)
          (==→eq (item.file_id - 1) j p)
          (get_elem?-set_self files (item.file_id - 1) g
            (get_elem?-lt files (item.file_id - 1) f here)) in
      rw (now, at_j) (rw p refl)
  | inr p ↦
      let g : DslFile = record f {
        bundle = some bundle;
        offset = item.offset;
        length = item.length;
      } in
      rw (get_elem?-set_ne files (item.file_id - 1) j g (ground arith))
        (elim (Option-cases (get_elem? files j)) [
          | inl gone ↦ rw gone refl
          | inr (e, kept) ↦ rw kept (rw p refl)
        ])
]

-- A header of a plain bundle whose ids are in range is applied in full: an entry gets the place
-- and length of the last item of its id, and one without an item stays as it is.
pub apply_items-entry :
    (bundle : ℕ) (files : List DslFile) (items : List ItemInfo) (j : ℕ)
    → length files < 2 ^ 32
    → ItemsInRange (length files) items
    → (files' : List DslFile) × (apply_items bundle files items ≡ ok files')
      × (length files' ≡ length files)
      × (get_elem? files' j ≡ Option.map (item_entry bundle items j) (get_elem? files j))
unfolding apply_items item_entry
apply_items-entry bundle files [] j small r = (
  files,
  refl,
  refl,
  elim (Option-cases (get_elem? files j)) [
    | inl gone ↦ rw gone refl
    | inr (f, here) ↦ rw here refl
  ],
)
apply_items-entry bundle files (item ∷ items) j small r =
    let (f, here, found, place) = item_at-some files item.file_id r.0.0 r.0.1 small in
    let g : DslFile = record f {
      bundle = some bundle;
      offset = item.offset;
      length = item.length;
    } in
    let size = length-set files (item.file_id - 1) g in
    let (files', e, same, entry) =
      apply_items-entry bundle (set files (item.file_id - 1) g) items j (omega (arith, size))
        (subst (λ n. ItemsInRange n items) (sym size) r.1) in
    (files', rw (found, place) e, same ∙ size, entry ∙ item_step bundle files item items j f here)
