-- ===== src/Diesel/Startup/BlbFile.antt =====
-- Which file of the assets folder the constructor of src/dbutil/DB.cpp reads the database from.
use raid_super_blt.Base.{
  ℕ, ◌-◌, ◌<◌, ◌≡◌, ◌≢◌, ◌↔◌, ◌⊎◌, inl, inr, refl, sym, ap, ◌∙◌, Bool, true, false, ◌&&◌, ◌||◌,
  Bool-cases, Option, none, some, List, [], ◌∷◌, ◌++◌, length, take, drop, length-take,
  take-append-drop, take-append_length, codes, if◌then◌else◌, arith, All, same_text, same_text_refl,
  same_text→eq,
}
use raid_super_blt.Outcome.{Outcome, ok, stop, io_fails, value_or, ◌>>=◌}
use raid_super_blt.Datastore.{Disk}
use raid_super_blt.Diesel.{resized}
use raid_super_blt.Diesel.Contents.{Uncompress}
use raid_super_blt.Diesel.Startup.{
  has_suffix, begins_with, find_blb, is_blb, load_blb, load_bundles, start,
}
use raid_super_blt.Diesel.Startup.Names.{has_suffix-append}

abbrev pub StartsWith : List ℕ → List ℕ → Type 0
StartsWith prefix name = (rest : List ℕ) × (name ≡ prefix ++ rest)

abbrev pub EndsIn : List ℕ → List ℕ → Type 0
EndsIn suffix name = (base : List ℕ) × (base ≢ []) × (name ≡ base ++ suffix)

-- A name `all….blb` or `bundle_db….blb`.
abbrev pub IsBlb : List ℕ → Type 0
IsBlb name =
    EndsIn (codes ".blb") name
    × (StartsWith (codes "all") name ⊎ StartsWith (codes "bundle_db") name)

begins_with-StartsWith :
    (prefix name : List ℕ) → (begins_with prefix name ≡ true) ↔ StartsWith prefix name
unfolding begins_with
begins_with-StartsWith prefix name = (
  λ e. (
    drop (length prefix) name,
    sym (take-append-drop (length prefix) name)
        ∙ ap (λ t. t ++ drop (length prefix) name)
            (same_text→eq (take (length prefix) name) prefix e),
  ),
  λ (rest, e).
      ap (λ t. same_text (take (length prefix) t) prefix) e
      ∙ (ap (λ t. same_text t prefix) (take-append_length prefix rest) ∙ same_text_refl prefix),
)

has_suffix-EndsIn : (suffix name : List ℕ) → (has_suffix suffix name ≡ true) ↔ EndsIn suffix name
unfolding has_suffix
has_suffix-EndsIn suffix name = (
  λ e.
      let at = length name - length suffix in
      let long : length suffix < length name = ground (arith, e) in
      let same : same_text (drop at name) suffix ≡ true = ground (arith, e) in
      (
        take at name,
        (λ empty. omega (arith, long, length-take at name, ap length empty)),
        sym (take-append-drop at name)
            ∙ ap (λ t. take at name ++ t) (same_text→eq (drop at name) suffix same),
      ),
  λ (base, some_base, e). ap (has_suffix suffix) e ∙ has_suffix-append base suffix some_base,
)

tests_passed : (a b c : Bool) → (a && (b || c)) ≡ true → (a ≡ true) × ((b ≡ true) ⊎ (c ≡ true))
tests_passed true true c e = (refl, inl refl)
tests_passed true false true e = (refl, inr refl)
tests_passed true false false e = cc
tests_passed false b c e = cc

is_blb-IsBlb : (name : List ℕ) → (is_blb name ≡ true) ↔ IsBlb name
unfolding is_blb
is_blb-IsBlb name = (λ e. passes (tests_passed _ _ _ e), λ h. passed h)
  where
    suffix : (has_suffix (codes ".blb") name ≡ true) ↔ EndsIn (codes ".blb") name
    suffix = has_suffix-EndsIn (codes ".blb") name

    all : (begins_with (codes "all") name ≡ true) ↔ StartsWith (codes "all") name
    all = begins_with-StartsWith (codes "all") name

    db : (begins_with (codes "bundle_db") name ≡ true) ↔ StartsWith (codes "bundle_db") name
    db = begins_with-StartsWith (codes "bundle_db") name

    passes :
        (has_suffix (codes ".blb") name ≡ true)
          × ((begins_with (codes "all") name ≡ true)
              ⊎ (begins_with (codes "bundle_db") name ≡ true))
        → IsBlb name
    passes (e, inl p) = (suffix.0 e, inl (all.0 p))
    passes (e, inr p) = (suffix.0 e, inr (db.0 p))

    either : (b : Bool) → (b || true) ≡ true
    either true = refl
    either false = refl

    passed : IsBlb name → is_blb name ≡ true
    passed (e, inl p) = rw (suffix.1 e, all.1 p) refl
    passed (e, inr p) = rw (suffix.1 e, db.1 p) (either (begins_with (codes "all") name))

not-IsBlb : (name : List ℕ) → ¬ IsBlb name → is_blb name ≡ false
not-IsBlb name h = elim (Bool-cases (is_blb name)) [
  | inl e ↦ absurd (h ((is_blb-IsBlb name).0 e))
  | inr e ↦ e
]

abbrev pub NoneIsBlb : List (List ℕ) → Type 0
NoneIsBlb = All (λ name. ¬ IsBlb name)

find_blb_none :
    (found : List ℕ) (names : List (List ℕ)) → NoneIsBlb names → find_blb found names ≡ found
unfolding find_blb
find_blb_none found [] h = refl
find_blb_none found (name ∷ names) h = rw (not-IsBlb name h.0) (find_blb_none found names h.1)

find_blb-last :
    (found name : List ℕ) (before after : List (List ℕ))
    → IsBlb name
    → NoneIsBlb after
    → find_blb found (before ++ name ∷ after) ≡ name
unfolding find_blb
find_blb-last found name [] after h none_left =
    rw (find_blb, (is_blb-IsBlb name).1 h) (find_blb_none name after none_left)
find_blb-last found name (b ∷ before) after h none_left =
    find_blb-last (if is_blb b then b else found) name before after h none_left

not_empty : ¬ IsBlb []
not_empty (([], some_base, e), p) = absurd (some_base refl)
not_empty ((b ∷ base, some_base, e), p) = cc

-- Whether a name is the last of its kind in the folder, or there is none.
abbrev pub IsLastBlb : List (List ℕ) → Option (List ℕ) → Type 0
IsLastBlb names none = NoneIsBlb names
IsLastBlb names (some name) =
    (before : List (List ℕ)) × (after : List (List ℕ)) × (names ≡ before ++ name ∷ after)
    × IsBlb name
    × NoneIsBlb after

bind_assoc :
    {A B C : Type 0} (m : Outcome A) (f : A → Outcome B) (g : B → Outcome C)
    → (m >>= (λ a. f a >>= g)) ≡ (m >>= f >>= g)
bind_assoc (ok a) f g = refl
bind_assoc (stop s) f g = refl

-- The constructor reads the database from the last file of the assets folder, in the order in which
-- their names are given, that is called `all….blb` or `bundle_db….blb`, and then the headers of the
-- bundles; without such a file the database is empty, whatever else is there, and a file that cannot
-- be opened is an input error.
pub start-last :
    (uncompress : Uncompress) (disk : Disk) (names : List (List ℕ)) (blb : Option (List ℕ))
    → IsLastBlb names blb
    → start uncompress disk names ≡ (elim blb [
      | none ↦ ok (resized 0)
      | some name ↦
          value_or (disk (codes "assets/" ++ name)) io_fails
          >>= load_blb
          >>= (λ db. load_bundles uncompress disk db names)
    ])
unfolding start
start-last uncompress disk names none h = rw (start, find_blb_none [] names h) refl
start-last uncompress disk names (some []) (before, after, e, is, h) = absurd (not_empty is)
start-last uncompress disk names (some (c ∷ cs)) (before, after, e, is, h) =
    let found : find_blb [] names ≡ c ∷ cs =
      ap (find_blb []) e ∙ find_blb-last [] (c ∷ cs) before after is h in
    rw (start, found)
      (bind_assoc (value_or (disk (codes "assets/" ++ c ∷ cs)) io_fails) load_blb
        (λ db. load_bundles uncompress disk db names))
