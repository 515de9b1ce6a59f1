-- ===== src/Diesel/Startup/Names.antt =====
-- The file names of src/dbutil/DB.cpp: which headers are read, and the data files beside them.
use raid_super_blt.Base.{
  ℕ, ◌-◌, ◌≡◌, ◌≢◌, refl, sym, ap, ◌∙◌, true, false, ◌&&◌, not, List, [], ◌∷◌, ◌++◌, append_assoc,
  length, take, drop, length-append, take-append_length, drop-append_length, leb, codes, arith,
  same_text, same_text_refl,
}
use raid_super_blt.Diesel.Startup.{has_suffix, header_path, data_path, is_header}

take-before_end : (p s : List ℕ) → take (length (p ++ s) - length s) (p ++ s) ≡ p
take-before_end p s =
    ap (λ k. take k (p ++ s)) {x = length (p ++ s) - length s} {y = length p}
      (omega (arith, length-append p s))
    ∙ take-append_length p s

drop-before_end : (p s : List ℕ) → drop (length (p ++ s) - length s) (p ++ s) ≡ s
drop-before_end p s =
    ap (λ k. drop k (p ++ s)) {x = length (p ++ s) - length s} {y = length p}
      (omega (arith, length-append p s))
    ∙ drop-append_length p s

-- A name that is longer than the suffix at its end has it.
pub has_suffix-append :
    (base suffix : List ℕ) → base ≢ [] → has_suffix suffix (base ++ suffix) ≡ true
unfolding has_suffix
has_suffix-append [] suffix some_base = absurd (some_base refl)
has_suffix-append (c ∷ base) suffix some_base =
    ap
      (λ b.
        not b
        && same_text (drop (length ((c ∷ base) ++ suffix) - length suffix) ((c ∷ base) ++ suffix))
            suffix)
      longer
    ∙ (ap (λ t. same_text t suffix) (drop-before_end (c ∷ base) suffix) ∙ same_text_refl suffix)
  where
    longer : leb (length ((c ∷ base) ++ suffix)) (length suffix) ≡ false
    longer = ground (arith, length-append (c ∷ base) suffix)

data_path_lem :
    (base : List ℕ)
    → data_path (base ++ codes "_h.bundle") ≡ codes "assets/" ++ (base ++ codes ".bundle")
unfolding data_path header_path
data_path_lem base =
    let start = codes "assets/" ++ base in
    ap (λ t. t ++ drop (length (start ++ codes "_h.bundle") - 7) (start ++ codes "_h.bundle"))
      (take-before_end start (codes "_h.bundle"))
    ∙ ap (λ t. start ++ t)
        (ap (λ t. drop (length t - 7) t) (sym (append_assoc start (codes "_h") (codes ".bundle")))
          ∙ drop-before_end (start ++ codes "_h") (codes ".bundle"))

-- The loop over the headers takes every `base_h.bundle` but `all_h.bundle`, and the data file of
-- the header is `base.bundle` in the assets folder.
pub header_names :
    (base : List ℕ)
    → base ≢ []
    → (is_header (base ++ codes "_h.bundle")
        ≡ not (same_text (base ++ codes "_h.bundle") (codes "all_h.bundle")))
      × (data_path (base ++ codes "_h.bundle") ≡ codes "assets/" ++ (base ++ codes ".bundle"))
unfolding is_header
header_names base some_base =
    (rw (has_suffix-append base (codes "_h.bundle") some_base) refl, data_path_lem base)
