-- ===== src/DbHooks/Binding.antt =====
-- bind_dbhook_method and bind_dbhook_class of src/tweaker/db_hooks.cpp: the foreign methods and
-- classes of the Wren module base/native/DB_001.
use raid_super_blt.Base.{
  ℕ, ◌≡◌, refl, ap, ◌∙◌, subst, Bool, true, false, not, ◌&&◌, Option, none, some, some-injective,
  List, codes, same_text, same_text→eq, if◌then◌else◌, arith, ◌⊎◌, inl, inr, ◌↔◌,
}

-- The functions that a method name can be bound to.
pub data ForeignMethod : Type 0 where
  manager_register manager_load : ForeignMethod
  hook_get_fallback hook_set_fallback hook_get_mode hook_is_enabled hook_disable hook_get_plain_file
        hook_set_plain_file :
      ForeignMethod
  hook_get_direct_bundle hook_set_direct_bundle hook_get_wren_loader hook_set_wren_loader :
      ForeignMethod
  file_of_file file_of_asset file_from_string : ForeignMethod

abbrev pub module_name : List ℕ
module_name = codes "base/native/DB_001"

manager_method : List ℕ → Option ForeignMethod
manager_method signature =
    if same_text signature (codes "register_asset_hook(_,_)")
    then some manager_register
    else if same_text signature (codes "load_asset_contents(_,_)")
    then some manager_load
    else none

hook_method : List ℕ → Option ForeignMethod
hook_method signature =
    if same_text signature (codes "fallback")
    then some hook_get_fallback
    else if same_text signature (codes "fallback=(_)")
    then some hook_set_fallback
    else if same_text signature (codes "mode")
    then some hook_get_mode
    else if same_text signature (codes "enabled")
    then some hook_is_enabled
    else if same_text signature (codes "disable()")
    then some hook_disable
    else if same_text signature (codes "plain_file")
    then some hook_get_plain_file
    else if same_text signature (codes "plain_file=(_)")
    then some hook_set_plain_file
    else if same_text signature (codes "direct_bundle")
    then some hook_get_direct_bundle
    else if same_text signature (codes "set_direct_bundle(_,_)")
    then some hook_set_direct_bundle
    else if same_text signature (codes "wren_loader")
    then some hook_get_wren_loader
    else if same_text signature (codes "wren_loader=(_)")
    then some hook_set_wren_loader
    else none

file_method : List ℕ → Option ForeignMethod
file_method signature =
    if same_text signature (codes "of_file(_)")
    then some file_of_file
    else if same_text signature (codes "of_asset(_,_)")
    then some file_of_asset
    else if same_text signature (codes "from_string(_)")
    then some file_from_string
    else none

-- `bind_dbhook_method`
pub bind_method : List ℕ → List ℕ → Bool → List ℕ → Option ForeignMethod
bind_method mod_name class_name is_static signature =
    if not (same_text mod_name module_name)
    then none
    else if same_text class_name (codes "DBManager") && is_static
    then manager_method signature
    else if same_text class_name (codes "DBAssetHook") && not is_static
    then hook_method signature
    else if same_text class_name (codes "DBForeignFile") && is_static
    then file_method signature
    else none

-- `bind_dbhook_class`: the finaliser that a class gets; its allocator aborts.
pub data ForeignClass : Type 0 where
  asset_hook foreign_file : ForeignClass

pub bind_class : List ℕ → List ℕ → Option ForeignClass
bind_class mod_name class_name =
    if same_text mod_name module_name
    then if same_text class_name (codes "DBAssetHook")
      then some asset_hook
      else if same_text class_name (codes "DBForeignFile")
      then some foreign_file
      else none
    else none

-- How the Wren module declares each method: its class, whether it is static, its signature.
abbrev pub class_of : ForeignMethod → List ℕ
class_of manager_register = codes "DBManager"
class_of manager_load = codes "DBManager"
class_of file_of_file = codes "DBForeignFile"
class_of file_of_asset = codes "DBForeignFile"
class_of file_from_string = codes "DBForeignFile"
class_of _ = codes "DBAssetHook"

abbrev pub static_of : ForeignMethod → Bool
static_of manager_register = true
static_of manager_load = true
static_of file_of_file = true
static_of file_of_asset = true
static_of file_from_string = true
static_of _ = false

abbrev pub signature_of : ForeignMethod → List ℕ
signature_of manager_register = codes "register_asset_hook(_,_)"
signature_of manager_load = codes "load_asset_contents(_,_)"
signature_of hook_get_fallback = codes "fallback"
signature_of hook_set_fallback = codes "fallback=(_)"
signature_of hook_get_mode = codes "mode"
signature_of hook_is_enabled = codes "enabled"
signature_of hook_disable = codes "disable()"
signature_of hook_get_plain_file = codes "plain_file"
signature_of hook_set_plain_file = codes "plain_file=(_)"
signature_of hook_get_direct_bundle = codes "direct_bundle"
signature_of hook_set_direct_bundle = codes "set_direct_bundle(_,_)"
signature_of hook_get_wren_loader = codes "wren_loader"
signature_of hook_set_wren_loader = codes "wren_loader=(_)"
signature_of file_of_file = codes "of_file(_)"
signature_of file_of_asset = codes "of_asset(_,_)"
signature_of file_from_string = codes "from_string(_)"

declared :
    (m : ForeignMethod)
    → bind_method module_name (class_of m) (static_of m) (signature_of m) ≡ some m
unfolding bind_method manager_method hook_method file_method same_text
declared manager_register = refl
declared manager_load = refl
declared hook_get_fallback = refl
declared hook_set_fallback = refl
declared hook_get_mode = refl
declared hook_is_enabled = refl
declared hook_disable = refl
declared hook_get_plain_file = refl
declared hook_set_plain_file = refl
declared hook_get_direct_bundle = refl
declared hook_set_direct_bundle = refl
declared hook_get_wren_loader = refl
declared hook_set_wren_loader = refl
declared file_of_file = refl
declared file_of_asset = refl
declared file_from_string = refl

-- The declaration of a method.
abbrev pub IsDeclared : List ℕ → Bool → List ℕ → ForeignMethod → Type 0
IsDeclared class_name is_static signature m =
    (class_name ≡ class_of m) × (is_static ≡ static_of m) × (signature ≡ signature_of m)

-- The first test of a ladder, or the rest of it.
first :
    {P : ForeignMethod → Type 0} (b : Bool) (k : ForeignMethod) (rest : Option ForeignMethod)
    → (b ≡ true → P k)
    → ((m : ForeignMethod) → rest ≡ some m → P m)
    → (m : ForeignMethod) → (if b then some k else rest) ≡ some m
    → P m
first {P} true k rest here later m e = subst P (some-injective k m e) (here refl)
first false k rest here later m e = later m e

module _ (s : List ℕ) where
  manager-IsDeclared :
      (m : ForeignMethod) → manager_method s ≡ some m → IsDeclared (codes "DBManager") true s m
  unfolding manager_method
  manager-IsDeclared =
      first (same_text s (codes "register_asset_hook(_,_)")) manager_register _
        (λ p. (refl, refl, same_text→eq s (codes "register_asset_hook(_,_)") p))
        (first (same_text s (codes "load_asset_contents(_,_)")) manager_load _
          (λ p. (refl, refl, same_text→eq s (codes "load_asset_contents(_,_)") p)) (λ m e. cc))

  hook-IsDeclared :
      (m : ForeignMethod) → hook_method s ≡ some m → IsDeclared (codes "DBAssetHook") false s m
  unfolding hook_method
  hook-IsDeclared =
      first (same_text s (codes "fallback")) hook_get_fallback _
        (λ p. (refl, refl, same_text→eq s (codes "fallback") p))
        (first (same_text s (codes "fallback=(_)")) hook_set_fallback _
          (λ p. (refl, refl, same_text→eq s (codes "fallback=(_)") p))
          (first (same_text s (codes "mode")) hook_get_mode _
            (λ p. (refl, refl, same_text→eq s (codes "mode") p))
            (first (same_text s (codes "enabled")) hook_is_enabled _
              (λ p. (refl, refl, same_text→eq s (codes "enabled") p))
              (first (same_text s (codes "disable()")) hook_disable _
                (λ p. (refl, refl, same_text→eq s (codes "disable()") p))
                (first (same_text s (codes "plain_file")) hook_get_plain_file _
                  (λ p. (refl, refl, same_text→eq s (codes "plain_file") p))
                  (first (same_text s (codes "plain_file=(_)")) hook_set_plain_file _
                    (λ p. (refl, refl, same_text→eq s (codes "plain_file=(_)") p))
                    (first (same_text s (codes "direct_bundle")) hook_get_direct_bundle _
                      (λ p. (refl, refl, same_text→eq s (codes "direct_bundle") p))
                      (first (same_text s (codes "set_direct_bundle(_,_)")) hook_set_direct_bundle _
                        (λ p. (refl, refl, same_text→eq s (codes "set_direct_bundle(_,_)") p))
                        (first (same_text s (codes "wren_loader")) hook_get_wren_loader _
                          (λ p. (refl, refl, same_text→eq s (codes "wren_loader") p))
                          (first (same_text s (codes "wren_loader=(_)")) hook_set_wren_loader _
                            (λ p. (refl, refl, same_text→eq s (codes "wren_loader=(_)") p))
                            (λ m e. cc)))))))))))

  file-IsDeclared :
      (m : ForeignMethod) → file_method s ≡ some m → IsDeclared (codes "DBForeignFile") true s m
  unfolding file_method
  file-IsDeclared =
      first (same_text s (codes "of_file(_)")) file_of_file _
        (λ p. (refl, refl, same_text→eq s (codes "of_file(_)") p))
        (first (same_text s (codes "of_asset(_,_)")) file_of_asset _
          (λ p. (refl, refl, same_text→eq s (codes "of_asset(_,_)") p))
          (first (same_text s (codes "from_string(_)")) file_from_string _
            (λ p. (refl, refl, same_text→eq s (codes "from_string(_)") p)) (λ m e. cc)))

-- The branch of a test that gives a result.
branch :
    {m : ForeignMethod} (b : Bool) (t e : Option ForeignMethod)
    → (if b then t else e) ≡ some m
    → ((b ≡ true) × (t ≡ some m)) ⊎ ((b ≡ false) × (e ≡ some m))
branch true t e q = inl (refl, q)
branch false t e q = inr (refl, q)

module _ (class_name : List ℕ) (is_static : Bool) (signature : List ℕ) (m : ForeignMethod) where
  abbrev file_branch : Option ForeignMethod
  file_branch =
      if same_text class_name (codes "DBForeignFile") && is_static
      then file_method signature
      else none

  abbrev hook_branch : Option ForeignMethod
  hook_branch =
      if same_text class_name (codes "DBAssetHook") && not is_static
      then hook_method signature
      else file_branch

  abbrev manager_branch : Option ForeignMethod
  manager_branch =
      if same_text class_name (codes "DBManager") && is_static
      then manager_method signature
      else hook_branch

  file_bound : file_branch ≡ some m → IsDeclared class_name is_static signature m
  file_bound e =
      elim (branch (same_text class_name (codes "DBForeignFile") && is_static)
        (file_method signature) none e) [
          | inl (p, q) ↦
              let (c, st, sig) = file-IsDeclared signature m q in
              (
                same_text→eq class_name (codes "DBForeignFile") (ground (arith, p)) ∙ c,
                ground (arith, p, st),
                sig,
              )
          | inr (_, q) ↦ cc
        ]

  hook_bound : hook_branch ≡ some m → IsDeclared class_name is_static signature m
  hook_bound e =
      elim (branch (same_text class_name (codes "DBAssetHook") && not is_static)
        (hook_method signature) file_branch e) [
          | inl (p, q) ↦
              let (c, st, sig) = hook-IsDeclared signature m q in
              (
                same_text→eq class_name (codes "DBAssetHook") (ground (arith, p)) ∙ c,
                ground (arith, p, st),
                sig,
              )
          | inr (_, q) ↦ file_bound q
        ]

  bound : manager_branch ≡ some m → IsDeclared class_name is_static signature m
  bound e =
      elim (branch (same_text class_name (codes "DBManager") && is_static)
        (manager_method signature) hook_branch e) [
          | inl (p, q) ↦
              let (c, st, sig) = manager-IsDeclared signature m q in
              (
                same_text→eq class_name (codes "DBManager") (ground (arith, p)) ∙ c,
                ground (arith, p, st),
                sig,
              )
          | inr (_, q) ↦ hook_bound q
        ]

-- Exactly the methods that the Wren module declares are bound, each at its own class, kind and
-- signature.
pub bind_method-IsDeclared :
    (mod_name class_name : List ℕ) (is_static : Bool) (signature : List ℕ) (m : ForeignMethod)
    → (bind_method mod_name class_name is_static signature ≡ some m)
      ↔ ((mod_name ≡ module_name) × IsDeclared class_name is_static signature m)
unfolding bind_method
bind_method-IsDeclared mod_name class_name is_static signature m = (
  λ e.
      elim (branch (not (same_text mod_name module_name)) none
        (manager_branch class_name is_static signature m) e) [
          | inl (_, q) ↦ cc
          | inr (p, q) ↦ (
            same_text→eq mod_name module_name (ground (arith, p)),
            bound class_name is_static signature m q,
          )
        ],
  λ (at, d).
      ap (λ x. bind_method x class_name is_static signature) at
      ∙ (ap (λ x. bind_method module_name x is_static signature) d.0
          ∙ (ap (λ x. bind_method module_name (class_of m) x signature) d.1
              ∙ (ap (bind_method module_name (class_of m) (static_of m)) d.2 ∙ declared m))),
)
