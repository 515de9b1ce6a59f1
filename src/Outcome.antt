-- ===== src/Outcome.antt =====
-- How a call of the program's code ends: with a result, or by one of the ways in which it stops.
use raid_super_blt.Base.{Bool, true, false, ◌≡◌, refl, Option, none, some}

-- `aborts` is abort() or a failed assert, `exits` is ExitProcess(1), `io_fails` a thrown
-- std::ios::failure, `throws` any other exception that leaves the call, and `undefined` what C++
-- gives no meaning, such as a null dereference. `raises` is a Lua error. `out_of_fuel` is a recursion
-- deeper than the fuel of the model.
pub data Stop : Type 0 where
  aborts exits io_fails throws undefined raises out_of_fuel : Stop

pub data Outcome {ℓ} (A : Type ℓ) : Type ℓ where
  ok : A → Outcome A
  stop : Stop → Outcome A

abbrev pub require : Bool → Stop → Outcome (Unit {0})
require true s = ok tt
require false s = stop s

infixl 5 ◌>>=◌ ◌>>◌
abbrev pub ◌>>=◌ {ℓ κ} : {A : Type ℓ} {B : Type κ} → Outcome A → (A → Outcome B) → Outcome B
stop s >>= next = stop s
ok a >>= next = next a

abbrev pub value_or {ℓ} : {A : Type ℓ} → Option A → Stop → Outcome A
value_or none s = stop s
value_or (some a) s = ok a

abbrev pub ◌>>◌ {ℓ} : {B : Type ℓ} → Outcome (Unit {0}) → Outcome B → Outcome B
m >> k = m >>= λ _. k

-- Inversion of a successful bind.
pub >>=-eq-ok {ℓ κ} :
    {A : Type ℓ} {B : Type κ} (first : Outcome A) (next : A → Outcome B) {result : B}
    → (first >>= next) ≡ ok result
    → (a : A) × (first ≡ ok a) × (next a ≡ ok result)
>>=-eq-ok (stop s) next e = cc
>>=-eq-ok (ok a) next e = (a, refl, e)

pub ok-injective {ℓ} : {A : Type ℓ} {a b : A} → ok a ≡ ok b → a ≡ b
ok-injective e = cc

pub require-eq-ok : (b : Bool) (s : Stop) {u : Unit {0}} → require b s ≡ ok u → b ≡ true
require-eq-ok true s e = refl
require-eq-ok false s e = cc
