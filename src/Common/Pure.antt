-- ===== src/Common/Pure.antt =====
-- A function that may raise and changes nothing: `do` blocks over `Result`, and their inversion.
use Prim.Native.String.{String}
use mathlib.Core.Path.{◌≡◌, refl}
use mathlib.Core.Bool.{Bool, true, false}
use native.Mathlib.Omega.{arith}
use enterprise_netsec_iac.Common.Outcome.{Kind, Result, ok, err, error}

infixl 5 ◌>>=◌ ◌>>◌
abbrev pub ◌>>=◌ {ℓ κ} : {X : Type ℓ} {Y : Type κ} → Result X → (X → Result Y) → Result Y
ok value >>= next = next value
err raised >>= next = err raised

abbrev pub ◌>>◌ {ℓ} : {Y : Type ℓ} → Result (Unit {0}) → Result Y → Result Y
check >> next = check >>= λ _. next

-- `if not b: raise k(m)`
abbrev pub require : Bool → Kind → String → Result (Unit {0})
require true k m = ok tt
require false k m = error k m

-- `if b: raise k(m)`
abbrev pub refuse : Bool → Kind → String → Result (Unit {0})
refuse true k m = error k m
refuse false k m = ok tt

-- A chain that returns: its head returned a value, on which the rest returned the result.
pub >>=-eq-ok {ℓ κ} :
    {A : Type ℓ} {B : Type κ} (first : Result A) (next : A → Result B) {answer : B}
    → (first >>= next) ≡ ok answer
    → (value : A) × (first ≡ ok value) × (next value ≡ ok answer)
>>=-eq-ok (ok value) next returned = (value, refl, returned)
>>=-eq-ok (err raised) next returned = cc

pub require-eq-ok : (b : Bool) (k : Kind) (m : String) → require b k m ≡ ok tt → b ≡ true
require-eq-ok true k m h = refl
require-eq-ok false k m h = cc

pub refuse-eq-ok : (b : Bool) (k : Kind) (m : String) → refuse b k m ≡ ok tt → b ≡ false
refuse-eq-ok true k m h = cc
refuse-eq-ok false k m h = refl

pub ok-eq-ok {ℓ} : {A : Type ℓ} {a b : A} → Result.ok a ≡ ok b → a ≡ b
ok-eq-ok h = ground arith
