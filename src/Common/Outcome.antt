-- ===== src/Common/Outcome.antt =====
-- A call of a method that changes an object and may raise. What was written before the raise stays
-- written, so the object comes back beside the exception.
use Prim.Native.String.{String}
use mathlib.Core.Path.{◌≡◌, refl}
use mathlib.Core.Logic.{◌⊎◌, inl, inr}

-- The exception classes of response/errors.py, with those of Python that the code raises itself.
pub data Kind : Type 0 where
  policy_error correlation_rejected command_rejected adapter_error : Kind
  value_error runtime_error overflow_error assertion_error storage_error attribute_error : Kind

pub record Error : Type 0 where
  pub kind : Kind
  pub message : String

pub data Result {ℓ} (A : Type ℓ) : Type ℓ where
  ok : A → Result A
  err : Error → Result A

abbrev pub error {ℓ} : {A : Type ℓ} → Kind → String → Result A
error k m = err (record { kind = k; message = m })

abbrev pub Method : Type 0 → Type 0 → Type 0
Method S A = S → Result A × S

module _ {S A : Type 0} where
  abbrev pub pure : A → Method S A
  pure a s = (ok a, s)

  abbrev pub raise : Kind → String → Method S A
  raise k m s = (error k m, s)

  abbrev pub lift : Result A → Method S A
  lift r s = (r, s)

  abbrev pub gets : (S → A) → Method S A
  gets f s = (ok (f s), s)

-- A call that never raises.
abbrev pub returning : {S A : Type 0} → (S → A × S) → Method S A
returning f s = (ok (f s).0, (f s).1)

abbrev pub modify : {S : Type 0} → (S → S) → Method S (Unit {0})
modify f s = (ok tt, f s)

infixl 5 ◌>>=◌ ◌>>◌
abbrev pub ◌>>=◌ : {S A B : Type 0} → Method S A → (A → Method S B) → Method S B
◌>>=◌ m f s = let (r, s') = m s in elim r [ ok a ↦ f a s' | err e ↦ (err e, s') ]

abbrev pub ◌>>◌ : {S B : Type 0} → Method S (Unit {0}) → Method S B → Method S B
m >> k = m >>= λ _. k

-- `try: m except Exception: h`
abbrev pub catch : {S A : Type 0} → Method S A → (Error → Method S A) → Method S A
catch m h s = let (r, s') = m s in elim r [ ok a ↦ (ok a, s') | err e ↦ h e s' ]

pub Result-cases {ℓ} :
    {A : Type ℓ} (r : Result A) → ((a : A) × (r ≡ ok a)) ⊎ ((e : Error) × (r ≡ err e))
Result-cases (ok a) = inl (a, refl)
Result-cases (err e) = inr (e, refl)
