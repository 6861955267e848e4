-- ===== src/Common/Keeps.antt =====
-- Invariants of methods: `Keeps P m` says that `m`, whether it returns or raises, keeps `P`. There is one
-- rule for each way to write a method, so that `search` proves a `do` block from its parts.
use mathlib.Core.Path.{◌≡◌, refl}
use mathlib.Core.Bool.{Bool, true, false}
use mathlib.Core.Option.{Option, none, some}
use native.Mathlib.Omega.{arith}
use enterprise_netsec_iac.Common.Tests.{if◌then◌else◌}
use enterprise_netsec_iac.Common.Outcome.{
  Result, ok, err, Method, pure, lift, gets, returning, ◌>>=◌, ◌>>◌,
}

pub record Keeps {S A : Type 0} (P : S → Type 0) (m : Method S A) : Type 0 where
  pub at : (s : S) → P s → P (m s).1

module _ {S A : Type 0} {P : S → Type 0} where
  pub Keeps-pure : (a : A) → Keeps P (pure a)
  Keeps-pure a = record { at = λ s h. h }

  pub Keeps-lift : (r : Result A) → Keeps P (lift r)
  Keeps-lift r = record { at = λ s h. h }

  pub Keeps-gets : (f : S → A) → Keeps P (gets f)
  Keeps-gets f = record { at = λ s h. h }

  pub Keeps-returning : (f : S → A × S) → ((s : S) → P s → P (f s).1) → Keeps P (returning f)
  Keeps-returning f k = record { at = k }

  -- Each branch may use the test.
  pub Keeps-if :
      (test : Bool) (first second : Method S A)
      → (test ≡ true → Keeps P first)
      → (test ≡ false → Keeps P second)
      → Keeps P (if test then first else second)
  Keeps-if true first second on_first on_second = on_first refl
  Keeps-if false first second on_first on_second = on_second refl

module _ {S A B : Type 0} {P : S → Type 0} where
  after :
      (r : Result A) (f : A → Method S B) (s : S)
      → ((a : A) → Keeps P (f a))
      → P s
      → P (◌>>=◌ (lift r) f s).1
  after (ok a) f s kf h = (kf a).at s h
  after (err e) f s kf h = h

  pub Keeps-bind :
      (m : Method S A) (f : A → Method S B)
      → Keeps P m
      → ((a : A) → Keeps P (f a))
      → Keeps P (m >>= f)
  Keeps-bind m f km kf = record { at = λ s h. after (m s).0 f (m s).1 kf (km.at s h) }

  pub Keeps-option :
      (o : Option A) (m : Method S B) (f : A → Method S B)
      → Keeps P m
      → ((a : A) → Keeps P (f a))
      → Keeps P (elim o [ none ↦ m | some a ↦ f a ])
  Keeps-option none m f km kf = km
  Keeps-option (some a) m f km kf = kf a

pub Keeps-then :
    {S B : Type 0} {P : S → Type 0} (m : Method S (Unit {0})) (n : Method S B)
    → Keeps P m
    → Keeps P n
    → Keeps P (m >> n)
Keeps-then m n km kn = Keeps-bind m (λ _. n) km (λ _. kn)

pub ruleset keeps_rules =
    (Keeps-pure, Keeps-lift, Keeps-gets, Keeps-if, Keeps-bind, Keeps-then, Keeps-option)

-- What a method that keeps `P` also ensures of its result and of the state, if it returns.
pub record Ensures {S A : Type 0} (P : S → Type 0) (Q : A → S → Type 0) (m : Method S A)
    : Type 0 where
  pub keeps : Keeps P m
  pub gives : (s : S) → P s → (a : A) → (m s).0 ≡ ok a → Q a (m s).1

pub ensured :
    {S A B : Type 0} (P : S → Type 0) (r : Result A) (f : A → Method S B) (s : S)
    → P s
    → ((a : A) → r ≡ ok a → P (f a s).1)
    → P (◌>>=◌ (lift r) f s).1
ensured P (ok a) f s h k = k a refl
ensured P (err e) f s h k = h

module _ {S A B : Type 0} {P : S → Type 0} {Q : A → S → Type 0} where
  -- What follows a method may use what the method ensures.
  pub Ensures-bind :
      (m : Method S A) (f : A → Method S B)
      → Ensures P Q m
      → ((a : A) (s : S) → Q a s → P (f a s).1)
      → Keeps P (m >>= f)
  Ensures-bind m f k kf = record {
    at =
        λ s h. ensured P (m s).0 f (m s).1 (k.keeps.at s h) (λ a e. kf a (m s).1 (k.gives s h a e));
  }

pub >>-pure-ok :
    {S A : Type 0} (m : Method S (Unit {0})) (a : A) {b : A} (s : S)
    → ((m >> pure a) s).0 ≡ ok b
    → ((m s).0 ≡ ok tt) × (a ≡ b) × (((m >> pure a) s).1 ≡ (m s).1)
>>-pure-ok m a {b} s h = returned (m s).0 h
  where
    returned :
        (r : Result (Unit {0}))
        → (◌>>=◌ (lift r) (λ _. pure a) (m s).1).0 ≡ ok b
        → (r ≡ ok tt) × (a ≡ b) × ((◌>>=◌ (lift r) (λ _. pure a) (m s).1).1 ≡ (m s).1)
    returned (ok u) h = (refl, ground arith, refl)
    returned (err e) h = cc
