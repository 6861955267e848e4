-- ===== src/Common/Lists.antt =====
-- Lists measured by native numbers, Boolean quantifiers and filters, and texts in lists.
use Prim.Native.Nat.{ℕ, suc, ◌+◌}
use Prim.Native.String.{String, ◌++◌ as concat}
use mathlib.Core.Path.{◌≡◌, refl}
use mathlib.Core.Bool.{Bool, true, false, ◌&&◌, ◌||◌}
use mathlib.Core.Option.{Option, none, some}
use mathlib.Core.Logic.{◌⊎◌, inl, inr}
use mathlib.Core.List.{List, [], ◌∷◌, ◌++◌}
use native.Mathlib.Omega.{arith}
use text.Mathlib.Text.{◌==◌ as str_eq}
use text.Mathlib.TextEquality.{eq_iff}
use text.Mathlib.TextLemmas.{append-eq-nil_iff}
use enterprise_netsec_iac.Common.Tests.{if◌then◌else◌, Bool-cases}

module _ {ℓ} {A : Type ℓ} where
  abbrev pub length : List A → ℕ
  length [] = 0
  length (x ∷ xs) = suc (length xs)

  -- Python's `any` and `all` over a sequence.
  abbrev pub any : (A → Bool) → List A → Bool
  any p [] = false
  any p (x ∷ xs) = p x || any p xs

  abbrev pub all : (A → Bool) → List A → Bool
  all p [] = true
  all p (x ∷ xs) = p x && all p xs

  -- A comprehension with a condition, over a Boolean test.
  abbrev pub filter : (A → Bool) → List A → List A
  filter p [] = []
  filter p (x ∷ xs) = let rest = filter p xs in if p x then x ∷ rest else rest

  abbrev pub count : (A → Bool) → List A → ℕ
  count p [] = 0
  count p (x ∷ xs) = let rest = count p xs in if p x then suc rest else rest

  -- `history[-1]`, or nothing on an empty history.
  abbrev pub last? : List A → Option A
  last? [] = none
  last? (x ∷ []) = some x
  last? (x ∷ y ∷ xs) = last? (y ∷ xs)

  pub length-append : (xs ys : List A) → length (xs ++ ys) ≡ length xs + length ys
  length-append [] ys = omega arith
  length-append (x ∷ xs) ys = omega (arith, length-append xs ys)

  pub last?-append_one : (xs : List A) (y : A) → last? (xs ++ y ∷ []) ≡ some y
  last?-append_one [] y = refl
  last?-append_one (x ∷ []) y = refl
  last?-append_one (x ∷ z ∷ xs) y = last?-append_one (z ∷ xs) y

  pub count-append : (p : A → Bool) (xs ys : List A) → count p (xs ++ ys) ≡ count p xs + count p ys
  count-append p [] ys = omega arith
  count-append p (x ∷ xs) ys = ground (arith, count-append p xs ys)

  pub filter-append_one :
      (p : A → Bool) (xs : List A) (y : A)
      → filter p (xs ++ y ∷ []) ≡ (if p y then filter p xs ++ y ∷ [] else filter p xs)
  filter-append_one p [] y = ground arith
  filter-append_one p (x ∷ xs) y = ground (arith, filter-append_one p xs y)

  pub any-append : (p : A → Bool) (xs ys : List A) → any p (xs ++ ys) ≡ (any p xs || any p ys)
  any-append p [] ys = refl
  any-append p (x ∷ xs) ys = ground (arith, any-append p xs ys)

  -- A predicate on every element, as nested pairs.
  abbrev pub All {κ} : (A → Type κ) → List A → Type κ
  All P [] = Unit
  All P (x ∷ xs) = P x × All P xs

-- A predicate on some element.
abbrev pub Some : {A : Type 0} → (A → Type 0) → List A → Type 0
Some P [] = ⊥
Some P (x ∷ xs) = P x ⊎ Some P xs

pub Some-any :
    {A : Type 0} (p : A → Bool) (xs : List A) → any p xs ≡ true → Some (λ x. p x ≡ true) xs
Some-any p [] h = cc
Some-any p (x ∷ xs) h = elim (Bool-cases (p x)) [
  | inl is ↦ inl is
  | inr not_ ↦ inr (Some-any p xs (ground (arith, h, not_)))
]

pub any-Some :
    {A : Type 0} (p : A → Bool) (xs : List A) → Some (λ x. p x ≡ true) xs → any p xs ≡ true
any-Some p [] h = elim h [ ]
any-Some p (x ∷ xs) (inl h) = ground (arith, h)
any-Some p (x ∷ xs) (inr h) = ground (arith, any-Some p xs h)

pub Some-map :
    {A : Type 0} {P Q : A → Type 0} (xs : List A) → ((x : A) → P x → Q x) → Some P xs → Some Q xs
Some-map [] f h = elim h [ ]
Some-map (x ∷ xs) f (inl h) = inl (f x h)
Some-map (x ∷ xs) f (inr h) = inr (Some-map xs f h)

pub All-append_one {ℓ κ} :
    {A : Type ℓ} (P : A → Type κ) (xs : List A) (y : A) → All P xs → P y → All P (xs ++ y ∷ [])
All-append_one P [] y h p = (p, tt)
All-append_one P (x ∷ xs) y (h, hs) p = (h, All-append_one P xs y hs p)

pub All-append {ℓ κ} :
    {A : Type ℓ} (P : A → Type κ) (xs ys : List A) → All P xs → All P ys → All P (xs ++ ys)
All-append P [] ys h p = p
All-append P (x ∷ xs) ys (h, hs) p = (h, All-append P xs ys hs p)

pub All-map {ℓ κ} :
    {A : Type ℓ} {P Q : A → Type κ} (xs : List A) → ((x : A) → P x → Q x) → All P xs → All Q xs
All-map [] f h = tt
All-map (x ∷ xs) f (h, hs) = (f x h, All-map xs f hs)

-- `x in xs` for texts.
abbrev pub contains : String → List String → Bool
contains x xs = any (λ y. str_eq y x) xs

pub contains-append :
    (x : String) (xs ys : List String) → contains x (xs ++ ys) ≡ (contains x xs || contains x ys)
contains-append x = any-append (λ y. str_eq y x)

-- A text with a part that is not empty is not empty.
pub concat-nonempty : (s t : String) → str_eq s "" ≡ false → str_eq (concat s t) "" ≡ false
concat-nonempty s t named = elim (Bool-cases (str_eq (concat s t) "")) [
  | inr full ↦ full
  | inl empty ↦
      let none_left = append-eq-nil_iff.0 ((eq_iff (concat s t) "").0 empty) in
      ground (arith, named, (eq_iff s "").1 none_left.0)
]
