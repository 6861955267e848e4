-- ===== src/Ownership/Rows.antt =====
-- The tables of the ownership ledger and the set, one address at a time: what each change of a row or
-- of a member does to the tests that the client makes.
use enterprise_netsec_iac.Common.{
  String, ◌≡◌, refl, Bool, true, false, not, ◌&&◌, ◌||◌, List, [], ◌∷◌, str_eq, eq_iff, arith, any,
  filter, contains,
}
use enterprise_netsec_iac.Ownership.{Claim, at_address, by_owner, upsert, mark, unmark}

pub any-filter {ℓ} :
    {A : Type ℓ} (p q : A → Bool) (xs : List A) → any p (filter q xs) ≡ any (λ x. q x && p x) xs
any-filter p q [] = refl
any-filter p q (x ∷ xs) = ground (arith, any-filter p q xs)

pub contains-mark :
    (a b : String) (xs : List String) → contains a (mark b xs) ≡ (contains a xs || str_eq b a)
contains-mark a b xs = ground (arith, same a b xs)
  where
    same :
        (a b : String) (ys : List String)
        → contains b ys ≡ true
        → str_eq b a ≡ true
        → contains a ys ≡ true
    same a b [] h e = cc
    same a b (y ∷ ys) h e = ground (arith, same a b ys, eq_iff b a, eq_iff y b, eq_iff y a)

pub contains-unmark :
    (a b : String) (xs : List String)
    → contains a (unmark b xs) ≡ (contains a xs && not (str_eq b a))
contains-unmark a b [] = refl
contains-unmark a b (x ∷ xs) =
    ground (arith, contains-unmark a b xs, eq_iff x b, eq_iff x a, eq_iff b a)

-- An address is held if some row is at it.
abbrev pub held : String → List Claim → Bool
held a = any (at_address a)

abbrev pub held_by : String → String → List Claim → Bool
held_by a k = any (λ c. at_address a c && by_owner k c)

abbrev pub held_by_others : String → String → List Claim → Bool
held_by_others a k = any (λ c. at_address a c && not (by_owner k c))

pub held-upsert :
    (a : String) (c : Claim) (rs : List Claim)
    → held a (upsert c rs) ≡ (held a rs || str_eq c.address a)
unfolding upsert
held-upsert a c [] = ground arith
held-upsert a c (r ∷ rs) =
    ground (
      arith,
      held-upsert a c rs,
      eq_iff r.address c.address,
      eq_iff r.address a,
      eq_iff c.address a,
    )

pub held_by-upsert_self :
    (c : Claim) (rs : List Claim) → held_by c.address c.owner (upsert c rs) ≡ true
unfolding upsert
held_by-upsert_self c [] = ground (arith, eq_iff c.address c.address, eq_iff c.owner c.owner)
held_by-upsert_self c (r ∷ rs) =
    ground (arith, held_by-upsert_self c rs, eq_iff c.address c.address, eq_iff c.owner c.owner)

abbrev pub without : String → String → List Claim → List Claim
without a k = filter (λ c. not (at_address a c && by_owner k c))

pub held-without_self :
    (a k : String) (rs : List Claim) → held a (without a k rs) ≡ held_by_others a k rs
held-without_self a k [] = refl
held-without_self a k (r ∷ rs) = ground (arith, held-without_self a k rs)

pub held_by-without_self : (a k : String) (rs : List Claim) → held_by a k (without a k rs) ≡ false
held_by-without_self a k [] = refl
held_by-without_self a k (r ∷ rs) = ground (arith, held_by-without_self a k rs)

pub without-without :
    (a k : String) (rs : List Claim) → without a k (without a k rs) ≡ without a k rs
without-without a k [] = refl
without-without a k (r ∷ rs) = ground (arith, without-without a k rs)

pub held-without_ne :
    (a b k : String) (rs : List Claim) → str_eq b a ≡ false → held a (without b k rs) ≡ held a rs
held-without_ne a b k [] h = refl
held-without_ne a b k (r ∷ rs) h =
    ground (arith, held-without_ne a b k rs h, eq_iff r.address b, eq_iff r.address a, eq_iff b a)

pub held-held_by : (a k : String) (rs : List Claim) → held_by a k rs ≡ true → held a rs ≡ true
held-held_by a k [] h = cc
held-held_by a k (r ∷ rs) h = ground (arith, held-held_by a k rs)

pub held-held_by_others :
    (a k : String) (rs : List Claim) → held_by_others a k rs ≡ true → held a rs ≡ true
held-held_by_others a k [] h = cc
held-held_by_others a k (r ∷ rs) h = ground (arith, held-held_by_others a k rs)
