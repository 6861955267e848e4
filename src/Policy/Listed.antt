-- ===== src/Policy/Listed.antt =====
-- response/policy.py, `address in self.protected_ips` and the like: membership in the lists of the
-- protections, as equality with an element.
use enterprise_netsec_iac.Common.{
  ◌≡◌, ◌≢◌, refl, ap, String, Bool, true, false, Option, none, some, List, [], ◌∷◌, any, contains,
  arith, All, Some, Some-any, any-Some, Some-map, All-map, Bool-cases, inl, inr, eq_iff, str_eq,
}
use enterprise_netsec_iac.Platform.{Address, ipv4, ipv6, same_zone, same_address}
use enterprise_netsec_iac.Policy.Protection.{among}

same_zone-eq : (s t : Option String) → same_zone s t ≡ true → s ≡ t
same_zone-eq none none h = refl
same_zone-eq none (some t) h = cc
same_zone-eq (some s) none h = cc
same_zone-eq (some s) (some t) h = ap some (ground (arith, eq_iff s t))

same_zone_refl : (s : Option String) → same_zone s s ≡ true
same_zone_refl none = refl
same_zone_refl (some s) = ground (arith, eq_iff s s)

same_address-eq : (a b : Address) → same_address a b ≡ true → a ≡ b
same_address-eq (ipv4 a) (ipv4 b) h = ap ipv4 (ground arith)
same_address-eq (ipv4 a) (ipv6 b t) h = cc
same_address-eq (ipv6 a s) (ipv4 b) h = cc
same_address-eq (ipv6 a s) (ipv6 b t) h =
    let number : a ≡ b = ground arith in
    let zone : s ≡ t = same_zone-eq s t (ground arith) in rw (number, zone) refl

same_address_refl : (a : Address) → same_address a a ≡ true
same_address_refl (ipv4 a) = ground arith
same_address_refl (ipv6 a s) = ground (arith, same_zone_refl s)

pub any-All :
    {A : Type 0} (p : A → Bool) (xs : List A) → any p xs ≡ false → All (λ x. p x ≡ false) xs
any-All p [] h = tt
any-All p (x ∷ xs) h = (ground (arith, h), any-All p xs (ground (arith, h)))

pub All-any :
    {A : Type 0} (p : A → Bool) (xs : List A) → All (λ x. p x ≡ false) xs → any p xs ≡ false
All-any p [] h = refl
All-any p (x ∷ xs) (h, hs) = ground (arith, h, All-any p xs hs)

pub among-false : (a : Address) (bs : List Address) → among a bs ≡ false → All (λ b. a ≢ b) bs
among-false a bs h = All-map bs other (any-All (same_address a) bs h)
  where
    other : (b : Address) → same_address a b ≡ false → a ≢ b
    other b differs same = ground (arith, rw (← same) at differs, same_address_refl a)

pub false-among : (a : Address) (bs : List Address) → All (λ b. a ≢ b) bs → among a bs ≡ false
false-among a bs h = All-any (same_address a) bs (All-map bs other h)
  where
    other : (b : Address) → a ≢ b → same_address a b ≡ false
    other b differs = elim (Bool-cases (same_address a b)) [
      | inl same ↦ elim (differs (same_address-eq a b same)) [ ]
      | inr unlike ↦ unlike
    ]

pub contains-false : (h : String) (ns : List String) → contains h ns ≡ false → All (λ n. n ≢ h) ns
contains-false h ns e =
    All-map ns (λ n differs same. ground (arith, differs, (eq_iff n h).1 same))
      (any-All (λ n. str_eq n h) ns e)

pub false-contains : (h : String) (ns : List String) → All (λ n. n ≢ h) ns → contains h ns ≡ false
false-contains h ns e = All-any (λ n. str_eq n h) ns (All-map ns other e)
  where
    other : (n : String) → n ≢ h → str_eq n h ≡ false
    other n differs = elim (Bool-cases (str_eq n h)) [
      | inl same ↦ elim (differs ((eq_iff n h).0 same)) [ ]
      | inr unlike ↦ unlike
    ]

pub contains-Some : (h : String) (ns : List String) → contains h ns ≡ true → Some (λ n. n ≡ h) ns
contains-Some h ns e = Some-map ns (λ n. (eq_iff n h).0) (Some-any (λ n. str_eq n h) ns e)

pub Some-contains : (h : String) (ns : List String) → Some (λ n. n ≡ h) ns → contains h ns ≡ true
Some-contains h ns e = any-Some (λ n. str_eq n h) ns (Some-map ns (λ n. (eq_iff n h).1) e)
