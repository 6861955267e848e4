-- ===== src/Value/Number.antt =====
-- Python's numbers as the response plane compares them: integers, and floats exactly as the dyadic
-- rationals that they are, with the infinities and NaN.
use enterprise_netsec_iac.Common.{ℕ, suc, ◌+◌, ◌-◌, ◌*◌, ◌^◌, Bool, not, ◌&&◌, leb}

-- `negsuc n` is -(n + 1).
pub data ℤ : Type 0 where
  pos : ℕ → ℤ
  negsuc : ℕ → ℤ

abbrev pub pos_part : ℤ → ℕ
pos_part (pos n) = n
pos_part (negsuc n) = 0

abbrev pub neg_part : ℤ → ℕ
neg_part (pos n) = 0
neg_part (negsuc n) = suc n

abbrev pub leb_ℤ : ℤ → ℤ → Bool
leb_ℤ a b = leb (pos_part a + neg_part b) (pos_part b + neg_part a)

-- `finite m e` is m / 2 ^ e.
pub data Float : Type 0 where
  finite : ℤ → ℕ → Float
  infinity : Bool → Float
  nan : Float

-- A number as it is compared: an integer or a finite float, both exact.
pub record Rational : Type 0 where
  pub numerator : ℤ
  pub exponent : ℕ

abbrev pub whole : ℤ → Rational
whole n = record { numerator = n; exponent = 0 }

abbrev pub scale : ℤ → ℕ → ℤ
scale (pos n) e = pos (n * 2 ^ e)
scale (negsuc n) e = negsuc ((n + 1) * 2 ^ e - 1)

-- `a <= b`
abbrev pub leq : Rational → Rational → Bool
leq a b = leb_ℤ (scale a.numerator b.exponent) (scale b.numerator a.exponent)

-- `a < b`
abbrev pub less : Rational → Rational → Bool
less a b = not (leq b a)

abbrev pub zero_q : Rational
zero_q = whole (pos 0)

abbrev pub one_q : Rational
one_q = whole (pos 1)

-- `0 <= a <= 1`
abbrev pub in_unit : Rational → Bool
in_unit a = leq zero_q a && leq a one_q

-- The float that Python reads for `0.9`, 8106479329266893 / 2 ^ 53.
abbrev pub nine_tenths : Rational
nine_tenths = record { numerator = pos 8106479329266893; exponent = 53 }
