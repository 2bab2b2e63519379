-- ===== src/Witnesses/Numbers.antt =====
-- A modulus of one limb, and a number of two.
use fantuan_kernel.Base.{ℕ, ◌-◌, ◌/◌, ◌*◌, ◌%◌, ◌^◌, ◌<◌, ◌≡◌, refl, List, ◌∷◌, arith, some}
use fantuan_kernel.Crypto.Bigint.{used, to_be, from_be, Mont, mont_new, mul, pow_u32, zeros, limbs}
use fantuan_kernel.Crypto.Bigint.Double.{zeros-AreWords}
use fantuan_kernel.Crypto.Bigint.Value.{value}
use fantuan_kernel.Crypto.Bigint.Reduced.{IsMont, low_value, mont_radix, mul_lem}
use fantuan_kernel.Crypto.Bigint.Print.{from_be-to_be}
use fantuan_kernel.Crypto.Bigint.Power.{pow_u32-mont_new}

abbrev fifteen : List ℕ
fifteen = 15 ∷ zeros 63

abbrev seven : List ℕ
seven = 7 ∷ zeros 63

value-fifteen : value fifteen ≡ 15
unfolding value
value-fifteen = refl

value-seven : value seven ≡ 7
unfolding value
value-seven = refl

pow_u32-mont_new_example :
    (m : Mont) × (mont_new fifteen ≡ some m)
    × (low_value m (pow_u32 m seven 65537) ≡ value seven ^ 65537 % value fifteen)
pow_u32-mont_new_example =
    pow_u32-mont_new fifteen seven 65537 refl (omega arith, zeros-AreWords 63)
      (omega (arith, value-fifteen)) refl refl (omega arith, zeros-AreWords 63)
      (omega (arith, value-fifteen, value-seven)) (omega arith)

-- 15 times its inverse is 1 modulo 2^64, so that the negated inverse is one fifteenth of 2^64 - 1.
abbrev context : Mont
context = record { n = fifteen; l = 1; ninv = (2 ^ 64 - 1) / 15 }

context-IsMont : IsMont context
unfolding limbs
context-IsMont = record {
  size = refl;
  words = (omega arith, zeros-AreWords 63);
  positive = omega arith;
  fits = omega arith;
  padded = refl;
  inverse = refl;
}

context_below : low_value context seven < low_value context fifteen
unfolding limbs value
context_below = omega arith

mul_lem_example :
    (low_value context (mul context seven seven) < low_value context fifteen)
    × (mont_radix context * low_value context (mul context seven seven) % low_value context fifteen
        ≡ low_value context seven * low_value context seven % low_value context fifteen)
mul_lem_example =
    mul_lem context seven seven context-IsMont refl (omega arith, zeros-AreWords 63) refl
      (omega arith, zeros-AreWords 63) context_below

abbrev two_limbs : List ℕ
two_limbs = 258 ∷ 1 ∷ zeros 62

used_two_limbs : used two_limbs ≡ 2
unfolding used
used_two_limbs = refl

from_be-to_be_example :
    (ys : List ℕ) × (to_be 20 two_limbs ≡ some ys) × (from_be ys ≡ some two_limbs)
from_be-to_be_example =
    from_be-to_be 20 two_limbs (omega arith, (omega arith, zeros-AreWords 62)) refl
      (omega (arith, used_two_limbs)) (omega arith) (omega arith)
