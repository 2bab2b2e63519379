-- ===== src/Crypto/Bigint/Double.antt =====
-- Doubling modulo the modulus: the power of two that Montgomery multiplication starts from.
use fantuan_kernel.Base.{
  ℕ, zero, suc, ◌+◌, ◌*◌, ◌/◌, ◌^◌, ◌≤◌, ◌<◌, ◌≡◌, refl, ap, ◌∙◌, List, [], ◌∷◌, arith, length, inl,
  inr,
}
use native.Mathlib.Nat.{pow-succ'}
use fantuan_kernel.Crypto.Bigint.{shl_limbs, shl1, dbl_mod, doublings, reduce, Mont, r2, one, zeros}
use fantuan_kernel.Crypto.Bigint.Value.{
  value, radix, AreWords, IsReduced, reduce-IsReduced, radix-length,
}

-- Shifting left is doubling, with the bit that falls out as the carry.
shl_limbs_lem :
    (xs : List ℕ) (c : ℕ)
    → AreWords xs
    → c ≤ 1
    → (value (shl_limbs xs c).0 + radix xs * (shl_limbs xs c).1 ≡ 2 * value xs + c)
      × AreWords (shl_limbs xs c).0
      × ((shl_limbs xs c).1 ≤ 1)
      × (length (shl_limbs xs c).0 ≡ length xs)
unfolding value radix shl_limbs
shl_limbs_lem [] c w l = (omega arith, tt, l, refl)
shl_limbs_lem (x ∷ xs) c w l =
    let top : x / 2 ^ 63 ≤ 1 = omega (arith, w.0) in
    let rest = shl_limbs_lem xs (x / 2 ^ 63) w.1 top in
    (omega (arith, rest.0, w.0), (omega (arith, w.0), rest.1), rest.2, omega (arith, rest.3))

-- What doubling modulo n keeps.
pub record Is (n xs : List ℕ) : Type 0 where
  pub below : value xs < value n
  pub words : AreWords xs
  pub size : length xs ≡ length n

pub dbl_mod_lem :
    (n xs : List ℕ)
    → AreWords n
    → Is n xs
    → Is n (dbl_mod n xs) × ((q : ℕ) × (value (dbl_mod n xs) + q * value n ≡ 2 * value xs))
unfolding dbl_mod shl1
dbl_mod_lem n xs w i =
    let s = shl_limbs_lem xs 0 i.words (omega arith) in
    let r : IsReduced n (reduce (shl_limbs xs 0).0 (shl_limbs xs 0).1 n) (2 * value xs) =
      reduce-IsReduced (shl_limbs xs 0).0 n (shl_limbs xs 0).1 (2 * value xs) (s.3 ∙ i.size) s.1 w
        s.2
        (omega
          (arith, s.0, ap (λ k. k * (shl_limbs xs 0).1) (radix-length (shl_limbs xs 0).0 xs s.3)))
        (omega (arith, i.below)) in
    (
      record { below = r.below; words = r.words; size = r.size },
      elim r.is_mod [ inl e ↦ (0, omega (arith, e)) | inr e ↦ (1, omega (arith, e)) ],
    )

pub doublings_lem :
    (k : ℕ) (n xs : List ℕ)
    → AreWords n
    → Is n xs
    → Is n (doublings k n xs)
      × ((q : ℕ) × (value (doublings k n xs) + q * value n ≡ 2 ^ k * value xs))
unfolding doublings
doublings_lem zero n xs w i = (i, (0, omega arith))
doublings_lem (suc k) n xs w i =
    let d = dbl_mod_lem n xs w i in
    let rest = doublings_lem k n (dbl_mod n xs) w d.0 in
    (
      rest.0,
      (
        rest.1.0 + 2 ^ k * d.1.0,
        omega (arith, rest.1.1, ap (λ t. 2 ^ k * t) d.1.1, ap (λ t. t * value xs) (pow-succ' 2 k)),
      ),
    )

pub value-zeros : (n : ℕ) → value (zeros n) ≡ 0
unfolding value
value-zeros zero = refl
value-zeros (suc n) = omega (arith, value-zeros n)

pub zeros-AreWords : (n : ℕ) → AreWords (zeros n)
zeros-AreWords zero = tt
zeros-AreWords (suc n) = (omega arith, zeros-AreWords n)

pub length-zeros : (n : ℕ) → length (zeros n) ≡ n
length-zeros zero = refl
length-zeros (suc n) = ap suc (length-zeros n)

pub one-Is : (n : List ℕ) → length n ≡ 64 → 1 < value n → Is n one
unfolding value
one-Is n e l = record {
  below = omega (arith, value-zeros 63, l);
  words = (omega arith, zeros-AreWords 63);
  size = omega (arith, length-zeros 63, e);
}

-- r2 is two to the 128 l modulo the modulus.
pub r2_lem :
    (m : Mont)
    → AreWords m.n
    → length m.n ≡ 64
    → 1 < value m.n
    → Is m.n (r2 m) × ((q : ℕ) × (value (r2 m) + q * value m.n ≡ 2 ^ (2 * 64 * m.l)))
unfolding r2 value
r2_lem m w e l =
    let d = doublings_lem (2 * 64 * m.l) m.n one w (one-Is m.n e l) in
    (d.0, (d.1.0, omega (arith, d.1.1, ap (λ t. 2 ^ (2 * 64 * m.l) * t) value-one)))
  where
    value-one : value one ≡ 1
    value-one = omega (arith, value-zeros 63)
