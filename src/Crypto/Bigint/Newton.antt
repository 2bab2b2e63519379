-- ===== src/Crypto/Bigint/Newton.antt =====
-- `Mont::new`: Newton's iteration doubles the bits of the inverse, or at least adds one, so that 63
-- rounds reach 64 of them.
use fantuan_kernel.Base.{
  ℕ, zero, suc, ◌+◌, ◌-◌, ◌*◌, ◌/◌, ◌%◌, ◌^◌, ◌≤◌, ◌<◌, ◌≡◌, refl, ap, ◌∙◌, List, [], ◌∷◌, ◌++◌,
  arith, length, Option, some, subst, if_elim, ◌==◌, eq_of_==, ap₂, ◌||◌, some-inj, none-ne-some,
}
use native.Mathlib.Nat.{pow-succ'}
use fantuan_kernel.Crypto.Bigint.Value.{AreWords}
use fantuan_kernel.Crypto.Bigint.Reduced.{IsMont}
use fantuan_kernel.Crypto.Bigint.{newton, two_less, Mont, mont_new, used, lowest, zeros, limbs}

-- One round, in sums: with n0 times inv at 1 and z modulo 2^64, the new product is at 1 less z
-- squared.
round_sum :
    (n0 inv z p : ℕ)
    → n0 * inv + 2 ^ 64 * p ≡ 1 + z
    → (r : ℕ) × ((s : ℕ) × (n0 * (inv * two_less (n0 * inv % 2 ^ 64) % 2 ^ 64) + 2 ^ 64 * r + z * z
          ≡ 1 + 2 ^ 64 * s))
round_sum n0 inv z p h =
    let x : ℕ = n0 * inv % 2 ^ 64 in
    let d : ℕ = n0 * inv / 2 ^ 64 in
    let y : ℕ = two_less x in
    let e : ℕ = (y + x) / 2 ^ 64 in
    let f : ℕ = inv * y / 2 ^ 64 in
    let g : ℕ = d + p in
    let split : n0 * inv ≡ x + 2 ^ 64 * d = omega arith in
    let two : y + x ≡ 2 + 2 ^ 64 * e = omega arith in
    let next : inv * y ≡ inv * y % 2 ^ 64 + 2 ^ 64 * f = omega arith in
    let at : x + 2 ^ 64 * g ≡ 1 + z = omega (arith, split, h) in
    (
      n0 * f + 2 * g,
      (
        e * x + d * y + 2 * x * g + 2 ^ 64 * (g * g),
        omega (
          arith,
          at,
          ap (λ k. n0 * k) next,
          ap (λ k. k * y) split,
          ap (λ k. x * k) two,
          ap (λ k. k * (x + 2 ^ 64 * g)) at,
          ap (λ k. (1 + z) * k) at,
        ),
      ),
    )

-- From 1 modulo P, an even factor of 2^64, a round gets to 1 modulo 2 P.
round_gain :
    (a z p2 c q r s : ℕ)
    → z ≡ 2 * p2 * q
    → 2 * (2 * p2) * c ≡ 2 ^ 64
    → a + 2 ^ 64 * r + z * z ≡ 1 + 2 ^ 64 * s
    → (t : ℕ) × ((u : ℕ) × (a + 2 ^ 64 * u ≡ 1 + 2 * (2 * p2) * t))
round_gain a z p2 c q r s e w h =
    let sq : z * z ≡ 2 * (2 * p2) * (p2 * (q * q)) =
      omega (arith, ap (λ k. k * z) e, ap (λ k. 2 * p2 * q * k) e) in
    (c * s + (2 ^ 64 - 1) * (p2 * (q * q)), (r + z * z, omega (arith, h, sq, ap (λ k. k * s) w)))

-- k rounds from 1 modulo P, where P is even and P times 2^k is 2^64, reach 1 modulo 2^64.
newton_sum :
    (k n0 inv p2 q p : ℕ)
    → 2 * p2 * 2 ^ k ≡ 2 ^ 64
    → n0 * inv + 2 ^ 64 * p ≡ 1 + 2 * p2 * q
    → (t : ℕ) × ((u : ℕ) × (n0 * newton k n0 inv + 2 ^ 64 * u ≡ 1 + 2 ^ 64 * t))
unfolding newton
newton_sum zero n0 inv p2 q p w h = (q, (p, omega (arith, h, ap (λ k. k * q) w)))
newton_sum (suc k) n0 inv p2 q p w h =
    let one = round_sum n0 inv (2 * p2 * q) p h in
    let w' : 2 * (2 * p2) * 2 ^ k ≡ 2 ^ 64 =
      omega (arith, w, ap (λ j. 2 * p2 * j) (pow-succ' 2 k)) in
    let gain =
      round_gain (n0 * (inv * two_less (n0 * inv % 2 ^ 64) % 2 ^ 64)) (2 * p2 * q) p2 (2 ^ k) q
        one.0 one.1.0 refl w' one.1.1 in
    newton_sum k n0 (inv * two_less (n0 * inv % 2 ^ 64) % 2 ^ 64) (2 * p2) gain.0 gain.1.0 w'
      gain.1.1

newton_lt : (k n0 inv : ℕ) → inv < 2 ^ 64 → newton k n0 inv < 2 ^ 64
unfolding newton
newton_lt zero n0 inv l = l
newton_lt (suc k) n0 inv l =
    newton_lt k n0 (inv * two_less (n0 * inv % 2 ^ 64) % 2 ^ 64) (omega arith)

-- For an odd limb, 63 rounds from 1 give its inverse modulo 2^64.
pub newton_lem : (n0 : ℕ) → n0 % 2 ≡ 1 → ((2 ^ 64 - newton 63 n0 1) % 2 ^ 64 * n0 + 1) % 2 ^ 64 ≡ 0
newton_lem n0 h =
    let v : ℕ = newton 63 n0 1 in
    let ninv : ℕ = (2 ^ 64 - v) % 2 ^ 64 in
    let e : ℕ = (ninv + v) / 2 ^ 64 in
    let small : v < 2 ^ 64 = newton_lt 63 n0 1 (omega arith) in
    let s = newton_sum 63 n0 1 1 (n0 / 2) 0 (omega arith) (omega (arith, h)) in
    let neg : ninv + v ≡ 2 ^ 64 * e = omega (arith, small) in
    omega (arith, s.1.1, ap (λ k. k * n0) neg)

-- Above the highest limb that is not zero there are zeros.
pub used_le : (xs : List ℕ) → used xs ≤ length xs
unfolding used
used_le [] = omega arith
used_le (x ∷ xs) =
    if_elim (λ n. n ≤ suc (length xs)) (used xs == 0)
      (λ e. if_elim (λ n. n ≤ suc (length xs)) (x == 0) (λ z. omega arith) (λ z. omega arith))
      (λ e. omega (arith, used_le xs))

pub used_padded : (xs : List ℕ) → xs ≡ limbs (used xs) xs ++ zeros (length xs - used xs)
unfolding used limbs
used_padded [] = refl
used_padded (x ∷ xs) =
    if_elim (λ n. x ∷ xs ≡ limbs n (x ∷ xs) ++ zeros (suc (length xs) - n)) (used xs == 0)
      (λ e.
        let rest : xs ≡ zeros (length xs) =
          used_padded xs
          ∙ ap (λ n. limbs n xs ++ zeros (length xs - n)) (eq_of_== (used xs) 0 e)
          ∙ ap zeros {x = length xs - 0} {y = length xs} (omega arith) in
        if_elim (λ n. x ∷ xs ≡ limbs n (x ∷ xs) ++ zeros (suc (length xs) - n)) (x == 0)
          (λ z.
            ap₂ ◌∷◌ (eq_of_== x 0 z) rest
            ∙ ap zeros {x = suc (length xs)} {y = suc (length xs) - 0} (omega arith))
          (λ z.
            ap (λ l. x ∷ l)
              (rest ∙ ap zeros {x = length xs} {y = suc (length xs) - 1} (omega arith))))
      (λ e.
        ap (λ l. x ∷ l)
          (used_padded xs
            ∙ ap (λ k. limbs (used xs) xs ++ zeros k) {x = length xs - used xs}
                {y = suc (length xs) - suc (used xs)} (omega arith))
        ∙ ap (λ n. limbs n (x ∷ xs) ++ zeros (suc (length xs) - n)) {x = suc (used xs)}
            {y = used xs + 1} (omega arith))

-- What `Mont::new` makes of 64 limbs is a context.
pub mont_new-IsMont :
    (n : List ℕ) (m : Mont)
    → length n ≡ 64
    → AreWords n
    → mont_new n ≡ some m
    → IsMont m × (m.n ≡ n)
unfolding mont_new
mont_new-IsMont n m e w =
    if_elim (λ (o : Option Mont). o ≡ some m → IsMont m × (m.n ≡ n))
      (used n == 0 || lowest n % 2 == 0) (λ t h. absurd (none-ne-some h))
      (λ f h.
        subst (λ k. IsMont k × (k.n ≡ n)) (some-inj h)
          (
            record {
              size = e;
              words = w;
              positive = ground (arith, f);
              fits = omega (arith, used_le n, e);
              padded = used_padded n ∙ ap (λ k. limbs (used n) n ++ zeros (k - used n)) e;
              inverse = newton_lem (lowest n) (ground (arith, f));
            },
            refl,
          ))
