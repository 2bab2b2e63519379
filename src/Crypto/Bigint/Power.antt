-- ===== src/Crypto/Bigint/Power.antt =====
-- `Mont::new` and `pow_u32` together, as signature checks call them.
use fantuan_kernel.Base.{
  ℕ, ◌%◌, ◌^◌, ◌<◌, ◌-◌, ◌≡◌, sym, ap, ◌∙◌, List, [], ◌∷◌, arith, length, some, false, ◌||◌, ◌==◌,
  if_elim,
}
use fantuan_kernel.Crypto.Bigint.{Mont, mont_new, used, lowest, limbs, newton, pow_u32}
use fantuan_kernel.Crypto.Bigint.Value.{value, radix, AreWords, value_lt, radix-length}
use fantuan_kernel.Crypto.Bigint.Reduced.{low_value, limbs-AreWords, length-limbs}
use fantuan_kernel.Crypto.Bigint.Newton.{mont_new-IsMont}
use fantuan_kernel.Crypto.Bigint.Pow.{pow_u32_lem, low_whole, value_padded}

used_pos : (n : List ℕ) → lowest n % 2 ≡ 1 → 0 < used n
unfolding used
used_pos [] h = absurd (omega (arith, h))
used_pos (x ∷ xs) h =
    if_elim (λ k. 0 < k) (used xs == 0)
      (λ e. if_elim (λ k. 0 < k) (x == 0) (λ z. absurd (ground (arith, h, z))) (λ z. omega arith))
      (λ e. omega arith)

-- An odd modulus has a context.
mont_new-some : (n : List ℕ) → lowest n % 2 ≡ 1 → (m : Mont) × (mont_new n ≡ some m)
unfolding mont_new
mont_new-some n h =
    let p : 0 < used n = used_pos n h in
    let f : (used n == 0 || lowest n % 2 == 0) ≡ false = ground (arith, p, h) in
    (record { n = n; l = used n; ninv = (2 ^ 64 - newton 63 (lowest n) 1) % 2 ^ 64 }, rw f)

-- For an odd modulus above 1 and a base below it, both of 64 limbs, and an exponent of 32 bits,
-- `Mont::new` gives a context, in which the limbs of the modulus of what pow_u32 returns are the
-- base to the exponent modulo the modulus.
pub pow_u32-mont_new :
    (n base : List ℕ) (e : ℕ)
    → length n ≡ 64
    → AreWords n
    → 1 < value n
    → lowest n % 2 ≡ 1
    → length base ≡ 64
    → AreWords base
    → value base < value n
    → e < 2 ^ 32
    → (m : Mont) × (mont_new n ≡ some m)
      × (low_value m (pow_u32 m base e) ≡ value base ^ e % value n)
pow_u32-mont_new n base e s w big odd s' w' l k =
    let c = mont_new-some n odd in
    let m : Mont = c.0 in
    let i = mont_new-IsMont n m s w c.1 in
    let whole : low_value m m.n ≡ value n =
      sym (ap value i.0.padded ∙ value_padded (limbs m.l m.n) (64 - m.l)) ∙ ap value i.1 in
    let rad : radix (limbs m.l base) ≡ radix (limbs m.l m.n) =
      radix-length (limbs m.l base) (limbs m.l m.n) (
        length-limbs m.l base (omega (arith, s', i.0.fits))
        ∙ sym (length-limbs m.l m.n (omega (arith, i.0.size, i.0.fits)))) in
    let low : low_value m base ≡ value base =
      low_whole m.l base (
        omega
          (arith, l, whole, rad, value_lt (limbs m.l m.n) (limbs-AreWords m.l m.n i.0.words))) in
    (
      m,
      c.1,
      pow_u32_lem m i.0 (omega (arith, big, whole)) base e s' w' k
          ∙ ap (λ b. b ^ e % low_value m m.n) low
          ∙ ap (λ n. value base ^ e % n) whole,
    )
