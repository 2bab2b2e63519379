-- ===== src/Crypto/Bigint/Pow.antt =====
-- `pow_u32` is the power modulo the modulus: numbers in Montgomery form stand for their quotient by
-- the radix, which `mul` multiplies.
use fantuan_kernel.Base.{
  ℕ, zero, suc, ◌+◌, ◌-◌, ◌*◌, ◌/◌, ◌%◌, ◌^◌, ◌≤◌, ◌<◌, ◌≡◌, refl, sym, ap, ◌∙◌, List, [], ◌∷◌,
  ◌++◌, arith, length, ℕ_discrete, if_elim, ◌==◌, eq_of_==, subst, if◌then◌else◌,
}
use native.Mathlib.Nat.{mul-le-mul_left, pow-succ', pow-zero, div-div-eq-div-mul}
use fantuan_kernel.Crypto.Bigint.{
  mul, zeros, limbs, Mont, r2, one, to_mont, from_mont, pow_bits, pow_start, pow_u32,
}
use fantuan_kernel.Crypto.Bigint.Value.{value, radix, AreWords, value_lt, radix-length}
use fantuan_kernel.Crypto.Bigint.Double.{zeros-AreWords, Is, r2_lem, one-Is, length-zeros}
use fantuan_kernel.Crypto.Bigint.Reduced.{
  IsMont, low_value, mont_radix, mul_sum, limbs-AreWords, length-limbs,
}
use fantuan_kernel.Crypto.Bigint.Congruence.{
  Agree, Agree-of_eq, Agree-sym, Agree-trans, Agree-mul, Agree-times, Agree-mod,
}

-- The limbs above the first l, as a number.
high : (l : ℕ) (xs : List ℕ) → (k : ℕ) × (value xs ≡ value (limbs l xs) + radix (limbs l xs) * k)
unfolding value limbs radix
high zero xs = (value xs, omega arith)
high (suc l) [] = (0, omega arith)
high (suc l) (x ∷ xs) = let h = high l xs in (h.0, omega (arith, h.1))

-- A number below the radix is in the limbs of the modulus.
pub low_whole :
    (l : ℕ) (xs : List ℕ) → value xs < radix (limbs l xs) → value (limbs l xs) ≡ value xs
low_whole l xs h =
    let t = high l xs in
    elim (ℕ_discrete t.0 0) [
      | yes z ↦ omega (arith, t.1, ap (λ k. radix (limbs l xs) * k) z)
      | no nz ↦
          let p : radix (limbs l xs) * 1 ≤ radix (limbs l xs) * t.0 =
            mul-le-mul_left (radix (limbs l xs)) (omega (arith, nz)) in
          absurd (omega (arith, t.1, h, p))
    ]

pub value_padded : (xs : List ℕ) (k : ℕ) → value (xs ++ zeros k) ≡ value xs
unfolding value
value_padded [] zero = refl
value_padded [] (suc k) = omega (arith, value_padded [] k)
value_padded (x ∷ xs) k = omega (arith, value_padded xs k)

pub pow-plus : (c a b : ℕ) → c ^ (a + b) ≡ c ^ a * c ^ b
pow-plus c zero b =
    ap (λ k. c ^ k) {x = 0 + b} {y = b} (omega arith)
    ∙ omega (arith, ap (λ k. k * c ^ b) (pow-zero c))
pow-plus c (suc a) b =
    ap (λ k. c ^ k) {x = suc a + b} {y = suc (a + b)} (omega arith)
    ∙ pow-succ' c (a + b)
    ∙ omega (arith, ap (λ k. c * k) (pow-plus c a b), ap (λ k. k * c ^ b) (pow-succ' c a))

radix-pow : (xs : List ℕ) → radix xs ≡ 2 ^ (64 * length xs)
unfolding radix
radix-pow [] = refl
radix-pow (x ∷ xs) =
    ap (λ k. 2 ^ 64 * k) (radix-pow xs)
    ∙ sym (pow-plus 2 64 (64 * length xs))
    ∙ ap (λ k. 2 ^ k) {x = 64 + 64 * length xs} {y = 64 * suc (length xs)} (omega arith)

length-one : length one ≡ 64
length-one = ap suc (length-zeros 63)

one-AreWords : AreWords one
one-AreWords = (omega arith, zeros-AreWords 63)

value-one : value one ≡ 1
unfolding value
value-one = value_padded (1 ∷ []) 63 ∙ omega arith

-- The bits of e from k on are those from k + 1 on, doubled, and bit k.
bits_down : (e k : ℕ) → e / 2 ^ k ≡ 2 * (e / 2 ^ suc k) + e / 2 ^ k % 2
bits_down e k =
    let d : e / 2 ^ k / 2 ≡ e / 2 ^ suc k =
      div-div-eq-div-mul e (2 ^ k) 2
      ∙ ap (λ j. e / j) {x = 2 ^ k * 2} {y = 2 ^ suc k} (omega (arith, pow-succ' 2 k)) in
    omega (arith, d)

module _ (m : Mont) (i : IsMont m) (big : 1 < low_value m m.n) where
  modulus_value : value m.n ≡ low_value m m.n
  modulus_value = ap value i.padded ∙ value_padded (limbs m.l m.n) (64 - m.l)

  -- The limbs x are a number below the modulus, in Montgomery form for v.
  record Reads (x : List ℕ) (v : ℕ) : Type 0 where
    size : length x ≡ 64
    words : AreWords x
    below : low_value m x < low_value m m.n
    form : Agree (low_value m m.n) (low_value m x) (mont_radix m * v)

  Is-below :
      (x : List ℕ)
      → Is m.n x
      → (length x ≡ 64) × (low_value m x ≡ value x) × (low_value m x < low_value m m.n)
  Is-below x h =
      let s : length x ≡ 64 = h.size ∙ i.size in
      let same : radix (limbs m.l x) ≡ radix (limbs m.l m.n) =
        radix-length (limbs m.l x) (limbs m.l m.n) (
          length-limbs m.l x (omega (arith, s, i.fits))
          ∙ sym (length-limbs m.l m.n (omega (arith, i.size, i.fits)))) in
      let low : low_value m x ≡ value x = low_whole m.l x (
        omega (
          arith,
          h.below,
          modulus_value,
          same,
          value_lt (limbs m.l m.n) (limbs-AreWords m.l m.n i.words),
        )) in
      (s, low, omega (arith, low, h.below, modulus_value))

  low_value-one : low_value m one ≡ 1
  low_value-one =
      (Is-below one (one-Is m.n i.size (omega (arith, big, modulus_value)))).1 ∙ value-one

  -- The radix has an inverse: the limbs of mul one one.
  inverse : (v : ℕ) × Agree (low_value m m.n) (mont_radix m * v) 1
  inverse =
      let o = Is-below one (one-Is m.n i.size (omega (arith, big, modulus_value))) in
      let s = mul_sum m one one i o.0 one-AreWords o.0 one-AreWords o.2 in
      (
        low_value m (mul m one one),
        record {
          left = s.1.1.0;
          right = s.1.0;
          same = omega (arith, s.1.1.1, ap (λ k. k * low_value m one) low_value-one, low_value-one);
        },
      )

  cancel :
      (x y : ℕ)
      → Agree (low_value m m.n) (mont_radix m * x) (mont_radix m * y)
      → Agree (low_value m m.n) x y
  cancel x y a =
      let n : ℕ = low_value m m.n in
      let v : ℕ = inverse.0 in
      let to : (z : ℕ) → Agree n (v * (mont_radix m * z)) z = λ z.
        Agree-trans n (v * (mont_radix m * z)) (mont_radix m * v * z) z
          (Agree-of_eq n (v * (mont_radix m * z)) (mont_radix m * v * z) (omega arith))
          (Agree-trans n (mont_radix m * v * z) (1 * z) z
            (Agree-mul n (mont_radix m * v) 1 z z inverse.1 (Agree-of_eq n z z refl))
            (Agree-of_eq n (1 * z) z (omega arith))) in
      Agree-trans n x (v * (mont_radix m * x)) y (Agree-sym n (v * (mont_radix m * x)) x (to x)) (
        Agree-trans n (v * (mont_radix m * x)) (v * (mont_radix m * y)) y
          (Agree-times n v (mont_radix m * x) (mont_radix m * y) a) (to y))

  -- A product of two numbers in Montgomery form is their product's.
  mul-Reads : (x y : List ℕ) (u v : ℕ) → Reads x u → Reads y v → Reads (mul m x y) (u * v)
  mul-Reads x y u v a b =
      let n : ℕ = low_value m m.n in
      let r : ℕ = mont_radix m in
      let s = mul_sum m x y i a.size a.words b.size b.words b.below in
      record {
        size = s.3;
        words = s.2;
        below = s.0;
        form = cancel (low_value m (mul m x y)) (r * (u * v)) (
            Agree-trans n (r * low_value m (mul m x y)) (low_value m x * low_value m y)
              (r * (r * (u * v))) (record { left = s.1.1.0; right = s.1.0; same = s.1.1.1 })
              (Agree-trans n (low_value m x * low_value m y) (r * u * (r * v)) (r * (r * (u * v)))
                (Agree-mul n (low_value m x) (r * u) (low_value m y) (r * v) a.form b.form)
                (Agree-of_eq n (r * u * (r * v)) (r * (r * (u * v))) (omega arith))));
      }

  r2_form : Agree (low_value m m.n) (low_value m (r2 m)) (mont_radix m * mont_radix m)
  r2_form =
      let s = r2_lem m i.words i.size (omega (arith, big, modulus_value)) in
      let p : mont_radix m * mont_radix m ≡ 2 ^ (2 * 64 * m.l) =
        ap (λ k. k * k)
          (radix-pow (limbs m.l m.n)
            ∙ ap (λ k. 2 ^ (64 * k)) (length-limbs m.l m.n (omega (arith, i.size, i.fits))))
        ∙ sym (pow-plus 2 (64 * m.l) (64 * m.l))
        ∙ ap (λ k. 2 ^ k) {x = 64 * m.l + 64 * m.l} {y = 2 * 64 * m.l} (omega arith) in
      record {
        left = s.1.0;
        right = 0;
        same = omega (arith, s.1.1, p, (Is-below (r2 m) s.0).1, ap (λ k. s.1.0 * k) modulus_value);
      }

  to_mont-Reads : (x : List ℕ) → length x ≡ 64 → AreWords x → Reads (to_mont m x) (low_value m x)
  unfolding to_mont
  to_mont-Reads x e w =
      let n : ℕ = low_value m m.n in
      let r : ℕ = mont_radix m in
      let d = (r2_lem m i.words i.size (omega (arith, big, modulus_value))).0 in
      let t = Is-below (r2 m) d in
      let s = mul_sum m x (r2 m) i e w t.0 d.words t.2 in
      record {
        size = s.3;
        words = s.2;
        below = s.0;
        form = cancel (low_value m (mul m x (r2 m))) (r * low_value m x) (
            Agree-trans n (r * low_value m (mul m x (r2 m))) (low_value m x * low_value m (r2 m))
              (r * (r * low_value m x)) (record { left = s.1.1.0; right = s.1.0; same = s.1.1.1 })
              (Agree-trans n (low_value m x * low_value m (r2 m)) (low_value m x * (r * r))
                (r * (r * low_value m x))
                (Agree-times n (low_value m x) (low_value m (r2 m)) (r * r) r2_form)
                (Agree-of_eq n (low_value m x * (r * r)) (r * (r * low_value m x)) (omega arith))));
      }

  -- from_mont undoes to_mont, up to the remainder.
  from_mont_lem :
      (x : List ℕ) (v : ℕ) → Reads x v → low_value m (from_mont m x) ≡ v % low_value m m.n
  unfolding from_mont
  from_mont_lem x v a =
      let n : ℕ = low_value m m.n in
      let r : ℕ = mont_radix m in
      let o = Is-below one (one-Is m.n i.size (omega (arith, big, modulus_value))) in
      let s = mul_sum m x one i a.size a.words o.0 one-AreWords o.2 in
      Agree-mod n (low_value m (mul m x one)) v s.0 (
        cancel (low_value m (mul m x one)) v (
          Agree-trans n (r * low_value m (mul m x one)) (low_value m x * low_value m one) (r * v)
            (record { left = s.1.1.0; right = s.1.0; same = s.1.1.1 })
            (Agree-trans n (low_value m x * low_value m one) (low_value m x) (r * v)
              (Agree-of_eq n (low_value m x * low_value m one) (low_value m x)
                (omega (arith, ap (λ k. low_value m x * k) low_value-one)))
              a.form)))

  module _ (bm : List ℕ) (b e : ℕ) (base : Reads bm b) where
    pow_bits-Reads :
        (k : ℕ) (acc : List ℕ) → Reads acc (b ^ (e / 2 ^ k)) → Reads (pow_bits m bm e k acc) (b ^ e)
    unfolding pow_bits
    pow_bits-Reads zero acc a =
        subst (Reads acc) (ap (λ k. b ^ k) {x = e / 2 ^ 0} {y = e} (omega arith)) a
    pow_bits-Reads (suc k) acc a =
        let h : ℕ = e / 2 ^ suc k in
        let sq : Reads (mul m acc acc) (b ^ h * b ^ h) = mul-Reads acc acc (b ^ h) (b ^ h) a a in
        pow_bits-Reads k (if e / 2 ^ k % 2 == 1 then mul m (mul m acc acc) bm else mul m acc acc) (
          if_elim (λ x. Reads x (b ^ (e / 2 ^ k))) (e / 2 ^ k % 2 == 1)
            (λ t.
              subst (Reads (mul m (mul m acc acc) bm))
                (odd h (e / 2 ^ k) (omega (arith, bits_down e k, eq_of_== (e / 2 ^ k % 2) 1 t)))
                (mul-Reads (mul m acc acc) bm (b ^ h * b ^ h) b sq base))
            (λ f.
              subst (Reads (mul m acc acc)) (even h (e / 2 ^ k) (ground (arith, bits_down e k, f)))
                sq))
      where
        even : (h j : ℕ) → j ≡ 2 * h → b ^ h * b ^ h ≡ b ^ j
        even h j q = sym (pow-plus b h h) ∙ ap (λ k. b ^ k) {x = h + h} {y = j} (omega (arith, q))

        odd : (h j : ℕ) → j ≡ 2 * h + 1 → b ^ h * b ^ h * b ≡ b ^ j
        odd h j q =
            omega (arith, ap (λ k. b * k) (pow-plus b h h), pow-succ' b (h + h))
            ∙ ap (λ k. b ^ k) {x = suc (h + h)} {y = j} (omega (arith, q))

    pow_start-Reads :
        (k : ℕ) (acc : List ℕ)
        → e / 2 ^ k ≡ 0
        → Reads acc 1
        → Reads (pow_start m bm e k acc) (b ^ e)
    unfolding pow_start
    pow_start-Reads zero acc z a =
        subst (Reads acc) (sym (ap (λ k. b ^ k) {x = e} {y = 0} (omega (arith, z)) ∙ pow-zero b)) a
    pow_start-Reads (suc k) acc z a =
        if_elim (λ x. Reads x (b ^ e)) (e / 2 ^ k % 2 == 1)
          (λ t. pow_bits-Reads k bm (
            subst (Reads bm)
              (sym (
                ap (λ j. b ^ j) {x = e / 2 ^ k} {y = 1}
                  (omega (arith, bits_down e k, z, eq_of_== (e / 2 ^ k % 2) 1 t))
                ∙ omega (arith, pow-succ' b 0, ap (λ k. b * k) (pow-zero b))))
              base))
          (λ f. pow_start-Reads k acc (ground (arith, bits_down e k, z, f)) a)

  -- For a modulus above 1 in a context and an exponent of 32 bits, pow_u32 is the remainder of the
  -- power of the base, as its limbs in the modulus give it.
  pub pow_u32_lem :
      (base : List ℕ) (e : ℕ)
      → length base ≡ 64
      → AreWords base
      → e < 2 ^ 32
      → low_value m (pow_u32 m base e) ≡ low_value m base ^ e % low_value m m.n
  unfolding pow_u32
  pow_u32_lem base e s w l =
      let bm : List ℕ = to_mont m base in
      let first : Reads (to_mont m one) 1 =
        subst (Reads (to_mont m one)) low_value-one (to_mont-Reads one length-one one-AreWords) in
      from_mont_lem (pow_start m bm e 32 (to_mont m one)) (low_value m base ^ e) (
        pow_start-Reads bm (low_value m base) e (to_mont-Reads base s w) 32 (to_mont m one)
          (omega (arith, l)) first)
