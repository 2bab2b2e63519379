-- ===== src/Crypto/Bigint/Reduced.antt =====
-- `mul` as a whole: on the limbs of the modulus it divides the product by 2^64 to their number, modulo
-- the modulus.
use fantuan_kernel.Base.{
  ℕ, zero, suc, ◌+◌, ◌-◌, ◌*◌, ◌%◌, ◌^◌, ◌≤◌, ◌<◌, ◌≡◌, refl, sym, ap, ◌∙◌, List, [], ◌∷◌, ◌++◌,
  arith, length, inl, inr, length-append, not, ◌||◌, ◌==◌, if_elim, Bool-cases, ltb, dec_le,
  if◌then◌else◌,
}
use native.Mathlib.Nat.{mul-le-mul_left, add-mul-mod_self_right}
use fantuan_kernel.Crypto.Bigint.{
  lowest, rounds, mul, zeros, limbs, Mont, reduce, cmp, equal, sub_limbs, sub_assign, is_less,
  sub_word, bit,
}
use fantuan_kernel.Crypto.Bigint.Value.{
  value, radix, AreWords, IsReduced, reduce-IsReduced, radix-length, value_lt, sub_limbs_lem,
}
use fantuan_kernel.Crypto.Bigint.Double.{value-zeros, zeros-AreWords, length-zeros}
use fantuan_kernel.Crypto.Bigint.Mul.{total, rounds_lem}

pub length-limbs : (l : ℕ) (xs : List ℕ) → l ≤ length xs → length (limbs l xs) ≡ l
unfolding limbs
length-limbs zero xs h = refl
length-limbs (suc l) [] h = absurd (omega (arith, h))
length-limbs (suc l) (x ∷ xs) h = ap suc (length-limbs l xs (omega (arith, h)))

limbs-append : (xs ys : List ℕ) → limbs (length xs) (xs ++ ys) ≡ xs
unfolding limbs
limbs-append [] ys = refl
limbs-append (x ∷ xs) ys = ap (λ l. x ∷ l) (limbs-append xs ys)

pub limbs-AreWords : (l : ℕ) (xs : List ℕ) → AreWords xs → AreWords (limbs l xs)
unfolding limbs
limbs-AreWords zero xs w = tt
limbs-AreWords (suc l) [] w = tt
limbs-AreWords (suc l) (x ∷ xs) w = (w.0, limbs-AreWords l xs w.1)

cmp-zeros : (k : ℕ) → cmp (zeros k) (zeros k) ≡ equal
unfolding cmp
cmp-zeros zero = refl
cmp-zeros (suc k) = rw (cmp-zeros k)

cmp-append :
    (xs ys : List ℕ) (k : ℕ)
    → length xs ≡ length ys
    → cmp (xs ++ zeros k) (ys ++ zeros k) ≡ cmp xs ys
unfolding cmp
cmp-append [] [] k e = cmp-zeros k
cmp-append [] (y ∷ ys) k e = absurd (omega (arith, e))
cmp-append (x ∷ xs) [] k e = absurd (omega (arith, e))
cmp-append (x ∷ xs) (y ∷ ys) k e = rw (cmp-append xs ys k (omega (arith, e)))

sub_limbs-append :
    (xs ys us vs : List ℕ) (b : ℕ)
    → length xs ≡ length ys
    → limbs (length xs) (sub_limbs (xs ++ us) (ys ++ vs) b).0 ≡ (sub_limbs xs ys b).0
unfolding limbs sub_limbs
sub_limbs-append [] [] us vs b e = refl
sub_limbs-append [] (y ∷ ys) us vs b e = absurd (omega (arith, e))
sub_limbs-append (x ∷ xs) [] us vs b e = absurd (omega (arith, e))
sub_limbs-append (x ∷ xs) (y ∷ ys) us vs b e =
    ap (λ l. sub_word (sub_word x y) b ∷ l)
      (sub_limbs-append xs ys us vs (bit (ltb x y) + bit (ltb (sub_word x y) b)) (omega (arith, e)))

-- On the limbs of the modulus, `reduce` does as if there were no others.
reduce-append :
    (xs n : List ℕ) (k carry : ℕ)
    → length xs ≡ length n
    → limbs (length xs) (reduce (xs ++ zeros k) carry (n ++ zeros k)) ≡ reduce xs carry n
unfolding reduce sub_assign
reduce-append xs n k carry e =
    ap
      (λ o. limbs (length xs) (
        if not (carry == 0) || not (is_less o)
        then sub_assign (xs ++ zeros k) (n ++ zeros k)
        else xs ++ zeros k))
      (cmp-append xs n k e)
    ∙ elim (Bool-cases (not (carry == 0) || not (is_less (cmp xs n)))) [
      | inl t ↦ rw t (sub_limbs-append xs n (zeros k) (zeros k) 0 e)
      | inr f ↦ rw f (limbs-append xs (zeros k))
    ]

-- A context: the modulus is in its first l limbs, of 64, and ninv is the negated inverse of the lowest.
pub record IsMont (m : Mont) : Type 0 where
  pub size : length m.n ≡ 64
  pub words : AreWords m.n
  pub positive : 0 < m.l
  pub fits : m.l ≤ 64
  pub padded : m.n ≡ limbs m.l m.n ++ zeros (64 - m.l)
  pub inverse : (m.ninv * lowest m.n + 1) % 2 ^ 64 ≡ 0

-- The value of the limbs that the modulus has.
abbrev pub low_value : Mont → List ℕ → ℕ
low_value m xs = value (limbs m.l xs)

-- 2^64 to the number of limbs of the modulus.
abbrev pub mont_radix : Mont → ℕ
mont_radix m = radix (limbs m.l m.n)

lowest-limbs : (l : ℕ) (xs : List ℕ) → 0 < l → lowest (limbs l xs) ≡ lowest xs
unfolding limbs
lowest-limbs zero xs h = absurd (omega (arith, h))
lowest-limbs (suc l) [] h = refl
lowest-limbs (suc l) (x ∷ xs) h = refl

-- A number below twice the radix has at most one above its limbs.
top_le :
    (ts n : List ℕ) (top : ℕ)
    → length ts ≡ length n
    → AreWords n
    → total (ts, top) < value n + value n
    → top ≤ 1
top_le ts n top e w h = elim (dec_le top 1) [
  | yes l ↦ l
  | no nl ↦
      let p : radix ts * 2 ≤ radix ts * top = mul-le-mul_left (radix ts) (omega (arith, nl)) in
      absurd (omega (arith, h, p, value_lt n w, radix-length ts n e))
]

pub append-AreWords : (xs ys : List ℕ) → AreWords xs → AreWords ys → AreWords (xs ++ ys)
append-AreWords [] ys v w = w
append-AreWords (x ∷ xs) ys v w = (v.0, append-AreWords xs ys v.1 w)

reduce-whole :
    (xs n : List ℕ) (carry : ℕ)
    → length xs ≡ length n
    → AreWords xs
    → AreWords n
    → length n ≡ 64
    → AreWords (reduce xs carry n) × (length (reduce xs carry n) ≡ 64)
unfolding reduce sub_assign
reduce-whole xs n carry e v w f =
    if_elim (λ r. AreWords r × (length r ≡ 64)) (not (carry == 0) || not (is_less (cmp xs n)))
      (λ t. let s = sub_limbs_lem xs n 0 e v w (omega arith) in (s.1, s.3 ∙ e ∙ f))
      (λ t. (v, e ∙ f))

-- mul divides the product by the radix, up to multiples of the modulus, and stays below it.
pub mul_sum :
    (m : Mont) (a b : List ℕ)
    → IsMont m
    → length a ≡ 64
    → AreWords a
    → length b ≡ 64
    → AreWords b
    → low_value m b < low_value m m.n
    → (low_value m (mul m a b) < low_value m m.n)
      × ((q : ℕ) × ((r : ℕ) × (mont_radix m * low_value m (mul m a b) + r * low_value m m.n
              ≡ low_value m a * low_value m b + q * low_value m m.n)))
      × AreWords (mul m a b)
      × (length (mul m a b) ≡ 64)
unfolding mul
mul_sum m a b i e v f w h =
    let l : ℕ = m.l in
    let a' : List ℕ = limbs l a in
    let b' : List ℕ = limbs l b in
    let n' : List ℕ = limbs l m.n in
    let n_size : length n' ≡ l = length-limbs l m.n (omega (arith, i.fits, i.size)) in
    let b_size : length b' ≡ l = length-limbs l b (omega (arith, i.fits, f)) in
    let a_size : length a' ≡ l = length-limbs l a (omega (arith, i.fits, e)) in
    let n_words : AreWords n' = limbs-AreWords l m.n i.words in
    let pred : l ≡ suc (l - 1) = omega (arith, i.positive) in
    let none : total (zeros l, 0) ≡ 0 = omega (arith, value-zeros l) in
    let t : List ℕ × ℕ = rounds m.ninv n' b' (zeros l, 0) a' in
    let s =
      rounds_lem m.ninv (l - 1) n' b'
        (ap (λ k. (m.ninv * k + 1) % 2 ^ 64) (lowest-limbs l m.n i.positive) ∙ i.inverse) n_words
        (n_size ∙ pred) (limbs-AreWords l b w) (b_size ∙ pred) a' (zeros l, 0)
        (record { words = zeros-AreWords l; size = length-zeros l ∙ pred; top = omega arith })
        (limbs-AreWords l a v) (omega (arith, none, h)) in
    let t_size : length t.0 ≡ l = s.0.size ∙ sym pred in
    let bound : total t < value n' + value n' = omega (arith, s.1, h) in
    let r : IsReduced n' (reduce t.0 t.1 n') (total t) =
      reduce-IsReduced t.0 n' t.1 (total t) (t_size ∙ sym n_size) s.0.words n_words
        (top_le t.0 n' t.1 (t_size ∙ sym n_size) n_words bound) refl bound in
    let same : limbs l (mul m a b) ≡ reduce t.0 t.1 n' =
      ap (λ n. limbs l (reduce (t.0 ++ zeros (64 - l)) t.1 n)) i.padded
      ∙ ap (λ k. limbs k (reduce (t.0 ++ zeros (64 - l)) t.1 (n' ++ zeros (64 - l)))) (sym t_size)
      ∙ reduce-append t.0 n' (64 - l) t.1 (t_size ∙ sym n_size) in
    let v_same : value (limbs l (mul m a b)) ≡ value (reduce t.0 t.1 n') = ap value same in
    let whole =
      reduce-whole (t.0 ++ zeros (64 - l)) m.n t.1
        (omega (
          arith,
          length-append t.0 (zeros (64 - l)),
          length-zeros (64 - l),
          t_size,
          i.fits,
          i.size,
        ))
        (append-AreWords t.0 (zeros (64 - l)) s.0.words (zeros-AreWords (64 - l))) i.words i.size in
    let rad : radix a' ≡ radix n' = radix-length a' n' (a_size ∙ sym n_size) in
    (
      omega (arith, v_same, r.below),
      (
        s.2.0,
        elim r.is_mod [
          | inl q ↦ (
            0,
            omega (
              arith,
              s.2.1,
              none,
              ap (λ k. radix n' * k) (v_same ∙ q),
              ap (λ k. k * total t) rad,
            ),
          )
          | inr q ↦ (
            radix n',
            omega (
              arith,
              s.2.1,
              none,
              ap (λ k. radix n' * k) (ap (λ k. k + value n') v_same ∙ q),
              ap (λ k. k * total t) rad,
            ),
          )
        ],
      ),
      whole.0,
      whole.1,
    )

-- Remainders of numbers that differ by multiples.
pub mod_of_sums : (x y n q r : ℕ) → x + r * n ≡ y + q * n → x % n ≡ y % n
mod_of_sums x y n q r e =
    sym (add-mul-mod_self_right x r n) ∙ ap (λ k. k % n) e ∙ add-mul-mod_self_right y q n

-- In a context, for two numbers of 64 limbs of which the limbs of the modulus make the second less
-- than the modulus, `mul` gives less than the modulus on those limbs, and the radix times that
-- leaves the same remainder as the product of the two. Nothing is said of the limbs above.
pub mul_lem :
    (m : Mont) (a b : List ℕ)
    → IsMont m
    → length a ≡ 64
    → AreWords a
    → length b ≡ 64
    → AreWords b
    → low_value m b < low_value m m.n
    → (low_value m (mul m a b) < low_value m m.n)
      × (mont_radix m * low_value m (mul m a b) % low_value m m.n
          ≡ low_value m a * low_value m b % low_value m m.n)
mul_lem m a b i e v f w h =
    let s = mul_sum m a b i e v f w h in
    (
      s.0,
      mod_of_sums (mont_radix m * low_value m (mul m a b)) (low_value m a * low_value m b)
          (low_value m m.n) s.1.0 s.1.1.0 s.1.1.1,
    )
