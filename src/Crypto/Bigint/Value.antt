-- ===== src/Crypto/Bigint/Value.antt =====
-- What a list of limbs stands for, and what comparing and subtracting do to it.
use fantuan_kernel.Base.{
  ℕ, ◌+◌, ◌*◌, ◌^◌, ◌≤◌, ◌<◌, ◌≡◌, refl, sym, ap, ◌∙◌, List, [], ◌∷◌, arith, ltb, ◌==◌, length,
  true, false, inl, inr, if_elim, not, ◌||◌, true≢false, ltb→lt, eq_of_==, ◌⊎◌, ℕ_discrete,
}
use fantuan_kernel.Crypto.Bigint.{
  word, Order, less, equal, greater, cmp, compare_limb, sub_limbs, sub_assign, sub_word, bit,
  is_less, reduce,
}

unfoldable pub value : List ℕ → ℕ
value [] = 0
value (x ∷ xs) = x + word * value xs

-- 2^64 to the number of limbs.
unfoldable pub radix : List ℕ → ℕ
radix [] = 1
radix (x ∷ xs) = word * radix xs

abbrev pub AreWords : List ℕ → Type 0
AreWords [] = Unit
AreWords (x ∷ xs) = (x < 2 ^ 64) × AreWords xs

pub value_lt : (xs : List ℕ) → AreWords xs → value xs < radix xs
unfolding value radix
value_lt [] w = omega arith
value_lt (x ∷ xs) w = omega (arith, w.0, value_lt xs w.1)

pub radix-length : (xs ys : List ℕ) → length xs ≡ length ys → radix xs ≡ radix ys
unfolding radix
radix-length [] [] e = refl
radix-length [] (y ∷ ys) e = absurd (omega (arith, e))
radix-length (x ∷ xs) [] e = absurd (omega (arith, e))
radix-length (x ∷ xs) (y ∷ ys) e = ap (λ n. word * n) (radix-length xs ys (omega (arith, e)))

-- One limb of a subtraction.
sub_limb :
    (x y b : ℕ)
    → x < 2 ^ 64
    → y < 2 ^ 64
    → b ≤ 1
    → (sub_word (sub_word x y) b + y + b
        ≡ x + 2 ^ 64 * (bit (ltb x y) + bit (ltb (sub_word x y) b)))
      × (sub_word (sub_word x y) b < 2 ^ 64)
      × (bit (ltb x y) + bit (ltb (sub_word x y) b) ≤ 1)
sub_limb x y b l m n = (ground arith, ground arith, ground arith)

-- A subtraction: what is left, with the borrow, makes up the difference.
pub sub_limbs_lem :
    (xs ys : List ℕ) (b : ℕ)
    → length xs ≡ length ys
    → AreWords xs
    → AreWords ys
    → b ≤ 1
    → (value (sub_limbs xs ys b).0 + value ys + b ≡ value xs + radix xs * (sub_limbs xs ys b).1)
      × AreWords (sub_limbs xs ys b).0
      × ((sub_limbs xs ys b).1 ≤ 1)
      × (length (sub_limbs xs ys b).0 ≡ length xs)
unfolding value radix sub_limbs
sub_limbs_lem [] [] b e v w l = (omega arith, tt, l, refl)
sub_limbs_lem [] (y ∷ ys) b e v w l = absurd (omega (arith, e))
sub_limbs_lem (x ∷ xs) [] b e v w l = absurd (omega (arith, e))
sub_limbs_lem (x ∷ xs) (y ∷ ys) b e v w l =
    let one = sub_limb x y b v.0 w.0 l in
    let b' : ℕ = bit (ltb x y) + bit (ltb (sub_word x y) b) in
    let rest = sub_limbs_lem xs ys b' (omega (arith, e)) v.1 w.1 one.2 in
    (omega (arith, one.0, rest.0), (one.1, rest.1), rest.2, omega (arith, rest.3))

zero_or_one : (n : ℕ) → n ≤ 1 → (n ≡ 0) ⊎ (n ≡ 1)
zero_or_one n l = elim (ℕ_discrete n 0) [ yes e ↦ inl e | no e ↦ inr (omega arith) ]

-- What a subtraction leaves, by the value of the number with its carry.
pub sub_assign_lem :
    (xs ys : List ℕ) (carry v : ℕ)
    → length xs ≡ length ys
    → AreWords xs
    → AreWords ys
    → carry ≤ 1
    → value xs + radix xs * carry ≡ v
    → value ys ≤ v
    → v < value ys + value ys
    → (value (sub_assign xs ys) + value ys ≡ v)
      × AreWords (sub_assign xs ys)
      × (length (sub_assign xs ys) ≡ length xs)
unfolding sub_assign
sub_assign_lem xs ys carry v e a b c h l m =
    let r = sub_limbs_lem xs ys 0 e a b (omega arith) in
    let small : value (sub_limbs xs ys 0).0 < radix (sub_limbs xs ys 0).0 =
      value_lt (sub_limbs xs ys 0).0 r.1 in
    let same : radix (sub_limbs xs ys 0).0 ≡ radix xs = radix-length (sub_limbs xs ys 0).0 xs r.3 in
    let same' : radix ys ≡ radix xs = sym (radix-length xs ys e) in
    (
      elim (zero_or_one carry c) [
        | inl z ↦ elim (zero_or_one (sub_limbs xs ys 0).1 r.2) [
          | inl y ↦ omega (arith, r.0, h, ap (λ k. radix xs * k) z, ap (λ k. radix xs * k) y)
          | inr y ↦ absurd (
              omega
                (arith, r.0, h, small, same, l, ap (λ k. radix xs * k) z, ap (λ k. radix xs * k) y))
        ]
        | inr z ↦ elim (zero_or_one (sub_limbs xs ys 0).1 r.2) [
          | inl y ↦ absurd (
              omega (
                arith,
                r.0,
                h,
                m,
                value_lt ys b,
                same',
                ap (λ k. radix xs * k) z,
                ap (λ k. radix xs * k) y,
              ))
          | inr y ↦ omega (arith, r.0, h, ap (λ k. radix xs * k) z, ap (λ k. radix xs * k) y)
        ]
      ],
      r.1,
      r.3,
    )

-- `cmp` decides the order of the values.
pub data Compares (m n : ℕ) : Order → Type 0 where
  is_lt : m < n → Compares m n less
  is_eq : m ≡ n → Compares m n equal
  is_gt : n < m → Compares m n greater

compare_limb_lem : (x y : ℕ) → Compares x y (compare_limb x y)
compare_limb_lem x y =
    if_elim (Compares x y) (ltb x y) (λ t. is_lt (ltb→lt x y t))
      (λ n.
        if_elim (Compares x y) (x == y) (λ t. is_eq (eq_of_== x y t))
          (λ m. is_gt (ground (arith, n, m))))

pub cmp-Compares :
    (xs ys : List ℕ)
    → length xs ≡ length ys
    → AreWords xs
    → AreWords ys
    → Compares (value xs) (value ys) (cmp xs ys)
unfolding value cmp
cmp-Compares [] [] e v w = is_eq refl
cmp-Compares [] (y ∷ ys) e v w = absurd (omega (arith, e))
cmp-Compares (x ∷ xs) [] e v w = absurd (omega (arith, e))
cmp-Compares (x ∷ xs) (y ∷ ys) e v w =
    go (cmp xs ys) (cmp-Compares xs ys (omega (arith, e)) v.1 w.1)
  where
    low :
        (o : Order)
        → value xs ≡ value ys
        → Compares x y o
        → Compares (x + word * value xs) (y + word * value ys) o
    low _ q (is_lt l) = is_lt (omega (arith, q))
    low _ q (is_eq l) = is_eq (omega (arith, q))
    low _ q (is_gt l) = is_gt (omega (arith, q))

    go :
        (o : Order)
        → Compares (value xs) (value ys) o
        → Compares
            (x + word * value xs)
            (y + word * value ys)
            (elim o [ equal ↦ compare_limb x y | less ↦ less | greater ↦ greater ])
    go _ (is_lt l) = is_lt (omega (arith, v.0))
    go _ (is_eq l) = low (compare_limb x y) l (compare_limb_lem x y)
    go _ (is_gt l) = is_gt (omega (arith, w.0))

-- What `reduce` makes of a number below twice the modulus, given as limbs and a carry.
pub record IsReduced (n r : List ℕ) (v : ℕ) : Type 0 where
  pub below : value r < value n
  pub is_mod : (value r ≡ v) ⊎ (value r + value n ≡ v)
  pub words : AreWords r
  pub size : length r ≡ length n

pub reduce-IsReduced :
    (xs n : List ℕ) (carry v : ℕ)
    → length xs ≡ length n
    → AreWords xs
    → AreWords n
    → carry ≤ 1
    → value xs + radix xs * carry ≡ v
    → v < value n + value n
    → IsReduced n (reduce xs carry n) v
unfolding reduce
reduce-IsReduced xs n carry v e a b c h m =
    if_elim (λ r. IsReduced n r v) (not (carry == 0) || not (is_less (cmp xs n)))
      (λ t.
        let l : value n ≤ v = large t in
        let r = sub_assign_lem xs n carry v e a b c h l m in
        record { below = omega (arith, r.0, m); is_mod = inr r.0; words = r.1; size = r.2 ∙ e })
      (λ f.
        let z : carry ≡ 0 = ground (arith, f) in
        record {
          below = is_below (cmp xs n) (cmp-Compares xs n e a b) (ground (arith, f));
          is_mod = inl (omega (arith, h, ap (λ k. radix xs * k) z));
          words = a;
          size = e;
        })
  where
    is_below : (o : Order) → Compares (value xs) (value n) o → is_less o ≡ true → value xs < value n
    is_below _ (is_lt l) q = l
    is_below _ (is_eq l) q = absurd (true≢false (sym q))
    is_below _ (is_gt l) q = absurd (true≢false (sym q))

    not_below :
        (o : Order) → Compares (value xs) (value n) o → is_less o ≡ false → value n ≤ value xs
    not_below _ (is_lt l) q = absurd (true≢false q)
    not_below _ (is_eq l) q = omega (arith, l)
    not_below _ (is_gt l) q = omega (arith, l)

    large : (not (carry == 0) || not (is_less (cmp xs n))) ≡ true → value n ≤ v
    large t = elim (zero_or_one carry c) [
      | inl z ↦
          let q : is_less (cmp xs n) ≡ false = ground (arith, t, z) in
          omega (arith, not_below (cmp xs n) (cmp-Compares xs n e a b) q, h)
      | inr z ↦ omega (arith, h, value_lt n b, radix-length xs n e, ap (λ k. radix xs * k) z)
    ]
