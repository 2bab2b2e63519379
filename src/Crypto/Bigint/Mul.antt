-- ===== src/Crypto/Bigint/Mul.antt =====
-- Montgomery multiplication: a round keeps its sum, up to a multiple of the modulus, and divides it
-- by 2^64.
use fantuan_kernel.Base.{
  ℕ, suc, ◌+◌, ◌-◌, ◌*◌, ◌/◌, ◌%◌, ◌^◌, ◌≤◌, ◌<◌, ◌≡◌, refl, sym, ap, ◌∙◌, List, [], ◌∷◌, ◌++◌,
  arith, length, length-append,
}
use native.Mathlib.Nat.{mul-le-mul_left, mul-le-mul_right}
use fantuan_kernel.Crypto.Bigint.{mac, lowest, shifted, round, rounds}
use fantuan_kernel.Crypto.Bigint.Value.{value, radix, AreWords, radix-length}

hi_lt :
    (a b t c : ℕ)
    → a < 2 ^ 64
    → b < 2 ^ 64
    → t < 2 ^ 64
    → c < 2 ^ 64
    → (a * b + t + c) / 2 ^ 64 < 2 ^ 64
hi_lt a b t c k l m n =
    let p : a * b ≤ a * (2 ^ 64 - 1) = mul-le-mul_left a (omega (arith, l)) in
    omega (arith, p, k, m, n)

-- A row of products: the limbs and the carry make up a times b and t.
mac_lem :
    (a c : ℕ) (bs ts : List ℕ)
    → length bs ≡ length ts
    → AreWords bs
    → AreWords ts
    → a < 2 ^ 64
    → c < 2 ^ 64
    → (value (mac a bs ts c).0 + radix ts * (mac a bs ts c).1 ≡ a * value bs + value ts + c)
      × AreWords (mac a bs ts c).0
      × ((mac a bs ts c).1 < 2 ^ 64)
      × (length (mac a bs ts c).0 ≡ length ts)
unfolding value radix mac
mac_lem a c [] [] e v w k l = (omega arith, tt, l, refl)
mac_lem a c [] (t ∷ ts) e v w k l = absurd (omega (arith, e))
mac_lem a c (b ∷ bs) [] e v w k l = absurd (omega (arith, e))
mac_lem a c (b ∷ bs) (t ∷ ts) e v w k l =
    let hi : (a * b + t + c) / 2 ^ 64 < 2 ^ 64 = hi_lt a b t c k v.0 w.0 l in
    let rest = mac_lem a ((a * b + t + c) / 2 ^ 64) bs ts (omega (arith, e)) v.1 w.1 k hi in
    (omega (arith, rest.0), (omega arith, rest.1), rest.2, omega (arith, rest.3))

-- The factor of the modulus clears the lowest limb.
cleared :
    (t n ninv : ℕ) → (ninv * n + 1) % 2 ^ 64 ≡ 0 → (t * ninv % 2 ^ 64 * n + t + 0) % 2 ^ 64 ≡ 0
cleared t n ninv h =
    let d : ℕ = t * ninv / 2 ^ 64 in
    let q : ℕ = t * ninv % 2 ^ 64 in
    let e : ℕ = (ninv * n + 1) / 2 ^ 64 in
    let x : t * ninv ≡ q + 2 ^ 64 * d = omega arith in
    let y : ninv * n + 1 ≡ 2 ^ 64 * e = omega (arith, h) in
    omega (arith, ap (λ k. k * n) x, ap (λ k. t * k) y)

-- What t[..l] and t[l] stand for.
abbrev pub total : List ℕ × ℕ → ℕ
total (ts, top) = value ts + radix ts * top

value-snoc : (xs : List ℕ) (z : ℕ) → value (xs ++ (z ∷ [])) ≡ value xs + radix xs * z
unfolding value radix
value-snoc [] z = omega arith
value-snoc (x ∷ xs) z = omega (arith, value-snoc xs z)

radix-snoc : (xs : List ℕ) (z : ℕ) → radix (xs ++ (z ∷ [])) ≡ radix xs * 2 ^ 64
unfolding radix
radix-snoc [] z = omega arith
radix-snoc (x ∷ xs) z = omega (arith, radix-snoc xs z)

snoc-AreWords : (xs : List ℕ) (z : ℕ) → AreWords xs → z < 2 ^ 64 → AreWords (xs ++ (z ∷ []))
snoc-AreWords [] z w l = (l, tt)
snoc-AreWords (x ∷ xs) z w l = (w.0, snoc-AreWords xs z w.1 l)

-- What a round keeps of t: limbs below 2^64, l of them, and one above.
pub record IsSum (l : ℕ) (t : List ℕ × ℕ) : Type 0 where
  pub words : AreWords t.0
  pub size : length t.0 ≡ l
  pub top : t.1 < 2 ^ 64

-- Dropping the cleared limb divides by 2^64.
shifted_lem :
    (us : List ℕ) (l s carry : ℕ)
    → length us ≡ suc l
    → AreWords us
    → lowest us ≡ 0
    → s < 2 ^ 65
    → carry < 2 ^ 64
    → IsSum (suc l) (shifted us s carry)
      × (2 ^ 64 * total (shifted us s carry) ≡ value us + radix us * (s + carry))
unfolding value radix
shifted_lem [] l s carry e w z m n = absurd (omega (arith, e))
shifted_lem (u ∷ us) l s carry e w z m n =
    let r : ℕ = (s % 2 ^ 64 + carry) % 2 ^ 64 in
    let c : ℕ = (s / 2 ^ 64 + (s % 2 ^ 64 + carry) / 2 ^ 64) % 2 ^ 64 in
    let parts : r + 2 ^ 64 * c ≡ s + carry = omega (arith, m, n) in
    (
      record {
        words = snoc-AreWords us r w.1 (omega arith);
        size = omega (arith, length-append us (r ∷ []), e);
        top = omega arith;
      },
      omega (
        arith,
        value-snoc us r,
        ap (λ k. k * c) (radix-snoc us r),
        ap (λ k. radix us * k) parts,
        z,
      ),
    )

lowest-mac :
    (a c : ℕ) (bs ts : List ℕ) {l : ℕ}
    → length bs ≡ length ts
    → length bs ≡ suc l
    → lowest (mac a bs ts c).0 ≡ (a * lowest bs + lowest ts + c) % 2 ^ 64
unfolding mac
lowest-mac a c [] ts e f = absurd (omega (arith, f))
lowest-mac a c (b ∷ bs) [] e f = absurd (omega (arith, e))
lowest-mac a c (b ∷ bs) (t ∷ ts) e f = refl

times : (a b : ℕ) → a < 2 ^ 64 → a * b + b ≤ 2 ^ 64 * b
times a b l =
    let p : a * b ≤ (2 ^ 64 - 1) * b = mul-le-mul_right b (omega (arith, l)) in omega (arith, p)

module _ (ninv l : ℕ) (n b : List ℕ) (is_inv : (ninv * lowest n + 1) % 2 ^ 64 ≡ 0)
    (n_words : AreWords n) (n_size : length n ≡ suc l) (b_words : AreWords b)
    (b_size : length b ≡ suc l) where
  -- A round adds a limb of a times b and a multiple of the modulus, and divides by 2^64; the sum
  -- stays below the modulus and b together.
  round_lem :
      (t : List ℕ × ℕ) (ai : ℕ)
      → IsSum (suc l) t
      → ai < 2 ^ 64
      → total t < value n + value b
      → IsSum (suc l) (round ninv n b t ai)
        × (total (round ninv n b t ai) < value n + value b)
        × ((q : ℕ) × (2 ^ 64 * total (round ninv n b t ai) ≡ total t + ai * value b + q * value n))
  unfolding round
  round_lem (ts, top) ai i k h =
      let f = mac_lem ai 0 b ts (b_size ∙ sym i.size) b_words i.words k (omega arith) in
      let fs : List ℕ = (mac ai b ts 0).0 in
      let q : ℕ = lowest fs * ninv % 2 ^ 64 in
      let g =
        mac_lem q 0 n fs (n_size ∙ sym i.size ∙ sym f.3) n_words f.1 (omega arith) (omega arith) in
      let gs : List ℕ = (mac q n fs 0).0 in
      let s : ℕ = top + (mac ai b ts 0).1 in
      let low : lowest gs ≡ 0 =
        lowest-mac q 0 n fs (n_size ∙ sym i.size ∙ sym f.3) n_size
        ∙ cleared (lowest fs) (lowest n) ninv is_inv in
      let d =
        shifted_lem gs l s (mac q n fs 0).1 (g.3 ∙ f.3 ∙ i.size) g.1 low (omega (arith, f.2, i.top))
          g.2 in
      let sum : 2 ^ 64 * total (shifted gs s (mac q n fs 0).1)
          ≡ total (ts, top) + ai * value b + q * value n =
        omega (
          arith,
          d.1,
          f.0,
          g.0,
          ap (λ k. k * (s + (mac q n fs 0).1)) (radix-length gs ts (g.3 ∙ f.3)),
          ap (λ k. k * (mac q n fs 0).1) (radix-length fs ts f.3),
        ) in
      (d.0, omega (arith, sum, h, times ai (value b) k, times q (value n) (omega arith)), (q, sum))

  -- All rounds together: the sum times 2^64 to the number of rounds is t and a times b, up to a
  -- multiple of the modulus.
  pub rounds_lem :
      (a : List ℕ) (t : List ℕ × ℕ)
      → IsSum (suc l) t
      → AreWords a
      → total t < value n + value b
      → IsSum (suc l) (rounds ninv n b t a)
        × (total (rounds ninv n b t a) < value n + value b)
        × ((q : ℕ) × (radix a * total (rounds ninv n b t a)
              ≡ total t + value a * value b + q * value n))
  unfolding rounds value radix
  rounds_lem [] t i w h = (i, h, (0, omega arith))
  rounds_lem (ai ∷ a) t i w h =
      let one = round_lem t ai i w.0 h in
      let rest = rounds_lem a (round ninv n b t ai) one.0 w.1 one.1 in
      (rest.0, rest.1, (one.2.0 + 2 ^ 64 * rest.2.0, omega (arith, one.2.1, rest.2.1)))
