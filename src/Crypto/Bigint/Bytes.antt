-- ===== src/Crypto/Bigint/Bytes.antt =====
-- `from_be` reads a number from its bytes, highest first.
use fantuan_kernel.Base.{
  ℕ, zero, suc, ◌+◌, ◌-◌, ◌*◌, ◌^◌, ◌≤◌, ◌<◌, ◌≡◌, refl, sym, ap, ◌∙◌, List, [], ◌∷◌, ◌++◌, arith,
  length, length-append, some, none, Bool-cases, inl, inr, if_elim, ltb, ◌==◌, eq_of_==, ◌⊎◌, subst,
  false, true, Bool,
}
use native.Mathlib.Nat.{mul-le-mul_left, pow-succ'}
use fantuan_kernel.Crypto.Bigint.{rev_onto, pack, from_be, zeros}
use fantuan_kernel.Crypto.Bigint.Value.{value, AreWords}
use fantuan_kernel.Crypto.Bigint.Double.{length-zeros, zeros-AreWords}
use fantuan_kernel.Crypto.Bigint.Reduced.{append-AreWords}
use fantuan_kernel.Crypto.Bigint.Pow.{value_padded, pow-plus}

-- The number that bytes write, highest first, behind the digits that make n.
abbrev pub big_endian : List ℕ → ℕ → ℕ
big_endian [] n = n
big_endian (b ∷ bs) n = big_endian bs (b + 256 * n)

-- The number that bytes write, lowest first.
abbrev little_endian : List ℕ → ℕ
little_endian [] = 0
little_endian (b ∷ bs) = b + 256 * little_endian bs

abbrev pub AreBytes : List ℕ → Type 0
AreBytes [] = Unit
AreBytes (b ∷ bs) = (b < 256) × AreBytes bs

reversed :
    (xs acc : List ℕ)
    → AreBytes xs
    → AreBytes acc
    → (little_endian (rev_onto xs acc) ≡ big_endian xs (little_endian acc))
      × AreBytes (rev_onto xs acc)
      × (length (rev_onto xs acc) ≡ length xs + length acc)
unfolding rev_onto
reversed [] acc v w = (refl, w, omega arith)
reversed (x ∷ xs) acc v w =
    let r = reversed xs (x ∷ acc) v.1 (v.0, w) in (r.0, r.1, omega (arith, r.2))

pow_pos : (n : ℕ) → 1 ≤ 2 ^ n
pow_pos zero = omega arith
pow_pos (suc n) = omega (arith, pow-succ' 2 n, pow_pos n)

-- The bits of a started limb and one more byte fit in the bits up to the next byte.
step-lt : (cur b j : ℕ) → cur < 2 ^ (8 * j) → b < 256 → cur + b * 2 ^ (8 * j) < 2 ^ (8 * j + 8)
step-lt cur b j l m =
    let p : 2 ^ (8 * j + 8) ≡ 2 ^ (8 * j) * 256 = pow-plus 2 (8 * j) 8 in
    let q : 2 ^ (8 * j) * suc b ≤ 2 ^ (8 * j) * 256 =
      mul-le-mul_left (2 ^ (8 * j)) (omega (arith, m)) in
    omega (arith, p, l, q)

word-lt : (cur j : ℕ) → j < 8 → cur < 2 ^ (8 * j) → cur < 2 ^ 64
word-lt cur j l m =
    let d = 64 - 8 * j in
    let p : 2 ^ 64 ≡ 2 ^ (8 * j) * 2 ^ d =
      ap (λ k. 2 ^ k) {x = 64} {y = 8 * j + d} (omega (arith, l)) ∙ pow-plus 2 (8 * j) d in
    let q : 2 ^ (8 * j) * 1 ≤ 2 ^ (8 * j) * 2 ^ d = mul-le-mul_left (2 ^ (8 * j)) (pow_pos d) in
    omega (arith, p, q, m)

shift_zero : (n : ℕ) → 2 ^ 0 * n ≡ n
shift_zero n = omega arith

pack_last : (cur shift : ℕ) → 0 < shift → pack [] cur shift ≡ cur ∷ []
unfolding pack
pack_last cur shift l =
    if_elim (λ xs. xs ≡ cur ∷ []) (ltb 0 shift) (λ e. refl) (λ e. absurd (ground arith))

pick_true : {b : Bool} (xs ys : List ℕ) → b ≡ true → (elim b [ true ↦ xs | false ↦ ys ]) ≡ xs
pick_true xs ys e = ap (λ b. elim b [ true ↦ xs | false ↦ ys ]) e

pick_false : {b : Bool} (xs ys : List ℕ) → b ≡ false → (elim b [ true ↦ xs | false ↦ ys ]) ≡ ys
pick_false xs ys e = ap (λ b. elim b [ true ↦ xs | false ↦ ys ]) e

pack_none : (cur : ℕ) → pack [] cur 0 ≡ []
unfolding pack
pack_none cur = refl

pack_full :
    (b cur shift : ℕ) (bs : List ℕ)
    → (shift + 8 == 64) ≡ true
    → pack (b ∷ bs) cur shift ≡ (cur + b * 2 ^ shift) ∷ pack bs 0 0
unfolding pack
pack_full b cur shift bs e = pick_true _ _ e

pack_more :
    (b cur shift : ℕ) (bs : List ℕ)
    → (shift + 8 == 64) ≡ false
    → pack (b ∷ bs) cur shift ≡ pack bs (cur + b * 2 ^ shift) (shift + 8)
unfolding pack
pack_more b cur shift bs e = pick_false _ _ e

-- The limbs hold the number n and are as few as the bytes allow.
Packs : List ℕ → ℕ → ℕ → Type 0
Packs xs n bytes = (value xs ≡ n) × AreWords xs × (8 * length xs ≤ bytes + 7)

-- The limbs from a started one on.
pack_lem :
    (bs : List ℕ) (cur j : ℕ)
    → j < 8
    → cur < 2 ^ (8 * j)
    → AreBytes bs
    → Packs (pack bs cur (8 * j)) (cur + 2 ^ (8 * j) * little_endian bs) (j + length bs)
unfolding value Packs
pack_lem [] cur zero l m w =
    subst (λ xs. Packs xs (cur + 0) 0) (sym (pack_none cur)) (omega (arith, m), tt, omega arith)
pack_lem [] cur (suc j) l m w =
    subst (λ xs. Packs xs (cur + 2 ^ (8 * suc j) * 0) (suc j + 0))
      (sym (pack_last cur (8 * suc j) (omega arith)))
      (omega arith, (word-lt cur (suc j) l m, tt), omega arith)
pack_lem (b ∷ bs) cur j l m w =
    let now = step-lt cur b j m w.0 in
    let p : 2 ^ (8 * j + 8) ≡ 2 ^ (8 * j) * 256 = pow-plus 2 (8 * j) 8 in
    elim (Bool-cases (8 * j + 8 == 64)) [
      | inl full ↦
          let e : 8 * j + 8 ≡ 64 = eq_of_== (8 * j + 8) 64 full in
          let q : 2 ^ (8 * j + 8) ≡ 2 ^ 64 = ap (λ k. 2 ^ k) e in
          let r = pack_lem bs 0 0 (omega arith) (omega arith) w.1 in
          subst
            (λ xs.
              Packs xs (cur + 2 ^ (8 * j) * (b + 256 * little_endian bs)) (j + suc (length bs)))
            (sym (pack_full b cur (8 * j) bs full))
            (
              omega
                  (arith, r.0, ap (λ k. k * little_endian bs) p, ap (λ k. k * little_endian bs) q),
              (omega (arith, now, q), r.1),
              omega (arith, r.2, e),
            )
      | inr more ↦
          let e : 8 * suc j ≡ 8 * j + 8 = omega arith in
          let c = cur + b * 2 ^ (8 * j) in
          let r =
            subst (λ k. Packs (pack bs c k) (c + 2 ^ k * little_endian bs) (suc j + length bs)) e
              (pack_lem bs c (suc j) (ground arith) (subst (λ k. c < 2 ^ k) (sym e) now) w.1) in
          subst
            (λ xs.
              Packs xs (cur + 2 ^ (8 * j) * (b + 256 * little_endian bs)) (j + suc (length bs)))
            (sym (pack_more b cur (8 * j) bs more))
            (r.0 ∙ omega (arith, ap (λ k. k * little_endian bs) p), r.1, omega (arith, r.2))
    ]

-- From 1 to 512 bytes, `from_be` gives the number that they write, in 64 limbs that are words.
pub from_be_lem :
    (bytes : List ℕ)
    → 1 ≤ length bytes
    → length bytes ≤ 512
    → AreBytes bytes
    → (xs : List ℕ) × (from_be bytes ≡ some xs)
      × (value xs ≡ big_endian bytes 0)
      × AreWords xs
      × (length xs ≡ 64)
unfolding from_be Packs
from_be_lem bytes l m w =
    let r = reversed bytes [] w tt in
    let xs = pack (rev_onto bytes []) 0 0 in
    let p : Packs xs (0 + 2 ^ 0 * little_endian (rev_onto bytes []))
        (0 + length (rev_onto bytes [])) =
      pack_lem (rev_onto bytes []) 0 0 (omega arith) (omega arith) r.1 in
    let small : 0 + 8 * length xs ≤ 0 + 512 + 7 = omega (arith, p.2, r.2, m) in
    (
      xs ++ zeros (64 - length xs),
      ground arith,
      value_padded xs (64 - length xs) ∙ omega (arith, p.0, r.0),
      append-AreWords xs (zeros (64 - length xs)) p.1 (zeros-AreWords (64 - length xs)),
      omega
          (arith, length-append xs (zeros (64 - length xs)), length-zeros (64 - length xs), small),
    )

-- No bytes, and more than 512, are refused.
pub from_be-none :
    (bytes : List ℕ) → (length bytes ≡ 0) ⊎ (512 < length bytes) → from_be bytes ≡ none
unfolding from_be
from_be-none bytes h = ground arith
