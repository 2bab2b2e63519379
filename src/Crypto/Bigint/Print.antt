-- ===== src/Crypto/Bigint/Print.antt =====
-- `to_be` writes a number as bytes, highest first.
use fantuan_kernel.Base.{
  ℕ, zero, suc, ◌+◌, ◌-◌, ◌*◌, ◌/◌, ◌%◌, ◌^◌, ◌≤◌, ◌<◌, ◌≡◌, refl, sym, ap, ◌∙◌, List, [], ◌∷◌,
  ◌++◌, arith, length, length-append, some, if_elim, ltb, subst,
}
use native.Mathlib.Nat.{pow-succ', pow-zero}
use fantuan_kernel.Crypto.Bigint.{
  to_bytes, overwrite, write_at, put_limbs, to_be, from_be, limbs, used, zeros,
}
use fantuan_kernel.Crypto.Bigint.Value.{value, AreWords}
use fantuan_kernel.Crypto.Bigint.Double.{length-zeros}
use fantuan_kernel.Crypto.Bigint.Reduced.{length-limbs, limbs-AreWords}
use fantuan_kernel.Crypto.Bigint.Newton.{used_le, used_padded}
use fantuan_kernel.Crypto.Bigint.Pow.{value_padded, pow-plus}
use fantuan_kernel.Crypto.Bigint.Bytes.{big_endian, AreBytes, from_be_lem}

length-to_bytes : (k x : ℕ) (acc : List ℕ) → length (to_bytes k x acc) ≡ k + length acc
unfolding to_bytes
length-to_bytes zero x acc = omega arith
length-to_bytes (suc k) x acc = omega (arith, length-to_bytes k (x / 256) (x % 256 ∷ acc))

to_bytes-append : (k x : ℕ) (acc t : List ℕ) → to_bytes k x acc ++ t ≡ to_bytes k x (acc ++ t)
unfolding to_bytes
to_bytes-append zero x acc t = refl
to_bytes-append (suc k) x acc t = to_bytes-append k (x / 256) (x % 256 ∷ acc) t

big_endian-to_bytes :
    (k x : ℕ) (acc : List ℕ) → x < 256 ^ k → big_endian (to_bytes k x acc) 0 ≡ big_endian acc x
unfolding to_bytes
big_endian-to_bytes zero x acc l = ap (λ n. big_endian acc n) (omega (arith, l, pow-zero 256))
big_endian-to_bytes (suc k) x acc l =
    big_endian-to_bytes k (x / 256) (x % 256 ∷ acc) (omega (arith, l, pow-succ' 256 k))
    ∙ ap (λ n. big_endian acc n) (omega arith)

to_bytes-AreBytes : (k x : ℕ) (acc : List ℕ) → AreBytes acc → AreBytes (to_bytes k x acc)
unfolding to_bytes
to_bytes-AreBytes zero x acc w = w
to_bytes-AreBytes (suc k) x acc w = to_bytes-AreBytes k (x / 256) (x % 256 ∷ acc) (omega arith, w)

zeros-AreBytes : (k : ℕ) (t : List ℕ) → AreBytes t → AreBytes (zeros k ++ t)
zeros-AreBytes zero t w = w
zeros-AreBytes (suc k) t w = (omega arith, zeros-AreBytes k t w)

big_endian_behind : (bs : List ℕ) (n : ℕ) → big_endian bs n ≡ big_endian bs 0 + 256 ^ length bs * n
big_endian_behind [] n = omega arith
big_endian_behind (b ∷ bs) n = omega (
  arith,
  big_endian_behind bs (b + 256 * n),
  big_endian_behind bs (b + 256 * 0),
  ap (λ k. k * n) (pow-succ' 256 (length bs)),
)

big_endian_padded : (s : ℕ) (t : List ℕ) → big_endian (zeros s ++ t) 0 ≡ big_endian t 0
big_endian_padded zero t = refl
big_endian_padded (suc s) t = big_endian_padded s t

overwrite-zeros : (m : ℕ) (bs t : List ℕ) → m ≡ length bs → overwrite (zeros m ++ t) bs ≡ bs ++ t
unfolding overwrite
overwrite-zeros zero [] t e = refl
overwrite-zeros zero (b ∷ bs) t e = absurd (omega (arith, e))
overwrite-zeros (suc m) [] t e = absurd (omega (arith, e))
overwrite-zeros (suc m) (b ∷ bs) t e = ap (λ r. b ∷ r) (overwrite-zeros m bs t (omega (arith, e)))

write_at-zeros :
    (s m : ℕ) (bs t : List ℕ)
    → m ≡ s + length bs
    → write_at (zeros m ++ t) s bs ≡ zeros s ++ (bs ++ t)
unfolding write_at
write_at-zeros zero m bs t e = overwrite-zeros m bs t (omega (arith, e))
write_at-zeros (suc s) zero bs t e = absurd (omega (arith, e))
write_at-zeros (suc s) (suc m) bs t e = ap (λ r. 0 ∷ r) (write_at-zeros s m bs t (omega (arith, e)))

-- One limb before the bytes of those below it.
limb-behind :
    (x : ℕ) (t : List ℕ)
    → x < 2 ^ 64
    → big_endian (to_bytes 8 x [] ++ t) 0 ≡ big_endian t 0 + 256 ^ length t * x
limb-behind x t l =
    ap (λ bs. big_endian bs 0) (to_bytes-append 8 x [] t)
    ∙ big_endian-to_bytes 8 x t (omega (arith, l))
    ∙ big_endian_behind t x

put_limbs_lem :
    (xs t : List ℕ) (i s : ℕ)
    → length t ≡ 8 * i
    → 8 * length xs ≤ s
    → AreWords xs
    → AreBytes t
    → (ys : List ℕ) × (put_limbs xs i (zeros s ++ t) ≡ some ys)
      × (big_endian ys 0 ≡ big_endian t 0 + 256 ^ length t * value xs)
      × (length ys ≡ s + length t)
      × AreBytes ys
unfolding put_limbs value
put_limbs_lem [] t i s e l w v = (
  zeros s ++ t,
  refl,
  omega (arith, big_endian_padded s t),
  omega (arith, length-append (zeros s) t, length-zeros s),
  zeros-AreBytes s t v,
)
put_limbs_lem (x ∷ xs) t i s e l w v =
    let out = zeros s ++ t in
    let bytes = to_bytes 8 x [] in
    let b_size : length bytes ≡ 8 = length-to_bytes 8 x [] in
    let size : length out ≡ s + length t =
      length-append (zeros s) t ∙ omega (arith, length-zeros s) in
    let t_size : length (bytes ++ t) ≡ 8 + length t =
      omega (arith, length-append bytes t, b_size) in
    let written : write_at out (length out - (i + 1) * 8) bytes ≡ zeros (s - 8) ++ (bytes ++ t) =
      ap (λ k. write_at out k bytes) {y = s - 8} (omega (arith, size, e))
      ∙ write_at-zeros (s - 8) s bytes t (omega (arith, b_size, l)) in
    let r =
      put_limbs_lem xs (bytes ++ t) (i + 1) (s - 8) (omega (arith, t_size, e)) (omega (arith, l))
        w.1 (subst AreBytes (sym (to_bytes-append 8 x [] t)) (to_bytes-AreBytes 8 x t v)) in
    let p : 256 ^ length (bytes ++ t) ≡ 2 ^ 64 * 256 ^ length t =
      ap (λ k. 256 ^ k) t_size ∙ pow-plus 256 8 (length t) in
    (
      r.0,
      if_elim (λ o. o ≡ some r.0) (ltb (length out) ((i + 1) * 8))
          (λ h. absurd (ground (arith, size, e, l))) (λ h. ap (put_limbs xs (i + 1)) written ∙ r.1),
      omega (arith, r.2, limb-behind x t w.0, ap (λ k. k * value xs) p),
      omega (arith, r.3, t_size, l),
      r.4,
    )

zeros_nil : (n : ℕ) → zeros n ++ [] ≡ zeros n
zeros_nil zero = refl
zeros_nil (suc n) = ap (λ r. 0 ∷ r) (zeros_nil n)

-- In a slice that has room for the limbs in use, `to_be` fills it with bytes that write the number.
pub to_be_lem :
    (n : ℕ) (xs : List ℕ)
    → AreWords xs
    → 8 * used xs ≤ n
    → (ys : List ℕ) × (to_be n xs ≡ some ys)
      × (big_endian ys 0 ≡ value xs)
      × (length ys ≡ n)
      × AreBytes ys
unfolding to_be
to_be_lem n xs w l =
    let u = used xs in
    let r =
      put_limbs_lem (limbs u xs) [] 0 n refl (omega (arith, l, length-limbs u xs (used_le xs)))
        (limbs-AreWords u xs w) tt in
    (
      r.0,
      ap (put_limbs (limbs u xs) 0) (sym (zeros_nil n)) ∙ r.1,
      omega (arith, r.2, ap value (used_padded xs), value_padded (limbs u xs) (length xs - u)),
      omega (arith, r.3),
      r.4,
    )

value-inj :
    (xs ys : List ℕ)
    → AreWords xs
    → AreWords ys
    → length xs ≡ length ys
    → value xs ≡ value ys
    → xs ≡ ys
unfolding value
value-inj [] [] v w l e = refl
value-inj [] (y ∷ ys) v w l e = absurd (omega (arith, l))
value-inj (x ∷ xs) [] v w l e = absurd (omega (arith, l))
value-inj (x ∷ xs) (y ∷ ys) v w l e =
    let p : x ≡ y = omega (arith, e, v.0, w.0) in
    ap (λ z. z ∷ xs) p
    ∙ ap (λ zs. y ∷ zs) (value-inj xs ys v.1 w.1 (omega (arith, l)) (omega (arith, e, v.0, w.0)))

-- A number of 64 limbs that are words, which `to_be` writes to a slice of 1 to 512 bytes that has
-- room for its limbs in use, is what `from_be` reads from that slice.
pub from_be-to_be :
    (n : ℕ) (xs : List ℕ)
    → AreWords xs
    → length xs ≡ 64
    → 8 * used xs ≤ n
    → 1 ≤ n
    → n ≤ 512
    → (ys : List ℕ) × (to_be n xs ≡ some ys) × (from_be ys ≡ some xs)
from_be-to_be n xs w m l a b =
    let p = to_be_lem n xs w l in
    let r = from_be_lem p.0 (omega (arith, p.3, a)) (omega (arith, p.3, b)) p.4 in
    (p.0, p.1, r.1 ∙ ap some (value-inj r.0 xs r.3 w (r.4 ∙ sym m) (r.2 ∙ p.2)))
