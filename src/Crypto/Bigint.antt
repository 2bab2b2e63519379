-- ===== src/Crypto/Bigint.antt =====
-- kernel/src/crypto/bigint.rs: integers of 64 limbs, lowest first, and Montgomery multiplication.
-- A Big is its list of limbs; the first l limbs of one, which Montgomery's loops run over, are a list
-- of length l. A limb is a number below 2^64, and the wrap of each operation is written out.
pub mod Value
pub mod Double
pub mod Mul
pub mod Reduced
pub mod Newton
pub mod Congruence
pub mod Pow
pub mod Power
pub mod Bytes
pub mod Print
use fantuan_kernel.Base.{
  ℕ, zero, suc, ◌+◌, ◌-◌, ◌*◌, ◌/◌, ◌%◌, ◌^◌, Bool, true, false, ◌||◌, not, Option, none, some,
  List, [], ◌∷◌, ◌++◌, if◌then◌else◌, ◌==◌, ltb, leb, length,
}

abbrev pub word : ℕ
word = 2 ^ 64

abbrev pub max_limbs : ℕ
max_limbs = 64

abbrev pub zeros : ℕ → List ℕ
zeros zero = []
zeros (suc n) = 0 ∷ zeros n

-- The first n limbs.
unfoldable pub limbs : ℕ → List ℕ → List ℕ
limbs zero xs = []
limbs (suc n) [] = []
limbs (suc n) (x ∷ xs) = x ∷ limbs n xs

-- The index of the highest limb that is not zero, and one.
unfoldable pub used : List ℕ → ℕ
used [] = 0
used (x ∷ xs) = let n = used xs in if n == 0 then (if x == 0 then 0 else 1) else n + 1

pub data Order : Type 0 where
  less equal greater : Order

abbrev pub compare_limb : ℕ → ℕ → Order
compare_limb x y = if ltb x y then less else if x == y then equal else greater

-- The highest limbs that differ decide.
unfoldable pub cmp : List ℕ → List ℕ → Order
cmp [] ys = equal
cmp (x ∷ xs) [] = equal
cmp (x ∷ xs) (y ∷ ys) = elim (cmp xs ys) [
  | equal ↦ compare_limb x y
  | less ↦ less
  | greater ↦ greater
]

abbrev pub is_less : Order → Bool
is_less less = true
is_less equal = false
is_less greater = false

-- `overflowing_sub`
abbrev pub sub_word : ℕ → ℕ → ℕ
sub_word a b = if ltb a b then a + word - b else a - b

abbrev pub bit : Bool → ℕ
bit true = 1
bit false = 0

-- The loop of `sub_assign`, with the borrow that it ends with.
unfoldable pub sub_limbs : List ℕ → List ℕ → ℕ → List ℕ × ℕ
sub_limbs [] ys borrow = ([], borrow)
sub_limbs (x ∷ xs) [] borrow = (x ∷ xs, borrow)
sub_limbs (x ∷ xs) (y ∷ ys) borrow =
    let r = sub_word x y in
    let rest = sub_limbs xs ys (bit (ltb x y) + bit (ltb r borrow)) in
    (sub_word r borrow ∷ rest.0, rest.1)

unfoldable pub sub_assign : List ℕ → List ℕ → List ℕ
sub_assign xs ys = (sub_limbs xs ys 0).0

-- The loop of `shl1`; the low bit of `*limb << 1` is clear, so that `|` adds the carry.
unfoldable pub shl_limbs : List ℕ → ℕ → List ℕ × ℕ
shl_limbs [] carry = ([], carry)
shl_limbs (x ∷ xs) carry =
    let rest = shl_limbs xs (x / 2 ^ 63) in ((x * 2 % word + carry) ∷ rest.0, rest.1)

unfoldable pub shl1 : List ℕ → List ℕ × ℕ
shl1 xs = shl_limbs xs 0

-- `if carry != 0 || x.cmp(n) != Less { x.sub_assign(n) }`
unfoldable pub reduce : List ℕ → ℕ → List ℕ → List ℕ
reduce xs carry n = if not (carry == 0) || not (is_less (cmp xs n)) then sub_assign xs n else xs

unfoldable pub dbl_mod : List ℕ → List ℕ → List ℕ
dbl_mod n xs = let r = shl1 xs in reduce r.0 r.1 n

unfoldable pub doublings : ℕ → List ℕ → List ℕ → List ℕ
doublings zero n xs = xs
doublings (suc k) n xs = doublings k n (dbl_mod n xs)

pub record Mont : Type 0 where
  pub n : List ℕ
  pub l : ℕ
  pub ninv : ℕ

abbrev pub one : List ℕ
one = 1 ∷ zeros 63

unfoldable pub r2 : Mont → List ℕ
r2 m = doublings (2 * 64 * m.l) m.n one

-- The loop of `mul_add` over the limbs: a times b and t, with the carry that it ends with.
unfoldable pub mac : ℕ → List ℕ → List ℕ → ℕ → List ℕ × ℕ
mac a [] ts carry = ([], carry)
mac a (b ∷ bs) [] carry = ([], carry)
mac a (b ∷ bs) (t ∷ ts) carry =
    let rest = mac a bs ts ((a * b + t + carry) / word) in
    ((a * b + t + carry) % word ∷ rest.0, rest.1)

abbrev pub lowest : List ℕ → ℕ
lowest [] = 0
lowest (x ∷ xs) = x

abbrev pub behind : List ℕ → List ℕ
behind [] = []
behind (x ∷ xs) = xs

-- `t[l - 1]`, `t[l]` and the limbs below them at the end of a round, from the limbs and carries of its
-- two loops.
abbrev pub shifted : List ℕ → ℕ → ℕ → List ℕ × ℕ
shifted us s carry =
    (behind us ++ ((s % word + carry) % word ∷ []), (s / word + (s % word + carry) / word) % word)

-- One round of the loop of `mul`, on `t[..l]` and `t[l]`; n and b are the first l limbs.
unfoldable pub round : ℕ → List ℕ → List ℕ → List ℕ × ℕ → ℕ → List ℕ × ℕ
round ninv n b (ts, top) ai =
    let first = mac ai b ts 0 in
    let second = mac (lowest first.0 * ninv % word) n first.0 0 in
    shifted second.0 (top + first.1) second.1

unfoldable pub rounds : ℕ → List ℕ → List ℕ → List ℕ × ℕ → List ℕ → List ℕ × ℕ
rounds ninv n b t [] = t
rounds ninv n b t (ai ∷ a) = rounds ninv n b (round ninv n b t ai) a

unfoldable pub mul : Mont → List ℕ → List ℕ → List ℕ
mul m a b =
    let t = rounds m.ninv (limbs m.l m.n) (limbs m.l b) (zeros m.l, 0) (limbs m.l a) in
    reduce (t.0 ++ zeros (max_limbs - m.l)) t.1 m.n

-- `2u64.wrapping_sub(n0.wrapping_mul(inv))`
abbrev pub two_less : ℕ → ℕ
two_less x = (2 + word - x) % word

-- Newton's iteration for the inverse of n0 modulo 2^64.
unfoldable pub newton : ℕ → ℕ → ℕ → ℕ
newton zero n0 inv = inv
newton (suc k) n0 inv = newton k n0 (inv * two_less (n0 * inv % word) % word)

-- `Mont::new`
unfoldable pub mont_new : List ℕ → Option Mont
mont_new n =
    if used n == 0 || lowest n % 2 == 0
    then none
    else some (record { n = n; l = used n; ninv = (word - newton 63 (lowest n) 1) % word })

unfoldable pub to_mont : Mont → List ℕ → List ℕ
to_mont m a = mul m a (r2 m)

unfoldable pub from_mont : Mont → List ℕ → List ℕ
from_mont m a = mul m a one

-- The loop of `pow_u32` from the first bit of e that is set on: k bits are left, and `acc` is the
-- power so far.
unfoldable pub pow_bits : Mont → List ℕ → ℕ → ℕ → List ℕ → List ℕ
pow_bits m bm e zero acc = acc
pow_bits m bm e (suc k) acc =
    let sq = mul m acc acc in pow_bits m bm e k (if e / 2 ^ k % 2 == 1 then mul m sq bm else sq)

-- The rounds before that.
unfoldable pub pow_start : Mont → List ℕ → ℕ → ℕ → List ℕ → List ℕ
pow_start m bm e zero acc = acc
pow_start m bm e (suc k) acc =
    let later = pow_start m bm e k acc in if e / 2 ^ k % 2 == 1 then pow_bits m bm e k bm else later

unfoldable pub pow_u32 : Mont → List ℕ → ℕ → List ℕ
pow_u32 m base e = from_mont m (pow_start m (to_mont m base) e 32 (to_mont m one))

-- `bytes.iter().rev()` before acc.
unfoldable pub rev_onto : List ℕ → List ℕ → List ℕ
rev_onto [] acc = acc
rev_onto (x ∷ xs) acc = rev_onto xs (x ∷ acc)

-- The loop of `from_be` over the bytes, lowest first; `cur |= byte << shift` adds, as cur is below
-- 2^shift.
unfoldable pub pack : List ℕ → ℕ → ℕ → List ℕ
pack [] cur shift = if ltb 0 shift then cur ∷ [] else []
pack (b ∷ bs) cur shift = elim (shift + 8 == 64) [
  | true ↦ (cur + b * 2 ^ shift) ∷ pack bs 0 0
  | false ↦ pack bs (cur + b * 2 ^ shift) (shift + 8)
]

unfoldable pub from_be : List ℕ → Option (List ℕ)
from_be bytes =
    if length bytes == 0 || ltb 512 (length bytes)
    then none
    else let xs = pack (rev_onto bytes []) 0 0 in some (xs ++ zeros (max_limbs - length xs))

-- `to_be_bytes` of a number of k bytes, before the bytes of acc: highest first.
unfoldable pub to_bytes : ℕ → ℕ → List ℕ → List ℕ
to_bytes zero x acc = acc
to_bytes (suc k) x acc = to_bytes k (x / 256) (x % 256 ∷ acc)

-- `copy_from_slice` to the front of a slice.
unfoldable pub overwrite : List ℕ → List ℕ → List ℕ
overwrite out [] = out
overwrite [] (b ∷ bs) = []
overwrite (o ∷ out) (b ∷ bs) = b ∷ overwrite out bs

-- `out[start..].copy_from_slice(bytes)`, for bytes that fit.
unfoldable pub write_at : List ℕ → ℕ → List ℕ → List ℕ
write_at out zero bytes = overwrite out bytes
write_at [] (suc start) bytes = []
write_at (o ∷ out) (suc start) bytes = o ∷ write_at out start bytes

-- The loop of `to_be` from limb i on; none where `n - (i + 1) * 8` is below 0, which panics.
unfoldable pub put_limbs : List ℕ → ℕ → List ℕ → Option (List ℕ)
put_limbs [] i out = some out
put_limbs (x ∷ xs) i out =
    let rest = put_limbs xs (i + 1) (write_at out (length out - (i + 1) * 8) (to_bytes 8 x [])) in
    if ltb (length out) ((i + 1) * 8) then none else rest

-- The first argument is the length of the slice, all of which is cleared first.
unfoldable pub to_be : ℕ → List ℕ → Option (List ℕ)
to_be n b = put_limbs (limbs (used b) b) 0 (zeros n)
