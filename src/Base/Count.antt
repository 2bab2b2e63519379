-- ===== src/Base/Count.antt =====
-- How many of the first n entries of a table of flags are set.
use Prim.Native.Nat.{ℕ, zero, suc, ◌+◌, ◌≤◌, ◌<◌}
use mathlib.Core.Path.{◌≡◌, refl, ap}
use mathlib.Core.Bool.{Bool, true, false}
use native.Mathlib.Omega.{arith}
use native.Mathlib.Decide.{ℕ_discrete}
use fantuan_kernel.Base.Slots.{update, update_self, update_ne}

abbrev pub bit : Bool → ℕ
bit true = 1
bit false = 0

unfoldable pub count : (ℕ → Bool) → ℕ → ℕ
count f zero = 0
count f (suc n) = bit (f n) + count f n

pub count-le : (f : ℕ → Bool) (n : ℕ) → count f n ≤ n
unfolding count
count-le f zero = omega arith
count-le f (suc n) = ground (arith, count-le f n)

-- Tables that agree below n have the same count.
pub count-ext : (f g : ℕ → Bool) (n : ℕ) → ((i : ℕ) → i < n → f i ≡ g i) → count f n ≡ count g n
unfolding count
count-ext f g zero h = refl
count-ext f g (suc n) h = rw (h n (omega arith), count-ext f g n (λ i l. h i (omega arith)))

-- A table with nothing set counts to zero.
pub count-clear : (n : ℕ) → count (λ i. false) n ≡ 0
unfolding count
count-clear zero = refl
count-clear (suc n) = omega (arith, count-clear n)

-- A set entry below n makes the count positive.
pub count-pos : (f : ℕ → Bool) (n i : ℕ) → i < n → f i ≡ true → 0 < count f n
unfolding count
count-pos f zero i l t = absurd (omega arith)
count-pos f (suc n) i l t = elim (ℕ_discrete i n) [
  | yes e ↦ rw (← e, t) (omega arith)
  | no e ↦ omega (arith, count-pos f n i (omega arith) t)
]

-- One write moves the count by the difference of the two flags.
pub count-update :
    (f : ℕ → Bool) (n i : ℕ) (v : Bool)
    → i < n
    → count (update f i v) n + bit (f i) ≡ count f n + bit v
unfolding count
count-update f zero i v l = absurd (omega arith)
count-update f (suc n) i v l = elim (ℕ_discrete i n) [
  | yes e ↦
      rw (← e, update_self f i v)
        (omega (arith, count-ext (update f i v) f i (λ j h. update_ne f i j v (omega arith))))
  | no e ↦
      rw (update_ne f i n v (λ h. e (omega arith)))
        (omega (arith, count-update f n i v (omega arith)))
]

pub count-add_one : (f : ℕ → Bool) (n : ℕ) → count f (n + 1) ≡ bit (f n) + count f n
unfolding count
count-add_one f n = ap (count f) {x = n + 1} {y = suc n} (omega arith)
