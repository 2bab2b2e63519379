-- ===== src/Crypto/Bigint/Congruence.antt =====
-- Numbers that leave the same remainder, as two multiples of the modulus that make them equal.
use fantuan_kernel.Base.{ℕ, ◌+◌, ◌*◌, ◌%◌, ◌<◌, ◌≡◌, refl, sym, ap, ◌∙◌, arith}
use native.Mathlib.Nat.{add-mul-mod_self_right, mod-eq_of_lt}

pub record Agree (n x y : ℕ) : Type 0 where
  pub left : ℕ
  pub right : ℕ
  pub same : x + left * n ≡ y + right * n

pub Agree-of_eq : (n x y : ℕ) → x ≡ y → Agree n x y
Agree-of_eq n x y e = record { left = 0; right = 0; same = omega (arith, e) }

pub Agree-sym : (n x y : ℕ) → Agree n x y → Agree n y x
Agree-sym n x y a = record { left = a.right; right = a.left; same = sym a.same }

pub Agree-trans : (n x y z : ℕ) → Agree n x y → Agree n y z → Agree n x z
Agree-trans n x y z a b = record {
  left = a.left + b.left;
  right = a.right + b.right;
  same = omega (arith, a.same, b.same);
}

pub Agree-mul : (n x y u v : ℕ) → Agree n x y → Agree n u v → Agree n (x * u) (y * v)
Agree-mul n x y u v a b = record {
  left = x * b.left + a.left * u + a.left * (b.left * n);
  right = y * b.right + a.right * v + a.right * (b.right * n);
  same =
      omega (arith, ap (λ k. k * (u + b.left * n)) a.same, ap (λ k. (y + a.right * n) * k) b.same);
}

pub Agree-times : (n k x y : ℕ) → Agree n x y → Agree n (k * x) (k * y)
Agree-times n k x y a = Agree-mul n k k x y (Agree-of_eq n k k refl) a

-- A number below the modulus is the remainder of those it agrees with.
pub Agree-mod : (n x y : ℕ) → x < n → Agree n x y → x ≡ y % n
Agree-mod n x y l a =
    sym (mod-eq_of_lt l)
    ∙ sym (add-mul-mod_self_right x a.left n)
    ∙ ap (λ k. k % n) a.same
    ∙ add-mul-mod_self_right y a.right n
