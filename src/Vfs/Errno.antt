-- ===== src/Vfs/Errno.antt =====
-- The errors of abi/src/lib.rs that the file-system layer returns, and its results.
use fantuan_kernel.Base.{◌≡◌, refl, ◌⊎◌, inl, inr}

pub data Err : Type 0 where
  badf mfile inval noent exist notdir isdir notempty nospc nametoolong perm acces spipe fault : Err

pub data Result {ℓ} (A : Type ℓ) : Type ℓ where
  ok : A → Result A
  err : Err → Result A

pub Result-cases {ℓ} :
    {A : Type ℓ} (r : Result A) → ((a : A) × (r ≡ ok a)) ⊎ ((e : Err) × (r ≡ err e))
Result-cases (ok a) = inl (a, refl)
Result-cases (err e) = inr (e, refl)

pub ok-inj {ℓ} : {A : Type ℓ} {a b : A} → ok a ≡ ok b → a ≡ b
ok-inj e = cc

pub err-ne-ok {ℓ} : {A : Type ℓ} {a : A} {e : Err} → err e ≡ ok a → ⊥
err-ne-ok e = cc
