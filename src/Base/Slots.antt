-- ===== src/Base/Slots.antt =====
-- A static table `[A; N]` is a function of the index, whose entries from N on are never reached:
-- each index that the code uses is shown to be in range where the code would panic.
use Prim.Native.Nat.{ℕ}
use mathlib.Core.Path.{◌≡◌, refl, fun_ext}
use mathlib.Core.Logic.{◌≢◌, inl, inr}
use fantuan_kernel.Base.Tests.{◌==◌, if◌then◌else◌, ==_self, ==_of_ne, Bool-cases}

module _ {ℓ} {A : Type ℓ} where
  -- `table[i] = v`
  unfoldable pub update : (ℕ → A) → ℕ → A → ℕ → A
  update f i v j = if j == i then v else f j

  pub update_lem : (f : ℕ → A) (i j : ℕ) (v : A) → update f i v j ≡ (if j == i then v else f j)
  unfolding update
  update_lem f i j v = refl

  pub update_self : (f : ℕ → A) (i : ℕ) (v : A) → update f i v i ≡ v
  unfolding update
  update_self f i v = rw (==_self i)

  pub update_ne : (f : ℕ → A) (i j : ℕ) (v : A) → j ≢ i → update f i v j ≡ f j
  unfolding update
  update_ne f i j v h = rw (==_of_ne j i h)

  -- Of two writes to a slot the second stays.
  pub update_twice : (f : ℕ → A) (i : ℕ) (v w : A) → update (update f i v) i w ≡ update f i w
  unfolding update
  update_twice f i v w = fun_ext (λ j. elim (Bool-cases (j == i)) [ inl t ↦ rw t | inr e ↦ rw e ])

-- Writing and then reading through a function is writing its value.
pub ap-update {ℓ κ} :
    {A : Type ℓ} {B : Type κ} (g : A → B) (f : ℕ → A) (i : ℕ) (v : A) (j : ℕ)
    → g (update f i v j) ≡ update (λ k. g (f k)) i (g v) j
unfolding update
ap-update g f i v j = elim (Bool-cases (j == i)) [ inl t ↦ rw t | inr e ↦ rw e ]
