-- ===== src/Base/Find.antt =====
-- `(a..a + k).find(p)`: the first index of the range that passes the test.
use Prim.Native.Nat.{ℕ, zero, suc, ◌+◌, ◌≤◌, ◌<◌}
use mathlib.Core.Path.{◌≡◌, sym, subst, ◌∙◌}
use mathlib.Core.Logic.{inl, inr}
use mathlib.Core.Bool.{Bool, true, false}
use mathlib.Core.Option.{Option, none, some}
use native.Mathlib.Omega.{arith}
use native.Mathlib.Decide.{dec_lt}
use fantuan_kernel.Base.Tests.{Bool-cases, Option-cases, none-ne-some, true≢false}

module _ (p : ℕ → Bool) where
  unfoldable pub find_from : ℕ → ℕ → Option ℕ
  find_from a zero = none
  find_from a (suc k) = elim (p a) [ true ↦ some a | false ↦ find_from (a + 1) k ]

  -- A hit is in the range and passes; nothing before it does.
  pub find_from-some :
      (a k : ℕ) {i : ℕ}
      → find_from a k ≡ some i
      → (a ≤ i) × (i < a + k) × (p i ≡ true) × ((j : ℕ) → a ≤ j → j < i → p j ≡ false)
  unfolding find_from
  find_from-some a zero e = absurd (none-ne-some e)
  find_from-some a (suc k) {i = i} e = elim (Bool-cases (p a)) [
    | inl t ↦
        let d : a ≡ i = ground arith in
        (omega arith, omega arith, subst (λ x. p x ≡ true) d t, λ j h l. absurd (omega arith))
    | inr f ↦
        let r = find_from-some (a + 1) k {i = i} (ground arith) in
        (
          omega arith,
          omega arith,
          r.2,
          λ j h l. elim (dec_lt a j) [
            | yes q ↦ r.3 j (omega arith) l
            | no q ↦ subst (λ x. p x ≡ false) (omega arith) f
          ],
        )
  ]

  -- A miss means that nothing in the range passes.
  pub find_from-none : (a k : ℕ) → find_from a k ≡ none → (j : ℕ) → a ≤ j → j < a + k → p j ≡ false
  unfolding find_from
  find_from-none a zero e j h l = absurd (omega arith)
  find_from-none a (suc k) e j h l = elim (Bool-cases (p a)) [
    | inl t ↦ absurd (ground arith)
    | inr f ↦ elim (dec_lt a j) [
      | yes q ↦ find_from-none (a + 1) k (ground arith) j (omega arith) (omega arith)
      | no q ↦ subst (λ x. p x ≡ false) (omega arith) f
    ]
  ]

  -- If something in the range passes, the scan hits.
  pub find_from-hits :
      (a k j : ℕ) → a ≤ j → j < a + k → p j ≡ true → (i : ℕ) × (find_from a k ≡ some i)
  find_from-hits a k j h l t = elim (Option-cases (find_from a k)) [
    | inl e ↦ absurd (true≢false (sym t ∙ find_from-none a k e j h l))
    | inr r ↦ r
  ]
