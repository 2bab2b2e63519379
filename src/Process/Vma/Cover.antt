-- ===== src/Process/Vma/Cover.antt =====
-- Which addresses a table of ranges covers, and how the writes of `vma_forget` change that.
use fantuan_kernel.Base.{
  ℕ, ◌+◌, ◌-◌, ◌≤◌, ◌<◌, ◌≡◌, ap, ◌∙◌, subst, ◌≢◌, ◌↔◌, ◌⊎◌, inl, inr, arith, update, update_self,
  update_ne, ℕ_discrete,
}
use fantuan_kernel.Process.Types.{Vma}
use fantuan_kernel.Process.Vma.{Table}

-- The address lies in the range.
abbrev pub Within : Vma → ℕ → Type 0
Within v x = (v.start ≤ x) × (x < v.end)

-- Some entry in use holds the address.
abbrev pub Covered : Table → ℕ → ℕ → Type 0
Covered vs n x = (j : ℕ) × (j < n) × Within (vs j) x

-- The address lies in `start..end`.
abbrev pub Inside : ℕ → ℕ → ℕ → Type 0
Inside start end x = (start ≤ x) × (x < end)

-- Entry i is replaced by one that holds the same addresses but those of a part.
pub Covered-update :
    (vs : Table) (n i : ℕ) (v : Vma) (x : ℕ)
    → i < n
    → (Within (vs i) x ↔ Within v x)
    → Covered vs n x ↔ Covered (update vs i v) n x
Covered-update vs n i v x l h = (forth, back)
  where
    forth : Covered vs n x → Covered (update vs i v) n x
    forth (j, m, w) = elim (ℕ_discrete j i) [
      | yes e ↦ (i, l, rw (update_self vs i v) (h.0 (subst (λ k. Within (vs k) x) e w)))
      | no d ↦ (j, m, rw (update_ne vs i j v d) w)
    ]

    back : Covered (update vs i v) n x → Covered vs n x
    back (j, m, w) = elim (ℕ_discrete j i) [
      | yes e ↦ (i, l, h.1 (subst (λ r. Within r x) (ap (update vs i v) e ∙ update_self vs i v) w))
      | no d ↦ (j, m, subst (λ r. Within r x) (update_ne vs i j v d) w)
    ]

-- A split: entry i keeps a part and a new entry takes the other.
pub Covered-split :
    (vs : Table) (n i : ℕ) (v w : Vma) (x : ℕ)
    → i < n
    → (Within (vs i) x ↔ (Within v x ⊎ Within w x))
    → Covered vs n x ↔ Covered (update (update vs i v) n w) (n + 1) x
Covered-split vs n i v w x l h = (forth, back)
  where
    at_n : update (update vs i v) n w n ≡ w
    at_n = update_self (update vs i v) n w

    at_i : update (update vs i v) n w i ≡ v
    at_i = update_ne (update vs i v) n i w (omega arith) ∙ update_self vs i v

    at_other : (j : ℕ) → j ≢ n → j ≢ i → update (update vs i v) n w j ≡ vs j
    at_other j d e = update_ne (update vs i v) n j w d ∙ update_ne vs i j v e

    forth : Covered vs n x → Covered (update (update vs i v) n w) (n + 1) x
    forth (j, m, c) = elim (ℕ_discrete j i) [
      | yes e ↦ elim (h.0 (subst (λ k. Within (vs k) x) e c)) [
        | inl a ↦ (i, omega arith, rw at_i a)
        | inr b ↦ (n, omega arith, rw at_n b)
      ]
      | no d ↦ (j, omega arith, rw (at_other j (omega arith) d) c)
    ]

    back : Covered (update (update vs i v) n w) (n + 1) x → Covered vs n x
    back (j, m, c) = elim (ℕ_discrete j n) [
      | yes e ↦
          (i, l, h.1 (inr (subst (λ r. Within r x) (ap (update (update vs i v) n w) e ∙ at_n) c)))
      | no d ↦ elim (ℕ_discrete j i) [
        | yes e ↦
            (i, l, h.1 (inl (subst (λ r. Within r x) (ap (update (update vs i v) n w) e ∙ at_i) c)))
        | no e ↦ (j, omega arith, subst (λ r. Within r x) (at_other j d e) c)
      ]
    ]

-- An entry that does not hold the address is replaced by the last one.
pub Covered-remove :
    (vs : Table) (n i x : ℕ)
    → i < n
    → ¬ Within (vs i) x
    → Covered vs n x ↔ Covered (update vs i (vs (n - 1))) (n - 1) x
Covered-remove vs n i x l h = (forth, back)
  where
    forth : Covered vs n x → Covered (update vs i (vs (n - 1))) (n - 1) x
    forth (j, m, c) = elim (ℕ_discrete j i) [
      | yes e ↦ absurd (h (subst (λ k. Within (vs k) x) e c))
      | no d ↦ elim (ℕ_discrete j (n - 1)) [
        | yes e ↦
            (i, omega arith, rw (update_self vs i (vs (n - 1))) (subst (λ k. Within (vs k) x) e c))
        | no k ↦ (j, omega arith, rw (update_ne vs i j (vs (n - 1)) d) c)
      ]
    ]

    back : Covered (update vs i (vs (n - 1))) (n - 1) x → Covered vs n x
    back (j, m, c) = elim (ℕ_discrete j i) [
      | yes e ↦ (
        n - 1,
        omega arith,
        subst (λ r. Within r x) (ap (update vs i (vs (n - 1))) e ∙ update_self vs i (vs (n - 1))) c,
      )
      | no d ↦ (j, omega arith, subst (λ r. Within r x) (update_ne vs i j (vs (n - 1)) d) c)
    ]
