-- ===== src/Process/Vma/Forget.antt =====
-- `vma_forget`: what the table covers afterwards.
use fantuan_kernel.Base.{
  ℕ, zero, suc, ◌+◌, ◌-◌, ◌≤◌, ◌<◌, ◌≡◌, ap, ◌∙◌, ◌↔◌, ◌⊎◌, inl, inr, Bool, true, ◌&&◌, arith,
  update, update_self, update_ne, ℕ_discrete, dec_lt, ltb, count, count-ext, count-update,
  count-add_one, count-pos, ap-update, bit,
}
use fantuan_kernel.Process.Types.{Vma, Proc}
use fantuan_kernel.Process.Vma.{Table, forget_from, forget_fuel, vma_forget}
use fantuan_kernel.Process.Vma.Cover.{
  Within, Covered, Inside, Covered-update, Covered-split, Covered-remove,
}
use fantuan_kernel.Process.Vma.Rounds.{
  below, above, done, keep, full, split, low, high, drop, round, forget_zero, forget_done,
  forget_keep, forget_full, forget_split, forget_low, forget_high, forget_drop,
}

iff_refl {ℓ} : {A : Type ℓ} → A ↔ A
iff_refl = (λ a. a, λ a. a)

iff_trans {ℓ κ μ} : {A : Type ℓ} {B : Type κ} {C : Type μ} → A ↔ B → B ↔ C → A ↔ C
iff_trans f g = (λ a. g.0 (f.0 a), λ c. f.1 (g.1 c))

-- An address is outside the range on one side of it.
apart : (start end x : ℕ) → ¬ Inside start end x → (x < start) ⊎ (end ≤ x)
apart start end x out = elim (dec_lt x start) [
  | yes a ↦ inl a
  | no a ↦ inr (elim (dec_lt x end) [ yes b ↦ absurd (out (omega arith, b)) | no b ↦ omega arith ])
]

-- The entry holds the range with room on both sides, so that forgetting it takes a split.
abbrev pub strict : ℕ → ℕ → Vma → Bool
strict start end v = ltb v.start start && ltb end v.end

-- How many splits are due.
abbrev pub stricts : ℕ → ℕ → Table → ℕ → ℕ
stricts start end vs n = count (λ j. strict start end (vs j)) n

module _ (start end : ℕ) (ordered : start ≤ end) where
  -- Each of the three cuts of an entry keeps the addresses outside the range.
  split_parts :
      (v : Vma) (x : ℕ)
      → v.start < start
      → end < v.end
      → (x < start) ⊎ (end ≤ x)
      → Within v x ↔ (Within (below start v) x ⊎ Within (above end v) x)
  split_parts v x h k (inl a) = (λ w. inl (w.0, a), λ d. (ground arith, omega arith))
  split_parts v x h k (inr b) = (λ w. inr (b, w.1), λ d. (omega arith, ground arith))

  low_part :
      (v : Vma) (x : ℕ)
      → v.start < start
      → start < v.end
      → v.end ≤ end
      → (x < start) ⊎ (end ≤ x)
      → Within v x ↔ Within (below start v) x
  low_part v x h k l d = (λ w. (w.0, omega arith), λ w. (w.0, omega arith))

  high_part :
      (v : Vma) (x : ℕ)
      → start ≤ v.start
      → v.start < end
      → (x < start) ⊎ (end ≤ x)
      → Within v x ↔ Within (above end v) x
  high_part v x h k d = (λ w. (omega arith, w.1), λ w. (omega arith, w.1))

  -- The coverage that the loop leaves behind.
  abbrev pub Left : Table × ℕ → ℕ → Type 0
  Left r x = Covered r.0 r.1 x

  -- Outside the range the loop changes no coverage, however it ends.
  forget_from_outside :
      (x fuel : ℕ) (vs : Table) (n i : ℕ)
      → ¬ Inside start end x
      → Covered vs n x ↔ Left (forget_from start end fuel vs n i) x
  forget_from_outside x zero vs n i out = rw (forget_zero start end vs n i) iff_refl
  forget_from_outside x (suc fuel) vs n i out = elim (round start end vs n i) [
    | done h ↦ rw (forget_done start end vs n i fuel h) iff_refl
    | keep h k ↦
        rw (forget_keep start end vs n i fuel h k) (forget_from_outside x fuel vs n (i + 1) out)
    | full h k l m ↦ rw (forget_full start end vs n i fuel ordered h k l m) iff_refl
    | split h k l m ↦ rw (forget_split start end vs n i fuel ordered h k l m) (
        iff_trans
          (Covered-split vs n i (below start (vs i)) (above end (vs i)) x h
            (split_parts (vs i) x k l (apart start end x out)))
          (forget_from_outside x fuel _ (n + 1) (i + 1) out))
    | low h k l m ↦ rw (forget_low start end vs n i fuel ordered h k l m) (
        iff_trans
          (Covered-update vs n i (below start (vs i)) x h
            (low_part (vs i) x k l m (apart start end x out)))
          (forget_from_outside x fuel _ n (i + 1) out))
    | high h k l m ↦ rw (forget_high start end vs n i fuel h k l m) (
        iff_trans
          (Covered-update vs n i (above end (vs i)) x h
            (high_part (vs i) x k l (apart start end x out)))
          (forget_from_outside x fuel _ n (i + 1) out))
    | drop h a b k l ↦ rw (forget_drop start end vs n i fuel h a b k l) (
        iff_trans (Covered-remove vs n i x h (λ w. out (omega arith, omega arith)))
          (forget_from_outside x fuel _ (n - 1) i out))
  ]

  stricts-update :
      (vs : Table) (n i : ℕ) (v : Vma)
      → i < n
      → stricts start end (update vs i v) n + bit (strict start end (vs i))
        ≡ stricts start end vs n + bit (strict start end v)
  stricts-update vs n i v l = omega (
    arith,
    count-ext (λ j. strict start end (update vs i v j))
        (update (λ j. strict start end (vs j)) i (strict start end v)) n
        (λ j m. ap-update (strict start end) vs i v j),
    count-update (λ j. strict start end (vs j)) n i (strict start end v) l,
  )

  -- A write at or past n does not count.
  stricts_past :
      (vs : Table) (n k : ℕ) (v : Vma)
      → n ≤ k
      → stricts start end (update vs k v) n ≡ stricts start end vs n
  stricts_past vs n k v h =
      count-ext (λ j. strict start end (update vs k v j)) (λ j. strict start end (vs j)) n
        (λ j m. ap (strict start end) (update_ne vs k j v (omega arith)))

  stricts-split :
      (vs : Table) (n i : ℕ)
      → i < n
      → (vs i).start < start
      → end < (vs i).end
      → stricts start end (update (update vs i (below start (vs i))) n (above end (vs i))) (n + 1)
          + 1
        ≡ stricts start end vs n
  stricts-split vs n i h k l =
      let vs' = update vs i (below start (vs i)) in
      let v = above end (vs i) in
      ground (
        arith,
        count-add_one (λ j. strict start end (update vs' n v j)) n,
        ap (strict start end) (update_self vs' n v),
        stricts_past vs' n n v (omega arith),
        stricts-update vs n i (below start (vs i)) h,
      )

  stricts-remove :
      (vs : Table) (n i : ℕ)
      → i < n
      → stricts start end (update vs i (vs (n - 1))) (n - 1) ≤ stricts start end vs n
  stricts-remove vs n i h =
      let last : stricts start end vs n
          ≡ bit (strict start end (vs (n - 1))) + stricts start end vs (n - 1) =
        ap (stricts start end vs) {x = n} {y = n - 1 + 1} (omega arith)
        ∙ count-add_one (λ j. strict start end (vs j)) (n - 1) in
      elim (dec_lt i (n - 1)) [
        | yes m ↦ omega (arith, last, stricts-update vs (n - 1) i (vs (n - 1)) m)
        | no m ↦ omega (arith, last, stricts_past vs (n - 1) i (vs (n - 1)) (omega arith))
      ]

  strict_holds : (v : Vma) → v.start < start → end < v.end → strict start end v ≡ true
  strict_holds v h k = ground arith

  -- The entries up to the one that is cut.
  cut :
      (vs : Table) (i : ℕ) (v : Vma) (x : ℕ)
      → ((j : ℕ) → j < i → ¬ Within (vs j) x)
      → ¬ Within v x
      → (j : ℕ) → j < i + 1
      → ¬ Within (update vs i v j) x
  cut vs i v x seen out j l = elim (ℕ_discrete j i) [
    | yes e ↦ rw (e, update_self vs i v) out
    | no d ↦ rw (update_ne vs i j v d) (seen j (omega arith))
  ]

  -- With room for every split that is due, and enough fuel, nothing in the range stays covered.
  forget_from-Inside :
      (x fuel : ℕ) (vs : Table) (n i : ℕ)
      → Inside start end x
      → stricts start end vs n + n ≤ 8
      → 8 - i + (n - i) < fuel
      → ((j : ℕ) → j < i → ¬ Within (vs j) x)
      → ¬ Left (forget_from start end fuel vs n i) x
  forget_from-Inside x zero vs n i ins room m seen = absurd (omega arith)
  forget_from-Inside x (suc fuel) vs n i ins room m seen = elim (round start end vs n i) [
    | done h ↦ rw (forget_done start end vs n i fuel h) (λ c. seen c.0 (omega (arith, c.1)) c.2)
    | keep h k ↦ rw (forget_keep start end vs n i fuel h k) (
        forget_from-Inside x fuel vs n (i + 1) ins room (omega arith) (λ j l.
          elim (ℕ_discrete j i) [
            | yes e ↦ rw e (λ w. omega (arith, w, k, ins))
            | no d ↦ seen j (omega arith)
          ]))
    | full h k l q ↦
        absurd
          (omega (arith, count-pos (λ j. strict start end (vs j)) n i h (strict_holds (vs i) k l)))
    | split h k l q ↦ rw (forget_split start end vs n i fuel ordered h k l q) (
        forget_from-Inside x fuel _ (n + 1) (i + 1) ins (omega (arith, stricts-split vs n i h k l))
          (omega arith)
          (λ j p.
            rw (update_ne (update vs i (below start (vs i))) n j (above end (vs i)) (omega arith))
              (cut vs i (below start (vs i)) x seen (λ w. omega arith) j p)))
    | low h k l q ↦ rw (forget_low start end vs n i fuel ordered h k l q) (
        forget_from-Inside x fuel _ n (i + 1) ins
          (ground (arith, stricts-update vs n i (below start (vs i)) h)) (omega arith)
          (cut vs i (below start (vs i)) x seen (λ w. omega arith)))
    | high h k l q ↦ rw (forget_high start end vs n i fuel h k l q) (
        forget_from-Inside x fuel _ n (i + 1) ins
          (ground (arith, stricts-update vs n i (above end (vs i)) h)) (omega arith)
          (cut vs i (above end (vs i)) x seen (λ w. omega arith)))
    | drop h a b k l ↦ rw (forget_drop start end vs n i fuel h a b k l) (
        forget_from-Inside x fuel _ (n - 1) i ins (omega (arith, stricts-remove vs n i h))
          (omega arith) (λ j q. rw (update_ne vs i j (vs (n - 1)) (omega arith)) (seen j q)))
  ]

-- The addresses that the process has reserved.
abbrev pub Reserved : Proc → ℕ → Type 0
Reserved p = Covered p.vmas p.vma_n

-- For start ≤ end, if the table has a free entry for each range that holds `start..end` with room on
-- both sides, then `vma_forget` takes exactly the addresses of `start..end` out of what is reserved.
pub vma_forget_lem :
    (p : Proc) (start end x : ℕ)
    → start ≤ end
    → stricts start end p.vmas p.vma_n + p.vma_n ≤ 8
    → Reserved (vma_forget p start end) x ↔ (Reserved p x × ¬ Inside start end x)
unfolding vma_forget
vma_forget_lem p start end x o room = (forth, back)
  where
    forth : Reserved (vma_forget p start end) x → Reserved p x × ¬ Inside start end x
    forth c =
        let out = λ (ins : Inside start end x).
          forget_from-Inside start end o x forget_fuel p.vmas p.vma_n 0 ins room (omega arith)
            (λ j l. absurd (omega arith)) c in
        ((forget_from_outside start end o x forget_fuel p.vmas p.vma_n 0 out).1 c, out)

    back : Reserved p x × ¬ Inside start end x → Reserved (vma_forget p start end) x
    back (c, out) = (forget_from_outside start end o x forget_fuel p.vmas p.vma_n 0 out).0 c

-- For start ≤ end, whatever the table holds, `vma_forget` changes nothing outside `start..end`.
pub vma_forget_outside :
    (p : Proc) (start end x : ℕ)
    → start ≤ end
    → ¬ Inside start end x
    → Reserved p x ↔ Reserved (vma_forget p start end) x
unfolding vma_forget
vma_forget_outside p start end x o out =
    forget_from_outside start end o x forget_fuel p.vmas p.vma_n 0 out

-- A full table whose first range holds `start..end` with room on both sides is left as it is.
pub vma_forget_full :
    (p : Proc) (start end : ℕ)
    → start ≤ end
    → p.vma_n ≡ 8
    → (p.vmas 0).start < start
    → end < (p.vmas 0).end
    → vma_forget p start end ≡ p
unfolding vma_forget
vma_forget_full p start end o n h k =
    rw (forget_full start end p.vmas p.vma_n 0 16 o (omega arith) h k (omega arith))
