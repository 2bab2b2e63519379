-- ===== src/Process/Vma/Contains.antt =====
-- `vma_contains`: the walk along the ranges decides whether all of `start..end` is reserved.
use fantuan_kernel.Base.{
  ℕ, zero, suc, ◌-◌, ◌≤◌, ◌<◌, ◌≡◌, ◌↔◌, inl, inr, Bool, true, false, ◌&&◌, some, none, arith, ltb,
  leb, min, find_from, find_from-some, find_from-none, Option-cases, dec_lt,
}
use fantuan_kernel.Process.Types.{Proc}
use fantuan_kernel.Process.Vma.{Table, contains_from, vma_contains}
use fantuan_kernel.Process.Vma.Cover.{Within, Covered}

module _ (vs : Table) (n end : ℕ) where
  -- The test by which the code looks for the entry that holds `cur`.
  abbrev holds : ℕ → ℕ → Bool
  holds cur i = leb (vs i).start cur && ltb cur (vs i).end

  past_end : (fuel cur : ℕ) → end ≤ cur → contains_from vs n end fuel cur ≡ true
  unfolding contains_from
  past_end zero cur h = ground arith
  past_end (suc fuel) cur h = ground arith

  at_gap :
      (fuel cur : ℕ)
      → cur < end
      → find_from (holds cur) 0 n ≡ none
      → contains_from vs n end (suc fuel) cur ≡ false
  unfolding contains_from
  at_gap fuel cur h e = ground arith

  at_entry :
      (fuel cur j : ℕ)
      → cur < end
      → find_from (holds cur) 0 n ≡ some j
      → Within (vs j) cur
      → contains_from vs n end (suc fuel) cur ≡ contains_from vs n end fuel (min (vs j).end end)
  unfolding contains_from
  at_entry fuel cur j h e w = ground arith

  -- All of `cur..end` is covered.
  abbrev AllCovered : ℕ → Type 0
  AllCovered cur = (x : ℕ) → cur ≤ x → x < end → Covered vs n x

  contains_from_lem :
      (fuel cur : ℕ) → end - cur ≤ fuel → (contains_from vs n end fuel cur ≡ true) ↔ AllCovered cur
  contains_from_lem zero cur h =
      (λ e x l m. absurd (omega arith), λ all. past_end 0 cur (omega arith))
  contains_from_lem (suc fuel) cur h = elim (dec_lt cur end) [
    | no out ↦ (λ e x l m. absurd (omega arith), λ all. past_end (suc fuel) cur (omega arith))
    | yes l ↦ elim (Option-cases (find_from (holds cur) 0 n)) [
      | inl e ↦ rw (at_gap fuel cur l e) (
        λ c. cc,
        λ all.
            let (j, k, w) = all cur (omega arith) l in
            absurd (ground (arith, find_from-none (holds cur) 0 n e j (omega arith) (omega arith))),
      )
      | inr (j, e) ↦
          let f = find_from-some (holds cur) 0 n e in
          let w : Within (vs j) cur = (ground (arith, f.2), ground (arith, f.2)) in
          let ih = contains_from_lem fuel (min (vs j).end end) (omega (arith, w)) in
          rw (at_entry fuel cur j l e w) (
            λ c x p q. elim (dec_lt x (vs j).end) [
              | yes r ↦ (j, omega (arith, f.1), (omega (arith, w), r))
              | no r ↦ ih.0 c x (omega arith) q
            ],
            λ all. ih.1 (λ x p q. all x (omega (arith, w)) q),
          )
    ]
  ]

-- `vma_contains` is true exactly when every address of `start..end` is reserved.
pub vma_contains_iff :
    (p : Proc) (start end : ℕ)
    → (vma_contains p start end ≡ true) ↔ ((x : ℕ) → start ≤ x → x < end → Covered p.vmas p.vma_n x)
unfolding vma_contains
vma_contains_iff p start end =
    contains_from_lem p.vmas p.vma_n end (end - start) start (omega arith)
