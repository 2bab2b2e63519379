-- ===== src/Process/Vma/Rounds.antt =====
-- One round of the loop of `vma_forget`, case by case.
use fantuan_kernel.Base.{
  ℕ, suc, ◌+◌, ◌-◌, ◌≤◌, ◌<◌, ◌≡◌, refl, ◌⊎◌, inl, inr, arith, update, dec_lt,
}
use fantuan_kernel.Process.Types.{Vma}
use fantuan_kernel.Process.Vma.{Table, forget_from}

abbrev pub below : ℕ → Vma → Vma
below start v = record { start = v.start; end = start; prot = v.prot }

abbrev pub above : ℕ → Vma → Vma
above end v = record { start = end; end = v.end; prot = v.prot }

module _ (start end : ℕ) (vs : Table) (n i : ℕ) where
  -- What a round meets at entry i.
  pub data Round : Type 0 where
    done : n ≤ i → Round
    keep : i < n → ((vs i).end ≤ start) ⊎ (end ≤ (vs i).start) → Round
    full : i < n → (vs i).start < start → end < (vs i).end → 8 ≤ n → Round
    split : i < n → (vs i).start < start → end < (vs i).end → n < 8 → Round
    low : i < n → (vs i).start < start → start < (vs i).end → (vs i).end ≤ end → Round
    high : i < n → start ≤ (vs i).start → (vs i).start < end → end < (vs i).end → Round
    drop :
        i < n
        → start < (vs i).end
        → (vs i).start < end
        → start ≤ (vs i).start
        → (vs i).end ≤ end
        → Round

  pub round : Round
  round = elim (dec_lt i n) [
    | no a ↦ done (omega arith)
    | yes a ↦ elim (dec_lt start (vs i).end) [
      | no b ↦ keep a (inl (omega arith))
      | yes b ↦ elim (dec_lt (vs i).start end) [
        | no c ↦ keep a (inr (omega arith))
        | yes c ↦ elim (dec_lt (vs i).start start) [
          | yes d ↦ elim (dec_lt end (vs i).end) [
            | yes e ↦ elim (dec_lt n 8) [ yes f ↦ split a d e f | no f ↦ full a d e (omega arith) ]
            | no e ↦ low a d b (omega arith)
          ]
          | no d ↦ elim (dec_lt end (vs i).end) [
            | yes e ↦ high a (omega arith) c e
            | no e ↦ drop a b c (omega arith) (omega arith)
          ]
        ]
      ]
    ]
  ]

  pub forget_zero : forget_from start end 0 vs n i ≡ (vs, n)
  unfolding forget_from
  forget_zero = refl

  module _ (fuel : ℕ) where
    pub forget_done : n ≤ i → forget_from start end (suc fuel) vs n i ≡ (vs, n)
    unfolding forget_from
    forget_done h = ground arith

    pub forget_keep :
        i < n
        → ((vs i).end ≤ start) ⊎ (end ≤ (vs i).start)
        → forget_from start end (suc fuel) vs n i ≡ forget_from start end fuel vs n (i + 1)
    unfolding forget_from
    forget_keep h (inl k) = ground arith
    forget_keep h (inr k) = ground arith

    pub forget_full :
        start ≤ end
        → i < n
        → (vs i).start < start
        → end < (vs i).end
        → 8 ≤ n
        → forget_from start end (suc fuel) vs n i ≡ (vs, n)
    unfolding forget_from
    forget_full o h k l m = ground arith

    pub forget_split :
        start ≤ end
        → i < n
        → (vs i).start < start
        → end < (vs i).end
        → n < 8
        → forget_from start end (suc fuel) vs n i
          ≡ forget_from start end fuel
              (update (update vs i (below start (vs i))) n (above end (vs i)))
              (n + 1)
              (i + 1)
    unfolding forget_from
    forget_split o h k l m = ground arith

    pub forget_low :
        start ≤ end
        → i < n
        → (vs i).start < start
        → start < (vs i).end
        → (vs i).end ≤ end
        → forget_from start end (suc fuel) vs n i
          ≡ forget_from start end fuel (update vs i (below start (vs i))) n (i + 1)
    unfolding forget_from
    forget_low o h k l m = ground arith

    pub forget_high :
        i < n
        → start ≤ (vs i).start
        → (vs i).start < end
        → end < (vs i).end
        → forget_from start end (suc fuel) vs n i
          ≡ forget_from start end fuel (update vs i (above end (vs i))) n (i + 1)
    unfolding forget_from
    forget_high h k l m = ground arith

    pub forget_drop :
        i < n
        → start < (vs i).end
        → (vs i).start < end
        → start ≤ (vs i).start
        → (vs i).end ≤ end
        → forget_from start end (suc fuel) vs n i
          ≡ forget_from start end fuel (update vs i (vs (n - 1))) (n - 1) i
    unfolding forget_from
    forget_drop h a b k l = ground arith
