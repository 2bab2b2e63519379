-- ===== src/Frame/Contiguous.antt =====
-- `FrameAllocator::alloc_contiguous`: the scan from the cursor to the end, then from the start to
-- the cursor.
use native.Mathlib.Nat.{mod-eq_of_lt}
use fantuan_kernel.Base.{
  ℕ, ◌+◌, ◌-◌, ◌≤◌, ◌<◌, ◌≡◌, refl, ap, ◌⊎◌, false, Option, none, some, inl, inr, arith, ltb,
  Bool-cases, ==_of_ne,
}
use fantuan_kernel.Frame.{Frames, scan_run, wrap_run, or_wrap, alloc_contiguous_unlocked}
use fantuan_kernel.Frame.Runs.{AllFree, TakesRun, Scanned, scan_run-Scanned}
use fantuan_kernel.Frame.Inv.{IsValid}

module _ (total : ℕ) where
  -- The outcome of a call: a run on one side of the cursor is taken, or there is none on either
  -- side and nothing changes.
  abbrev pub RunAnswer : Frames → ℕ → Option ℕ × Frames → Type 0
  RunAnswer a frames (some p, b) =
      (TakesRun total a a.next total frames p b ⊎ TakesRun total a 0 a.next frames p b)
      × IsValid total b
  RunAnswer a frames (none, b) =
      (b ≡ a)
      × ((s : ℕ) → a.next ≤ s → s + frames ≤ total → ¬ AllFree a.bitmap s frames)
      × ((s : ℕ) → s + frames ≤ a.next → ¬ AllFree a.bitmap s frames)

  wrap_run-RunAnswer :
      (a b : Frames) (frames : ℕ)
      → IsValid total a
      → 0 < frames
      → b ≡ a
      → ((s : ℕ) → a.next ≤ s → s + frames ≤ total → ¬ AllFree a.bitmap s frames)
      → RunAnswer a frames (wrap_run total b frames)
  unfolding wrap_run
  wrap_run-RunAnswer a b frames v h e miss =
      rw (e, mod-eq_of_lt v.cursor)
        (elim (Bool-cases (ltb 0 a.next)) [
          | inl t ↦ rw t (
              go (scan_run total a 0 a.next frames) (
                scan_run-Scanned total a 0 a.next frames v h (omega arith)
                  (omega (arith, v.cursor))))
          | inr f ↦ rw f (refl, miss, λ s l all. absurd (ground arith))
        ])
    where
      go : (r : Option ℕ × Frames) → Scanned total a 0 a.next frames r → RunAnswer a frames r
      go (some p, c) (t, w) = (inr t, w)
      go (none, c) (q, none_before) = (q, miss, λ s l. none_before s (omega arith) l)

  or_wrap-RunAnswer :
      (a : Frames) (frames : ℕ) (r : Option ℕ × Frames)
      → IsValid total a
      → 0 < frames
      → Scanned total a a.next total frames r
      → RunAnswer a frames (or_wrap total frames r)
  unfolding or_wrap
  or_wrap-RunAnswer a frames (some p, c) v h (t, w) = (inl t, w)
  or_wrap-RunAnswer a frames (none, c) v h (q, miss) = wrap_run-RunAnswer a c frames v h q miss

  -- For a request of at least one frame on a valid allocator: a success takes one run of free
  -- frames that does not cross the cursor, leaves all other frames alone and keeps the invariant;
  -- a failure means that neither side of the cursor holds such a run, and changes nothing.
  pub alloc_contiguous-RunAnswer :
      (a : Frames) (frames : ℕ)
      → IsValid total a
      → 0 < frames
      → RunAnswer a frames (alloc_contiguous_unlocked total a frames)
  unfolding alloc_contiguous_unlocked
  alloc_contiguous-RunAnswer a frames v h = elim (Bool-cases (ltb total frames)) [
    | inl t ↦
        rw (==_of_ne frames 0 (omega arith), t)
          (refl, λ s l m. absurd (ground arith), λ s l. absurd (ground (arith, v.cursor)))
    | inr f ↦
        rw (==_of_ne frames 0 (omega arith), f, mod-eq_of_lt v.cursor)
          (or_wrap-RunAnswer a frames (scan_run total a a.next total frames) v h (
            scan_run-Scanned total a a.next total frames v h (omega (arith, v.cursor))
              (omega arith)))
  ]

  -- On a valid allocator, a run of free frames that the cursor divides is not found: when no other
  -- frame is free, the call fails although the run is long enough.
  pub alloc_contiguous_misses_divided_run :
      (a : Frames) (frames s : ℕ)
      → IsValid total a
      → s < a.next
      → a.next < s + frames
      → s + frames ≤ total
      → AllFree a.bitmap s frames
      → ((j : ℕ) → (j < s) ⊎ (s + frames ≤ j) → a.bitmap j ≡ false)
      → alloc_contiguous_unlocked total a frames ≡ (none, a)
  alloc_contiguous_misses_divided_run a frames s v l m n all only =
      outcome (alloc_contiguous_unlocked total a frames)
        (alloc_contiguous-RunAnswer a frames v (omega arith))
    where
      outcome : (r : Option ℕ × Frames) → RunAnswer a frames r → r ≡ (none, a)
      outcome (none, b) c = ap (λ x. (none, x)) c.0
      outcome (some p, b) (inl t, w) =
          let j = t.first + frames - 1 in
          absurd (ground (arith, t.were_free j, only j, t.from_begin))
      outcome (some p, b) (inr t, w) =
          absurd (ground (arith, t.were_free t.first, only t.first, t.to_end))
