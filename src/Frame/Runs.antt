-- ===== src/Frame/Runs.antt =====
-- `FrameAllocator::alloc_contiguous`: the scan for a run, and what claiming the run does.
use native.Mathlib.Nat.{mod-lt}
use fantuan_kernel.Base.{
  ℕ, zero, suc, ◌+◌, ◌-◌, ◌*◌, ◌≤◌, ◌<◌, ◌≡◌, refl, Bool, true, false, ◌⊎◌, Option, none, some, inl,
  inr, arith, ◌==◌, if◌then◌else◌, Option-cases, Bool-cases, dec_lt, subst,
}
use fantuan_kernel.Frame.{Frames, frame_size, scan, scan_run, claim_run}
use fantuan_kernel.Frame.Fill.{fill_lem, count-fill_clear}
use fantuan_kernel.Frame.Inv.{IsValid}

-- The frames of `i..i + k` are all free.
abbrev pub AllFree : (ℕ → Bool) → ℕ → ℕ → Type 0
AllFree free i k = (j : ℕ) → i ≤ j → j < i + k → free j ≡ true

module _ (free : ℕ → Bool) (frames : ℕ) where
  -- The last `run` frames before `idx` are free, and `first` is where they begin.
  record Running (idx run first : ℕ) : Type 0 where
    within : run ≤ idx
    short : run < frames
    begins : 0 < run → first + run ≡ idx
    all_free : (j : ℕ) → idx - run ≤ j → j < idx → free j ≡ true

  -- One more free frame.
  longer :
      {idx run first : ℕ}
      → Running idx run first
      → free idx ≡ true
      → (run + 1 == frames) ≡ false
      → Running (idx + 1) (run + 1) (if run == 0 then idx else first)
  longer {idx} {run} {first} v t n = record {
    within = omega (arith, v.within);
    short = ground (arith, v.short);
    begins = λ h. ground (arith, v.begins);
    all_free = λ j h l. elim (dec_lt j idx) [
      | yes b ↦ v.all_free j (omega (arith, v.within)) b
      | no b ↦ subst (λ x. free x ≡ true) {x = idx} {y = j} (omega arith) t
    ];
  }

  restart : {idx run first : ℕ} → Running idx run first → Running (idx + 1) 0 first
  restart v = record {
    within = omega arith;
    short = omega (arith, v.short);
    begins = λ h. absurd (omega arith);
    all_free = λ j h l. absurd (omega arith);
  }

  -- What the scan returns is a run of free frames inside what it looked at.
  scan-some :
      (k idx run first : ℕ) {f : ℕ}
      → Running idx run first
      → scan free frames k idx run first ≡ some f
      → (idx - run ≤ f) × (f + frames ≤ idx + k) × AllFree free f frames
  unfolding scan
  scan-some zero idx run first v e = absurd (ground arith)
  scan-some (suc k) idx run first {f = f} v e = elim (Bool-cases (free idx)) [
    | inl t ↦ elim (Bool-cases (run + 1 == frames)) [
      | inl full ↦
          let q : (f + run ≡ idx) × (run + 1 ≡ frames) = (ground (arith, v.begins), ground arith) in
          (
            omega (arith, q),
            omega (arith, q),
            λ j h l. elim (dec_lt j idx) [
              | yes b ↦ v.all_free j (omega (arith, q)) b
              | no b ↦ subst (λ x. free x ≡ true) {x = idx} {y = j} (omega (arith, q)) t
            ],
          )
      | inr n ↦
          let r =
            scan-some k (idx + 1) (run + 1) (if run == 0 then idx else first) {f = f} (longer v t n)
              (ground arith) in
          (omega (arith, r.0), omega (arith, r.1), r.2)
    ]
    | inr n ↦
        let r = scan-some k (idx + 1) 0 first {f = f} (restart v) (ground arith) in
        (omega (arith, r.0), omega (arith, r.1), r.2)
  ]

  -- If the scan fails, what it looked at holds no run of free frames.
  scan-none :
      (k idx run first : ℕ)
      → Running idx run first
      → scan free frames k idx run first ≡ none
      → (s : ℕ) → idx - run ≤ s
      → s + frames ≤ idx + k
      → ¬ AllFree free s frames
  unfolding scan
  scan-none zero idx run first v e s h l all = absurd (omega (arith, v.within, v.short))
  scan-none (suc k) idx run first v e s h l all = elim (Bool-cases (free idx)) [
    | inl t ↦ elim (Bool-cases (run + 1 == frames)) [
      | inl full ↦ absurd (ground arith)
      | inr n ↦
          scan-none k (idx + 1) (run + 1) (if run == 0 then idx else first) (longer v t n)
            (ground arith) s (omega arith) (omega arith) all
    ]
    | inr n ↦ elim (dec_lt idx s) [
      | yes b ↦
          scan-none k (idx + 1) 0 first (restart v) (ground arith) s (omega arith) (omega arith) all
      | no b ↦ elim (dec_lt idx (s + frames)) [
        | yes c ↦ absurd (ground (arith, all idx))
        | no c ↦ absurd (omega (arith, v.within, v.short))
      ]
    ]
  ]

fresh_run : (free : ℕ → Bool) (frames idx : ℕ) → 0 < frames → Running free frames idx 0 0
fresh_run free frames idx h = record {
  within = omega arith;
  short = h;
  begins = λ l. absurd (omega arith);
  all_free = λ j p q. absurd (omega arith);
}

module _ (total : ℕ) where
  -- What a successful call does: the frames of one run inside `begin..end`, all free before, are
  -- used and owned, no other frame changes, and the counter falls by their number.
  pub record TakesRun (a : Frames) (begin end frames p : ℕ) (b : Frames) : Type 0 where
    pub first : ℕ
    pub address : p ≡ first * frame_size
    pub from_begin : begin ≤ first
    pub to_end : first + frames ≤ end
    pub were_free : AllFree a.bitmap first frames
    pub now_used : (j : ℕ) → first ≤ j → j < first + frames → b.bitmap j ≡ false
    pub now_owned : (j : ℕ) → first ≤ j → j < first + frames → b.owned j ≡ true
    pub others :
        (j : ℕ)
        → (j < first) ⊎ (first + frames ≤ j)
        → (b.bitmap j ≡ a.bitmap j) × (b.owned j ≡ a.owned j)
    pub fewer : b.free_frames + frames ≡ a.free_frames

  claim_run-TakesRun :
      (a : Frames) (begin end frames first : ℕ)
      → IsValid total a
      → begin ≤ first
      → first + frames ≤ end
      → end ≤ total
      → AllFree a.bitmap first frames
      → TakesRun a begin end frames (first * frame_size) (claim_run total a first frames)
  unfolding claim_run
  claim_run-TakesRun a begin end frames first v h l m all = record {
    first = first;
    address = refl;
    from_begin = h;
    to_end = l;
    were_free = all;
    now_used = λ j p q. ground (arith, fill_lem a.bitmap first frames false j);
    now_owned = λ j p q. ground (arith, fill_lem a.owned first frames true j);
    others = λ j d. (
      ground (arith, fill_lem a.bitmap first frames false j),
      ground (arith, fill_lem a.owned first frames true j),
    );
    fewer =
        omega (arith, v.counted, count-fill_clear a.bitmap total first frames (omega arith) all);
  }

  claim_run-IsValid :
      (a : Frames) (frames first : ℕ)
      → IsValid total a
      → first + frames ≤ total
      → AllFree a.bitmap first frames
      → IsValid total (claim_run total a first frames)
  unfolding claim_run
  claim_run-IsValid a frames first v l all = record {
    counted = omega (arith, v.counted, count-fill_clear a.bitmap total first frames l all);
    cursor = mod-lt (first + frames) (omega (arith, v.cursor));
    disjoint = λ j o. ground (
      arith,
      v.disjoint j,
      fill_lem a.bitmap first frames false j,
      fill_lem a.owned first frames true j,
    );
  }

  -- The outcome of a scan of `begin..end`.
  abbrev pub Scanned : Frames → ℕ → ℕ → ℕ → Option ℕ × Frames → Type 0
  Scanned a begin end frames (some p, b) = TakesRun a begin end frames p b × IsValid total b
  Scanned a begin end frames (none, b) =
      (b ≡ a) × ((s : ℕ) → begin ≤ s → s + frames ≤ end → ¬ AllFree a.bitmap s frames)

  pub scan_run-Scanned :
      (a : Frames) (begin end frames : ℕ)
      → IsValid total a
      → 0 < frames
      → begin ≤ end
      → end ≤ total
      → Scanned a begin end frames (scan_run total a begin end frames)
  unfolding scan_run
  scan_run-Scanned a begin end frames v h l m =
      elim (Option-cases (scan a.bitmap frames (end - begin) begin 0 0)) [
        | inl e ↦
            rw (e, scan_run)
              (
                refl,
                λ s p q.
                    scan-none a.bitmap frames (end - begin) begin 0 0
                      (fresh_run a.bitmap frames begin h) e s (omega arith) (omega arith),
              )
        | inr (f, e) ↦
            rw (e, scan_run)
              (let r =
                  scan-some a.bitmap frames (end - begin) begin 0 0
                    (fresh_run a.bitmap frames begin h) e in
                (
                  claim_run-TakesRun a begin end frames f v (omega (arith, r.0))
                      (omega (arith, r.1)) m r.2,
                  claim_run-IsValid a frames f v (omega (arith, r.1)) r.2,
                ))
      ]
