-- ===== src/Frame/Alloc.antt =====
-- `FrameAllocator::alloc`.
use native.Mathlib.Nat.{mod-lt, mod-eq_of_lt, mod-eq-sub-mod}
use native.Mathlib.Decide.{dec_lt}
use fantuan_kernel.Base.{
  ℕ, ◌+◌, ◌-◌, ◌*◌, ◌%◌, ◌<◌, ◌≡◌, refl, sym, ap, ◌∙◌, ◌≢◌, Bool, true, false, Option, none, some,
  inl, inr, arith, update_lem, update_self, update_ne, find_from, find_from-some, find_from-none,
  count-update, count-pos, Option-cases,
}
use fantuan_kernel.Frame.{Frames, frame_size, claim, alloc_unlocked}
use fantuan_kernel.Frame.Inv.{IsValid}

-- Some offset below `total` takes the cursor to any frame.
pub offset_of :
    (total next i : ℕ)
    → next < total
    → i < total
    → (off : ℕ) × (off < total) × ((next + off) % total ≡ i)
offset_of total next i n l = elim (dec_lt i next) [
  | yes b ↦ (
    i + total - next,
    omega arith,
    ap (λ (x : ℕ). x % total) {x = next + (i + total - next)} {y = i + total} (omega arith)
        ∙ (mod-eq-sub-mod {n = i + total} {m = total} (omega arith)
            ∙ (ap (λ (x : ℕ). x % total) {x = i + total - total} {y = i} (omega arith)
                ∙ mod-eq_of_lt l)),
  )
  | no b ↦ (
    i - next,
    omega arith,
    ap (λ (x : ℕ). x % total) {x = next + (i - next)} {y = i} (omega arith) ∙ mod-eq_of_lt l,
  )
]

module _ (total : ℕ) where
  -- The test of the scan.
  abbrev pub free_at : Frames → ℕ → Bool
  free_at a off = a.bitmap ((a.next + off) % total)

  alloc_hit :
      (a : Frames) (off : ℕ)
      → find_from (free_at a) 0 total ≡ some off
      → alloc_unlocked total a
        ≡ (some ((a.next + off) % total * frame_size), claim total a ((a.next + off) % total))
  unfolding alloc_unlocked
  alloc_hit a off e = rw (e, alloc_unlocked)

  alloc_miss :
      (a : Frames) → find_from (free_at a) 0 total ≡ none → alloc_unlocked total a ≡ (none, a)
  unfolding alloc_unlocked
  alloc_miss a e = rw (e, alloc_unlocked)

  -- Claiming a free frame keeps the invariant.
  pub claim-IsValid :
      {a : Frames} (i : ℕ)
      → IsValid total a
      → i < total
      → a.bitmap i ≡ true
      → IsValid total (claim total a i)
  unfolding claim
  claim-IsValid {a} i v l t = record {
    counted = ground (arith, v.counted, count-update a.bitmap total i false);
    cursor = omega arith;
    disjoint = λ j o.
        ground (arith, update_lem a.bitmap i j false, update_lem a.owned i j true, v.disjoint j);
  }

  -- What a successful allocation does: one free frame, which nobody owned, is handed out by its
  -- address, and no other frame changes.
  pub record Takes (a : Frames) (p : ℕ) (b : Frames) : Type 0 where
    pub index : ℕ
    pub address : p ≡ index * frame_size
    pub covered : index < total
    pub was_free : a.bitmap index ≡ true
    pub was_unowned : a.owned index ≡ false
    pub now_used : b.bitmap index ≡ false
    pub now_owned : b.owned index ≡ true
    pub others : (j : ℕ) → j ≢ index → (b.bitmap j ≡ a.bitmap j) × (b.owned j ≡ a.owned j)
    pub one_less : b.free_frames + 1 ≡ a.free_frames

  claim-Takes :
      {a : Frames} (i : ℕ)
      → IsValid total a
      → i < total
      → a.bitmap i ≡ true
      → Takes a (i * frame_size) (claim total a i)
  unfolding claim
  claim-Takes {a} i v l t = record {
    index = i;
    address = refl;
    covered = l;
    was_free = t;
    was_unowned = ground (arith, v.disjoint i);
    now_used = update_self a.bitmap i false;
    now_owned = update_self a.owned i true;
    others = λ j n. (update_ne a.bitmap i j false n, update_ne a.owned i j true n);
    one_less = omega (arith, v.counted, count-pos a.bitmap total i l t);
  }

  -- On a valid allocator, `alloc` keeps the invariant, also when memory has run out.
  pub alloc-IsValid : (a : Frames) → IsValid total a → IsValid total (alloc_unlocked total a).1
  alloc-IsValid a v = elim (Option-cases (find_from (free_at a) 0 total)) [
    | inl e ↦ rw (alloc_miss a e) v
    | inr (off, e) ↦
        rw (alloc_hit a off e)
          (claim-IsValid _ v (mod-lt _ (omega arith)) (find_from-some (free_at a) 0 total e).2)
  ]

  -- A successful call takes one frame; a call fails only if nothing is free, and changes nothing.
  abbrev pub Allocated : Frames → Option ℕ × Frames → Type 0
  Allocated a (some p, b) = Takes a p b
  Allocated a (none, b) = (b ≡ a) × ((i : ℕ) → i < total → a.bitmap i ≡ false)

  -- On a valid allocator `alloc` hands out the address of one free and unowned frame, marks it used
  -- and owned and changes no other frame; it returns none only if no frame is free, and then
  -- changes nothing.
  pub alloc-Allocated : (a : Frames) → IsValid total a → Allocated a (alloc_unlocked total a)
  alloc-Allocated a v = elim (Option-cases (find_from (free_at a) 0 total)) [
    | inl e ↦ rw (alloc_miss a e) (
      refl,
      λ i l.
          let (off, o, q) = offset_of total a.next i v.cursor l in
          ap a.bitmap (sym q)
          ∙ find_from-none (free_at a) 0 total e off (omega arith) (omega arith),
    )
    | inr (off, e) ↦
        rw (alloc_hit a off e)
          (claim-Takes _ v (mod-lt _ (omega arith)) (find_from-some (free_at a) 0 total e).2)
  ]
