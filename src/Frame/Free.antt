-- ===== src/Frame/Free.antt =====
-- `FrameAllocator::free` and `reclaim`.
use fantuan_kernel.Base.{
  ℕ, ◌+◌, ◌/◌, ◌<◌, ◌≡◌, subst, ◌&&◌, not, if◌then◌else◌, ◌==◌, ltb, sym, ◌∙◌, ℕ_discrete, ◌≢◌,
  Bool, true, false, some, arith, update, update_lem, update_self, update_ne, count-update,
}
use fantuan_kernel.Frame.{Frames, frame_size, alloc_unlocked, free_unlocked, reclaim_unlocked}
use fantuan_kernel.Frame.Inv.{IsValid}
use fantuan_kernel.Frame.Alloc.{Takes, Allocated, alloc-Allocated}

module _ (total : ℕ) where
  -- On a valid allocator, `free` keeps the invariant at every address, also at one that the
  -- allocator never handed out.
  pub free-IsValid :
      (a : Frames) (phys : ℕ) → IsValid total a → IsValid total (free_unlocked total a phys)
  unfolding free_unlocked
  free-IsValid a phys v =
      let i = phys / frame_size in
      record {
        counted = ground (arith, v.counted, count-update a.bitmap total i true, v.disjoint i);
        cursor = ground arith;
        disjoint = λ j o.
            ground
              (arith, v.disjoint j, update_lem a.bitmap i j true, update_lem a.owned i j false);
      }

  pub reclaim-IsValid :
      (a : Frames) (phys : ℕ) → IsValid total a → IsValid total (reclaim_unlocked total a phys)
  unfolding reclaim_unlocked
  reclaim-IsValid a phys v =
      let i = phys / frame_size in
      record {
        counted = ground (arith, v.counted, count-update a.bitmap total i true);
        cursor = ground arith;
        disjoint = λ j o. ground (arith, v.disjoint j, update_lem a.bitmap i j true);
      }

  -- `free` leaves everything alone unless the frame of the address is one that is handed out.
  pub free_refuses :
      (a : Frames) (phys : ℕ) → a.owned (phys / frame_size) ≡ false → free_unlocked total a phys ≡ a
  unfolding free_unlocked
  free_refuses a phys h = ground arith

  -- A second `free` of an address changes nothing.
  pub free_twice :
      (a : Frames) (phys : ℕ)
      → free_unlocked total (free_unlocked total a phys) phys ≡ free_unlocked total a phys
  unfolding free_unlocked
  free_twice a phys = ground (arith, update_self a.owned (phys / frame_size) false)

  free_owned :
      (b : Frames) (p i : ℕ)
      → p / frame_size ≡ i
      → i < total
      → b.owned i ≡ true
      → free_unlocked total b p ≡ record b {
        bitmap = update b.bitmap i true;
        owned = update b.owned i false;
        free_frames = b.free_frames + 1;
      }
  unfolding free_unlocked
  free_owned b p i q l o = ground arith

  restored :
      (f g : ℕ → Bool) (i j : ℕ) (v : Bool) → v ≡ f i → (j ≢ i → g j ≡ f j) → update g i v j ≡ f j
  restored f g i j v h n = elim (ℕ_discrete j i) [
    | yes e ↦ rw (e, update_self g i v) h
    | no d ↦ update_ne g i j v d ∙ n d
  ]

  -- On a valid allocator, what is allocated and then freed is free again: both maps and the
  -- counter are as before.
  pub free-alloc :
      (a : Frames) {p : ℕ} {b : Frames}
      → IsValid total a
      → alloc_unlocked total a ≡ (some p, b)
      → let c = free_unlocked total b p in
        ((i : ℕ) → (c.bitmap i ≡ a.bitmap i) × (c.owned i ≡ a.owned i))
        × (c.free_frames ≡ a.free_frames)
  free-alloc a {p = p} {b = b} v e =
      let t : Takes total a p b = subst (Allocated total a) e (alloc-Allocated total a v) in
      let q : p / frame_size ≡ t.index = omega (arith, t.address) in
      let r = free_owned b p t.index q t.covered t.now_owned in
      rw r (
        λ i. (
          restored a.bitmap b.bitmap t.index i true (sym t.was_free) (λ n. (t.others i n).0),
          restored a.owned b.owned t.index i false (sym t.was_unowned) (λ n. (t.others i n).1),
        ),
        t.one_less,
      )

  -- `reclaim` frees exactly the frames that are neither free nor handed out.
  pub reclaim_lem :
      (a : Frames) (phys i : ℕ)
      → (reclaim_unlocked total a phys).bitmap i ≡ (
          if (i == phys / frame_size) && (ltb i total && not (a.owned i)) then true else a.bitmap i)
  unfolding reclaim_unlocked
  reclaim_lem a phys i = ground (arith, update_lem a.bitmap (phys / frame_size) i true)
