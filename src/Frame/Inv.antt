-- ===== src/Frame/Inv.antt =====
-- What holds of the allocator between two calls.
use fantuan_kernel.Base.{ℕ, ◌<◌, ◌≡◌, true, false, count}
use fantuan_kernel.Frame.{Frames}

-- The counter is the number of free frames, the cursor is in range, and no frame is both free and
-- handed out.
pub record IsValid (total : ℕ) (a : Frames) : Type 0 where
  pub counted : a.free_frames ≡ count a.bitmap total
  pub cursor : a.next < total
  pub disjoint : (i : ℕ) → a.owned i ≡ true → a.bitmap i ≡ false
