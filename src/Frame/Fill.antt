-- ===== src/Frame/Fill.antt =====
-- What `fill` writes, and how it moves the count.
use fantuan_kernel.Base.{
  ℕ, zero, suc, ◌+◌, ◌≤◌, ◌<◌, ◌≡◌, Bool, true, false, ◌&&◌, arith, if◌then◌else◌, ltb, leb, update,
  update_lem, update_ne, count, count-update, ◌∙◌,
}
use fantuan_kernel.Frame.{fill}

-- The entries of `i..i + k` hold `v`, the others are as before.
pub fill_lem :
    (f : ℕ → Bool) (i k : ℕ) (v : Bool) (j : ℕ)
    → fill f i k v j ≡ (if leb i j && ltb j (i + k) then v else f j)
unfolding fill
fill_lem f i zero v j = ground arith
fill_lem f i (suc k) v j = ground (arith, fill_lem (update f i v) (i + 1) k v j, update_lem f i j v)

-- Clearing k set entries lowers the count by k.
pub count-fill_clear :
    (f : ℕ → Bool) (n i k : ℕ)
    → i + k ≤ n
    → ((j : ℕ) → i ≤ j → j < i + k → f j ≡ true)
    → count (fill f i k false) n + k ≡ count f n
unfolding fill
count-fill_clear f n i zero l h = omega arith
count-fill_clear f n i (suc k) l h =
    let rest =
      count-fill_clear (update f i false) n (i + 1) k (omega arith)
        (λ j p q. update_ne f i j false (omega arith) ∙ h j (omega arith) (omega arith)) in
    ground (arith, rest, h i, count-update f n i false)
