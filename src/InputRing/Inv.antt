-- ===== src/InputRing/Inv.antt =====
-- Indices in range, and the ring's head where its tail and its length put it.
use fantuan_kernel.Base.{ℕ, ◌+◌, ◌%◌, ◌≤◌, ◌<◌, ◌≡◌, arith}
use fantuan_kernel.InputRing.{Ring, ring_capacity, push, pop}

pub record IsValid (r : Ring) : Type 0 where
  pub head_in : r.head < ring_capacity
  pub tail_in : r.tail < ring_capacity
  pub len_in : r.len ≤ ring_capacity
  pub head_at : r.head ≡ (r.tail + r.len) % ring_capacity

pub push-IsValid : (now : ℕ) (ev : _) (r : Ring) → IsValid r → IsValid (push now ev r)
unfolding push
push-IsValid now ev r v = ground arith

pub pop-IsValid : (r : Ring) → IsValid r → IsValid (pop r).1
unfolding pop
pop-IsValid r v = ground arith
