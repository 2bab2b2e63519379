-- ===== src/InputRing/Drops.antt =====
-- The drop counter accounts for every event that was pushed and not delivered.
use fantuan_kernel.Base.{ℕ, ◌+◌, ◌%◌, ◌^◌, ◌≡◌, List, [], ◌∷◌, Option, none, some, arith}
use fantuan_kernel.InputRing.{InputEvent, Ring, Call, pushes, pops, push, pop, run}

-- How many calls push, and how many events the consumer got.
abbrev pub pushed : List Call → ℕ
pushed [] = 0
pushed (pushes now ev ∷ cs) = pushed cs + 1
pushed (pops ∷ cs) = pushed cs

abbrev pub delivered : List (Option InputEvent) → ℕ
delivered [] = 0
delivered (none ∷ outs) = delivered outs
delivered (some ev ∷ outs) = delivered outs + 1

push_balance :
    (now : ℕ) (ev : InputEvent) (r : Ring)
    → ((push now ev r).len + (push now ev r).dropped) % 2 ^ 64 ≡ (r.len + r.dropped + 1) % 2 ^ 64
unfolding push
push_balance now ev r = ground arith

pop_balance :
    (r : Ring) → (pop r).1.len + (pop r).1.dropped + delivered ((pop r).0 ∷ []) ≡ r.len + r.dropped
unfolding pop
pop_balance r = ground arith

delivered-cons :
    (out : Option InputEvent) (outs : List (Option InputEvent))
    → delivered (out ∷ outs) ≡ delivered (out ∷ []) + delivered outs
delivered-cons none outs = omega arith
delivered-cons (some ev) outs = omega arith

-- Over any sequence of calls, modulo 2^64: what was pushed, with what the ring held and had
-- dropped before, is what was delivered, with what it holds and has dropped after.
pub run_balance :
    (cs : List Call) (r : Ring)
    → let (outs, r') = run cs r in
      (pushed cs + r.len + r.dropped) % 2 ^ 64 ≡ (delivered outs + r'.len + r'.dropped) % 2 ^ 64
unfolding run
run_balance [] r = omega arith
run_balance (pushes now ev ∷ cs) r =
    omega (arith, push_balance now ev r, run_balance cs (push now ev r))
run_balance (pops ∷ cs) r =
    omega (
      arith,
      pop_balance r,
      run_balance cs (pop r).1,
      delivered-cons (pop r).0 (run cs (pop r).1).0,
    )
