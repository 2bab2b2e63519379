-- ===== src/Witnesses/Processes.antt =====
-- A parent and its child; and a heap.
use fantuan_kernel.Base.{
  ◌≡◌, count, sym, true≢false, refl, [], arith, true, false, ◌==◌, ltb, some, if◌then◌else◌,
}
use fantuan_kernel.Frame.Inv as Frame
use fantuan_kernel.Process.Types.{Procs, empty_proc}
use fantuan_kernel.Process.Abi.{sigkill}
use fantuan_kernel.Process.Signal.{dequeue}
use fantuan_kernel.Process.Identity.{on_exit, reapable}
use fantuan_kernel.Process.Identity.Unique.{IsIdentified}
use fantuan_kernel.Process.Lifecycle.{kill, wait_round, collected}
use fantuan_kernel.Process.Lifecycle.Killing.{kill-dequeue}
use fantuan_kernel.Process.Lifecycle.Waiting.{wait_round-on_exit}
use fantuan_kernel.Process.Brk.{State, brk}
use fantuan_kernel.Process.Vma.{rw_}
use fantuan_kernel.Process.Brk.Inv.{IsValid, Answered, brk-Answered}

-- Slots 1 and 2 hold the processes 1 and 2; process 2 is the child of process 1.
abbrev family : Procs
family s =
    if s == 1
    then record empty_proc { used = true; alive = true; id = 1; pgid = 1; sid = 1 }
    else if s == 2
    then record empty_proc { used = true; alive = true; id = 2; ppid = 1; pgid = 1; sid = 1 }
    else empty_proc

family-IsIdentified : IsIdentified family 2
family-IsIdentified = record { issued = λ i u. ground arith; distinct = λ i j u w e. ground arith }

wait_round_example :
    let (r, qs) = wait_round (on_exit family 2 256) 1 2 false in
    (r ≡ collected 2 256) × (reapable qs 2 ≡ true)
wait_round_example = wait_round-on_exit family 2 1 2 256 false family-IsIdentified (record {
  in_table = omega arith;
  other = λ e. omega arith;
  used = refl;
  fresh = refl;
  of_cur = refl;
  positive = omega arith;
  pid = omega arith;
})

kill-dequeue_example : (dequeue ((kill family 1 2 sigkill).1 2)).0 ≡ some sigkill
kill-dequeue_example = kill-dequeue family 1 2 2 (omega arith) refl

abbrev state : State
state = record {
  heap = record { base = 0x50_0000; brk = 0x50_0123; mapped = 0x50_1000 };
  frames = record { bitmap = λ i. ltb i 8; owned = λ i. false; free_frames = 8; next = 0 };
  ops = [];
}

state-IsValid : IsValid state.heap
state-IsValid = record {
  above = omega arith;
  start = refl;
  ordered = omega arith;
  inside = omega arith;
  whole = refl;
}

state_frames-IsValid : Frame.IsValid 8 state.frames
unfolding count
state_frames-IsValid = record {
  counted = refl;
  cursor = omega arith;
  disjoint = λ i o. absurd (true≢false (sym o));
}

brk-Answered_example :
    Answered
      (λ x. some (record { frame = 0; prot = rw_ }))
      8
      0x50_3456
      state
      (brk 8 state 0x50_3456)
brk-Answered_example =
    brk-Answered (λ x. some (record { frame = 0; prot = rw_ })) 8 state 0x50_3456 state-IsValid
      (omega arith) state_frames-IsValid
