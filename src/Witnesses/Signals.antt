-- ===== src/Witnesses/Signals.antt =====
-- Signals of a process that handles SIGTERM.
use fantuan_kernel.Base.{◌+◌, ◌%◌, ◌≤◌, ◌≡◌, refl, [], ◌∷◌, arith, true, ◌==◌, none, if◌then◌else◌}
use fantuan_kernel.Process.Types.{Proc, Action, empty_proc, empty_mask, default_action}
use fantuan_kernel.Process.Signal.{dequeue, frame_sp, deliver_current, UserContext, UserStack}
use fantuan_kernel.Process.Signal.Kill.{
  changes_mask, queues, dequeues, run, IsKillable, run-IsKillable,
}
use fantuan_kernel.Process.Signal.Dequeue.{Dequeued, dequeue-Dequeued}
use fantuan_kernel.Process.Signal.Deliver.{Delivered, frame_sp_lem, deliver_current-Delivered}

abbrev term_action : Action
term_action = record { handler = 0x40_1000; mask = empty_mask; flags = 0; restorer = 0x40_2000 }

-- SIGTERM is pending and handled.
abbrev process : Proc
process = record empty_proc {
  pending = λ s. s == 15;
  actions = λ s. if s == 15 then term_action else default_action;
}

process-IsKillable : IsKillable process
process-IsKillable = record { unblocked = refl; default = refl }

abbrev context : UserContext
context = record {
  r15 = 1;
  r14 = 2;
  r13 = 3;
  r12 = 4;
  r11 = 5;
  r10 = 6;
  r9 = 7;
  r8 = 8;
  rbp = 9;
  rdi = 10;
  rsi = 11;
  rdx = 12;
  rcx = 13;
  rbx = 14;
  rax = 15;
  rip = 0x40_0000;
  rflags = 0x202;
  rsp = 0x7FFF_F000;
}

abbrev stack : UserStack
stack = record { writable = λ a. true; frames = λ a. none; words = λ a. none }

run-IsKillable_example :
    IsKillable (run (changes_mask 2 (λ s. true) ∷ (queues 9 ∷ (dequeues ∷ []))) process)
run-IsKillable_example =
    run-IsKillable (changes_mask 2 (λ s. true) ∷ (queues 9 ∷ (dequeues ∷ []))) process
      (tt, (tt, (tt, tt))) process-IsKillable

dequeue-Dequeued_example : Dequeued process (dequeue process)
dequeue-Dequeued_example = dequeue-Dequeued process

frame_sp_example :
    (frame_sp 0x7FFF_F000 % 16 ≡ 8)
    × (frame_sp 0x7FFF_F000 + 8 + 160 ≤ 0x7FFF_F000)
    × (0x7FFF_F000 ≤ frame_sp 0x7FFF_F000 + 200)
frame_sp_example = frame_sp_lem 0x7FFF_F000 (omega arith) (omega arith)

deliver_current_example : Delivered process context stack (deliver_current process context stack)
deliver_current_example = deliver_current-Delivered process context stack process-IsKillable
