-- ===== src/Witnesses/Tasks.antt =====
-- The scheduler with two tasks.
use fantuan_kernel.Base.{
  ℕ, zero, suc, ◌+◌, ◌<◌, ◌≡◌, refl, List, [], ◌∷◌, true, true≢false, sym, arith, false, ◌==◌,
  if◌then◌else◌, find_from, update, ap,
}
use fantuan_kernel.Process.Types.{max_tasks, empty_proc}
use fantuan_kernel.Vfs.Pipe.{empty_pipe}
use fantuan_kernel.Vfs.Fd.{empty_fd, empty_open}
use fantuan_kernel.Task.{
  Task, State, unused, ready, sleeping, Sys, pick, schedule, reap_exited, wake, switch_to,
}
use fantuan_kernel.Task.Pick.{Ready}
use fantuan_kernel.Task.Fair.{schedule_fair}
use fantuan_kernel.Task.Ids.{
  AreIdentified, Event, registers, forks, exits, schedules, run, run-IsIdentified,
}

abbrev task : State → Task
task state = record {
  state = state;
  rsp = 0;
  vm_root = 0;
  kernel_stack_top = 0;
  is_user = false;
  stack_phys = 0;
  id = 0;
  exit_code = 0;
  heap_base = 0;
}

abbrev user : Task
user = record (task ready) { is_user = true; vm_root = 0x9000; heap_base = 0x50_0000 }

-- Task 3 is ready and task 0 as `first` says.
abbrev table : State → ℕ → Task
table first i = if i == 3 then task ready else if i == 0 then task first else task unused

abbrev system : State → ℕ → Sys
system first current = record {
  tasks = table first;
  current = current;
  next_id = 2;
  switches = 0;
  procs = λ s. empty_proc;
  files = record {
    fds = λ k. empty_fd;
    opens = λ i. empty_open;
    cwd = λ s. 0;
    pipes = λ i. empty_pipe;
  };
  heaps = λ s. record { base = 0; brk = 0; mapped = 0 };
  frames = record { bitmap = λ i. false; owned = λ i. false; free_frames = 0; next = 0 };
  freed_roots = [];
}

-- Task 0 runs at first; it then sleeps.
history : ℕ → Sys
history zero = system ready 0
history (suc k) = system (sleeping 900) 3

history-Ready : (k : ℕ) → Ready (history k).tasks 3
unfolding history
history-Ready zero = refl
history-Ready (suc k) = refl

history-current : (k : ℕ) → (history (k + 1)).current ≡ (schedule 8 0 (history k) 5).current
unfolding history schedule reap_exited wake pick switch_to find_from update
history-current zero = refl
history-current (suc k) =
    ap (λ n. (history n).current) {x = suc k + 1} {y = suc (suc k)} (omega arith)

schedule_fair_example : (k : ℕ) × (k < max_tasks) × ((schedule 8 0 (history k) 5).current ≡ 3)
unfolding history
schedule_fair_example =
    schedule_fair 8 0 history (λ k. 5) 3 (omega arith) (omega arith) history-Ready history-current

-- A user task is registered and forks, the scheduler runs twice, and the current task ends.
abbrev events : List Event
events = registers user ∷ (forks 1 user ∷ (schedules 5 ∷ (exits 256 ∷ (schedules 6 ∷ []))))

run-IsIdentified_example : AreIdentified (run 8 0 events (system ready 0))
run-IsIdentified_example =
    run-IsIdentified 8 0 events (system ready 0)
      (record {
        issued = λ i u. absurd (true≢false (sym u));
        distinct = λ i j u. absurd (true≢false (sym u));
      })
      (omega arith)
