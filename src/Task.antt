-- ===== src/Task.antt =====
-- kernel-core/src/task.rs: the table of tasks and the round-robin scheduler.
-- CURRENT, NEXT_ID and SWITCHES are fields; the tables that a task's end touches stand beside them.
-- What the installed TaskOps do (the context switch, stacks, address spaces) is not part of the
-- state: roots that `free_user_vm` tears down are recorded in order, and `now` is what `now_ticks` answers.
pub mod Pick
pub mod Fair
pub mod Ids
use fantuan_kernel.Base.{
  ℕ, zero, suc, ◌+◌, ◌-◌, ◌*◌, ◌/◌, ◌%◌, max, Bool, true, false, not, ◌&&◌, ◌||◌, Option, none,
  some, List, [], ◌∷◌, ◌++◌, if◌then◌else◌, ◌==◌, ltb, leb, update, find_from, is_some,
}
use fantuan_kernel.Frame.{u64, Frames, free_unlocked, frame_size}
use fantuan_kernel.Process.Types.{Procs, max_tasks}
use fantuan_kernel.Process.Identity as Identity
use fantuan_kernel.Process.Brk as Brk
use fantuan_kernel.Process.Brk.{Heaps}
use fantuan_kernel.Vfs.Fd as Fd
use fantuan_kernel.Vfs.Fd.{Files}

abbrev pub stack_pages : ℕ
stack_pages = 4

pub data State : Type 0 where
  unused : State
  ready : State
  sleeping : ℕ → State
  exited : State

-- The fields of `Task` but the body.
pub record Task : Type 0 where
  pub state : State
  pub rsp : ℕ
  pub vm_root : ℕ
  pub kernel_stack_top : ℕ
  pub is_user : Bool
  pub stack_phys : ℕ
  pub id : ℕ
  pub exit_code : ℕ
  pub heap_base : ℕ

pub record Sys : Type 0 where
  pub tasks : ℕ → Task
  pub current : ℕ
  pub next_id : ℕ
  pub switches : ℕ
  pub procs : Procs
  pub files : Files
  pub heaps : Heaps
  pub frames : Frames
  pub freed_roots : List ℕ

abbrev pub is_unused : State → Bool
is_unused unused = true
is_unused ready = false
is_unused (sleeping t) = false
is_unused exited = false

abbrev pub is_ready : State → Bool
is_ready unused = false
is_ready ready = true
is_ready (sleeping t) = false
is_ready exited = false

abbrev pub is_exited : State → Bool
is_exited unused = false
is_exited ready = false
is_exited (sleeping t) = false
is_exited exited = true

unfoldable pub find_slot : Sys → Option ℕ
find_slot s = find_from (λ i. is_unused (s.tasks i).state) 0 max_tasks

unfoldable pub user_tasks_remaining : Sys → Bool
user_tasks_remaining s =
    is_some (find_from (λ i. (s.tasks i).is_user && not (is_unused (s.tasks i).state)) 0 max_tasks)

unfoldable pub register : Sys → Task → Option ℕ × Sys
register s t = elim (find_slot s) [
  | none ↦ (none, s)
  | some slot ↦
      let id = u64 (s.next_id + 1) in
      let placed : Sys = record s {
        next_id = id;
        tasks = update s.tasks slot (record t { id = id });
      } in
      (
        some id,
        if t.is_user
            then record placed {
              files = Fd.init_task s.files slot;
              heaps = Brk.init_task s.heaps slot t.heap_base;
              procs = Identity.init_task s.procs slot id 0;
            }
            else placed,
      )
]

unfoldable pub register_fork : Sys → ℕ → Task → Option ℕ × Sys
register_fork s parent t = elim (find_slot s) [
  | none ↦ (none, s)
  | some slot ↦
      let id = u64 (s.next_id + 1) in
      (
        some id,
        record s {
          next_id = id;
          tasks = update s.tasks slot (record t { id = id });
          files = Fd.clone_task s.files parent slot;
          heaps = Brk.clone_task s.heaps parent slot;
          procs = Identity.clone_task s.procs parent slot id;
        },
      )
]

-- A due sleeper becomes ready.
abbrev pub woken : ℕ → State → State
woken now unused = unused
woken now ready = ready
woken now (sleeping wake_tick) = if leb wake_tick now then ready else sleeping wake_tick
woken now exited = exited

unfoldable pub wake : ℕ → (ℕ → Task) → ℕ → Task
wake now ts i = if ltb i max_tasks then record (ts i) { state = woken now (ts i).state } else ts i

-- The first ready task after the current one, the current one last.
unfoldable pub pick : (ℕ → Task) → ℕ → Option ℕ
pick ts cur = elim (find_from (λ off. is_ready (ts ((cur + off) % max_tasks)).state) 1 max_tasks) [
  | none ↦ none
  | some off ↦ some ((cur + off) % max_tasks)
]

-- `schedule` from the choice on.
unfoldable pub switch_to : Sys → Option ℕ → Sys
switch_to s none = s
switch_to s (some n) =
    if n == s.current then s else record s { current = n; switches = s.switches + 1 }

module _ (total kernel_vm_root : ℕ) where
  -- `for p in 0..STACK_PAGES`: k frames from page p on.
  unfoldable pub free_stack : Frames → ℕ → ℕ → ℕ → Frames
  free_stack a stack_phys p zero = a
  free_stack a stack_phys p (suc k) =
      free_stack (free_unlocked total a (stack_phys + p * frame_size)) stack_phys (p + 1) k

  -- What `reap_exited` does with the slot of one task that it reaps.
  unfoldable pub reap : Sys → ℕ → Sys
  reap s i =
      let t = s.tasks i in
      record s {
        tasks = update s.tasks i (record t { state = unused });
        files = Fd.close_all s.files i;
        procs = Identity.on_reap s.procs i;
        frames = free_stack s.frames t.stack_phys 0 stack_pages;
        freed_roots =
            (if t.is_user && (not (t.vm_root == 0) && not (t.vm_root == kernel_vm_root))
              then s.freed_roots ++ (t.vm_root ∷ [])
              else s.freed_roots);
      }

  abbrev pub is_reaped : Sys → ℕ → Bool
  is_reaped s i =
      not (i == s.current) && (is_exited (s.tasks i).state && Identity.reapable s.procs i)

  -- The loop of `reap_exited`, n slots from i on.
  unfoldable pub reap_exited : Sys → ℕ → ℕ → Sys
  reap_exited s i zero = s
  reap_exited s i (suc n) = reap_exited (if is_reaped s i then reap s i else s) (i + 1) n

  unfoldable pub schedule : Sys → ℕ → Sys
  schedule s now =
      let r = reap_exited s 0 max_tasks in
      let w : Sys = record r { tasks = wake now r.tasks } in switch_to w (pick w.tasks w.current)

  unfoldable pub sleep_ms : Sys → ℕ → ℕ → Sys
  sleep_ms s now ms =
      let wake_tick = u64 (now + max (u64 (ms * 100) / 1000) 1) in
      schedule
        (record s {
          tasks =
              update s.tasks s.current (record (s.tasks s.current) { state = sleeping wake_tick });
        })
        now

-- `exit_with`, up to its idle loop, which calls `schedule` again and again.
unfoldable pub exit_with : Sys → ℕ → Sys
exit_with s status =
    let cur = s.current in
    record s {
      tasks = update s.tasks cur (record (s.tasks cur) { state = exited; exit_code = status });
      procs = Identity.on_exit s.procs cur status;
      files = Fd.close_all s.files cur;
    }
