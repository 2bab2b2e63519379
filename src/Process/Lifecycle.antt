-- ===== src/Process/Lifecycle.antt =====
-- kernel-core/src/process/lifecycle.rs: `kill` and `wait4`, and signals from the console
-- (group.rs). A pid is the bit pattern of its i64.
pub mod Killing
pub mod Waiting
use fantuan_kernel.Base.{
  ℕ, ◌-◌, ◌^◌, Bool, true, false, not, ◌&&◌, ◌||◌, Option, none, some, if◌then◌else◌, ◌==◌, ltb,
  leb, update, find_from, is_some,
}
use fantuan_kernel.Process.Types.{Proc, Procs, max_tasks, modify}
use fantuan_kernel.Process.Abi.{nsig, sys_ok, err_inval, sys_err}
use fantuan_kernel.Process.Signal.{queue_slot, pending_handled}
use fantuan_kernel.Process.Identity.{err_srch}

-- -1, and the negation of a pid.
abbrev pub minus_one : ℕ
minus_one = 2 ^ 64 - 1

abbrev pub negated : ℕ → ℕ
negated pid = 2 ^ 64 - pid

-- Which records `kill(pid, ..)` from `cur` is for.
abbrev pub kill_hits : Procs → ℕ → ℕ → Proc → Bool
kill_hits ps cur pid p =
    if pid == 0
    then p.pgid == (ps cur).pgid
    else if pid == minus_one
    then not (p.id == 0) && not (p.id == (ps cur).id)
    else if ltb pid (2 ^ 63)
    then p.id == pid
    else p.pgid == negated pid

abbrev pub is_victim : Procs → ℕ → ℕ → ℕ → Bool
is_victim ps cur pid s = ((ps s).used && (ps s).alive) && kill_hits ps cur pid (ps s)

-- The loop over the victims.
unfoldable pub queue_victims : Procs → (ℕ → Bool) → ℕ → ℕ → Proc
queue_victims ps victims sig s =
    if ltb s max_tasks && victims s then queue_slot (ps s) sig else ps s

unfoldable pub kill : Procs → ℕ → ℕ → ℕ → ℕ × Procs
kill ps cur pid sig =
    let victims = is_victim ps cur pid in
    if leb nsig sig
    then (err_inval, ps)
    else if not (is_some (find_from victims 0 max_tasks))
    then (err_srch, ps)
    else if sig == 0
    then (sys_ok, ps)
    else (sys_ok, queue_victims ps victims sig)

-- `signal_console`: the foreground group of the terminal, else the current task.
unfoldable pub signal_console : Procs → ℕ → ℕ → ℕ → Procs
signal_console ps cur tty_pgrp sig =
    if not (tty_pgrp == 0)
    then (kill ps cur (negated tty_pgrp) sig).1
    else update ps cur (queue_slot (ps cur) sig)

-- The records that `wait4(pid, ..)` from `cur` collects.
abbrev pub wait_hits : Procs → ℕ → ℕ → Proc → Bool
wait_hits ps cur pid p =
    if not (pid == 0) && ltb pid (2 ^ 63)
    then p.id == pid
    else if pid == 0
    then p.pgid == (ps cur).pgid
    else if pid == minus_one
    then true
    else p.pgid == negated pid

abbrev pub collects : Procs → ℕ → ℕ → ℕ → Bool
collects ps cur pid s =
    (((ps s).used && not (ps s).alive) && (not (ps s).waited && (ps s).ppid == (ps cur).id))
    && wait_hits ps cur pid (ps s)

pub data Wait : Type 0 where
  collected : ℕ → ℕ → Wait
  nobody_yet : Wait
  no_child : Wait
  interrupted : Wait
  sleeps : Wait

abbrev pub has_children : Procs → ℕ → Bool
has_children ps cur =
    is_some (find_from (λ s. (ps s).used && (ps s).ppid == (ps cur).id) 0 max_tasks)

-- One round of the loop of `wait4`, which sleeps between the rounds.
unfoldable pub wait_round : Procs → ℕ → ℕ → Bool → Wait × Procs
wait_round ps cur pid no_hang = elim (find_from (collects ps cur pid) 0 max_tasks) [
  | some s ↦ (collected (ps s).id (ps s).exit_status, update ps s (record (ps s) { waited = true }))
  | none ↦
      if no_hang
      then (nobody_yet, ps)
      else if not (has_children ps cur)
      then (no_child, ps)
      else if pending_handled (ps cur)
      then (interrupted, ps)
      else (sleeps, ps)
]
