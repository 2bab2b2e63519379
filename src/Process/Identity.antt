-- ===== src/Process/Identity.antt =====
-- kernel-core/src/process/identity.rs and group.rs: which slot is which process, who is whose
-- parent, groups and sessions, and how the end of a process is recorded.
-- An index that `slot_of_id` does not find is none; `cur` is the slot of the caller.
pub mod Unique
use fantuan_kernel.Base.{
  ℕ, ◌*◌, ◌%◌, ◌^◌, Bool, true, false, not, ◌&&◌, ◌||◌, Option, none, some, if◌then◌else◌, ◌==◌,
  update, find_from, is_some,
}
use fantuan_kernel.Process.Types.{Proc, Procs, empty_proc, max_tasks, modify}
use fantuan_kernel.Process.Abi.{sigchld, sys_ok, sys_err}
use fantuan_kernel.Process.Signal.{mask_or, sig_mask}

abbrev pub err_srch : ℕ
err_srch = sys_err 27

unfoldable pub slot_of_id : Procs → ℕ → Option ℕ
slot_of_id ps id = find_from (λ s. (ps s).used && (ps s).id == id) 0 max_tasks

abbrev pub or_zero : Option ℕ → ℕ
or_zero none = 0
or_zero (some s) = s

unfoldable pub init_boot : Procs → Procs
init_boot ps = modify ps 0 (λ p. record p { used = true; alive = true; id = 0; pgid = 0; sid = 0 })

-- The record's fields as they are when the group is looked up, and then the session.
unfoldable pub init_task : Procs → ℕ → ℕ → ℕ → Procs
init_task ps slot id ppid =
    let fresh : Proc = record empty_proc { used = true; alive = true; id = id; ppid = ppid } in
    let qs = update ps slot fresh in
    let pgid = (if ppid == 0 then id else (qs (or_zero (slot_of_id qs ppid))).pgid) in
    let grouped : Proc = record fresh { pgid = pgid } in
    let rs = update qs slot grouped in
    let sid = (if ppid == 0 then id else (rs (or_zero (slot_of_id rs ppid))).sid) in
    update rs slot (record grouped { sid = sid })

unfoldable pub clone_task : Procs → ℕ → ℕ → ℕ → Procs
clone_task ps parent_slot child_slot id =
    let parent = ps parent_slot in
    update ps child_slot (record parent {
      id = id;
      ppid = parent.id;
      alive = true;
      waited = false;
      exit_status = 0;
      pending = λ s. false;
    })

pub status_exited : ℕ → ℕ
status_exited code = code % 2 ^ 8 * 2 ^ 8

abbrev pub status_signaled : ℕ → ℕ
status_signaled sig = sig

-- `procs()[ps].pending |= sig_mask(SIGCHLD)`, if the parent is found.
unfoldable pub notify : Procs → Option ℕ → Procs
notify ps none = ps
notify ps (some s) =
    update ps s (record (ps s) { pending = mask_or (ps s).pending (sig_mask sigchld) })

unfoldable pub on_exit : Procs → ℕ → ℕ → Procs
on_exit ps slot status =
    let parent = (ps slot).ppid in
    if (ps slot).used
    then (let qs = update ps slot (record (ps slot) { alive = false; exit_status = status }) in
        if parent == 0 then qs else notify qs (slot_of_id qs parent))
    else ps

unfoldable pub reapable : Procs → ℕ → Bool
reapable ps slot =
    let p = ps slot in
    if not p.used || p.alive
    then false
    else p.waited || (p.ppid == 0 || not (is_some (slot_of_id ps p.ppid)))

unfoldable pub on_reap : Procs → ℕ → Procs
on_reap ps slot = update ps slot empty_proc

pub alive_by_id : Procs → ℕ → Bool
alive_by_id ps id = elim (slot_of_id ps id) [ none ↦ false | some s ↦ (ps s).alive ]

pub getpgid : Procs → ℕ → ℕ → Option ℕ
getpgid ps cur pid =
    if pid == 0
    then some (ps cur).pgid
    else elim (slot_of_id ps pid) [ none ↦ none | some s ↦ some (ps s).pgid ]

abbrev pub getppid : Procs → ℕ → ℕ
getppid ps cur = (ps cur).ppid

unfoldable pub slot_pgrp_exists : Procs → ℕ → Option ℕ
slot_pgrp_exists ps pgid = find_from (λ s. (ps s).used && (ps s).pgid == pgid) 0 max_tasks

-- `setpgid` once the slot is known.
unfoldable pub set_slot_pgid : Procs → ℕ → ℕ → ℕ → ℕ × Procs
set_slot_pgid ps cur s pgid =
    let target = (if pgid == 0 then (ps s).id else pgid) in
    if not (s == cur) && not ((ps s).ppid == (ps cur).id)
    then (err_srch, ps)
    else if not (target == (ps s).id) && not (is_some (slot_pgrp_exists ps target))
    then (err_srch, ps)
    else (sys_ok, update ps s (record (ps s) { pgid = target }))

unfoldable pub setpgid : Procs → ℕ → ℕ → ℕ → ℕ × Procs
setpgid ps cur pid pgid =
    if pid == 0
    then set_slot_pgid ps cur cur pgid
    else elim (slot_of_id ps pid) [ none ↦ (err_srch, ps) | some s ↦ set_slot_pgid ps cur s pgid ]

unfoldable pub setsid : Procs → ℕ → ℕ × Procs
setsid ps cur =
    let id = (ps cur).id in (id, update ps cur (record (ps cur) { sid = id; pgid = id }))
