-- ===== src/Task/Ids.antt =====
-- No two processes have the same id: the counter of task.rs gives out each number once.
use fantuan_kernel.Base.{
  ℕ, zero, suc, ◌+◌, ◌≤◌, ◌<◌, ◌≡◌, refl, ◌∙◌, subst, if◌then◌else◌, List, [], ◌∷◌, Bool, arith,
  length, Option, none, some, Option-cases, if_elim, inl, inr, ◌^◌, ◌==◌,
}
use fantuan_kernel.Frame.{u64}
use fantuan_kernel.Process.Types.{max_tasks}
use fantuan_kernel.Process.Identity as Identity
use fantuan_kernel.Process.Identity.Unique.{
  IsIdentified, init_task-IsIdentified, clone_task-IsIdentified, on_exit-IsIdentified,
  on_reap-IsIdentified, wait_round-IsIdentified,
}
use fantuan_kernel.Process.Lifecycle.{wait_round}
use fantuan_kernel.Task.{
  Task, Sys, register, register_fork, find_slot, exit_with, reap, is_reaped, reap_exited, schedule,
  switch_to, wake, pick,
}

abbrev pub AreIdentified : Sys → Type 0
AreIdentified s = IsIdentified s.procs s.next_id

-- A call that makes, ends, collects or reaps processes; exits and waits are the current task's.
pub data Event : Type 0 where
  registers : Task → Event
  forks : ℕ → Task → Event
  exits : ℕ → Event
  waits : ℕ → Bool → Event
  schedules : ℕ → Event

module _ (total kernel_vm_root : ℕ) where
  unfoldable pub step : Event → Sys → Sys
  step (registers t) s = (register s t).1
  step (forks parent t) s = (register_fork s parent t).1
  step (exits status) s = exit_with s status
  step (waits pid no_hang) s = record s { procs = (wait_round s.procs s.current pid no_hang).1 }
  step (schedules now) s = schedule total kernel_vm_root s now

  unfoldable pub run : List Event → Sys → Sys
  run [] s = s
  run (e ∷ es) s = run es (step e s)

-- The counter after one call, and the ids in it.
record Counted (s s' : Sys) : Type 0 where
  identified : AreIdentified s'
  grows : s'.next_id ≤ s.next_id + 1

register-Counted :
    (s : Sys) (t : Task) → AreIdentified s → s.next_id + 1 < 2 ^ 64 → Counted s (register s t).1
unfolding register
register-Counted s t v l = elim (Option-cases (find_slot s)) [
  | inl e ↦ rw (e, register) (record { identified = v; grows = omega arith })
  | inr (slot, e) ↦
      let same : s.next_id + 1 ≡ u64 (s.next_id + 1) = omega (arith, l) in
      rw (e, register)
        (if_elim (Counted s) t.is_user
          (λ u. record {
            identified =
                subst (λ id. IsIdentified (Identity.init_task s.procs slot id 0) id) same
                  (init_task-IsIdentified s.procs s.next_id slot 0 v);
            grows = omega (arith, l);
          })
          (λ u. record {
            identified = record {
              issued = λ i w. omega (arith, v.issued i w, l);
              distinct = v.distinct;
            };
            grows = omega (arith, l);
          }))
]

register_fork-Counted :
    (s : Sys) (parent : ℕ) (t : Task)
    → AreIdentified s
    → s.next_id + 1 < 2 ^ 64
    → Counted s (register_fork s parent t).1
unfolding register_fork
register_fork-Counted s parent t v l = elim (Option-cases (find_slot s)) [
  | inl e ↦ rw (e, register_fork) (record { identified = v; grows = omega arith })
  | inr (slot, e) ↦
      let same : s.next_id + 1 ≡ u64 (s.next_id + 1) = omega (arith, l) in
      rw (e, register_fork)
        (record {
          identified =
              subst (λ id. IsIdentified (Identity.clone_task s.procs parent slot id) id) same
                (clone_task-IsIdentified s.procs s.next_id parent slot v);
          grows = omega (arith, l);
        })
]

module _ (total kernel_vm_root : ℕ) where
  reap_exited-Identified :
      (i n : ℕ) (s : Sys)
      → AreIdentified s
      → AreIdentified (reap_exited total kernel_vm_root s i n)
        × ((reap_exited total kernel_vm_root s i n).next_id ≡ s.next_id)
  unfolding reap_exited reap
  reap_exited-Identified i zero s v = (v, refl)
  reap_exited-Identified i (suc n) s v =
      let next : Sys =
        (if is_reaped total kernel_vm_root s i then reap total kernel_vm_root s i else s) in
      let q : AreIdentified next × (next.next_id ≡ s.next_id) =
        if_elim (λ (x : Sys). AreIdentified x × (x.next_id ≡ s.next_id))
          (is_reaped total kernel_vm_root s i)
          (λ t. (on_reap-IsIdentified s.procs s.next_id i v, refl)) (λ f. (v, refl)) in
      let r = reap_exited-Identified (i + 1) n next q.0 in (r.0, r.1 ∙ q.1)

  switch_to-Identified : (s : Sys) (o : Option ℕ) → AreIdentified s → Counted s (switch_to s o)
  unfolding switch_to
  switch_to-Identified s none v = record { identified = v; grows = omega arith }
  switch_to-Identified s (some n) v =
      if_elim (Counted s) (n == s.current) (λ t. record { identified = v; grows = omega arith })
        (λ f. record { identified = v; grows = omega arith })

  step-Counted :
      (e : Event) (s : Sys)
      → AreIdentified s
      → s.next_id + 1 < 2 ^ 64
      → Counted s (step total kernel_vm_root e s)
  unfolding step exit_with schedule
  step-Counted (registers t) s v l = register-Counted s t v l
  step-Counted (forks parent t) s v l = register_fork-Counted s parent t v l
  step-Counted (exits status) s v l = record {
    identified = on_exit-IsIdentified s.procs s.next_id s.current status v;
    grows = omega arith;
  }
  step-Counted (waits pid no_hang) s v l = record {
    identified = wait_round-IsIdentified s.procs s.next_id s.current pid no_hang v;
    grows = omega arith;
  }
  step-Counted (schedules now) s v l =
      let r = reap_exited total kernel_vm_root s 0 max_tasks in
      let q = reap_exited-Identified 0 max_tasks s v in
      let w : Sys = record r { tasks = wake now r.tasks } in
      let c = switch_to-Identified w (pick w.tasks w.current) q.0 in
      record { identified = c.identified; grows = omega (arith, c.grows, q.1) }

  -- From a table in which no two processes have the same id and none has one above the counter, this
  -- stays so over any sequence of registrations, forks, exits, waits and schedulings with their
  -- reaping, as long as the counter with the number of calls is below 2^64.
  pub run-IsIdentified :
      (es : List Event) (s : Sys)
      → AreIdentified s
      → s.next_id + length es < 2 ^ 64
      → AreIdentified (run total kernel_vm_root es s)
  unfolding run
  run-IsIdentified [] s v l = v
  run-IsIdentified (e ∷ es) s v l =
      let c = step-Counted e s v (omega (arith, l)) in
      run-IsIdentified es (step total kernel_vm_root e s) c.identified (omega (arith, l, c.grows))
