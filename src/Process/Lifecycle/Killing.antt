-- ===== src/Process/Lifecycle/Killing.antt =====
-- Which processes `kill` reaches.
use fantuan_kernel.Base.{
  ℕ, ◌≤◌, ◌<◌, ◌≡◌, refl, sym, ap, ◌∙◌, ◌⊎◌, inl, inr, Bool, true, false, some, arith, ◌==◌, leb,
  if◌then◌else◌, if_elim, find_from, find_from-none, find_from-some, is_some, Option-cases, lt→ltb,
  eq_of_==, true≢false,
}
use fantuan_kernel.Process.Types.{Proc, Procs, max_tasks}
use fantuan_kernel.Process.Abi.{nsig, sigkill, sys_ok, err_inval}
use fantuan_kernel.Process.Signal.{queue_slot, dequeue}
use fantuan_kernel.Process.Signal.Dequeue.{dequeue-queue_slot_kill}
use fantuan_kernel.Process.Identity.{err_srch}
use fantuan_kernel.Process.Lifecycle.{is_victim, queue_victims, kill}

-- The outcomes of `kill(pid, sig)` from `cur`.
abbrev pub Killed : Procs → ℕ → ℕ → ℕ → ℕ × Procs → Type 0
Killed ps cur pid sig (r, qs) =
    ((r ≡ err_inval) × (qs ≡ ps) × (nsig ≤ sig))
    ⊎ (((r ≡ err_srch) × (qs ≡ ps) × ((s : ℕ) → s < max_tasks → is_victim ps cur pid s ≡ false))
        ⊎ ((r ≡ sys_ok)
            × ((s : ℕ) × (s < max_tasks) × (is_victim ps cur pid s ≡ true))
            × ((s : ℕ)
                → s < max_tasks
                → qs s ≡ (if is_victim ps cur pid s then queue_slot (ps s) sig else ps s))))

queue_slot_zero : (p : Proc) → queue_slot p 0 ≡ p
unfolding queue_slot
queue_slot_zero p = refl

unsent : (b : Bool) (p : Proc) (sig : ℕ) → sig ≡ 0 → p ≡ (if b then queue_slot p sig else p)
unsent true p sig e = sym (ap (queue_slot p) e ∙ queue_slot_zero p)
unsent false p sig e = refl

queue_victims_lem :
    (ps : Procs) (victims : ℕ → Bool) (sig s : ℕ)
    → s < max_tasks
    → queue_victims ps victims sig s ≡ (if victims s then queue_slot (ps s) sig else ps s)
unfolding queue_victims
queue_victims_lem ps victims sig s l = rw (lt→ltb s max_tasks l)

-- `kill` refuses a signal number from 32 on, answers ESRCH exactly when it finds no live process
-- that the pid selects, and otherwise queues the signal on each of those and on no other.
pub kill-Killed : (ps : Procs) (cur pid sig : ℕ) → Killed ps cur pid sig (kill ps cur pid sig)
unfolding kill is_some
kill-Killed ps cur pid sig =
    if_elim (Killed ps cur pid sig) (leb nsig sig) (λ t. inl (refl, refl, ground arith))
      λ f. elim (Option-cases (find_from (is_victim ps cur pid) 0 max_tasks)) [
        | inl e ↦
            rw (e, is_some)
              (inr (
                inl (
                  refl,
                  refl,
                  λ s l.
                      find_from-none (is_victim ps cur pid) 0 max_tasks e s (omega arith)
                        (omega arith),
                )))
        | inr (s, e) ↦
            let r = find_from-some (is_victim ps cur pid) 0 max_tasks e in
            rw (e, is_some)
              (if_elim (Killed ps cur pid sig) (sig == 0)
                (λ z. inr (
                  inr (
                    refl,
                    (s, omega (arith, r.1), r.2),
                    λ j l. unsent (is_victim ps cur pid j) (ps j) sig (eq_of_== sig 0 z),
                  )))
                (λ n. inr (
                  inr (
                    refl,
                    (s, omega (arith, r.1), r.2),
                    λ j l. queue_victims_lem ps (is_victim ps cur pid) sig j l,
                  ))))
      ]

-- After `kill(pid, SIGKILL)`, SIGKILL is the next signal of every live process that the pid
-- selects, whatever it blocks.
pub kill-dequeue :
    (ps : Procs) (cur pid s : ℕ)
    → s < max_tasks
    → is_victim ps cur pid s ≡ true
    → (dequeue ((kill ps cur pid sigkill).1 s)).0 ≡ some sigkill
kill-dequeue ps cur pid s l v = go (kill ps cur pid sigkill) (kill-Killed ps cur pid sigkill)
  where
    go : (r : ℕ × Procs) → Killed ps cur pid sigkill r → (dequeue (r.1 s)).0 ≡ some sigkill
    go (r, qs) (inl k) = absurd (omega (arith, k.2))
    go (r, qs) (inr (inl k)) = absurd (true≢false (sym v ∙ k.2 s l))
    go (r, qs) (inr (inr k)) =
        ap (λ p. (dequeue p).0)
          (k.2 s l ∙ ap (λ b. if b then queue_slot (ps s) sigkill else ps s) v)
        ∙ dequeue-queue_slot_kill (ps s)
