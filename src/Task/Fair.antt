-- ===== src/Task/Fair.antt =====
-- A ready task runs before long.
use fantuan_kernel.Base.{
  ℕ, zero, suc, ◌+◌, ◌<◌, ◌≡◌, ◌∙◌, sym, refl, true, Option, none, some, arith, if_elim, ◌==◌, ltb,
  inl, inr, ◌⊎◌, subst, update, eq_of_==, Bool-cases, true≢false, ℕ_discrete,
}
use fantuan_kernel.Process.Types.{max_tasks}
use fantuan_kernel.Task.{
  Task, State, unused, ready, sleeping, exited, Sys, is_ready, is_exited, is_reaped, reap,
  reap_exited, wake, woken, pick, switch_to, schedule,
}
use fantuan_kernel.Task.Pick.{behind, Ready, Picked, pick-Picked}

module _ (total kernel_vm_root : ℕ) where
  -- What reaping leaves of a ready task and of the current slot.
  pub record Kept (s : Sys) (j : ℕ) (r : Sys) : Type 0 where
    pub current : r.current ≡ s.current
    pub ready : Ready r.tasks j

  exited-not_ready : (x : State) → is_exited x ≡ true → is_ready x ≡ true → ⊥
  exited-not_ready exited e r = true≢false (sym r)
  exited-not_ready unused e r = true≢false (sym r)
  exited-not_ready ready e r = true≢false (sym e)
  exited-not_ready (sleeping t) e r = true≢false (sym r)

  reap-Kept :
      (s : Sys) (i j : ℕ)
      → Ready s.tasks j
      → is_reaped total kernel_vm_root s i ≡ true
      → Kept s j (reap total kernel_vm_root s i)
  unfolding reap update
  reap-Kept s i j r e = record {
    current = refl;
    ready =
        if_elim (λ (t : Task). is_ready t.state ≡ true) (j == i)
          (λ t. absurd (
            exited-not_ready (s.tasks i).state (ground arith)
              (subst (Ready s.tasks) (eq_of_== j i t) r)))
          (λ f. r);
  }

  reap_exited-Kept :
      (s : Sys) (i n j : ℕ) → Ready s.tasks j → Kept s j (reap_exited total kernel_vm_root s i n)
  unfolding reap_exited
  reap_exited-Kept s i zero j r = record { current = refl; ready = r }
  reap_exited-Kept s i (suc n) j r = elim (Bool-cases (is_reaped total kernel_vm_root s i)) [
    | inl t ↦ rw t (
        let k = reap-Kept s i j r t in
        let w = reap_exited-Kept (reap total kernel_vm_root s i) (i + 1) n j k.ready in
        record { current = w.current ∙ k.current; ready = w.ready })
    | inr f ↦ rw f (reap_exited-Kept s (i + 1) n j r)
  ]

  wake-ready : (now : ℕ) (ts : ℕ → Task) (j : ℕ) → Ready ts j → Ready (wake now ts) j
  unfolding wake
  wake-ready now ts j r =
      if_elim (λ (t : Task). is_ready t.state ≡ true) (ltb j max_tasks) (λ t. go (ts j).state r)
        (λ f. r)
    where
      go : (x : State) → is_ready x ≡ true → is_ready (woken now x) ≡ true
      go ready e = e
      go unused e = e
      go exited e = e
      go (sleeping t) e = absurd (true≢false (sym e))

  switch_to-current : (w : Sys) (n : ℕ) → (switch_to w (some n)).current ≡ n
  unfolding switch_to
  switch_to-current w n =
      if_elim (λ (x : Sys). x.current ≡ n) (n == w.current) (λ t. sym (eq_of_== n w.current t))
        (λ f. refl)

  -- What a switch does to the wait of a ready task j.
  abbrev Nearer : ℕ → ℕ → ℕ → Type 0
  Nearer before j c = (c < max_tasks) × ((c ≡ j) ⊎ (behind c j < behind before j))

  switch-Nearer :
      (w : Sys) (j : ℕ) (o : Option ℕ)
      → w.current < max_tasks
      → j < max_tasks
      → Ready w.tasks j
      → Picked w.tasks w.current o
      → Nearer w.current j (switch_to w o).current
  switch-Nearer w j none l h r p = absurd (p j h r)
  switch-Nearer w j (some n) l h r p = subst (Nearer w.current j) (sym (switch_to-current w n)) (
    p.0,
    elim (ℕ_discrete n j) [ yes e ↦ inl e | no d ↦ inr (omega (arith, d, l, h, p.0, p.2 j h r)) ],
  )

  -- When task j is ready, a call of the scheduler makes it the current one, or makes one current
  -- that j comes sooner after than after the one before.
  schedule-nearer :
      (s : Sys) (now j : ℕ)
      → s.current < max_tasks
      → j < max_tasks
      → Ready s.tasks j
      → let c = (schedule total kernel_vm_root s now).current in
        (c < max_tasks) × ((c ≡ j) ⊎ (behind c j < behind s.current j))
  unfolding schedule
  schedule-nearer s now j l h r =
      let q = reap_exited total kernel_vm_root s 0 max_tasks in
      let k = reap_exited-Kept s 0 max_tasks j r in
      let w : Sys = record q { tasks = wake now q.tasks } in
      subst (λ c. Nearer c j (switch_to w (pick w.tasks w.current)).current) k.current
        (switch-Nearer w j (pick w.tasks w.current) (omega (arith, k.current, l)) h
          (wake-ready now q.tasks j k.ready)
          (pick-Picked w.tasks w.current (omega (arith, k.current, l))))

  fair_within :
      (fuel : ℕ) (ss : ℕ → Sys) (now : ℕ → ℕ) (j : ℕ)
      → (ss 0).current < max_tasks
      → j < max_tasks
      → ((k : ℕ) → Ready (ss k).tasks j)
      → ((k : ℕ) → (ss (k + 1)).current ≡ (schedule total kernel_vm_root (ss k) (now k)).current)
      → behind (ss 0).current j < fuel
      → (k : ℕ) × (k < fuel) × ((schedule total kernel_vm_root (ss k) (now k)).current ≡ j)
  fair_within zero ss now j l h r same b = absurd (omega arith)
  fair_within (suc fuel) ss now j l h r same b =
      let n = schedule-nearer (ss 0) (now 0) j l h (r 0) in
      elim n.1 [
        | inl e ↦ (0, omega arith, e)
        | inr q ↦
            let (k, m, e) =
              fair_within fuel (λ i. ss (i + 1)) (λ i. now (i + 1)) j (omega (arith, same 0, n.0)) h
                (λ i. r (i + 1)) (λ i. same (i + 1)) (omega (arith, same 0, q, b)) in
            (k + 1, omega (arith, m), e)
      ]

  -- In a sequence of calls of the scheduler between which the current task stays the same, a
  -- task that is ready at each call is made the current one by one of the first sixteen.
  pub schedule_fair :
      (ss : ℕ → Sys) (now : ℕ → ℕ) (j : ℕ)
      → (ss 0).current < max_tasks
      → j < max_tasks
      → ((k : ℕ) → Ready (ss k).tasks j)
      → ((k : ℕ) → (ss (k + 1)).current ≡ (schedule total kernel_vm_root (ss k) (now k)).current)
      → (k : ℕ) × (k < max_tasks) × ((schedule total kernel_vm_root (ss k) (now k)).current ≡ j)
  schedule_fair ss now j l h r same = fair_within max_tasks ss now j l h r same (omega arith)
