-- ===== src/Process/Identity/Unique.antt =====
-- No two processes have the same id.
use fantuan_kernel.Base.{
  ℕ, ◌+◌, ◌≤◌, ◌≡◌, refl, sym, ap, ◌∙◌, Bool, true, false, Option, none, some, arith, ◌==◌, if_elim,
  update, Bool-cases, eq_of_==, find_from, not, Option-cases, inl, inr, true≢false,
}
use fantuan_kernel.Process.Types.{Proc, Procs, Mask, empty_proc, max_tasks}
use fantuan_kernel.Process.Abi.{sigchld}
use fantuan_kernel.Process.Signal.{mask_or, sig_mask, pending_handled}
use fantuan_kernel.Process.Identity.{init_task, clone_task, notify, on_exit, on_reap, slot_of_id}
use fantuan_kernel.Process.Lifecycle.{wait_round, collects, Wait, has_children}

-- What the process table and the counter of ids are to each other: every id is at most the counter,
-- and two processes with one id are one.
pub record IsIdentified (ps : Procs) (next_id : ℕ) : Type 0 where
  pub issued : (i : ℕ) → (ps i).used ≡ true → (ps i).id ≤ next_id
  pub distinct : (i j : ℕ) → (ps i).used ≡ true → (ps j).used ≡ true → (ps i).id ≡ (ps j).id → i ≡ j

-- What `on_exit` leaves of a record: a part that no pending signal changes is as it is after the
-- record's own two fields are written.
unfoldable pub ended : Procs → ℕ → ℕ → Procs
ended ps slot status = update ps slot (record (ps slot) { alive = false; exit_status = status })

notify-keeps {ℓ} :
    {A : Type ℓ} (g : Proc → A)
    → ((p : Proc) (m : Mask) → g (record p { pending = m }) ≡ g p)
    → (ps : Procs) (o : Option ℕ) (s : ℕ) → g (notify ps o s) ≡ g (ps s)
unfolding notify update
notify-keeps g h ps none s = refl
notify-keeps g h ps (some k) s =
    if_elim (λ (r : Proc). g r ≡ g (ps s)) (s == k)
      (λ t.
        h (ps k) (mask_or (ps k).pending (sig_mask sigchld))
        ∙ ap (λ j. g (ps j)) (sym (eq_of_== s k t)))
      (λ n. refl)

pub on_exit-keeps {ℓ} :
    {A : Type ℓ} (g : Proc → A)
    → ((p : Proc) (m : Mask) → g (record p { pending = m }) ≡ g p)
    → (ps : Procs) (slot status s : ℕ) → (ps slot).used ≡ true
    → g (on_exit ps slot status s) ≡ g (ended ps slot status s)
unfolding on_exit ended
on_exit-keeps g h ps slot status s u =
    if_elim (λ (q : Procs). g (q s) ≡ g (ended ps slot status s)) (ps slot).used
      (λ t.
        if_elim (λ (q : Procs). g (q s) ≡ g (ended ps slot status s)) ((ps slot).ppid == 0)
          (λ z. refl)
          (λ n.
            notify-keeps g h (ended ps slot status)
              (slot_of_id (ended ps slot status) (ps slot).ppid) s))
      (λ n. absurd (true≢false (sym u ∙ n)))

-- Whether a record is in use, and its id.
abbrev used_id : Proc → Bool × ℕ
used_id p = (p.used, p.id)

ended-used_id : (ps : Procs) (slot status s : ℕ) → used_id (ended ps slot status s) ≡ used_id (ps s)
unfolding ended update
ended-used_id ps slot status s =
    if_elim (λ (r : Proc). used_id r ≡ used_id (ps s)) (s == slot)
      (λ t. ap (λ j. used_id (ps j)) (sym (eq_of_== s slot t))) (λ n. refl)

-- A table that agrees in who is in use and with which id.
same-IsIdentified :
    (ps qs : Procs) (n : ℕ)
    → ((i : ℕ) → used_id (qs i) ≡ used_id (ps i))
    → IsIdentified ps n
    → IsIdentified qs n
same-IsIdentified ps qs n h v =
    let u = λ (i : ℕ). ap (λ (x : Bool × ℕ). x.0) (h i) in
    let d = λ (i : ℕ). ap (λ (x : Bool × ℕ). x.1) (h i) in
    record {
      issued = λ i a. omega (arith, d i, v.issued i (sym (u i) ∙ a));
      distinct =
          λ i j a b e. v.distinct i j (sym (u i) ∙ a) (sym (u j) ∙ b) (sym (d i) ∙ (e ∙ d j));
    }

-- One record is replaced, by an unused one or one with the next id.
put-IsIdentified :
    (ps : Procs) (n k : ℕ) (p : Proc)
    → IsIdentified ps n
    → p.id ≡ n + 1
    → IsIdentified (update ps k p) (n + 1)
unfolding update
put-IsIdentified ps n k p v e = record {
  issued = λ i.
      if_elim (λ (r : Proc). r.used ≡ true → r.id ≤ n + 1) (i == k) (λ t a. omega (arith, e))
        (λ t a. omega (arith, v.issued i a));
  distinct = λ i j.
      if_elim
        (λ (r : Proc).
          r.used ≡ true → (update ps k p j).used ≡ true → r.id ≡ (update ps k p j).id → i ≡ j)
        (i == k)
        (λ t.
          if_elim (λ (r : Proc). p.used ≡ true → r.used ≡ true → p.id ≡ r.id → i ≡ j) (j == k)
            (λ w a b c. eq_of_== i k t ∙ sym (eq_of_== j k w))
            (λ w a b c. absurd (omega (arith, v.issued j b, e, c))))
        (λ t.
          if_elim (λ (r : Proc). (ps i).used ≡ true → r.used ≡ true → (ps i).id ≡ r.id → i ≡ j)
            (j == k) (λ w a b c. absurd (omega (arith, v.issued i a, e, c))) (λ w. v.distinct i j));
}

pub on_reap-IsIdentified :
    (ps : Procs) (n k : ℕ) → IsIdentified ps n → IsIdentified (on_reap ps k) n
unfolding on_reap update
on_reap-IsIdentified ps n k v = record {
  issued = λ i.
      if_elim (λ (r : Proc). r.used ≡ true → r.id ≤ n) (i == k) (λ t a. omega arith)
        (λ t a. v.issued i a);
  distinct = λ i j.
      if_elim
        (λ (r : Proc).
          r.used ≡ true → (on_reap ps k j).used ≡ true → r.id ≡ (on_reap ps k j).id → i ≡ j)
        (i == k) (λ t a. absurd (true≢false (sym a)))
        (λ t.
          if_elim (λ (r : Proc). (ps i).used ≡ true → r.used ≡ true → (ps i).id ≡ r.id → i ≡ j)
            (j == k) (λ w a b. absurd (true≢false (sym b))) (λ w. v.distinct i j));
}

on_exit_unused :
    (ps : Procs) (n slot status : ℕ)
    → IsIdentified ps n
    → (ps slot).used ≡ false
    → IsIdentified (on_exit ps slot status) n
unfolding on_exit
on_exit_unused ps n slot status v z =
    if_elim (λ (q : Procs). IsIdentified q n) (ps slot).used (λ t. absurd (true≢false (sym t ∙ z)))
      (λ t. v)

pub on_exit-IsIdentified :
    (ps : Procs) (n slot status : ℕ) → IsIdentified ps n → IsIdentified (on_exit ps slot status) n
on_exit-IsIdentified ps n slot status v = elim (Bool-cases (ps slot).used) [
  | inl u ↦
      same-IsIdentified ps (on_exit ps slot status) n
        (λ i.
          on_exit-keeps used_id (λ p m. refl) ps slot status i u ∙ ended-used_id ps slot status i)
        v
  | inr z ↦ on_exit_unused ps n slot status v z
]

pub init_task-IsIdentified :
    (ps : Procs) (n slot ppid : ℕ)
    → IsIdentified ps n
    → IsIdentified (init_task ps slot (n + 1) ppid) (n + 1)
unfolding init_task update
init_task-IsIdentified ps n slot ppid v =
    same-IsIdentified (update ps slot (record empty_proc { used = true; id = n + 1 }))
      (init_task ps slot (n + 1) ppid) (n + 1)
      (λ i. elim (Bool-cases (i == slot)) [ inl t ↦ rw t refl | inr f ↦ rw f refl ])
      (put-IsIdentified ps n slot (record empty_proc { used = true; id = n + 1 }) v refl)

pub wait_round-IsIdentified :
    (ps : Procs) (n cur pid : ℕ) (b : Bool)
    → IsIdentified ps n
    → IsIdentified (wait_round ps cur pid b).1 n
unfolding wait_round update
wait_round-IsIdentified ps n cur pid b v =
    elim (Option-cases (find_from (collects ps cur pid) 0 max_tasks)) [
      | inl e ↦
          rw (e, wait_round)
            (if_elim same b (λ t. v)
              (λ f.
                if_elim same (not (has_children ps cur)) (λ t. v)
                  (λ f. if_elim same (pending_handled (ps cur)) (λ t. v) (λ f. v))))
      | inr (s, e) ↦
          rw (e, wait_round)
            (same-IsIdentified ps (update ps s (record (ps s) { waited = true })) n
              (λ i.
                if_elim (λ (r : Proc). used_id r ≡ used_id (ps i)) (i == s)
                  (λ t. ap (λ j. used_id (ps j)) (sym (eq_of_== i s t))) (λ f. refl))
              v)
    ]
  where
    same : Wait × Procs → Type 0
    same w = IsIdentified w.1 n

pub clone_task-IsIdentified :
    (ps : Procs) (n parent child : ℕ)
    → IsIdentified ps n
    → IsIdentified (clone_task ps parent child (n + 1)) (n + 1)
unfolding clone_task
clone_task-IsIdentified ps n parent child v = put-IsIdentified ps n child _ v refl
