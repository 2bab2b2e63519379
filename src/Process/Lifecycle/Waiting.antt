-- ===== src/Process/Lifecycle/Waiting.antt =====
-- What a parent collects of a child that has ended.
use fantuan_kernel.Base.{
  ℕ, ◌^◌, ◌<◌, ◌≡◌, refl, sym, ap, ◌∙◌, ◌≢◌, Bool, true, false, ◌&&◌, not, some, arith, ◌==◌,
  find_from, find_from-some, find_from-hits, update, update_self, update_ne, ==_self, ==_of_ne,
  lt→ltb, ℕ_discrete, ap₂,
}
use fantuan_kernel.Process.Types.{Proc, Procs, max_tasks}
use fantuan_kernel.Process.Identity.{on_exit, reapable}
use fantuan_kernel.Process.Identity.Unique.{IsIdentified, on_exit-keeps, ended}
use fantuan_kernel.Process.Lifecycle.{wait_round, collects, collected}

-- What `wait4` looks at in a record.
pub record Seen : Type 0 where
  pub used : Bool
  pub alive : Bool
  pub waited : Bool
  pub id : ℕ
  pub ppid : ℕ
  pub exit_status : ℕ

seen : Proc → Seen
seen p = record {
  used = p.used;
  alive = p.alive;
  waited = p.waited;
  id = p.id;
  ppid = p.ppid;
  exit_status = p.exit_status;
}

-- A child of the process of `cur`, with a positive pid, that nobody has collected.
pub record IsChild (ps : Procs) (cur c : ℕ) : Type 0 where
  pub in_table : c < max_tasks
  pub other : c ≢ cur
  pub used : (ps c).used ≡ true
  pub fresh : (ps c).waited ≡ false
  pub of_cur : (ps c).ppid ≡ (ps cur).id
  pub positive : 0 < (ps c).id
  pub pid : (ps c).id < 2 ^ 63

seen_self :
    (ps : Procs) (c status : ℕ)
    → (ps c).used ≡ true
    → seen (on_exit ps c status c) ≡ record (seen (ps c)) { alive = false; exit_status = status }
unfolding ended seen
seen_self ps c status u =
    on_exit-keeps seen (λ p m. refl) ps c status c u ∙ ap seen (update_self ps c _)

seen_other :
    (ps : Procs) (c status s : ℕ)
    → (ps c).used ≡ true
    → s ≢ c
    → seen (on_exit ps c status s) ≡ seen (ps s)
unfolding ended seen
seen_other ps c status s u n =
    on_exit-keeps seen (λ p m. refl) ps c status s u ∙ ap seen (update_ne ps c s _ n)

-- What `collects` tests for a positive pid.
collects_seen : Seen → ℕ → ℕ → Bool
collects_seen r parent pid =
    ((r.used && not r.alive) && (not r.waited && r.ppid == parent)) && r.id == pid

collects-seen :
    (ps : Procs) (cur pid s : ℕ)
    → 0 < pid
    → pid < 2 ^ 63
    → collects ps cur pid s ≡ collects_seen (seen (ps s)) (seen (ps cur)).id pid
unfolding collects_seen seen
collects-seen ps cur pid s h l = rw (==_of_ne pid 0 (omega arith), lt→ltb pid (2 ^ 63) l) refl

-- Of two records that look the same, the same is collected.
collects_child :
    (r : Seen) (parent status : ℕ)
    → r.used ≡ true
    → r.waited ≡ false
    → r.ppid ≡ parent
    → collects_seen (record r { alive = false; exit_status = status }) parent r.id ≡ true
unfolding collects_seen
collects_child r parent status u w p = rw (u, w, p, ==_self parent, ==_self r.id) refl

collected_id :
    (r : Seen) (parent pid : ℕ) → collects_seen r parent pid ≡ true → (r.used ≡ true) × (r.id ≡ pid)
unfolding collects_seen
collected_id r parent pid e = (ground arith, ground arith)

-- The only record that the parent collects by the child's pid is the child's.
only_one_hit :
    (ps : Procs) (n cur c status : ℕ)
    → IsIdentified ps n
    → IsChild ps cur c
    → find_from (collects (on_exit ps c status) cur (ps c).id) 0 max_tasks ≡ some c
unfolding seen
only_one_hit ps n cur c status v h =
    let qs = on_exit ps c status in
    let pid = (ps c).id in
    let test = collects qs cur pid in
    let parent : (seen (qs cur)).id ≡ (ps cur).id =
      ap (λ (r : Seen). r.id) (seen_other ps c status cur h.used (λ e. h.other (sym e))) in
    let hit : test c ≡ true =
      collects-seen qs cur pid c h.positive h.pid
      ∙ (ap (λ r. collects_seen r (seen (qs cur)).id pid) (seen_self ps c status h.used)
          ∙ (ap
                (λ m.
                  collects_seen (record (seen (ps c)) { alive = false; exit_status = status }) m
                    pid)
                parent
              ∙ collects_child (seen (ps c)) (ps cur).id status h.used h.fresh h.of_cur)) in
    let (i, found) =
      find_from-hits test 0 max_tasks c (omega arith) (omega (arith, h.in_table)) hit in
    let r = find_from-some test 0 max_tasks found in
    found
    ∙ ap some (elim (ℕ_discrete i c) [
      | yes e ↦ e
      | no d ↦
          let w =
            collected_id (seen (qs i)) (seen (qs cur)).id pid
              (sym (collects-seen qs cur pid i h.positive h.pid) ∙ r.2) in
          let same = seen_other ps c status i h.used d in
          v.distinct i c (sym (ap (λ (x : Seen). x.used) same) ∙ w.0) h.used
            (sym (ap (λ (x : Seen). x.id) same) ∙ w.1)
    ])

reapable_waited :
    (qs : Procs) (c : ℕ)
    → (qs c).used ≡ true
    → (qs c).alive ≡ false
    → reapable (update qs c (record (qs c) { waited = true })) c ≡ true
unfolding reapable update
reapable_waited qs c u a = rw (==_self c, u, a) refl

-- In a table without two processes of one id, when a child with a positive pid ends that nobody
-- has collected, its parent's next `wait4` for its pid returns that pid and the status, and the
-- child's slot may then be reaped.
pub wait_round-on_exit :
    (ps : Procs) (n cur c status : ℕ) (no_hang : Bool)
    → IsIdentified ps n
    → IsChild ps cur c
    → let (r, qs) = wait_round (on_exit ps c status) cur (ps c).id no_hang in
      (r ≡ collected (ps c).id status) × (reapable qs c ≡ true)
unfolding wait_round seen
wait_round-on_exit ps n cur c status b v h =
    let s = seen_self ps c status h.used in
    rw (only_one_hit ps n cur c status v h, wait_round)
      (
        ap₂ collected (ap (λ (x : Seen). x.id) s) (ap (λ (x : Seen). x.exit_status) s),
        reapable_waited (on_exit ps c status) c (ap (λ (x : Seen). x.used) s ∙ h.used)
            (ap (λ (x : Seen). x.alive) s),
      )
