-- ===== src/Task/Pick.antt =====
-- The choice of the scheduler.
use fantuan_kernel.Base.{
  ℕ, ◌+◌, ◌-◌, ◌%◌, ◌≤◌, ◌<◌, ◌≡◌, ap, ◌∙◌, sym, true, Option, none, some, arith, find_from,
  find_from-some, find_from-none, Option-cases, inl, inr, Bool, true≢false, dec_lt,
}
use fantuan_kernel.Process.Types.{max_tasks}
use fantuan_kernel.Task.{Task, is_ready, pick}

-- How many slots after the one behind `cur` the slot m comes, round the table.
abbrev pub behind : ℕ → ℕ → ℕ
behind cur m = (m + 15 - cur) % max_tasks

-- Slot m holds a ready task.
abbrev pub Ready : (ℕ → Task) → ℕ → Type 0
Ready ts m = is_ready (ts m).state ≡ true

-- The outcome of the choice: the ready task that comes first after the current one, or none when
-- no task is ready.
abbrev pub Picked : (ℕ → Task) → ℕ → Option ℕ → Type 0
Picked ts cur (some n) =
    (n < max_tasks)
    × Ready ts n
    × ((m : ℕ) → m < max_tasks → Ready ts m → behind cur n ≤ behind cur m)
Picked ts cur none = (m : ℕ) → m < max_tasks → ¬ Ready ts m

-- Slot m is the one at the offset `behind cur m + 1`.
at_offset :
    (cur m : ℕ) → cur < max_tasks → m < max_tasks → (cur + (behind cur m + 1)) % max_tasks ≡ m
at_offset cur m l h = omega (arith, l, h)

offset_behind :
    (cur off : ℕ)
    → cur < max_tasks
    → 1 ≤ off
    → off < 17
    → behind cur ((cur + off) % max_tasks) + 1 ≡ off
offset_behind cur off l h k = omega (arith, l, h, k)

-- The scheduler chooses the first ready task after the current one, which itself comes last.
pub pick-Picked : (ts : ℕ → Task) (cur : ℕ) → cur < max_tasks → Picked ts cur (pick ts cur)
unfolding pick
pick-Picked ts cur l =
    let free : ℕ → Bool = λ off. is_ready (ts ((cur + off) % max_tasks)).state in
    let shifted = λ (m : ℕ) (h : m < max_tasks) (r : Ready ts m).
      ap (λ i. is_ready (ts i).state) (at_offset cur m l h) ∙ r in
    elim (Option-cases (find_from free 1 max_tasks)) [
      | inl e ↦
          rw (e, pick)
            (λ m h r. true≢false (
              sym (shifted m h r)
              ∙ find_from-none free 1 max_tasks e (behind cur m + 1) (omega arith) (omega arith)))
      | inr (off, e) ↦
          let f = find_from-some free 1 max_tasks e in
          rw (e, pick)
            (
              omega arith,
              f.2,
              λ m h r. elim (dec_lt (behind cur m + 1) off) [
                | yes q ↦
                    absurd
                      (true≢false (sym (shifted m h r) ∙ f.3 (behind cur m + 1) (omega arith) q))
                | no q ↦ omega (arith, q, offset_behind cur off l f.0 f.1)
              ],
            )
    ]
