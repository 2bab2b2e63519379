-- ===== src/Vfs/Fd/Tables.antt =====
-- The loops over a task's whole table (kernel-core/src/vfs/fd.rs), and the counter at its top.
use fantuan_kernel.Base.{
  ℕ, zero, suc, ◌+◌, ◌-◌, ◌<◌, ◌≤◌, ◌≡◌, refl, ap, ◌∙◌, Bool, true, false, not, ◌&&◌, ◌||◌, arith,
  ◌==◌, if◌then◌else◌, if_elim, Bool-cases, subst, update_self, update_ne, inl, inr, ◌⊎◌, ◌≢◌,
  dec_lt,
}
use fantuan_kernel.Vfs.Fd.{
  Fd, Open, Files, all_fds, max_fds, max_tasks, at, close_open, lowered, attach, close_entry,
  close_entries, close_all, exec_close, empty_fd, empty_open, u8, add_ref, set_fd,
}
use fantuan_kernel.Vfs.Fd.Refs.{IsCounted, raised, detach-IsCounted}
use fantuan_kernel.Vfs.Fd.Single.{cleared-fds}

-- An entry that the loops of `close_all_unlocked` and `exec_close` clear.
abbrev pub is_closing : Bool → Fd → Bool
is_closing only_cloexec e = not (e.opened == 0) && (not only_cloexec || e.cloexec)

close_entry-IsCounted :
    (b : Bool) (f : Files) (k : ℕ) → IsCounted f → k < all_fds → IsCounted (close_entry b f k)
unfolding close_entry
close_entry-IsCounted b f k v l =
    if_elim IsCounted (is_closing b (f.fds k))
      (λ t. detach-IsCounted f k ((f.fds k).opened - 1) v l (ground (arith, t))) (λ n. v)

-- What the loop leaves of an entry.
abbrev pub left : Bool → Fd → Fd
left b e = if is_closing b e then empty_fd else e

close_entry_self : (b : Bool) (f : Files) (k : ℕ) → (close_entry b f k).fds k ≡ left b (f.fds k)
unfolding close_entry
close_entry_self b f k = elim (Bool-cases (is_closing b (f.fds k))) [
  | inl t ↦ rw t (
      ap (λ (t : ℕ → Fd). t k) (cleared-fds f ((f.fds k).opened - 1) k)
      ∙ update_self f.fds k empty_fd)
  | inr e ↦ rw e
]

close_entry-ne : (b : Bool) (f : Files) (k j : ℕ) → j ≢ k → (close_entry b f k).fds j ≡ f.fds j
unfolding close_entry
close_entry-ne b f k j h = elim (Bool-cases (is_closing b (f.fds k))) [
  | inl t ↦ rw t (
      ap (λ (t : ℕ → Fd). t j) (cleared-fds f ((f.fds k).opened - 1) k)
      ∙ update_ne f.fds k j empty_fd h)
  | inr e ↦ rw e
]

pub close_entries-IsCounted :
    (b : Bool) (f : Files) (k n : ℕ)
    → IsCounted f
    → k + n ≤ all_fds
    → IsCounted (close_entries b f k n)
unfolding close_entries
close_entries-IsCounted b f k zero v l = v
close_entries-IsCounted b f k (suc n) v l =
    close_entries-IsCounted b (close_entry b f k) (k + 1) n
      (close_entry-IsCounted b f k v (omega (arith, l))) (omega (arith, l))

pub close_entries-outside :
    (b : Bool) (f : Files) (k n j : ℕ)
    → (j < k) ⊎ (k + n ≤ j)
    → (close_entries b f k n).fds j ≡ f.fds j
unfolding close_entries
close_entries-outside b f k zero j h = refl
close_entries-outside b f k (suc n) j h =
    close_entries-outside b (close_entry b f k) (k + 1) n j
      (elim h [ inl l ↦ inl (omega arith) | inr l ↦ inr (omega arith) ])
    ∙ close_entry-ne b f k j (elim h [ inl l ↦ λ e. omega arith | inr l ↦ λ e. omega arith ])

pub close_entries-inside :
    (b : Bool) (f : Files) (k n j : ℕ)
    → k ≤ j
    → j < k + n
    → (close_entries b f k n).fds j ≡ left b (f.fds j)
unfolding close_entries
close_entries-inside b f k zero j l m = absurd (omega arith)
close_entries-inside b f k (suc n) j l m = elim (dec_lt k j) [
  | yes q ↦
      close_entries-inside b (close_entry b f k) (k + 1) n j (omega arith) (omega arith)
      ∙ ap (left b) (close_entry-ne b f k j (λ e. omega arith))
  | no q ↦
      subst (λ i. (close_entries b (close_entry b f k) (k + 1) n).fds i ≡ left b (f.fds i)) {x = k}
        {y = j} (omega arith)
        (close_entries-outside b (close_entry b f k) (k + 1) n k (inl (omega arith))
          ∙ close_entry_self b f k)
]

-- Every entry of the table after a pass over one task: in the task's row what `left` says, elsewhere
-- as before; and the counts are exact.
pub record Passed (b : Bool) (f : Files) (slot : ℕ) (g : Files) : Type 0 where
  pub counted : IsCounted g
  pub row : (fd : ℕ) → fd < max_fds → g.fds (at slot fd) ≡ left b (f.fds (at slot fd))
  pub others : (s fd : ℕ) → s ≢ slot → fd < max_fds → g.fds (at s fd) ≡ f.fds (at s fd)

other_row :
    {slot : ℕ} (s fd : ℕ)
    → s ≢ slot
    → fd < max_fds
    → (at s fd < at slot 0) ⊎ (at slot 0 + max_fds ≤ at s fd)
other_row {slot = slot} s fd h m = elim (dec_lt s slot) [
  | yes l ↦ inl (omega arith)
  | no g ↦ inr (omega arith)
]

passed :
    (b : Bool) (f : Files) (slot : ℕ)
    → IsCounted f
    → slot < max_tasks
    → Passed b f slot (close_entries b f (at slot 0) max_fds)
passed b f slot v l = record {
  counted = close_entries-IsCounted b f (at slot 0) max_fds v (omega arith);
  row =
      λ fd m. close_entries-inside b f (at slot 0) max_fds (at slot fd) (omega arith) (omega arith);
  others = λ s fd h m. close_entries-outside b f (at slot 0) max_fds (at s fd) (other_row s fd h m);
}

-- Where the counts are exact, `close_all` frees the whole row of the task, keeps the rows of the
-- other tasks, and leaves exact counts.
pub close_all-Passed :
    (f : Files) (slot : ℕ) → IsCounted f → slot < max_tasks → Passed false f slot (close_all f slot)
unfolding close_all close_entries
close_all-Passed f slot v l = passed false f slot v l

-- Where the counts are exact, `exec_close` frees the descriptors of the row that are marked
-- close-on-exec, keeps the others and the other rows, and leaves exact counts.
pub exec_close-Passed :
    (f : Files) (slot : ℕ) → IsCounted f → slot < max_tasks → Passed true f slot (exec_close f slot)
unfolding exec_close close_entries
exec_close-Passed f slot v l = passed true f slot v l

-- Letting go of an object whose count is 0 or 1 frees its slot.
close_open-last : (f : Files) (i : ℕ) → (f.opens i).refs ≤ 1 → (close_open f i).opens i ≡ empty_open
unfolding close_open
close_open-last f i l =
    if_elim (λ (g : Files). g.opens i ≡ empty_open) ((lowered (f.opens i)).refs == 0)
      (λ t. update_self f.opens i empty_open) (λ n. absurd (ground (arith, n, l)))

attach-refs :
    (f : Files) (k idx : ℕ) → ((attach f k idx).opens idx).refs ≡ u8 ((f.opens idx).refs + 1)
unfolding attach set_fd add_ref
attach-refs f k idx = ap (λ (o : Open). o.refs) (update_self f.opens idx (raised (f.opens idx)))

-- The counter wraps: at 255, one more reference to an object leaves its count at 0, and the next
-- `close_open` of the object frees its slot, whatever descriptors still name it.
pub full_count-freed :
    (f : Files) (k idx : ℕ)
    → (f.opens idx).refs ≡ 255
    → (((attach f k idx).opens idx).refs ≡ 0)
      × ((close_open (attach f k idx) idx).opens idx ≡ empty_open)
full_count-freed f k idx e =
    let r : ((attach f k idx).opens idx).refs ≡ 0 = attach-refs f k idx ∙ ap (λ n. u8 (n + 1)) e in
    (r, close_open-last (attach f k idx) idx (omega (arith, r)))
