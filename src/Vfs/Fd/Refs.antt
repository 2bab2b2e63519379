-- ===== src/Vfs/Fd/Refs.antt =====
-- The reference count of an open object is the number of descriptors that name it.
use fantuan_kernel.Base.{
  ℕ, ◌+◌, ◌-◌, ◌≤◌, ◌<◌, ◌≡◌, refl, sym, ap, ◌∙◌, Bool, false, arith, ◌==◌, ltb, if◌then◌else◌,
  if_elim, update, update_lem, ap-update, count, count-ext, count-update, bit, ℕ_discrete, eq_of_==,
}
use fantuan_kernel.Vfs.Pipe.{Pipes}
use fantuan_kernel.Vfs.Fd.{
  Fd, Open, Files, all_fds, max_open, empty_fd, empty_open, u8, set_fd, clear_fd, add_ref,
  close_open, lowered, attach,
}

-- Entry k names object i.
abbrev pub names : (ℕ → Fd) → ℕ → ℕ → Bool
names fds i k = (fds k).opened == i + 1

-- How many entries name object i.
abbrev pub holders : (ℕ → Fd) → ℕ → ℕ
holders fds i = count (names fds i) all_fds

-- Every object's count is exact, every object in use is held, an unused one is not, and every
-- entry names an object of the table.
pub record IsCounted (f : Files) : Type 0 where
  pub exact : (i : ℕ) → (f.opens i).refs ≡ holders f.fds i
  pub used : (i : ℕ) → (f.opens i).used ≡ ltb 0 (f.opens i).refs
  pub known : (k : ℕ) → (f.fds k).opened ≤ max_open

-- One write to the descriptor table moves the holders of an object by what the old and the new
-- entry name.
pub holders-update :
    (fds : ℕ → Fd) (k i : ℕ) (e : Fd)
    → k < all_fds
    → holders (update fds k e) i + bit ((fds k).opened == i + 1)
      ≡ holders fds i + bit (e.opened == i + 1)
holders-update fds k i e l = omega (
  arith,
  count-ext (names (update fds k e) i) (update (names fds i) k (e.opened == i + 1)) all_fds
      (λ j m. ap-update (λ (d : Fd). d.opened == i + 1) fds k e j),
  count-update (names fds i) all_fds k (e.opened == i + 1) l,
)

-- What one object's count is after a write to the table of objects.
pub refs-update :
    (opens : ℕ → Open) (j i : ℕ) (o : Open)
    → (update opens j o i).refs ≡ (if i == j then o.refs else (opens i).refs)
refs-update opens j i o =
    ap-update (λ (a : Open). a.refs) opens j o i ∙ update_lem (λ k. (opens k).refs) j i o.refs

pub used-update :
    (opens : ℕ → Open) (j i : ℕ) (o : Open)
    → (o.used ≡ ltb 0 o.refs)
    → ((opens i).used ≡ ltb 0 (opens i).refs)
    → (update opens j o i).used ≡ ltb 0 (update opens j o i).refs
unfolding update
used-update opens j i o h g =
    if_elim (λ (a : Open). a.used ≡ ltb 0 a.refs) (i == j) (λ t. h) (λ t. g)

pub known-update :
    (fds : ℕ → Fd) (k i : ℕ) (e : Fd)
    → e.opened ≤ max_open
    → (fds i).opened ≤ max_open
    → (update fds k e i).opened ≤ max_open
unfolding update
known-update fds k i e h g = if_elim (λ (a : Fd). a.opened ≤ max_open) (i == k) (λ t. h) (λ t. g)

abbrev pub raised : Open → Open
raised o = record o { refs = u8 (o.refs + 1) }

abbrev pub to_object : ℕ → Fd
to_object idx = record { opened = idx + 1; cloexec = false }

-- A count that is raised with the holders stays exact,
rise :
    (r n m i idx : ℕ)
    → n + bit (0 == i + 1) ≡ m + bit (idx + 1 == i + 1)
    → (i ≡ idx → m ≡ r)
    → r < 255
    → (if i == idx then u8 (r + 1) else m) ≡ n
rise r n m i idx e c room = elim (ℕ_discrete i idx) [
  | yes t ↦ rw (t) (ground (arith, e, c t))
  | no t ↦ ground (arith, e)
]

-- and so does one that is lowered with them.
fall :
    (r n m i idx : ℕ)
    → n + bit (idx + 1 == i + 1) ≡ m + bit (0 == i + 1)
    → (i ≡ idx → m ≡ r)
    → (if i == idx then r - 1 else m) ≡ n
fall r n m i idx e c = elim (ℕ_discrete i idx) [
  | yes t ↦ rw (t) (ground (arith, e, c t))
  | no t ↦ ground (arith, e)
]

-- Taking a free entry for an object whose count stays below 256 keeps the counts exact.
pub attach-IsCounted :
    (f : Files) (k idx : ℕ)
    → IsCounted f
    → k < all_fds
    → idx < max_open
    → (f.fds k).opened ≡ 0
    → 0 < (f.opens idx).refs
    → (f.opens idx).refs < 255
    → IsCounted (attach f k idx)
unfolding attach set_fd add_ref
attach-IsCounted f k idx v l m free held room = record {
  exact = λ i.
      refs-update f.opens idx i (raised (f.opens idx))
      ∙ rise (f.opens idx).refs (holders (update f.fds k (to_object idx)) i) (f.opens i).refs i idx
          (omega (
            arith,
            holders-update f.fds k i (to_object idx) l,
            v.exact i,
            ap (λ n. bit (n == i + 1)) free,
          ))
          (λ e. ap (λ j. (f.opens j).refs) e) room;
  used = λ i.
      used-update f.opens idx i (raised (f.opens idx)) (v.used idx ∙ ground (arith, held, room))
        (v.used i);
  known = λ j. known-update f.fds k j (to_object idx) (omega (arith, m)) (v.known j);
}

-- Letting go of the object that entry k names, and clearing the entry, keeps the counts exact.
pub detach-IsCounted :
    (f : Files) (k idx : ℕ)
    → IsCounted f
    → k < all_fds
    → (f.fds k).opened ≡ idx + 1
    → IsCounted (clear_fd (close_open f idx) k)
unfolding close_open clear_fd
detach-IsCounted f k idx v l h =
    if_elim (λ g. IsCounted (clear_fd g k)) ((lowered (f.opens idx)).refs == 0)
      (λ t. close_with empty_open (sym (eq_of_== ((f.opens idx).refs - 1) 0 t)) refl)
      (λ n. close_with (lowered (f.opens idx)) refl (v.used idx ∙ ground (arith, n)))
  where
    close_with :
        (o : Open)
        → o.refs ≡ (f.opens idx).refs - 1
        → o.used ≡ ltb 0 o.refs
        → {pipes : Pipes}
        → IsCounted (clear_fd (record f { opens = update f.opens idx o; pipes = pipes }) k)
    close_with o e u = record {
      exact = λ i.
          refs-update f.opens idx i o
          ∙ ap (λ r. if i == idx then r else (f.opens i).refs) e
          ∙ fall (f.opens idx).refs (holders (update f.fds k empty_fd) i) (f.opens i).refs i idx
              (omega (
                arith,
                holders-update f.fds k i empty_fd l,
                v.exact i,
                ap (λ n. bit (n == i + 1)) h,
              ))
              (λ e. ap (λ j. (f.opens j).refs) e);
      used = λ i. used-update f.opens idx i o u (v.used i);
      known = λ j. known-update f.fds k j empty_fd (omega arith) (v.known j);
    }
