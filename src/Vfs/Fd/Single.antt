-- ===== src/Vfs/Fd/Single.antt =====
-- The calls on one descriptor (kernel-core/src/vfs/fd.rs) keep the reference counts exact.
use fantuan_kernel.Base.{
  ℕ, ◌+◌, ◌-◌, ◌<◌, ◌≡◌, refl, sym, ap, ◌∙◌, false, none, some, arith, ◌==◌, leb, if◌then◌else◌,
  if_elim, Option-cases, Bool-cases, eq_of_==, subst, find_from-some, count-pos, ==_self, update,
  fun_ext, bit, update_ne, update_self, true≢false, inl, inr,
}
use fantuan_kernel.Vfs.Fd.{
  Fd, Files, all_fds, max_open, max_fds, max_tasks, at, clear_fd, close_open, attach, open_of,
  free_fd, close, dup_from, dup2, close_target, lowered, set_fd, add_ref, u8, empty_fd,
}
use fantuan_kernel.Vfs.Fd.Refs.{
  IsCounted, names, holders, holders-update, to_object, detach-IsCounted, attach-IsCounted,
}

-- An answer of `open_of` is in range, and the descriptor names it.
pub open_of-names :
    (f : Files) (slot fd idx : ℕ)
    → open_of f slot fd ≡ some idx
    → (fd < max_fds) × ((f.fds (at slot fd)).opened ≡ idx + 1)
unfolding open_of
open_of-names f slot fd idx e = elim (Bool-cases (leb max_fds fd)) [
  | inl t ↦ absurd (ground arith)
  | inr n ↦ elim (Bool-cases ((f.fds (at slot fd)).opened == 0)) [
    | inl z ↦ absurd (ground arith)
    | inr y ↦ (ground arith, ground arith)
  ]
]

pub free_fd-free :
    (f : Files) (slot min fd : ℕ)
    → free_fd f slot min ≡ some fd
    → (fd < max_fds) × ((f.fds (at slot fd)).opened ≡ 0)
unfolding free_fd
free_fd-free f slot min fd e =
    let r = find_from-some (λ i. (f.fds (at slot i)).opened == 0) min (max_fds - min) {i = fd} e in
    (omega (arith, r.0, r.1), eq_of_== (f.fds (at slot fd)).opened 0 r.2)

-- An object that an entry names is in the table and its count is positive.
pub named-Held :
    (f : Files) (k idx : ℕ)
    → IsCounted f
    → k < all_fds
    → (f.fds k).opened ≡ idx + 1
    → (idx < max_open) × (0 < (f.opens idx).refs)
named-Held f k idx v l e = (
  omega (arith, e, v.known k),
  omega (
    arith,
    v.exact idx,
    count-pos (names f.fds idx) all_fds k l (ap (λ n. n == idx + 1) e ∙ ==_self (idx + 1)),
  ),
)

-- Where the counts are exact, `close` on any descriptor of a task, open or not, keeps them exact.
pub close-IsCounted :
    (f : Files) (slot fd : ℕ) → IsCounted f → slot < max_tasks → IsCounted (close f slot fd).1
unfolding close
close-IsCounted f slot fd v l = elim (Option-cases (open_of f slot fd)) [
  | inl e ↦ rw (close, e) v
  | inr r ↦
      let n = open_of-names f slot fd r.0 r.1 in
      rw (close, r.1) (detach-IsCounted f (at slot fd) r.0 v (omega (arith, l, n.0)) n.1)
]

-- Where the counts are exact and all are below 255, `dup` and F_DUPFD keep them exact on every
-- outcome.
pub dup_from-IsCounted :
    (f : Files) (slot fd min : ℕ)
    → IsCounted f
    → slot < max_tasks
    → ((i : ℕ) → (f.opens i).refs < 255)
    → IsCounted (dup_from f slot fd min).1
unfolding dup_from
dup_from-IsCounted f slot fd min v l room = elim (Option-cases (open_of f slot fd)) [
  | inl e ↦ rw (dup_from, e) v
  | inr r ↦ elim (Option-cases (free_fd f slot min)) [
    | inl e ↦ rw (dup_from, r.1, e) v
    | inr w ↦
        let n = open_of-names f slot fd r.0 r.1 in
        let m = free_fd-free f slot min w.0 w.1 in
        let h = named-Held f (at slot fd) r.0 v (omega (arith, l, n.0)) n.1 in
        rw (dup_from, r.1, w.1)
          (attach-IsCounted f (at slot w.0) r.0 v (omega (arith, l, m.0)) h.0 m.1 h.1 (room r.0))
  ]
]

-- Attaching overwrites what the entry was.
attach-clear : (f : Files) (k idx : ℕ) → attach (clear_fd f k) k idx ≡ attach f k idx
unfolding attach set_fd add_ref clear_fd update
attach-clear f k idx =
    ap
      (λ (t : ℕ → Fd). record f {
        fds = t;
        opens = update f.opens idx (record (f.opens idx) { refs = u8 ((f.opens idx).refs + 1) });
      })
      (fun_ext (λ j.
        if_elim
          (λ (e : Fd).
            (if j == k then to_object idx else e) ≡ (if j == k then to_object idx else f.fds j))
          (j == k) (λ t. rw t) (λ n. refl)))

pub cleared-fds :
    (f : Files) (i k : ℕ) → (clear_fd (close_open f i) k).fds ≡ update f.fds k empty_fd
unfolding close_open clear_fd
cleared-fds f i k =
    if_elim (λ (g : Files). (clear_fd g k).fds ≡ update f.fds k empty_fd)
      ((lowered (f.opens i)).refs == 0) (λ t. refl) (λ t. refl)

empty-unnamed : (i : ℕ) → bit (empty_fd.opened == i + 1) ≡ 0
empty-unnamed i = ground arith

pub open_of-free :
    (f : Files) (slot fd : ℕ)
    → fd < max_fds
    → open_of f slot fd ≡ none
    → (f.fds (at slot fd)).opened ≡ 0
unfolding open_of
open_of-free f slot fd l e = elim (Bool-cases ((f.fds (at slot fd)).opened == 0)) [
  | inl z ↦ eq_of_== (f.fds (at slot fd)).opened 0 z
  | inr y ↦ absurd (ground arith)
]

-- The end of `dup2`, which points a descriptor that may be in use at the object of another one.
dup2_end :
    (f : Files) (slot old new idx : ℕ)
    → IsCounted f
    → slot < max_tasks
    → ((i : ℕ) → (f.opens i).refs < 255)
    → open_of f slot old ≡ some idx
    → (old == new) ≡ false
    → new < max_fds
    → IsCounted (attach (close_target f slot new) (at slot new) idx)
unfolding close_target
dup2_end f slot old new idx v l room e d m =
    let n = open_of-names f slot old idx e in
    elim (Option-cases (open_of f slot new)) [
      | inl z ↦
          rw (close_target, lowered, z)
            (let h = named-Held f (at slot old) idx v (omega (arith, l, n.0)) n.1 in
              attach-IsCounted f (at slot new) idx v (omega (arith, l, m)) h.0
                (open_of-free f slot new m z) h.1 (room idx))
      | inr r ↦
          let w = open_of-names f slot new r.0 r.1 in
          let g = clear_fd (close_open f r.0) (at slot new) in
          let q = cleared-fds f r.0 (at slot new) in
          let c = detach-IsCounted f (at slot new) r.0 v (omega (arith, l, m)) w.1 in
          let h = named-Held g (at slot old) idx c (omega (arith, l, n.0)) (
            ap (λ (t : ℕ → Fd). (t (at slot old)).opened) q
            ∙ ap (λ (e : Fd). e.opened)
                (update_ne f.fds (at slot new) (at slot old) empty_fd
                  (λ p. true≢false (sym (ap (λ x. x == new) (omega (arith, p)) ∙ ==_self new) ∙ d)))
            ∙ n.1) in
          rw (close_target, lowered, r.1)
            (subst IsCounted (attach-clear (close_open f r.0) (at slot new) idx) (
              attach-IsCounted g (at slot new) idx c (omega (arith, l, m)) h.0
                (ap (λ (t : ℕ → Fd). (t (at slot new)).opened) q
                  ∙ ap (λ (e : Fd). e.opened) (update_self f.fds (at slot new) empty_fd))
                h.1
                (omega (
                  arith,
                  empty-unnamed idx,
                  c.exact idx,
                  ap (λ (t : ℕ → Fd). holders t idx) q,
                  holders-update f.fds (at slot new) idx empty_fd (omega (arith, l, m)),
                  v.exact idx,
                  room idx,
                ))))
    ]

-- Where the counts are exact and all are below 255, `dup2` keeps them exact on every outcome, also
-- when it closes what the new descriptor was.
pub dup2-IsCounted :
    (f : Files) (slot old new : ℕ)
    → IsCounted f
    → slot < max_tasks
    → ((i : ℕ) → (f.opens i).refs < 255)
    → IsCounted (dup2 f slot old new).1
unfolding dup2
dup2-IsCounted f slot old new v l room = elim (Option-cases (open_of f slot old)) [
  | inl e ↦ rw (dup2, e) v
  | inr r ↦ elim (Bool-cases (old == new)) [
    | inl t ↦ rw (dup2, r.1, t) v
    | inr d ↦ elim (Bool-cases (leb max_fds new)) [
      | inl t ↦ rw (dup2, r.1, d, t) v
      | inr m ↦
          rw (dup2, r.1, d, m) (dup2_end f slot old new r.0 v l room r.1 d (ground (arith, m)))
    ]
  ]
]
