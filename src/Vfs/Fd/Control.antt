-- ===== src/Vfs/Fd/Control.antt =====
-- `fcntl` (kernel-core/src/vfs/fd.rs) and the reference counts.
use fantuan_kernel.Base.{
  ℕ, ◌%◌, ◌<◌, ◌≡◌, refl, sym, ap, ◌∙◌, arith, ◌==◌, ltb, if_elim, eq_of_==, Option-cases, inl, inr,
}
use fantuan_kernel.Vfs.Errno.{Result}
use fantuan_kernel.Vfs.Fd.{Fd, Open, Files, all_fds, max_tasks, at, open_of}
use fantuan_kernel.Vfs.Fd.Refs.{IsCounted, holders-update, refs-update, used-update, known-update}
use fantuan_kernel.Vfs.Fd.Single.{open_of-names, dup_from-IsCounted}
use fantuan_kernel.Vfs.Fd.Calls.{set_cloexec, set_flags, with_nonblock, fcntl_open, fcntl}

set_cloexec-IsCounted :
    (f : Files) (k arg : ℕ) → IsCounted f → k < all_fds → IsCounted (set_cloexec f k arg)
unfolding set_cloexec
set_cloexec-IsCounted f k arg v l =
    let e : Fd = record (f.fds k) { cloexec = arg % 2 == 1 } in
    record {
      exact = λ i. omega (arith, v.exact i, holders-update f.fds k i e l);
      used = v.used;
      known = λ j. known-update f.fds k j e (v.known k) (v.known j);
    }

set_flags-IsCounted : (f : Files) (idx arg : ℕ) → IsCounted f → IsCounted (set_flags f idx arg)
unfolding set_flags
set_flags-IsCounted f idx arg v =
    let o : Open = record (f.opens idx) { flags = with_nonblock (f.opens idx).flags arg } in
    record {
      exact = λ i.
          refs-update f.opens idx i o
          ∙ (if_elim (λ n. n ≡ (f.opens i).refs) (i == idx)
                (λ t. ap (λ j. (f.opens j).refs) (sym (eq_of_== i idx t))) (λ n. refl)
              ∙ v.exact i);
      used = λ i. used-update f.opens idx i o (v.used idx) (v.used i);
      known = v.known;
    }

-- Where the counts are exact and all are below 255, `fcntl` keeps them exact, for every command and
-- on every outcome.
pub fcntl-IsCounted :
    (f : Files) (slot fd cmd arg : ℕ)
    → IsCounted f
    → slot < max_tasks
    → ((i : ℕ) → (f.opens i).refs < 255)
    → IsCounted (fcntl f slot fd cmd arg).1
unfolding fcntl fcntl_open
fcntl-IsCounted f slot fd cmd arg v l room =
    if_elim counted (cmd == 0) (λ t. dup_from-IsCounted f slot fd arg v l room)
      λ z.
        if_elim counted (ltb 4 cmd) (λ t. v)
          λ w. elim (Option-cases (open_of f slot fd)) [
            | inl e ↦ rw (e, fcntl) v
            | inr (idx, e) ↦
                let n = open_of-names f slot fd idx e in
                rw (e, fcntl)
                  (if_elim counted (cmd == 1) (λ t. v)
                    λ a.
                      if_elim counted (cmd == 2)
                        (λ t. set_cloexec-IsCounted f (at slot fd) arg v (omega (arith, l, n.0)))
                        λ b.
                          if_elim counted (cmd == 3) (λ t. v)
                            (λ c. set_flags-IsCounted f idx arg v))
          ]
  where
    counted : Result ℕ × Files → Type 0
    counted r = IsCounted r.1
