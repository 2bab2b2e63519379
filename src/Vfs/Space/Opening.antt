-- ===== src/Vfs/Space/Opening.antt =====
-- `open`: the descriptor it returns was free and names a new open object, and the counts stay exact.
use fantuan_kernel.Base.{
  ℕ, ◌+◌, ◌<◌, ◌≡◌, refl, sym, ap, ◌∙◌, ◌⊎◌, inl, inr, Bool, true, false, not, ◌&&◌, ◌||◌, List,
  Option, some, none, arith, update, update_twice, update_self, Option-cases, if_elim, subst, ◌==◌,
  eq_of_==, find_from-some, bit, if◌then◌else◌, ℕ_discrete,
}
use fantuan_kernel.Vfs.Errno.{Err, Result, ok, err, isdir, mfile}
use fantuan_kernel.Vfs.Tmpfs.{Tree, root, is_dir, truncate}
use fantuan_kernel.Vfs.Fd.{
  Fd, Open, Files, alloc_open, free_fd, install, fresh_open, set_fd, at, all_fds, max_open, max_fds,
  max_tasks, has_cloexec, has_wronly, empty_open,
}
use fantuan_kernel.Vfs.Fd.Refs.{
  IsCounted, holders, holders-update, refs-update, used-update, known-update,
}
use fantuan_kernel.Vfs.Fd.Single.{free_fd-free}
use fantuan_kernel.Vfs.Space.{
  Space, Target, at_node, at_image, open_path, open_target, open_node, open_image, resolve,
  install_free, finish, finish_image, with_index, set_image, has_append, has_trunc,
}

-- A free open object is held by no descriptor.
alloc_open-free :
    (f : Files) (idx : ℕ)
    → IsCounted f
    → alloc_open f ≡ some idx
    → (idx < max_open) × ((f.opens idx).refs ≡ 0)
unfolding alloc_open
alloc_open-free f idx v e =
    let r = find_from-some (λ i. not (f.opens i).used) 0 max_open {i = idx} e in
    let u : not (f.opens idx).used ≡ true = r.2 in (omega (arith, r), ground (arith, v.used idx, u))

-- What an install leaves: the object o at idx, named by entry k.
abbrev placed : Files → ℕ → ℕ → Open → Bool → Files
placed f k idx o cloexec = set_fd (record f { opens = update f.opens idx o }) k idx cloexec

start :
    (n m i idx : ℕ)
    → n + bit (0 == i + 1) ≡ m + bit (idx + 1 == i + 1)
    → (i ≡ idx → m ≡ 0)
    → (if i == idx then 1 else m) ≡ n
start n m i idx e c = elim (ℕ_discrete i idx) [
  | yes t ↦ rw t (ground (arith, e, c t))
  | no t ↦ ground (arith, e)
]

placed-IsCounted :
    (f : Files) (k idx : ℕ) (o : Open) (cloexec : Bool)
    → IsCounted f
    → k < all_fds
    → idx < max_open
    → (f.fds k).opened ≡ 0
    → (f.opens idx).refs ≡ 0
    → o.refs ≡ 1
    → o.used ≡ true
    → IsCounted (placed f k idx o cloexec)
unfolding set_fd
placed-IsCounted f k idx o cloexec v l m free unheld one used = record {
  exact = λ i.
      let e : Fd = record { opened = idx + 1; cloexec = cloexec } in
      refs-update f.opens idx i o
      ∙ ap (λ r. if i == idx then r else (f.opens i).refs) one
      ∙ start (holders (update f.fds k e) i) (f.opens i).refs i idx
          (omega (arith, holders-update f.fds k i e l, v.exact i, ap (λ n. bit (n == i + 1)) free))
          (λ q. ap (λ j. (f.opens j).refs) q ∙ unheld);
  used = λ i. used-update f.opens idx i o (ground (arith, one, used)) (v.used i);
  known = λ j.
      known-update f.fds k j (record { opened = idx + 1; cloexec = cloexec }) (omega (arith, m))
        (v.known j);
}

-- `install` finds no free descriptor, or takes one that was free.
pub install-cases :
    (f : Files) (slot idx flags node pipe : ℕ)
    → (install f slot idx flags node pipe ≡ (none, f))
      ⊎ ((fd : ℕ) × (fd < max_fds)
          × ((f.fds (at slot fd)).opened ≡ 0)
          × (install f slot idx flags node pipe ≡ (
            some fd,
            placed f (at slot fd) idx (fresh_open node flags 1 pipe) (has_cloexec flags),
          )))
unfolding install
install-cases f slot idx flags node pipe = elim (Option-cases (free_fd f slot 0)) [
  | inl n ↦ inl (rw (install, n))
  | inr (fd, r) ↦ let g = free_fd-free f slot 0 fd r in inr (fd, g.0, g.1, rw (install, r))
]

-- What `open` leaves of the tables: as they were, or with one new object that one free descriptor
-- of the task names.
pub data Opens (f : Files) (slot flags : ℕ) : Result ℕ → Files → Type 0 where
  fails : (e : Err) → Opens f slot flags (err e) f
  gives_up :
      (e : Err) (idx : ℕ)
      → idx < max_open
      → (f.opens idx).used ≡ false
      → Opens f slot flags (err e) (record f { opens = update f.opens idx empty_open })
  opens :
      (fd idx : ℕ) (o : Open)
      → fd < max_fds
      → idx < max_open
      → (f.fds (at slot fd)).opened ≡ 0
      → (f.opens idx).used ≡ false
      → o.refs ≡ 1
      → o.used ≡ true
      → o.offset ≡ 0
      → o.flags ≡ flags
      → Opens f slot flags (ok fd) (placed f (at slot fd) idx o (has_cloexec flags))

alloc_open-unused :
    (f : Files) (idx : ℕ)
    → alloc_open f ≡ some idx
    → (idx < max_open) × ((f.opens idx).used ≡ false)
unfolding alloc_open
alloc_open-unused f idx e =
    let r = find_from-some (λ i. not (f.opens i).used) 0 max_open {i = idx} e in
    let u : not (f.opens idx).used ≡ true = r.2 in (omega (arith, r), ground (arith, u))

install_free-Opens :
    (s : Space) (slot flags i : ℕ)
    → (let r : Result ℕ × Space = finish s (install_free s.files slot flags i) in
        Opens s.files slot flags r.0 r.1.files)
unfolding install_free
install_free-Opens s slot flags i = elim (Option-cases (alloc_open s.files)) [
  | inl e ↦ rw (install_free, e) (fails mfile)
  | inr (idx, e) ↦
      let u = alloc_open-unused s.files idx e in
      elim (install-cases s.files slot idx flags i 0) [
        | inl q ↦ rw (install_free, e) (subst (P idx) (sym q) (fails mfile))
        | inr (fd, l, free, q) ↦
            rw (install_free, e)
              (subst (P idx) (sym q)
                (opens fd idx (fresh_open i flags 1 0) l u.0 free u.1 refl refl refl refl))
      ]
]
  where
    P : ℕ → Option ℕ × Files → Type 0
    P idx r =
        Opens s.files slot flags (finish s (with_index idx r)).0
          (finish s (with_index idx r)).1.files

open_node-Opens :
    (s : Space) (slot flags i : ℕ)
    → Opens s.files slot flags (open_node s slot flags i).0 (open_node s slot flags i).1.files
unfolding open_node
open_node-Opens s slot flags i =
    if_elim (λ (r : Result ℕ × Space). Opens s.files slot flags r.0 r.1.files)
      (is_dir (s.tree.nodes i).kind && (has_wronly flags || has_append flags)) (λ t. fails isdir)
      (λ n.
        install_free-Opens
          (record s { tree = (if has_trunc flags then truncate s.tree i else s.tree) }) slot flags
          i)

-- The object of an install with its image set.
with_image :
    (f : Files) (k idx : ℕ) (o : Open) (ptr len : ℕ) (cloexec : Bool)
    → set_image (placed f k idx o cloexec) idx ptr len
      ≡ placed f k idx (record o { rom = ptr; rom_len = len }) cloexec
unfolding set_fd
with_image f k idx o ptr len cloexec =
    let seen : update f.opens idx o idx ≡ o = update_self f.opens idx o in
    ap
      (λ (n : Open).
        set_opens (update (update f.opens idx o) idx (record n { rom = ptr; rom_len = len })))
      seen
    ∙ ap set_opens (update_twice f.opens idx o (record o { rom = ptr; rom_len = len }))
  where
    set_opens : (ℕ → Open) → Files
    set_opens os = set_fd (record f { opens = os }) k idx cloexec

counted :
    (f : Files) (slot flags : ℕ) {r : Result ℕ} {g : Files}
    → IsCounted f
    → slot < max_tasks
    → Opens f slot flags r g
    → IsCounted g
counted f slot flags v l (fails e) = v
counted f slot flags v l (gives_up e idx m u) = record {
  exact = λ i.
      refs-update f.opens idx i empty_open
      ∙ if_elim (λ r. r ≡ holders f.fds i) (i == idx)
          (λ t. ground (arith, v.used idx, u, v.exact idx, ap (holders f.fds) (eq_of_== i idx t)))
          (λ n. v.exact i);
  used = λ i. used-update f.opens idx i empty_open refl (v.used i);
  known = v.known;
}
counted f slot flags v l (opens fd idx o k m free u one used off fl) =
    placed-IsCounted f (at slot fd) idx o (has_cloexec flags) v (omega arith) m free
      (ground (arith, v.used idx, u)) one used

open_image-Opens :
    (s : Space) (slot flags ptr len : ℕ)
    → Opens s.files slot flags
        (open_image s slot flags ptr len).0
        (open_image s slot flags ptr len).1.files
unfolding open_image
open_image-Opens s slot flags ptr len = elim (Option-cases (alloc_open s.files)) [
  | inl e ↦ rw (open_image, e) (fails mfile)
  | inr (idx, e) ↦
      let u = alloc_open-unused s.files idx e in
      elim (install-cases s.files slot idx flags root 0) [
        | inl q ↦ rw (open_image, e) (subst (P idx) (sym q) (gives_up mfile idx u.0 u.1))
        | inr (fd, l, free, q) ↦
            let o : Open = fresh_open root flags 1 0 in
            let o' : Open = record o { rom = ptr; rom_len = len } in
            rw (open_image, e)
              (subst (P idx) (sym q) (
                subst (Opens s.files slot flags (ok fd))
                  (sym (with_image s.files (at slot fd) idx o ptr len (has_cloexec flags)))
                  (opens fd idx o' l u.0 free u.1 refl refl refl refl)))
      ]
]
  where
    P : ℕ → Option ℕ × Files → Type 0
    P idx r =
        Opens s.files slot flags (finish_image s idx ptr len r).0
          (finish_image s idx ptr len r).1.files

-- Whatever the path, the flags and the state, `open` fails and leaves the descriptors and objects in
-- use as they were, or it returns a descriptor that was free, for an object that was not in use: that
-- has the flags, offset 0 and one reference.
pub open_path-Opens :
    (s : Space) (slot : ℕ) (path : List ℕ) (flags : ℕ)
    → Opens s.files slot flags (open_path s slot path flags).0 (open_path s slot path flags).1.files
unfolding open_path open_target
open_path-Opens s slot path flags = go (resolve s slot path flags)
  where
    go :
        (r : Result Target × Tree)
        → Opens s.files slot flags
            (open_target s slot flags r).0
            (open_target s slot flags r).1.files
    go (err e, t) = fails e
    go (ok (at_node i), t) = open_node-Opens (record s { tree = t }) slot flags i
    go (ok (at_image ptr len), t) = open_image-Opens (record s { tree = t }) slot flags ptr len

-- What `open` does to the tables keeps the reference counts exact.
pub open_path-IsCounted :
    (s : Space) (slot : ℕ) (path : List ℕ) (flags : ℕ)
    → IsCounted s.files
    → slot < max_tasks
    → IsCounted (open_path s slot path flags).1.files
open_path-IsCounted s slot path flags v l =
    counted s.files slot flags v l (open_path-Opens s slot path flags)
