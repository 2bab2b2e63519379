-- ===== src/Vfs/Fd/Calls.antt =====
-- kernel-core/src/vfs/fd.rs: `fcntl`, `pipe` and `node_of`.
use fantuan_kernel.Base.{
  ℕ, ◌+◌, ◌-◌, ◌*◌, ◌/◌, ◌%◌, ◌^◌, Bool, true, false, Option, none, some, if◌then◌else◌, ◌==◌, ltb,
  update, count,
}
use fantuan_kernel.Vfs.Pipe
use fantuan_kernel.Vfs.Errno.{Result, ok, err, badf, mfile, inval}
use fantuan_kernel.Vfs.Fd.{Files, at, max_fds, open_of, alloc_open, install, dup_from, empty_open}

abbrev bit_of : Bool → ℕ
bit_of true = 1
bit_of false = 0

-- `(flags & !O_NONBLOCK) | (arg & O_NONBLOCK)`, for bit 11.
abbrev pub with_nonblock : ℕ → ℕ → ℕ
with_nonblock flags arg = flags - flags / 2 ^ 11 % 2 * 2 ^ 11 + arg / 2 ^ 11 % 2 * 2 ^ 11

-- F_SETFD and F_SETFL, once the descriptor is known to be open.
unfoldable pub set_cloexec : Files → ℕ → ℕ → Files
set_cloexec f k arg = record f {
  fds = update f.fds k (record (f.fds k) { cloexec = arg % 2 == 1 });
}

unfoldable pub set_flags : Files → ℕ → ℕ → Files
set_flags f idx arg = record f {
  opens =
      update f.opens idx (record (f.opens idx) { flags = with_nonblock (f.opens idx).flags arg });
}

-- The commands of `fcntl` that need an open descriptor, but F_DUPFD.
unfoldable pub fcntl_open : Files → ℕ → ℕ → ℕ → ℕ → ℕ → Result ℕ × Files
fcntl_open f slot fd cmd arg idx =
    if cmd == 1
    then (ok (bit_of (f.fds (at slot fd)).cloexec), f)
    else if cmd == 2
    then (ok 0, set_cloexec f (at slot fd) arg)
    else if cmd == 3
    then (ok (f.opens idx).flags, f)
    else (ok 0, set_flags f idx arg)

unfoldable pub fcntl : Files → ℕ → ℕ → ℕ → ℕ → Result ℕ × Files
fcntl f slot fd cmd arg =
    if cmd == 0
    then dup_from f slot fd arg
    else if ltb 4 cmd
    then (err inval, f)
    else elim (open_of f slot fd) [
      | none ↦ (err badf, f)
      | some idx ↦ fcntl_open f slot fd cmd arg idx
    ]

-- `opens()[i].used = true`
abbrev pub reserved : Files → ℕ → Files
reserved f i = record f { opens = update f.opens i (record (f.opens i) { used = true }) }

-- `pipe` once the pipe and both open objects are found: the two installs.
unfoldable pub open_ends : Files → ℕ → ℕ → ℕ → ℕ → Result (ℕ × ℕ) × Files
open_ends f slot id r_open w_open =
    let (rfd, g) = install (record f { pipes = Pipe.init f.pipes id }) slot r_open 0 0 (id + 1) in
    elim rfd [
      | none ↦ (err mfile, g)
      | some r ↦
          let (wfd, h) = install g slot w_open 1 0 (id + 1) in
          elim wfd [ none ↦ (err mfile, h) | some w ↦ (ok (r, w), h) ]
    ]

unfoldable pub pipe : Files → ℕ → Result (ℕ × ℕ) × Files
pipe f slot =
    if ltb (count (λ i. (f.fds (at slot i)).opened == 0) max_fds) 2
    then (err mfile, f)
    else elim (Pipe.alloc f.pipes) [
      | none ↦ (err mfile, f)
      | some id ↦ elim (alloc_open f) [
        | none ↦ (err mfile, f)
        | some r_open ↦ elim (alloc_open (reserved f r_open)) [
          | none ↦ (err mfile, record f { opens = update f.opens r_open empty_open })
          | some w_open ↦ open_ends (reserved f r_open) slot id r_open w_open
        ]
      ]
    ]

pub node_of : Files → ℕ → ℕ → Option ℕ
node_of f slot fd = elim (open_of f slot fd) [
  | none ↦ none
  | some idx ↦ if (f.opens idx).pipe == 0 then some (f.opens idx).node else none
]
