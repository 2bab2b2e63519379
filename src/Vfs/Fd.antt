-- ===== src/Vfs/Fd.antt =====
-- kernel-core/src/vfs/fd.rs: the descriptor tables of the tasks and the shared open-file objects, in
-- the build without kconfig_ntfs. FDS is one table: descriptor `fd` of task `slot` is its entry
-- `slot * max_fds + fd`, as the rows lie in memory. FS_LOCK makes each call one step; `u8` and `u16`
-- sums wrap.
pub mod Refs
pub mod Single
pub mod Tables
pub mod Calls
pub mod Control
use fantuan_kernel.Base.{
  ℕ, zero, suc, ◌+◌, ◌-◌, ◌*◌, ◌/◌, ◌%◌, ◌^◌, Bool, true, false, ◌&&◌, ◌||◌, not, Option, none,
  some, List, [], ◌∷◌, if◌then◌else◌, ◌==◌, ltb, leb, update, find_from, count, is_some,
}
use fantuan_kernel.Vfs.Errno.{Result, ok, err, badf, mfile}
use fantuan_kernel.Vfs.Pipe
use fantuan_kernel.Vfs.Pipe.{Pipes}

abbrev pub max_fds : ℕ
max_fds = 32

abbrev pub max_open : ℕ
max_open = 128

abbrev pub max_tasks : ℕ
max_tasks = 16

-- The entries of FDS.
abbrev pub all_fds : ℕ
all_fds = 512

abbrev pub root_node : ℕ
root_node = 0

abbrev pub console : ℕ
console = 2

abbrev pub u8 : ℕ → ℕ
u8 n = n % 2 ^ 8

-- O_CLOEXEC and O_WRONLY, by bit.
abbrev pub has_cloexec : ℕ → Bool
has_cloexec flags = flags / 2 ^ 19 % 2 == 1

abbrev pub has_wronly : ℕ → Bool
has_wronly flags = flags % 2 == 1

-- `open` is the index of the open object and 1; 0 is a free entry.
pub record Fd : Type 0 where
  pub opened : ℕ
  pub cloexec : Bool

abbrev pub empty_fd : Fd
empty_fd = record { opened = 0; cloexec = false }

-- `pipe` is the pipe's index and 1; 0 is no pipe.
pub record Open : Type 0 where
  pub used : Bool
  pub node : ℕ
  pub flags : ℕ
  pub offset : ℕ
  pub refs : ℕ
  pub pipe : ℕ
  pub rom : ℕ
  pub rom_len : ℕ

abbrev pub empty_open : Open
empty_open = record {
  used = false;
  node = 0;
  flags = 0;
  offset = 0;
  refs = 0;
  pipe = 0;
  rom = 0;
  rom_len = 0;
}

pub record Files : Type 0 where
  pub fds : ℕ → Fd
  pub opens : ℕ → Open
  pub cwd : ℕ → ℕ
  pub pipes : Pipes

abbrev pub at : ℕ → ℕ → ℕ
at slot fd = slot * max_fds + fd

unfoldable pub open_of : Files → ℕ → ℕ → Option ℕ
open_of f slot fd =
    if leb max_fds fd
    then none
    else if (f.fds (at slot fd)).opened == 0
    then none
    else some ((f.fds (at slot fd)).opened - 1)

unfoldable pub alloc_open : Files → Option ℕ
alloc_open f = find_from (λ i. not (f.opens i).used) 0 max_open

-- `(min..MAX_FDS).find(|&i| fds(slot)[i].open == 0)`
unfoldable pub free_fd : Files → ℕ → ℕ → Option ℕ
free_fd f slot min = find_from (λ i. (f.fds (at slot i)).opened == 0) min (max_fds - min)

-- `fds(slot)[fd] = Fd { open: open + 1, cloexec }`, for entry k of the table.
unfoldable pub set_fd : Files → ℕ → ℕ → Bool → Files
set_fd f k idx cloexec = record f {
  fds = update f.fds k (record { opened = idx + 1; cloexec = cloexec });
}

unfoldable pub clear_fd : Files → ℕ → Files
clear_fd f k = record f { fds = update f.fds k empty_fd }

-- `opens()[open].refs += 1`
unfoldable pub add_ref : Files → ℕ → Files
add_ref f idx = record f {
  opens = update f.opens idx (record (f.opens idx) { refs = u8 ((f.opens idx).refs + 1) });
}

abbrev pub fresh_open : ℕ → ℕ → ℕ → ℕ → Open
fresh_open node flags refs pipe = record {
  used = true;
  node = node;
  flags = flags;
  offset = 0;
  refs = refs;
  pipe = pipe;
  rom = 0;
  rom_len = 0;
}

unfoldable pub install : Files → ℕ → ℕ → ℕ → ℕ → ℕ → Option ℕ × Files
install f slot idx flags node pipe = elim (free_fd f slot 0) [
  | none ↦ (none, f)
  | some fd ↦ (
    some fd,
    set_fd (record f { opens = update f.opens idx (fresh_open node flags 1 pipe) }) (at slot fd) idx
        (has_cloexec flags),
  )
]

-- The object with one reference less: `if o.refs > 0 { o.refs -= 1 }`.
abbrev pub lowered : Open → Open
lowered o = record o { refs = o.refs - 1 }

unfoldable pub close_open : Files → ℕ → Files
close_open f i =
    let o = lowered (f.opens i) in
    if o.refs == 0
    then record f {
      opens = update f.opens i empty_open;
      pipes =
          (if o.pipe == 0
            then f.pipes
            else Pipe.drop_end f.pipes (o.pipe - 1) (has_wronly o.flags));
    }
    else record f { opens = update f.opens i o }

-- What the loops of `close_all_unlocked` and `exec_close` do with one entry.
unfoldable pub close_entry : Bool → Files → ℕ → Files
close_entry only_cloexec f k =
    if not ((f.fds k).opened == 0) && (not only_cloexec || (f.fds k).cloexec)
    then clear_fd (close_open f ((f.fds k).opened - 1)) k
    else f

-- `for i in 0..MAX_FDS`, n entries from k on.
unfoldable pub close_entries : Bool → Files → ℕ → ℕ → Files
close_entries only_cloexec f k zero = f
close_entries only_cloexec f k (suc n) =
    close_entries only_cloexec (close_entry only_cloexec f k) (k + 1) n

pub close_all : Files → ℕ → Files
close_all f slot = close_entries false f (at slot 0) max_fds

pub exec_close : Files → ℕ → Files
exec_close f slot = close_entries true f (at slot 0) max_fds

-- One round of the loop of `clone_task`.
unfoldable pub clone_entry : Files → ℕ → ℕ → Files
clone_entry f from to =
    let e = f.fds from in
    let g : Files = record f { fds = update f.fds to e } in
    if e.opened == 0 then g else add_ref g (e.opened - 1)

unfoldable pub clone_entries : Files → ℕ → ℕ → ℕ → Files
clone_entries f from to zero = f
clone_entries f from to (suc n) = clone_entries (clone_entry f from to) (from + 1) (to + 1) n

unfoldable pub clone_task : Files → ℕ → ℕ → Files
clone_task f parent child =
    let g = clone_entries (close_all f child) (at parent 0) (at child 0) max_fds in
    record g { cwd = update g.cwd child (g.cwd parent) }

unfoldable pub init_task : Files → ℕ → Files
init_task f slot =
    let g = close_all f slot in
    let h : Files = record g { cwd = update g.cwd slot root_node } in
    elim (alloc_open h) [
      | none ↦ h
      | some idx ↦
          set_fd
            (set_fd
              (set_fd (record h { opens = update h.opens idx (fresh_open console 0 3 0) })
                (at slot 0) idx false)
              (at slot 1) idx false)
            (at slot 2) idx false
    ]

unfoldable pub close : Files → ℕ → ℕ → Result (Unit {0}) × Files
close f slot fd = elim (open_of f slot fd) [
  | none ↦ (err badf, f)
  | some idx ↦ (ok tt, clear_fd (close_open f idx) (at slot fd))
]

-- Entry k gets a further reference to an object: the end of `dup`, `dup2` and F_DUPFD.
unfoldable pub attach : Files → ℕ → ℕ → Files
attach f k idx = set_fd (add_ref f idx) k idx false

-- `dup` is F_DUPFD from 0 on.
unfoldable pub dup_from : Files → ℕ → ℕ → ℕ → Result ℕ × Files
dup_from f slot fd min = elim (open_of f slot fd) [
  | none ↦ (err badf, f)
  | some old ↦ elim (free_fd f slot min) [
    | none ↦ (err mfile, f)
    | some new ↦ (ok new, attach f (at slot new) old)
  ]
]

-- The part of `dup2` that lets go of what `new` was.
unfoldable pub close_target : Files → ℕ → ℕ → Files
close_target f slot new = elim (open_of f slot new) [ none ↦ f | some prev ↦ close_open f prev ]

unfoldable pub dup2 : Files → ℕ → ℕ → ℕ → Result ℕ × Files
dup2 f slot old new = elim (open_of f slot old) [
  | none ↦ (err badf, f)
  | some old_idx ↦
      if old == new
      then (ok new, f)
      else if leb max_fds new
      then (err badf, f)
      else (ok new, attach (close_target f slot new) (at slot new) old_idx)
]
