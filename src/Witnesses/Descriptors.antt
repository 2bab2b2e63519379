-- ===== src/Witnesses/Descriptors.antt =====
-- Pipes and descriptors of a task that has standard input and output.
use fantuan_kernel.Base.{
  ℕ, ◌+◌, ◌<◌, ◌≡◌, refl, ◌∙◌, [], ◌∷◌, arith, true, false, update, count-clear, count-ext,
}
use fantuan_kernel.Vfs.Pipe.{Pipe, empty_pipe, read_locked, write_locked}
use fantuan_kernel.Vfs.Pipe.Fifo.{Reads, Writes, read_locked-Reads, write_locked-Writes}
use fantuan_kernel.Vfs.Fd.{
  Fd, Open, Files, empty_fd, empty_open, fresh_open, console, dup2, close_all, attach, close_open,
  all_fds,
}
use fantuan_kernel.Vfs.Fd.Refs.{
  IsCounted, holders, holders-update, names, to_object, refs-update, used-update, known-update,
}
use fantuan_kernel.Vfs.Fd.Single.{dup2-IsCounted}
use fantuan_kernel.Vfs.Fd.Tables.{Passed, close_all-Passed, full_count-freed}

-- Three bytes are unread.
abbrev pipe : Pipe
pipe = record { used = true; len = 3; read_refs = 1; write_refs = 1; buf = λ i. i + 65 }

read_locked_example : Reads pipe 2 (read_locked pipe 2)
read_locked_example = read_locked-Reads pipe 2

write_locked_example : Writes pipe (1 ∷ (2 ∷ [])) (write_locked pipe (1 ∷ (2 ∷ [])))
write_locked_example = write_locked-Writes pipe (1 ∷ (2 ∷ [])) (omega arith)

-- Descriptors 0 and 1 of task 0 are the console, object 0.
abbrev no_fds : ℕ → Fd
no_fds k = empty_fd

abbrev std_fds : ℕ → Fd
std_fds = update (update no_fds 0 (to_object 0)) 1 (to_object 0)

abbrev no_opens : ℕ → Open
no_opens i = empty_open

abbrev files : Files
files = record {
  fds = std_fds;
  opens = update no_opens 0 (fresh_open console 0 2 0);
  cwd = λ s. 0;
  pipes = λ i. empty_pipe;
}

no_holders : (i : ℕ) → holders no_fds i ≡ 0
no_holders i =
    count-ext (names no_fds i) (λ k. false) all_fds (λ k l. ground arith) ∙ count-clear all_fds

counted : (i : ℕ) → (files.opens i).refs ≡ holders std_fds i
unfolding update
counted i = ground (
  arith,
  no_holders i,
  holders-update no_fds 0 i (to_object 0) (omega arith),
  holders-update (update no_fds 0 (to_object 0)) 1 i (to_object 0) (omega arith),
)

files-IsCounted : IsCounted files
files-IsCounted = record {
  exact = counted;
  used = λ i. used-update no_opens 0 i (fresh_open console 0 2 0) refl refl;
  known = λ k.
      known-update (update no_fds 0 (to_object 0)) 1 k (to_object 0) (omega arith)
        (known-update no_fds 0 k (to_object 0) (omega arith) (omega arith));
}

room : (i : ℕ) → (files.opens i).refs < 255
room i = ground (arith, refs-update no_opens 0 i (fresh_open console 0 2 0))

dup2-IsCounted_example : IsCounted (dup2 files 0 0 1).1
dup2-IsCounted_example = dup2-IsCounted files 0 0 1 files-IsCounted (omega arith) room

close_all_example : Passed false files 0 (close_all files 0)
close_all_example = close_all-Passed files 0 files-IsCounted (omega arith)

-- The same table with the count of object 0 at its top.
abbrev full_files : Files
full_files = record files { opens = update no_opens 0 (fresh_open console 0 255 0) }

full_count_example :
    (((attach full_files 2 0).opens 0).refs ≡ 0)
    × ((close_open (attach full_files 2 0) 0).opens 0 ≡ empty_open)
unfolding update
full_count_example = full_count-freed full_files 2 0 refl
