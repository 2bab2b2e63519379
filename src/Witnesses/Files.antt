-- ===== src/Witnesses/Files.antt =====
-- A tree with two files of a directory, and a task with one of them open.
use fantuan_kernel.Base.{
  ℕ, ◌+◌, ◌≤◌, ◌≡◌, refl, sym, ◌∙◌, true, false, List, [], ◌∷◌, ◌++◌, arith, update, none, is_some,
  find_from, count, count-clear, count-ext,
}
use fantuan_kernel.Vfs.Errno.{ok}
use fantuan_kernel.Vfs.Pipe.{empty_pipe}
use fantuan_kernel.Vfs.Tmpfs
use fantuan_kernel.Vfs.Tmpfs.{
  Tree, file, init_tree, create, place, reserve, find_child, valid_name, name_eq, contains,
  count_files, lookup, root, slash, new_node, fixed_nodes,
}
use fantuan_kernel.Vfs.Tmpfs.Inv.{IsShaped}
use fantuan_kernel.Vfs.Tmpfs.Runs.{Reached, start, creates, Reached-IsShaped}
use fantuan_kernel.Vfs.Tmpfs.Bytes.{IsStored, IsFile, read-write_other}
use fantuan_kernel.Vfs.Tmpfs.Lookup.{
  lookup-create, lookup-join, walk, join, IsComponent, AreComponents,
}
use fantuan_kernel.Vfs.Fd.{Fd, Open, empty_fd, empty_open, fresh_open, open_of, all_fds}
use fantuan_kernel.Vfs.Fd.Refs.{IsCounted, names, holders}
use fantuan_kernel.Vfs.Space.{Space, has_append, getcwd, ancestors, path_of, open_path}
use fantuan_kernel.Vfs.Space.Opening.{Opens, open_path-Opens}
use fantuan_kernel.Vfs.Space.Paths.{lookup-getcwd, here, down}
use fantuan_kernel.Vfs.Stream.{done, read, write, lseek}
use fantuan_kernel.Vfs.Stream.Seek.{Names, write-lseek-read}

-- "a" and "b"
abbrev name_a : List ℕ
name_a = 97 ∷ []

abbrev name_b : List ℕ
name_b = 98 ∷ []

-- /tmp/a, which becomes node 8.
abbrev one_file : Tree
one_file = (create init_tree 4 name_a file).1

one_file-Reached : Reached one_file
one_file-Reached = creates init_tree 4 name_a file start (omega arith) refl

Reached-IsShaped_example : IsShaped one_file.nodes × IsStored one_file
Reached-IsShaped_example = Reached-IsShaped one_file one_file-Reached

made : (create init_tree 4 name_a file).0 ≡ ok 8
unfolding create place reserve find_child valid_name name_eq contains count_files is_some find_from
    count
made = refl

lookup-create_example : lookup (create init_tree 4 name_a file).1 4 name_a ≡ ok 8
lookup-create_example =
    lookup-create init_tree 4 name_a file 8 (Reached-IsShaped init_tree start).0 (omega arith) refl
      made

are_components : IsComponent (116 ∷ (109 ∷ (112 ∷ []))) × AreComponents (name_a ∷ [])
unfolding contains
are_components = (refl, (refl, tt))

-- From /dev, "/tmp/a" is a of tmp of the root, and "tmp/a" is a of tmp of /dev.
lookup-join_example :
    (lookup one_file 1 (join ((116 ∷ (109 ∷ (112 ∷ []))) ∷ (name_a ∷ [])))
      ≡ walk one_file root ((116 ∷ (109 ∷ (112 ∷ []))) ∷ (name_a ∷ [])))
    × (lookup one_file 1 ((116 ∷ (109 ∷ (112 ∷ []))) ++ join (name_a ∷ []))
        ≡ walk one_file 1 ((116 ∷ (109 ∷ (112 ∷ []))) ∷ (name_a ∷ [])))
lookup-join_example =
    lookup-join one_file 1 (116 ∷ (109 ∷ (112 ∷ []))) (name_a ∷ []) are_components.0
      are_components.1

-- /tmp/a and /tmp/b, nodes 8 and 9.
abbrev two_files : Tree
two_files = (create one_file 4 name_b file).1

tmp_used : (one_file.nodes 4).used ≡ true
unfolding create place reserve find_child valid_name name_eq contains count_files is_some find_from
    count update
tmp_used = refl

two_files-IsStored : IsStored two_files
two_files-IsStored =
    (Reached-IsShaped (create one_file 4 name_b file).1
      (creates one_file 4 name_b file one_file-Reached (omega arith) tmp_used)).1

are_files : IsFile two_files.nodes 8 × IsFile two_files.nodes 9
unfolding create place reserve find_child valid_name name_eq contains count_files is_some find_from
    count update
are_files = ((omega arith, refl, refl), (omega arith, refl, refl))

read-write_other_example :
    Tmpfs.read (Tmpfs.write two_files 8 0 (1 ∷ (2 ∷ []))).1 9 0 16 ≡ Tmpfs.read two_files 9 0 16
read-write_other_example =
    read-write_other two_files 8 0 (1 ∷ (2 ∷ [])) 9 0 16 two_files-IsStored are_files.0 are_files.1
      (λ e. absurd (omega arith)) (omega arith)

-- Task 0 has /tmp/a open for reading and writing as descriptor 3, object 0; its directory is /tmp.
abbrev no_fds : ℕ → Fd
no_fds k = empty_fd

abbrev no_opens : ℕ → Open
no_opens i = empty_open

abbrev empty_space : Space
empty_space = record {
  tree = init_tree;
  files = record { fds = no_fds; opens = no_opens; cwd = λ s. 4; pipes = λ i. empty_pipe };
  bins = λ p. none;
  mem = λ i. 0;
  log = [];
}

abbrev space : Space
space = record {
  tree = record {
    nodes = update fixed_nodes 8 (new_node file 4 name_a 0);
    pool = λ i. 0;
    pool_end = 8192;
  };
  files = record {
    fds = update no_fds 3 (record { opened = 1; cloexec = false });
    opens = update no_opens 0 (fresh_open 8 2 1 0);
    cwd = λ s. 4;
    pipes = λ i. empty_pipe;
  };
  bins = λ p. none;
  mem = λ i. 0;
  log = [];
}

space-Names : Names space 0 3 0
unfolding open_of update
space-Names = record { opened = refl; no_pipe = refl; no_rom = refl; kind = refl }

not_append : has_append (space.files.opens 0).flags ≡ false
unfolding update
not_append = refl

fits : (space.files.opens 0).offset + 1 ≤ 8192
unfolding update
fits = omega arith

write-lseek-read_example :
    ((write space 0 3 name_a).0 ≡ done (ok 1))
    × ((read (lseek (write space 0 3 name_a).1 0 3 (space.files.opens 0).offset 0).1 0 3 1).0
        ≡ done (ok name_a))
write-lseek-read_example = write-lseek-read space 0 3 0 name_a space-Names not_append fits

cwd_path : getcwd empty_space 0 64 ≡ ok (slash ∷ (116 ∷ (109 ∷ (112 ∷ []))))
unfolding getcwd ancestors path_of
cwd_path = refl

lookup-getcwd_example : lookup empty_space.tree 1 (slash ∷ (116 ∷ (109 ∷ (112 ∷ [])))) ≡ ok 4
lookup-getcwd_example =
    lookup-getcwd empty_space 0 64 1 1 (slash ∷ (116 ∷ (109 ∷ (112 ∷ []))))
      (Reached-IsShaped init_tree start).0 (omega arith) refl
      (down 4 0 (λ e. absurd (omega arith)) here) (omega arith) cwd_path

-- O_CREAT and O_RDWR.
open_path-Opens_example :
    Opens empty_space.files 0 66
      (open_path empty_space 0 name_a 66).0
      (open_path empty_space 0 name_a 66).1.files
open_path-Opens_example = open_path-Opens empty_space 0 name_a 66

no_holders : (i : ℕ) → holders no_fds i ≡ 0
no_holders i =
    count-ext (names no_fds i) (λ k. false) all_fds (λ k l. ground arith) ∙ count-clear all_fds

empty-IsCounted : IsCounted empty_space.files
empty-IsCounted = record {
  exact = λ i. sym (no_holders i);
  used = λ i. refl;
  known = λ k. omega arith;
}
