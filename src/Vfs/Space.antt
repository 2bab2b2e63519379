-- ===== src/Vfs/Space.antt =====
-- kernel-core/src/vfs/fd.rs, io.rs, dir.rs and posix_path.rs: the calls that join the tree of nodes
-- with the descriptor tables, in the build without kconfig_ntfs. FS_LOCK makes each one step. Paths
-- and names are lists of bytes, flags the bits of a number. `bins` is the function in BIN_LOOKUP, and
-- `mem` the memory its images lie in; `log` is what `crate::log::put` has been given. Offsets are
-- below 2^63, which `lseek` keeps them.
pub mod Opening
pub mod Paths
use fantuan_kernel.Base.{
  ℕ, zero, suc, ◌+◌, ◌-◌, ◌*◌, ◌/◌, ◌%◌, ◌^◌, min, Bool, true, false, ◌&&◌, ◌||◌, not, Option, none,
  some, List, [], ◌∷◌, ◌++◌, if◌then◌else◌, ◌==◌, ltb, leb, update, length, bytes_from,
}
use fantuan_kernel.Vfs.Errno.{
  Err, Result, ok, err, badf, mfile, inval, noent, exist, notdir, isdir, acces, spipe, fault,
}
use fantuan_kernel.Vfs.Tmpfs
use fantuan_kernel.Vfs.Tmpfs.{
  Kind, dir, file, console, null, Node, Tree, is_dir, is_file, slash, root, lookup, create, remove,
  rename, truncate, dir_entry,
}
use fantuan_kernel.Vfs.Fd.{Files, Open, empty_open, open_of, alloc_open, install, has_wronly}

pub record Space : Type 0 where
  pub tree : Tree
  pub files : Files
  pub bins : List ℕ → Option (ℕ × ℕ)
  pub mem : ℕ → ℕ
  pub log : List ℕ

abbrev pub has_bit : ℕ → ℕ → Bool
has_bit flags k = flags / 2 ^ k % 2 == 1

-- O_RDWR, O_CREAT, O_EXCL, O_TRUNC and O_APPEND.
abbrev pub has_rdwr : ℕ → Bool
has_rdwr flags = has_bit flags 1

abbrev pub has_creat : ℕ → Bool
has_creat flags = has_bit flags 6

abbrev pub has_excl : ℕ → Bool
has_excl flags = has_bit flags 7

abbrev pub has_trunc : ℕ → Bool
has_trunc flags = has_bit flags 9

abbrev pub has_append : ℕ → Bool
has_append flags = has_bit flags 10

abbrev pub cwd : Space → ℕ → ℕ
cwd s slot = s.files.cwd slot

-- The parts of a path before and behind its last slash: `rposition(|&b| b == b'/')`.
unfoldable pub last_slash : List ℕ → Option (List ℕ × List ℕ)
last_slash [] = none
last_slash (c ∷ cs) = elim (last_slash cs) [
  | some (before, behind) ↦ some (c ∷ before, behind)
  | none ↦ if c == slash then some ([], cs) else none
]

-- `dir_path`: the root is the slash itself.
abbrev pub dir_path : List ℕ → List ℕ
dir_path [] = slash ∷ []
dir_path (c ∷ cs) = c ∷ cs

unfoldable pub split_parent : Tree → ℕ → List ℕ → Result (ℕ × List ℕ)
split_parent t cwd path = elim (last_slash path) [
  | none ↦ ok (cwd, path)
  | some (before, []) ↦ err noent
  | some (before, c ∷ name) ↦ elim (lookup t cwd (dir_path before)) [
    | ok d ↦ ok (d, c ∷ name)
    | err e ↦ err e
  ]
]

-- The end of `open` and `create_in`: the last component is made below its parent.
unfoldable pub create_at : Tree → ℕ → List ℕ → Kind → Result ℕ × Tree
create_at t cwd path kind = elim (split_parent t cwd path) [
  | err e ↦ (err e, t)
  | ok (d, name) ↦ create t d name kind
]

-- What `open` opens: a node of the tree, or the image of an embedded binary.
pub data Target : Type 0 where
  at_node : ℕ → Target
  at_image : ℕ → ℕ → Target

-- The match of `open` on the lookup when that says ENOENT.
unfoldable pub open_missing : Space → ℕ → List ℕ → ℕ → Result Target × Tree
open_missing s slot path flags =
    if has_creat flags
    then (let (made, t) = create_at s.tree (cwd s slot) path file in
        elim made [ ok i ↦ (ok (at_node i), t) | err e ↦ (err e, t) ])
    else elim (s.bins path) [
      | none ↦ (err noent, s.tree)
      | some (ptr, len) ↦
          if (has_wronly flags || has_rdwr flags) || (has_trunc flags || has_append flags)
          then (err acces, s.tree)
          else (ok (at_image ptr len), s.tree)
    ]

unfoldable pub resolve : Space → ℕ → List ℕ → ℕ → Result Target × Tree
resolve s slot path flags = elim (lookup s.tree (cwd s slot) path) [
  | ok i ↦
      if has_creat flags && has_excl flags then (err exist, s.tree) else (ok (at_node i), s.tree)
  | err noent ↦ open_missing s slot path flags
  | err e ↦ (err e, s.tree)
]

abbrev pub with_index : ℕ → Option ℕ × Files → Option (ℕ × ℕ) × Files
with_index idx (some fd, g) = (some (fd, idx), g)
with_index idx (none, g) = (none, g)

-- A free open object and a free descriptor for it; none is EMFILE.
unfoldable pub install_free : Files → ℕ → ℕ → ℕ → Option (ℕ × ℕ) × Files
install_free f slot flags node = elim (alloc_open f) [
  | none ↦ (none, f)
  | some idx ↦ with_index idx (install f slot idx flags node 0)
]

abbrev pub finish : Space → Option (ℕ × ℕ) × Files → Result ℕ × Space
finish s (none, f) = (err mfile, record s { files = f })
finish s (some p, f) = (ok p.0, record s { files = f })

unfoldable pub open_node : Space → ℕ → ℕ → ℕ → Result ℕ × Space
open_node s slot flags i =
    if is_dir (s.tree.nodes i).kind && (has_wronly flags || has_append flags)
    then (err isdir, s)
    else let t = (if has_trunc flags then truncate s.tree i else s.tree) in
      finish (record s { tree = t }) (install_free s.files slot flags i)

abbrev pub set_image : Files → ℕ → ℕ → ℕ → Files
set_image f idx ptr len = record f {
  opens = update f.opens idx (record (f.opens idx) { rom = ptr; rom_len = len });
}

-- The end of `open` for an image: the source clears the free object again when no descriptor is left
-- for it.
abbrev pub finish_image : Space → ℕ → ℕ → ℕ → Option ℕ × Files → Result ℕ × Space
finish_image s idx ptr len (some fd, g) = (ok fd, record s { files = set_image g idx ptr len })
finish_image s idx ptr len (none, g) =
    (err mfile, record s { files = record g { opens = update g.opens idx empty_open } })

unfoldable pub open_image : Space → ℕ → ℕ → ℕ → ℕ → Result ℕ × Space
open_image s slot flags ptr len = elim (alloc_open s.files) [
  | none ↦ (err mfile, s)
  | some idx ↦ finish_image s idx ptr len (install s.files slot idx flags root 0)
]

-- `open` once the target is known.
unfoldable pub open_target : Space → ℕ → ℕ → Result Target × Tree → Result ℕ × Space
open_target s slot flags (err e, t) = (err e, record s { tree = t })
open_target s slot flags (ok (at_node i), t) = open_node (record s { tree = t }) slot flags i
open_target s slot flags (ok (at_image ptr len), t) =
    open_image (record s { tree = t }) slot flags ptr len

unfoldable pub open_path : Space → ℕ → List ℕ → ℕ → Result ℕ × Space
open_path s slot path flags = open_target s slot flags (resolve s slot path flags)

unfoldable pub create_in : Space → ℕ → List ℕ → Kind → Result ℕ × Space
create_in s slot path kind =
    let (r, t) = create_at s.tree (cwd s slot) path kind in (r, record s { tree = t })

unfoldable pub rename_in : Space → ℕ → List ℕ → List ℕ → Result (Unit {0}) × Space
rename_in s slot old new = elim (lookup s.tree (cwd s slot) old) [
  | err e ↦ (err e, s)
  | ok src ↦ elim (split_parent s.tree (cwd s slot) new) [
    | err e ↦ (err e, s)
    | ok (d, name) ↦ let (r, t) = rename s.tree src d name in (r, record s { tree = t })
  ]
]

abbrev pub same_bool : Bool → Bool → Bool
same_bool true b = b
same_bool false b = not b

-- `unlink` is `path_remove` with false, `rmdir` with true.
unfoldable pub path_remove : Space → ℕ → List ℕ → Bool → Result (Unit {0}) × Space
path_remove s slot path wants_dir = elim (lookup s.tree (cwd s slot) path) [
  | err e ↦ (err e, s)
  | ok i ↦
      if not (same_bool (is_dir (s.tree.nodes i).kind) wants_dir)
      then (err isdir, s)
      else let (r, t) = remove s.tree i in (r, record s { tree = t })
]

abbrev pub set_cwd : Space → ℕ → ℕ → Space
set_cwd s slot i = record s { files = record s.files { cwd = update s.files.cwd slot i } }

unfoldable pub chdir : Space → ℕ → List ℕ → Result (Unit {0}) × Space
chdir s slot path = elim (lookup s.tree (cwd s slot) path) [
  | err e ↦ (err e, s)
  | ok i ↦ if not (is_dir (s.tree.nodes i).kind) then (err notdir, s) else (ok tt, set_cwd s slot i)
]

-- The loop of `getcwd` up to the root: the nodes from the root's child down, at most fuel of them.
unfoldable pub ancestors : Tree → ℕ → ℕ → List ℕ → List ℕ
ancestors t zero cur below = below
ancestors t (suc fuel) cur below =
    if cur == root then below else ancestors t fuel (t.nodes cur).parent (cur ∷ below)

unfoldable pub path_of : Tree → List ℕ → List ℕ
path_of t [] = []
path_of t (i ∷ is) = slash ∷ ((t.nodes i).name ++ path_of t is)

-- The bytes that go to a buffer of `room` bytes.
unfoldable pub getcwd : Space → ℕ → ℕ → Result (List ℕ)
getcwd s slot room = elim (ancestors s.tree 8 (cwd s slot) []) [
  | [] ↦ if room == 0 then err fault else ok (slash ∷ [])
  | i ∷ is ↦
      let path = path_of s.tree (i ∷ is) in if ltb room (length path) then err fault else ok path
]
