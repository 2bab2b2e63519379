-- ===== src/Vfs/Stream.antt =====
-- kernel-core/src/vfs/io.rs, dir.rs and fd.rs: the calls on an open descriptor that reach the tree,
-- and write_mem_file. Pipes and the terminal block: `read` and `write` say that they hand the call on.
pub mod Seek
use fantuan_kernel.Base.{
  ℕ, ◌+◌, ◌-◌, ◌/◌, ◌^◌, min, Bool, true, false, not, ◌||◌, Option, none, some, List, [], ◌∷◌, ◌++◌,
  if◌then◌else◌, ◌==◌, ltb, leb, update, length, bytes_from,
}
use fantuan_kernel.Vfs.Errno.{Result, ok, err, badf, inval, notdir, isdir, acces, spipe}
use fantuan_kernel.Vfs.Tmpfs
use fantuan_kernel.Vfs.Tmpfs.{
  Kind, dir, file, console, null, Node, Tree, is_dir, root, lookup, create, truncate, dir_entry,
}
use fantuan_kernel.Vfs.Fd.{Files, Open, open_of}
use fantuan_kernel.Vfs.Pipe.{Pipes}
use fantuan_kernel.Vfs.Space.{Space, has_append}

-- What `read` and `write` answer, or whose answer they return.
pub data Reply (A : Type 0) : Type 0 where
  done : Result A → Reply A
  from_pipe : ℕ → Reply A
  from_tty : Reply A

abbrev pub is_console : Kind → Bool
is_console dir = false
is_console file = false
is_console console = true
is_console null = false

-- `opens()[idx].offset = off`
unfoldable pub set_offset : Space → ℕ → ℕ → Space
set_offset s idx off = record s {
  files = record s.files {
    opens = update s.files.opens idx (record (s.files.opens idx) { offset = off });
  };
}

-- The bytes of an image that go to a buffer of `room` bytes.
unfoldable pub rom_read : (ℕ → ℕ) → ℕ → ℕ → ℕ → ℕ → List ℕ
rom_read mem ptr len off room =
    if leb len off then [] else bytes_from mem (ptr + off) (min (len - off) room)

-- The branch of `read` for an embedded binary.
unfoldable pub read_image : Space → ℕ → ℕ → Reply (List ℕ) × Space
read_image s idx room =
    let o = s.files.opens idx in
    let bytes = rom_read s.mem o.rom o.rom_len o.offset room in
    (done (ok bytes), set_offset s idx (o.offset + length bytes))

-- `read` once the open object is known.
unfoldable pub read_open : Space → ℕ → ℕ → Reply (List ℕ) × Space
read_open s idx room =
    let o = s.files.opens idx in
    if not (o.pipe == 0)
    then (from_pipe (o.pipe - 1), s)
    else if not (o.rom == 0)
    then read_image s idx room
    else if is_console (s.tree.nodes o.node).kind
    then (from_tty, s)
    else elim (Tmpfs.read s.tree o.node o.offset room) [
      | ok bytes ↦ (done (ok bytes), set_offset s idx (o.offset + length bytes))
      | err e ↦ (done (err e), s)
    ]

unfoldable pub read : Space → ℕ → ℕ → ℕ → Reply (List ℕ) × Space
read s slot fd room = elim (open_of s.files slot fd) [
  | none ↦ (done (err badf), s)
  | some idx ↦ read_open s idx room
]

-- Where `write` writes: O_APPEND writes at the end of the file.
abbrev pub write_offset : Space → ℕ → ℕ
write_offset s idx =
    if has_append (s.files.opens idx).flags
    then (s.tree.nodes (s.files.opens idx).node).size
    else (s.files.opens idx).offset

unfoldable pub write_file : Space → ℕ → List ℕ → Reply ℕ × Space
write_file s idx bytes =
    let off = write_offset s idx in
    let (r, t) = Tmpfs.write s.tree (s.files.opens idx).node off bytes in
    elim r [
      | ok n ↦ (done (ok n), set_offset (record s { tree = t }) idx (off + n))
      | err e ↦ (done (err e), record s { tree = t })
    ]

unfoldable pub write_open : Space → ℕ → List ℕ → Reply ℕ × Space
write_open s idx bytes =
    let o = s.files.opens idx in
    if not (o.pipe == 0)
    then (from_pipe (o.pipe - 1), s)
    else if not (o.rom == 0)
    then (done (err acces), s)
    else elim (s.tree.nodes o.node).kind [
      | console ↦ (done (ok (length bytes)), record s { log = s.log ++ bytes })
      | null ↦ (done (ok (length bytes)), s)
      | dir ↦ (done (err isdir), s)
      | file ↦ write_file s idx bytes
    ]

unfoldable pub write : Space → ℕ → ℕ → List ℕ → Reply ℕ × Space
write s slot fd bytes = elim (open_of s.files slot fd) [
  | none ↦ (done (err badf), s)
  | some idx ↦ write_open s idx bytes
]

-- The write of `write_mem_file`.
unfoldable pub fill : Space → Tree → ℕ → List ℕ → Bool × Space
fill s t i bytes =
    let (r, t') = Tmpfs.write t i 0 bytes in
    elim r [ ok n ↦ (true, record s { tree = t' }) | err e ↦ (false, record s { tree = t' }) ]

unfoldable pub write_mem_file : Space → List ℕ → List ℕ → List ℕ → Bool × Space
write_mem_file s dir_path name bytes = elim (lookup s.tree root dir_path) [
  | err e ↦ (false, s)
  | ok d ↦ elim (lookup s.tree d name) [
    | ok i ↦ fill s (truncate s.tree i) i bytes
    | err e ↦
        let (made, t) = create s.tree d name file in
        elim made [ err x ↦ (false, record s { tree = t }) | ok i ↦ fill s t i bytes ]
  ]
]

-- Where `lseek` counts from; none is a `whence` that it does not know.
abbrev pub seek_base : Space → ℕ → ℕ → Option ℕ
seek_base s idx whence =
    let o = s.files.opens idx in
    if whence == 0
    then some 0
    else if whence == 1
    then some o.offset
    else if whence == 2
    then (if not (o.rom == 0) then some o.rom_len else some (s.tree.nodes o.node).size)
    else none

-- `base.checked_add(off)` for an offset in two's complement, and none of a negative sum.
unfoldable pub seek_to : ℕ → ℕ → Option ℕ
seek_to base off =
    if ltb off (2 ^ 63)
    then (if ltb (base + off) (2 ^ 63) then some (base + off) else none)
    else if ltb base (2 ^ 64 - off)
    then none
    else some (base - (2 ^ 64 - off))

unfoldable pub lseek_open : Space → ℕ → ℕ → ℕ → Result ℕ × Space
lseek_open s idx off whence =
    if not ((s.files.opens idx).pipe == 0) then (err spipe, s) else elim (seek_base s idx whence) [
      | none ↦ (err inval, s)
      | some base ↦ elim (seek_to base off) [
        | none ↦ (err inval, s)
        | some next ↦ (ok next, set_offset s idx next)
      ]
    ]

unfoldable pub lseek : Space → ℕ → ℕ → ℕ → ℕ → Result ℕ × Space
lseek s slot fd off whence = elim (open_of s.files slot fd) [
  | none ↦ (err badf, s)
  | some idx ↦ lseek_open s idx off whence
]

-- DT_CHR, DT_DIR and DT_REG.
abbrev pub dirent_type : Kind → ℕ
dirent_type dir = 4
dirent_type file = 8
dirent_type console = 2
dirent_type null = 2

pub record Dirent : Type 0 where
  pub d_ino : ℕ
  pub d_type : ℕ
  pub d_reclen : ℕ
  pub d_name : List ℕ

abbrev pub dirent : Tree → ℕ → Dirent
dirent t i = record {
  d_ino = i + 1;
  d_type = dirent_type (t.nodes i).kind;
  d_reclen = 72;
  d_name = (t.nodes i).name;
}

unfoldable pub readdir : Space → ℕ → ℕ → Result (Option Dirent) × Space
readdir s slot fd = elim (open_of s.files slot fd) [
  | none ↦ (err badf, s)
  | some idx ↦
      let o = s.files.opens idx in
      if not (o.pipe == 0) || not (o.rom == 0)
      then (err notdir, s)
      else if not (is_dir (s.tree.nodes o.node).kind)
      then (err notdir, s)
      else elim (dir_entry s.tree o.node o.offset) [
        | none ↦ (ok none, s)
        | some i ↦ (ok (some (dirent s.tree i)), set_offset s idx (o.offset + 1))
      ]
]
