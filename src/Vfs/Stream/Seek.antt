-- ===== src/Vfs/Stream/Seek.antt =====
-- Writing through a descriptor, seeking back and reading.
use fantuan_kernel.Base.{
  ℕ, ◌+◌, ◌≤◌, ◌<◌, ◌≡◌, ◌^◌, sym, ap, ◌∙◌, true, false, List, some, arith, length, max,
  update_self, ltb,
}
use fantuan_kernel.Vfs.Errno.{Result, ok, err}
use fantuan_kernel.Vfs.Tmpfs
use fantuan_kernel.Vfs.Tmpfs.{Kind, dir, file, console, null, Node, Tree, is_file}
use fantuan_kernel.Vfs.Tmpfs.Bytes.{read-write, write_lem, written}
use fantuan_kernel.Vfs.Fd.{Open, open_of}
use fantuan_kernel.Vfs.Space.{Space, has_append}
use fantuan_kernel.Vfs.Stream.{
  Reply, done, read, write, lseek, set_offset, read_open, write_open, write_file, lseek_open,
  seek_to, write_offset,
}

-- The open object a descriptor of a task names, which stands for a regular file.
pub record Names (s : Space) (slot fd idx : ℕ) : Type 0 where
  pub opened : open_of s.files slot fd ≡ some idx
  pub no_pipe : (s.files.opens idx).pipe ≡ 0
  pub no_rom : (s.files.opens idx).rom ≡ 0
  pub kind : (s.tree.nodes (s.files.opens idx).node).kind ≡ file

-- After an offset is set, the descriptor names the same object, with that offset.
moved :
    (s : Space) (idx off : ℕ)
    → (set_offset s idx off).files.opens idx ≡ record (s.files.opens idx) { offset = off }
unfolding set_offset
moved s idx off = update_self s.files.opens idx (record (s.files.opens idx) { offset = off })

set_offset-Names :
    (s : Space) (slot fd idx off : ℕ)
    → Names s slot fd idx
    → Names (set_offset s idx off) slot fd idx
unfolding set_offset open_of
set_offset-Names s slot fd idx off h = record {
  opened = h.opened;
  no_pipe = ap (λ (o : Open). o.pipe) (moved s idx off) ∙ h.no_pipe;
  no_rom = ap (λ (o : Open). o.rom) (moved s idx off) ∙ h.no_rom;
  kind = ap (λ (o : Open). (s.tree.nodes o.node).kind) (moved s idx off) ∙ h.kind;
}

seek_to_start : (off : ℕ) → off < 2 ^ 63 → seek_to 0 off ≡ some off
unfolding seek_to
seek_to_start off l =
    let a : ltb off (2 ^ 63) ≡ true = ground (arith, l) in
    let b : ltb (0 + off) (2 ^ 63) ≡ true = ground (arith, l) in
    rw (a, b) (ap some {x = 0 + off} {y = off} (omega arith))

lseek_set :
    (s : Space) (slot fd idx off : ℕ)
    → Names s slot fd idx
    → off < 2 ^ 63
    → lseek s slot fd off 0 ≡ (ok off, set_offset s idx off)
unfolding lseek lseek_open seek_to
lseek_set s slot fd idx off h l = rw (lseek, h.opened, lseek_open, h.no_pipe, seek_to_start off l)

read_file :
    (s : Space) (slot fd idx room : ℕ) (bytes : List ℕ)
    → Names s slot fd idx
    → Tmpfs.read s.tree (s.files.opens idx).node (s.files.opens idx).offset room ≡ ok bytes
    → (read s slot fd room).0 ≡ done (ok bytes)
unfolding read read_open
read_file s slot fd idx room bytes h e =
    rw (read, h.opened, read_open, h.no_pipe, h.no_rom, h.kind, e)

write_file_lem :
    (s : Space) (idx : ℕ) (bytes : List ℕ)
    → is_file (s.tree.nodes (s.files.opens idx).node).kind ≡ true
    → has_append (s.files.opens idx).flags ≡ false
    → (s.files.opens idx).offset + length bytes ≤ 8192
    → write_file s idx bytes ≡ (
      done (ok (length bytes)),
      set_offset
          (record s {
            tree = written s.tree (s.files.opens idx).node (s.files.opens idx).offset bytes;
          })
          idx
          ((s.files.opens idx).offset + length bytes),
    )
unfolding write_file
write_file_lem s idx bytes k a l =
    let w : write_offset s idx ≡ (s.files.opens idx).offset = rw a in
    ap (λ off. file_write off) w
    ∙ ap after (write_lem s.tree (s.files.opens idx).node (s.files.opens idx).offset bytes k l)
  where
    after : Result ℕ × Tree → Reply ℕ × Space
    after w = elim w.0 [
      | ok n ↦
          (done (ok n), set_offset (record s { tree = w.1 }) idx ((s.files.opens idx).offset + n))
      | err e ↦ (done (err e), record s { tree = w.1 })
    ]

    file_write : ℕ → Reply ℕ × Space
    file_write off =
        let (r, t) = Tmpfs.write s.tree (s.files.opens idx).node off bytes in
        elim r [
          | ok n ↦ (done (ok n), set_offset (record s { tree = t }) idx (off + n))
          | err e ↦ (done (err e), record s { tree = t })
        ]

write_to_file :
    (s : Space) (slot fd idx : ℕ) (bytes : List ℕ)
    → Names s slot fd idx
    → has_append (s.files.opens idx).flags ≡ false
    → (s.files.opens idx).offset + length bytes ≤ 8192
    → write s slot fd bytes ≡ (
      done (ok (length bytes)),
      set_offset
          (record s {
            tree = written s.tree (s.files.opens idx).node (s.files.opens idx).offset bytes;
          })
          idx
          ((s.files.opens idx).offset + length bytes),
    )
unfolding write write_open
write_to_file s slot fd idx bytes h a l =
    rw (write, h.opened, write_open, h.no_pipe, h.no_rom, h.kind)
      (write_file_lem s idx bytes (ap is_file h.kind) a l)

written-Names :
    (s : Space) (slot fd idx off : ℕ) (bytes : List ℕ)
    → Names s slot fd idx
    → Names (record s { tree = written s.tree (s.files.opens idx).node off bytes }) slot fd idx
unfolding written
written-Names s slot fd idx off bytes h =
    let i : ℕ = (s.files.opens idx).node in
    let n : Node = record (s.tree.nodes i) {
      size = max (s.tree.nodes i).size (Tmpfs.u64 (off + length bytes));
    } in
    record {
      opened = h.opened;
      no_pipe = h.no_pipe;
      no_rom = h.no_rom;
      kind = ap (λ m. m.kind) (update_self s.tree.nodes i n) ∙ h.kind;
    }

read_back :
    (s : Space) (idx : ℕ) (bytes : List ℕ)
    → is_file (s.tree.nodes (s.files.opens idx).node).kind ≡ true
    → (s.files.opens idx).offset + length bytes ≤ 8192
    → (let t : Space = record s {
      tree = written s.tree (s.files.opens idx).node (s.files.opens idx).offset bytes;
    } in
        let u : Space = set_offset t idx ((s.files.opens idx).offset + length bytes) in
        let v : Space = set_offset u idx (s.files.opens idx).offset in
        Tmpfs.read v.tree (v.files.opens idx).node (v.files.opens idx).offset (length bytes)
        ≡ ok bytes)
unfolding set_offset
read_back s idx bytes k l =
    let off : ℕ = (s.files.opens idx).offset in
    let node : ℕ = (s.files.opens idx).node in
    let t : Space = record s { tree = written s.tree node off bytes } in
    let u : Space = set_offset t idx (off + length bytes) in
    let back : (set_offset u idx off).files.opens idx ≡ s.files.opens idx =
      moved u idx off
      ∙ ap (λ (o : Open). record o { offset = off }) (moved t idx (off + length bytes)) in
    ap (λ (o : Open). Tmpfs.read (written s.tree node off bytes) o.node o.offset (length bytes))
      back
    ∙ ap (λ r. Tmpfs.read r.1 node off (length bytes)) (sym (write_lem s.tree node off bytes k l))
    ∙ read-write s.tree node off bytes k l

-- Through a descriptor of a regular file that is not in append mode, writing bytes that fit below
-- 8192 from its offset on is done whole, and after seeking back to that offset a read of as many
-- bytes gives them.
pub write-lseek-read :
    (s : Space) (slot fd idx : ℕ) (bytes : List ℕ)
    → Names s slot fd idx
    → has_append (s.files.opens idx).flags ≡ false
    → (s.files.opens idx).offset + length bytes ≤ 8192
    → ((write s slot fd bytes).0 ≡ done (ok (length bytes)))
      × ((read
            (lseek (write s slot fd bytes).1 slot fd (s.files.opens idx).offset 0).1
            slot
            fd
            (length bytes)).0
          ≡ done (ok bytes))
write-lseek-read s slot fd idx bytes h a l =
    let off : ℕ = (s.files.opens idx).offset in
    let node : ℕ = (s.files.opens idx).node in
    let w = write_to_file s slot fd idx bytes h a l in
    let t : Space = record s { tree = written s.tree node off bytes } in
    let u : Space = set_offset t idx (off + length bytes) in
    let k : Names t slot fd idx = written-Names s slot fd idx off bytes h in
    let k' : Names u slot fd idx = set_offset-Names t slot fd idx (off + length bytes) k in
    (
      ap (λ r. r.0) w,
      ap (λ r. (read (lseek r.1 slot fd off 0).1 slot fd (length bytes)).0) w
          ∙ ap (λ r. (read r.1 slot fd (length bytes)).0)
              (lseek_set u slot fd idx off k' (omega (arith, l)))
          ∙ read_file (set_offset u idx off) slot fd idx (length bytes) bytes
              (set_offset-Names u slot fd idx off k') (read_back s idx bytes (ap is_file h.kind) l),
    )
