-- ===== src/Vfs/Tmpfs/Bytes.antt =====
-- The chunks of the pool: each file owns one, so that what is written to a file is read from it and
-- no other file sees it.
use fantuan_kernel.Base.{
  ℕ, ◌+◌, ◌-◌, ◌^◌, ◌≤◌, ◌<◌, ◌≡◌, ◌≢◌, refl, sym, ap, ◌∙◌, ◌⊎◌, inl, inr, true, false, not, List,
  [], ◌∷◌, arith, Bool-cases, true≢false, leb, ltb, if◌then◌else◌, length, min, max, update,
  update_self, update_ne, bytes_from, copy_to, bytes_from-ext, copy_to_below, copy_to_above,
  copy_to_lem,
}
use fantuan_kernel.Vfs.Errno.{Result, ok, err, isdir}
use fantuan_kernel.Vfs.Tmpfs.{
  Node, Kind, dir, file, console, null, Tree, is_dir, is_file, read, write, file_cap, u64,
}

-- Node i is a regular file in use.
abbrev pub IsFile : (ℕ → Node) → ℕ → Type 0
IsFile nodes i = (i < 32) × ((nodes i).used ≡ true) × (is_file (nodes i).kind ≡ true)

-- Chunks at two offsets do not meet.
abbrev pub AreApart : ℕ → ℕ → Type 0
AreApart a b = (a + 8192 ≤ b) ⊎ (b + 8192 ≤ a)

pub record IsStored (t : Tree) : Type 0 where
  pub in_pool : t.pool_end ≤ 65536
  pub chunk :
      (i : ℕ) → IsFile t.nodes i → ((t.nodes i).off + 8192 ≤ t.pool_end) × ((t.nodes i).size ≤ 8192)
  pub apart :
      (i j : ℕ)
      → IsFile t.nodes i
      → IsFile t.nodes j
      → i ≢ j
      → AreApart (t.nodes i).off (t.nodes j).off

-- What `read` reads depends on the node and the pool.
abbrev read_of : Node → (ℕ → ℕ) → ℕ → ℕ → Result (List ℕ)
read_of n pool off room =
    if is_dir n.kind
    then err isdir
    else if not (is_file n.kind)
    then ok []
    else if leb n.size off
    then ok []
    else ok (bytes_from pool (u64 (n.off + off)) (min (n.size - off) room))

read_is : (t : Tree) (id off room : ℕ) → read t id off room ≡ read_of (t.nodes id) t.pool off room
unfolding read
read_is t id off room = refl

-- Nodes that are equal read the same from pools that agree on the chunk.
read_of-ext :
    (n : Node) (pool pool' : ℕ → ℕ) (off room : ℕ)
    → n.size ≤ 8192
    → n.off + 8192 ≤ 65536
    → ((i : ℕ) → n.off ≤ i → i < n.off + 8192 → pool i ≡ pool' i)
    → read_of n pool off room ≡ read_of n pool' off room
read_of-ext n pool pool' off room l m h = elim (Bool-cases (is_dir n.kind)) [
  | inl d ↦ rw d
  | inr nd ↦ elim (Bool-cases (is_file n.kind)) [
    | inr nf ↦ rw (nd, nf)
    | inl f ↦ elim (Bool-cases (leb n.size off)) [
      | inl e ↦ rw (nd, f, e)
      | inr past ↦
          rw (nd, f, past)
            (ap ok (
              let e : u64 (n.off + off) ≡ n.off + off = ground (arith, past, l, m) in
              bytes_from-ext pool pool' (u64 (n.off + off)) (u64 (n.off + off))
                (min (n.size - off) room)
                (λ i k.
                  h (u64 (n.off + off) + i) (omega (arith, e)) (ground (arith, e, past, l, k)))))
    ]
  ]
]

-- The tree after a write that the guards let pass.
unfoldable pub written : Tree → ℕ → ℕ → List ℕ → Tree
written t id off bytes = record t {
  pool = copy_to t.pool (u64 ((t.nodes id).off + off)) bytes;
  nodes =
      update t.nodes id
        (record (t.nodes id) { size = max (t.nodes id).size (u64 (off + length bytes)) });
}

pub write_lem :
    (t : Tree) (id off : ℕ) (bytes : List ℕ)
    → is_file (t.nodes id).kind ≡ true
    → off + length bytes ≤ 8192
    → write t id off bytes ≡ (ok (length bytes), written t id off bytes)
unfolding write written
write_lem t id off bytes f l =
    let e : ltb file_cap (u64 (off + length bytes)) ≡ false = ground arith in rw (f, e)

file_is_no_dir : (k : Kind) → is_file k ≡ true → is_dir k ≡ false
file_is_no_dir dir e = absurd (true≢false (sym e))
file_is_no_dir file e = refl
file_is_no_dir console e = refl
file_is_no_dir null e = refl

-- A file that reaches to the end of the range reads all of it.
whole_range :
    (n : Node) (pool : ℕ → ℕ) (off : ℕ) (bytes : List ℕ)
    → is_file n.kind ≡ true
    → is_dir n.kind ≡ false
    → off + length bytes ≤ n.size
    → bytes_from pool (u64 (n.off + off)) (length bytes) ≡ bytes
    → read_of n pool off (length bytes) ≡ ok bytes
unfolding bytes_from
whole_range n pool off [] f d l h = elim (Bool-cases (leb n.size off)) [
  | inl e ↦ rw (d, f, e)
  | inr e ↦
      rw (d, f, e)
        (ap (λ k. ok (bytes_from pool (u64 (n.off + off)) k)) {x = min (n.size - off) 0} {y = 0}
          (omega arith))
]
whole_range n pool off (x ∷ xs) f d l h =
    let e : leb n.size off ≡ false = ground (arith, l) in
    rw (d, f, e)
      (ap (λ k. ok (bytes_from pool (u64 (n.off + off)) k))
          {x = min (n.size - off) (length (x ∷ xs))} {y = length (x ∷ xs)} (omega arith)
        ∙ ap ok h)

-- Writing to a file and reading the range gives what was written.
pub read-write :
    (t : Tree) (id off : ℕ) (bytes : List ℕ)
    → is_file (t.nodes id).kind ≡ true
    → off + length bytes ≤ 8192
    → read (write t id off bytes).1 id off (length bytes) ≡ ok bytes
unfolding written
read-write t id off bytes f l =
    let n : Node = record (t.nodes id) {
      size = max (t.nodes id).size (u64 (off + length bytes));
    } in
    let pool : ℕ → ℕ = copy_to t.pool (u64 ((t.nodes id).off + off)) bytes in
    ap (λ r. read r.1 id off (length bytes)) (write_lem t id off bytes f l)
    ∙ read_is (written t id off bytes) id off (length bytes)
    ∙ ap (λ m. read_of m pool off (length bytes)) (update_self t.nodes id n)
    ∙ whole_range n pool off bytes f (file_is_no_dir (t.nodes id).kind f) (omega arith)
        (copy_to_lem t.pool (u64 ((t.nodes id).off + off)) bytes)

-- In a tree whose files have chunks of their own, a write to one file whose end does not wrap,
-- whether it is done or refused, leaves what any other file reads, at every offset and for every
-- length.
pub read-write_other :
    (t : Tree) (id off : ℕ) (bytes : List ℕ) (j at room : ℕ)
    → IsStored t
    → IsFile t.nodes id
    → IsFile t.nodes j
    → j ≢ id
    → off + length bytes < 2 ^ 64
    → read (write t id off bytes).1 j at room ≡ read t j at room
unfolding write written
read-write_other t id off bytes j at room inv f g ne word =
    elim (Bool-cases (ltb file_cap (u64 (off + length bytes)))) [
      | inl e ↦ rw (f.2, e)
      | inr e ↦
          let n : Node = record (t.nodes id) {
            size = max (t.nodes id).size (u64 (off + length bytes));
          } in
          let pool : ℕ → ℕ = copy_to t.pool (u64 ((t.nodes id).off + off)) bytes in
          ap (λ r. read r.1 j at room) (write_lem t id off bytes f.2 (ground (arith, e, word)))
          ∙ read_is (written t id off bytes) j at room
          ∙ ap (λ m. read_of m pool at room) (update_ne t.nodes id j n ne)
          ∙ sym (
              read_of-ext (t.nodes j) t.pool pool at room (inv.chunk j g).1
                (omega (arith, (inv.chunk j g).0, inv.in_pool))
                (λ i a b. sym (outside i a b (ground (arith, e, word)))))
          ∙ sym (read_is t j at room)
    ]
  where
    outside :
        (i : ℕ)
        → (t.nodes j).off ≤ i
        → i < (t.nodes j).off + 8192
        → off + length bytes ≤ 8192
        → copy_to t.pool (u64 ((t.nodes id).off + off)) bytes i ≡ t.pool i
    outside i a b c =
        let e : u64 ((t.nodes id).off + off) ≡ (t.nodes id).off + off =
          omega (arith, (inv.chunk id f).0, inv.in_pool, c) in
        elim (inv.apart j id g f ne) [
          | inl before ↦
              copy_to_below t.pool (u64 ((t.nodes id).off + off)) bytes i (omega (arith, e))
          | inr behind ↦
              copy_to_above t.pool (u64 ((t.nodes id).off + off)) bytes i (omega (arith, e))
        ]
