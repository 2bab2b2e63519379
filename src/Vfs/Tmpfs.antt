-- ===== src/Vfs/Tmpfs.antt =====
-- kernel-core/src/vfs/tmpfs.rs and tmpfs_file.rs: the tree of nodes and the pool of file bytes.
-- A name is the slice `name[..name_len]`, a list of bytes. NODES and POOL are functions of the index;
-- `init_tree` is what `ensure_init` makes of them before the first call. Offsets in files are below
-- 2^63, so that `off + data.len()` does not wrap.
pub mod Names
pub mod Inv
pub mod Edit
pub mod Runs
pub mod Lookup
pub mod Bytes
pub mod Chunks
use fantuan_kernel.Base.{
  ℕ, zero, suc, ◌+◌, ◌-◌, ◌*◌, ◌%◌, ◌^◌, min, max, Bool, true, false, not, ◌&&◌, ◌||◌, Option, none,
  some, List, [], ◌∷◌, ◌++◌, if◌then◌else◌, ◌==◌, ltb, leb, update, find_from, count, length,
  is_some, bytes_from, copy_to,
}
use fantuan_kernel.Vfs.Errno.{
  Result, ok, err, noent, exist, notdir, isdir, notempty, nospc, nametoolong, perm,
}

abbrev pub name_max : ℕ
name_max = 31

abbrev pub u64 : ℕ → ℕ
u64 n = n % 2 ^ 64

abbrev pub max_nodes : ℕ
max_nodes = 32

abbrev pub max_files : ℕ
max_files = 8

abbrev pub file_cap : ℕ
file_cap = 8192

abbrev pub pool_bytes : ℕ
pool_bytes = 65536

abbrev pub root : ℕ
root = 0

abbrev pub slash : ℕ
slash = b'/'

abbrev pub dot : ℕ
dot = b'.'

pub data Kind : Type 0 where
  dir file console null : Kind

abbrev pub is_dir : Kind → Bool
is_dir dir = true
is_dir file = false
is_dir console = false
is_dir null = false

abbrev pub is_file : Kind → Bool
is_file dir = false
is_file file = true
is_file console = false
is_file null = false

pub record Node : Type 0 where
  pub used : Bool
  pub kind : Kind
  pub parent : ℕ
  pub name : List ℕ
  pub size : ℕ
  pub off : ℕ

abbrev pub empty_node : Node
empty_node = record { used = false; kind = dir; parent = 0; name = []; size = 0; off = 0 }

pub record Tree : Type 0 where
  pub nodes : ℕ → Node
  pub pool : ℕ → ℕ
  pub pool_end : ℕ

abbrev pub fixed_node : Kind → ℕ → List ℕ → Node
fixed_node kind parent name = record empty_node {
  used = true;
  kind = kind;
  parent = parent;
  name = name;
}

-- The fixed nodes 0..8; the names are "/", "dev", "console", "null", "tmp", "etc", "bin" and "usr".
abbrev pub fixed_nodes : ℕ → Node
fixed_nodes i =
    if i == 0
    then fixed_node dir root (slash ∷ [])
    else if i == 1
    then fixed_node dir root (b'd' ∷ (b'e' ∷ (b'v' ∷ [])))
    else if i == 2
    then fixed_node console 1 (b'c' ∷ (b'o' ∷ (b'n' ∷ (b's' ∷ (b'o' ∷ (b'l' ∷ (b'e' ∷ [])))))))
    else if i == 3
    then fixed_node null 1 (b'n' ∷ (b'u' ∷ (b'l' ∷ (b'l' ∷ []))))
    else if i == 4
    then fixed_node dir root (b't' ∷ (b'm' ∷ (b'p' ∷ [])))
    else if i == 5
    then fixed_node dir root (b'e' ∷ (b't' ∷ (b'c' ∷ [])))
    else if i == 6
    then fixed_node dir root (b'b' ∷ (b'i' ∷ (b'n' ∷ [])))
    else if i == 7
    then fixed_node dir root (b'u' ∷ (b's' ∷ (b'r' ∷ [])))
    else empty_node

abbrev pub init_tree : Tree
init_tree = record { nodes = fixed_nodes; pool = λ i. 0; pool_end = 0 }

-- Equality of two byte slices.
unfoldable pub name_eq : List ℕ → List ℕ → Bool
name_eq [] [] = true
name_eq [] (y ∷ ys) = false
name_eq (x ∷ xs) [] = false
name_eq (x ∷ xs) (y ∷ ys) = x == y && name_eq xs ys

unfoldable pub contains : List ℕ → ℕ → Bool
contains [] c = false
contains (x ∷ xs) c = x == c || contains xs c

abbrev pub is_dot : List ℕ → Bool
is_dot name = name_eq name (dot ∷ [])

abbrev pub is_dot_dot : List ℕ → Bool
is_dot_dot name = name_eq name (dot ∷ (dot ∷ []))

unfoldable pub valid_name : List ℕ → Bool
valid_name name =
    (not (length name == 0) && leb (length name) name_max)
    && ((not (is_dot name) && not (is_dot_dot name)) && not (contains name slash))

abbrev pub is_child : Tree → ℕ → List ℕ → ℕ → Bool
is_child t d name i = ((t.nodes i).used && (t.nodes i).parent == d) && name_eq (t.nodes i).name name

unfoldable pub find_child : Tree → ℕ → List ℕ → Option ℕ
find_child t d name = find_from (is_child t d name) 0 max_nodes

-- What `lookup` does with one component.
unfoldable pub enter : Tree → ℕ → List ℕ → Result ℕ
enter t cur comp =
    if is_dot comp
    then ok cur
    else if is_dot_dot comp
    then ok (t.nodes cur).parent
    else if ltb name_max (length comp)
    then err nametoolong
    else if not (is_dir (t.nodes cur).kind)
    then err notdir
    else elim (find_child t cur comp) [ none ↦ err noent | some i ↦ ok i ]

-- The loop of `lookup` on the rest of the path; `comp` is the component so far, `path[start..i]`.
unfoldable pub lookup_from : Tree → ℕ → List ℕ → List ℕ → Result ℕ
lookup_from t cur comp [] = elim comp [ [] ↦ ok cur | x ∷ xs ↦ enter t cur (x ∷ xs) ]
lookup_from t cur comp (c ∷ rest) = elim (c == slash) [
  | true ↦ elim comp [
    | [] ↦ lookup_from t cur [] rest
    | x ∷ xs ↦ elim (enter t cur (x ∷ xs)) [ ok next ↦ lookup_from t next [] rest | err e ↦ err e ]
  ]
  | false ↦ lookup_from t cur (comp ++ (c ∷ [])) rest
]

unfoldable pub lookup : Tree → ℕ → List ℕ → Result ℕ
lookup t cwd [] = err noent
lookup t cwd (c ∷ path) = lookup_from t (if c == slash then root else cwd) [] (c ∷ path)

unfoldable pub count_files : Tree → ℕ
count_files t = count (λ i. (t.nodes i).used && is_file (t.nodes i).kind) max_nodes

-- `reserve` with the tree that has one chunk less; none is ENOSPC.
unfoldable pub reserve : Tree → Option (ℕ × Tree)
reserve t =
    if ltb pool_bytes (t.pool_end + file_cap)
    then none
    else some (t.pool_end, record t { pool_end = t.pool_end + file_cap })

abbrev pub new_node : Kind → ℕ → List ℕ → ℕ → Node
new_node want parent name off = record {
  used = true;
  kind = want;
  parent = parent;
  name = name;
  size = 0;
  off = off;
}

-- `create` once the slot is found.
unfoldable pub place : Tree → ℕ → List ℕ → Kind → ℕ → Result ℕ × Tree
place t parent name want idx =
    if is_file want
    then elim (reserve t) [
      | none ↦ (err nospc, t)
      | some (off, t') ↦
          (ok idx, record t' { nodes = update t'.nodes idx (new_node want parent name off) })
    ]
    else (ok idx, record t { nodes = update t.nodes idx (new_node want parent name 0) })

abbrev pub free_node : Tree → Option ℕ
free_node t = find_from (λ i. not (t.nodes i).used) 0 max_nodes

unfoldable pub create : Tree → ℕ → List ℕ → Kind → Result ℕ × Tree
create t parent name want =
    if not (is_dir want) && not (is_file want)
    then (err perm, t)
    else if not (is_dir (t.nodes parent).kind)
    then (err notdir, t)
    else if not (valid_name name)
    then (err nametoolong, t)
    else if is_some (find_child t parent name)
    then (err exist, t)
    else if is_file want && leb max_files (count_files t)
    then (err nospc, t)
    else elim (free_node t) [ none ↦ (err nospc, t) | some idx ↦ place t parent name want idx ]

unfoldable pub has_children : Tree → ℕ → Bool
has_children t id =
    is_some
      (find_from (λ i. (t.nodes i).used && (not (i == id) && (t.nodes i).parent == id)) 0 max_nodes)

unfoldable pub remove : Tree → ℕ → Result (Unit {0}) × Tree
remove t id =
    if not (t.nodes id).used || leb id 7
    then (err perm, t)
    else if is_dir (t.nodes id).kind && has_children t id
    then (err notempty, t)
    else (ok tt, record t { nodes = update t.nodes id (record (t.nodes id) { used = false }) })

-- The test of `rename` that the name is taken by another node.
abbrev pub taken_by_other : Option ℕ → ℕ → Bool
taken_by_other none id = false
taken_by_other (some other) id = not (other == id)

unfoldable pub rename : Tree → ℕ → ℕ → List ℕ → Result (Unit {0}) × Tree
rename t id new_parent new_name =
    if not (t.nodes id).used || leb id 7
    then (err perm, t)
    else if not (is_dir (t.nodes new_parent).kind)
    then (err notdir, t)
    else if not (valid_name new_name)
    then (err nametoolong, t)
    else if taken_by_other (find_child t new_parent new_name) id
    then (err exist, t)
    else (
      ok tt,
      record t {
        nodes = update t.nodes id (record (t.nodes id) { parent = new_parent; name = new_name });
      },
    )

-- The bytes that go to a buffer of `room` bytes.
unfoldable pub read : Tree → ℕ → ℕ → ℕ → Result (List ℕ)
read t id off room =
    let n = t.nodes id in
    if is_dir n.kind
    then err isdir
    else if not (is_file n.kind)
    then ok []
    else if leb n.size off
    then ok []
    else ok (bytes_from t.pool (u64 (n.off + off)) (min (n.size - off) room))

-- The sums wrap at 2^64. Where the range leaves the pool, which panics, the model writes to numbers
-- that no index of the pool is.
unfoldable pub write : Tree → ℕ → ℕ → List ℕ → Result ℕ × Tree
write t id off bytes =
    let n = t.nodes id in
    if not (is_file n.kind)
    then (err isdir, t)
    else if ltb file_cap (u64 (off + length bytes))
    then (err nospc, t)
    else (
      ok (length bytes),
      record t {
        pool = copy_to t.pool (u64 (n.off + off)) bytes;
        nodes = update t.nodes id (record n { size = max n.size (u64 (off + length bytes)) });
      },
    )

unfoldable pub truncate : Tree → ℕ → Tree
truncate t id = record t { nodes = update t.nodes id (record (t.nodes id) { size = 0 }) }

abbrev pub is_entry : Tree → ℕ → ℕ → Bool
is_entry t d i = (t.nodes i).used && ((t.nodes i).parent == d && not (i == d))

unfoldable pub dir_count : Tree → ℕ → ℕ
dir_count t d = count (is_entry t d) max_nodes

-- `filter(..).nth(index)` on the n nodes from i on.
unfoldable pub nth_entry : Tree → ℕ → ℕ → ℕ → ℕ → Option ℕ
nth_entry t d index i zero = none
nth_entry t d index i (suc n) = elim (is_entry t d i) [
  | true ↦ elim (index == 0) [ true ↦ some i | false ↦ nth_entry t d (index - 1) (i + 1) n ]
  | false ↦ nth_entry t d index (i + 1) n
]

unfoldable pub dir_entry : Tree → ℕ → ℕ → Option ℕ
dir_entry t d index = nth_entry t d index 0 max_nodes
