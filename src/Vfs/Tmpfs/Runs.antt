-- ===== src/Vfs/Tmpfs/Runs.antt =====
-- The trees that calls of tmpfs.rs reach: what holds of each of them.
use fantuan_kernel.Base.{ℕ, ◌<◌, ◌≡◌, true, List}
use fantuan_kernel.Vfs.Tmpfs.{Kind, Tree, init_tree, create, remove, rename, write, truncate}
use fantuan_kernel.Vfs.Tmpfs.Inv.{IsShaped}
use fantuan_kernel.Vfs.Tmpfs.Edit.{
  init_tree-IsShaped, create-IsShaped, remove-IsShaped, rename-IsShaped, write-IsShaped,
  truncate-IsShaped,
}
use fantuan_kernel.Vfs.Tmpfs.Bytes.{IsStored}
use fantuan_kernel.Vfs.Tmpfs.Chunks.{
  init_tree-IsStored, create-IsStored, remove-IsStored, rename-IsStored, write-IsStored,
  truncate-IsStored,
}

-- The trees that sequences of calls reach, when the directory that create or rename is given is in
-- use; the other node indices are any below 32.
pub data Reached : Tree → Type 0 where
  start : Reached init_tree
  creates :
      (t : Tree) (parent : ℕ) (name : List ℕ) (want : Kind)
      → Reached t
      → parent < 32
      → (t.nodes parent).used ≡ true
      → Reached (create t parent name want).1
  removes : (t : Tree) (id : ℕ) → Reached t → id < 32 → Reached (remove t id).1
  renames :
      (t : Tree) (id new_parent : ℕ) (new_name : List ℕ)
      → Reached t
      → id < 32
      → new_parent < 32
      → (t.nodes new_parent).used ≡ true
      → Reached (rename t id new_parent new_name).1
  writes :
      (t : Tree) (id off : ℕ) (bytes : List ℕ)
      → Reached t
      → id < 32
      → Reached (write t id off bytes).1
  truncates : (t : Tree) (id : ℕ) → Reached t → id < 32 → Reached (truncate t id)

-- In every tree that calls reach, where create and rename are given directories in use and every
-- index is below 32: the fixed nodes are as they were, each node in use hangs from a directory in
-- use, a directory has a name once, names are valid but for the root's, and each file has its own
-- chunk of the pool, with a size within it.
pub Reached-IsShaped : (t : Tree) → Reached t → IsShaped t.nodes × IsStored t
Reached-IsShaped _ start = (init_tree-IsShaped, init_tree-IsStored)
Reached-IsShaped _ (creates t parent name want r l u) =
    let i = Reached-IsShaped t r in
    (create-IsShaped t parent name want i.0 l u, create-IsStored t parent name want i.1)
Reached-IsShaped _ (removes t id r l) =
    let i = Reached-IsShaped t r in (remove-IsShaped t id i.0 l, remove-IsStored t id i.1)
Reached-IsShaped _ (renames t id new_parent new_name r l m u) =
    let i = Reached-IsShaped t r in
    (
      rename-IsShaped t id new_parent new_name i.0 l m u,
      rename-IsStored t id new_parent new_name i.1 l,
    )
Reached-IsShaped _ (writes t id off bytes r l) =
    let i = Reached-IsShaped t r in
    (write-IsShaped t id off bytes i.0 l, write-IsStored t id off bytes i.1 l)
Reached-IsShaped _ (truncates t id r l) =
    let i = Reached-IsShaped t r in (truncate-IsShaped t id i.0 l, truncate-IsStored t id i.1 l)
