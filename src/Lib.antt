-- ===== src/Lib.antt =====
-- The kernel core of fantuan-kernel (kernel-core/src, with the constants of abi/src): physical
-- memory, processes with their address ranges and signals, the scheduler, descriptors, pipes and the
-- in-memory file system, input events, dirty rectangles and framebuffers; and the big integers of
-- kernel/src/crypto.
--
-- The parts and their files:
-- Frame: kernel-core/src/frame.rs, the bitmap allocator of physical frames. BITMAP and OWNED are
--   functions from the frame's number to Bool; `total` is BITMAP_BYTES * 8, for any value of it.
--   `alloc_unlocked`, `free_unlocked`, `reclaim_unlocked`, `alloc_contiguous_unlocked` and `new`
--   keep their names.
-- InputRing: kernel-core/src/input_ring.rs, the ring of input events; InputRing/Queue is the
--   queue that it is compared with.
-- Process: kernel-core/src/process and brk.rs, signal.rs. Process/Types is the record of mod.rs,
--   Process/Vma is vma.rs (mmap2, munmap, mprotect), Process/Signal is sigstate.rs and signal.rs,
--   Process/Identity is identity.rs and group.rs, Process/Lifecycle is kill and wait4 of
--   lifecycle.rs, Process/Brk is brk.rs.
-- Task: kernel-core/src/task.rs, the table of tasks, the round-robin scheduler, and the counter of
--   ids (Task/Ids, with the process table beside the tasks).
-- Vfs: kernel-core/src/vfs. Vfs/Pipe is pipe.rs, Vfs/Fd the tables of fd.rs (Vfs/Fd/Calls has
--   `fcntl`, `pipe` and `node_of`), Vfs/Tmpfs the nodes and bytes of tmpfs.rs and tmpfs_file.rs,
--   Vfs/Space the calls with paths (open_path is `open` of fd.rs; chdir and getcwd of dir.rs), and
--   Vfs/Stream those on a descriptor (io.rs, `lseek`, `readdir`). Vfs/Runlist is ntfs/runlist.rs.
-- Graphics: kernel-core/src/graphics, the rectangles of mod.rs and the dirty list of damage.rs;
--   Graphics/Kms is kms/fbobj.rs, the dumb buffers and framebuffers.
-- Crypto: Crypto/Bigint is kernel/src/crypto/bigint.rs, the arithmetic behind signature checks:
--   a Big is the list of its limbs. Crypto/Bigint/Value and Double are about comparing, subtracting
--   and doubling, Mul and Reduced about `mul`, Newton about `Mont::new`, Pow and Power about
--   `pow_u32`, Bytes and Print about `from_be` and `to_be`.
--
-- How they interact: `mmap2` and `brk` take frames from the allocator; `kill` queues signals in the
-- process records, and `deliver_current` takes them out; closing the last descriptor of a pipe's
-- end drops that end; `open`, `read` and `write` join the descriptors with the tree of nodes, and the
-- dumb buffers take contiguous frames from the allocator; `execve` resets the signals and closes the
-- marked descriptors; the scheduler registers a task in every table and, when it reaps one, closes its descriptors, clears its record
-- and frees its stack.
--
-- A static table is a function of the index, and each index that the code uses is in range. Every
-- entry point takes a lock with interrupts off, so that a call is one step and a run is a list of
-- calls. The masks of signals are functions from the signal's number to Bool. Registers and
-- addresses are numbers with the wrap of 64 bits written out where the code adds; the counts of open
-- objects wrap at 256. Calls of the page tables are recorded as a list of operations, since the
-- tables belong to each architecture; Process/Vma/Pages says what such a list makes of the pages.
--
-- Loops: most are structural. `vma_forget` has fuel for every round that raises its index or shortens
-- the table; `vma_contains` has the length of the range; `mmap2` probes page by page, with fuel for
-- the pages below the end of the last range, which is enough when that end is not within a page
-- of 2^64. The loops of the scheduler run over the sixteen slots, `getcwd` climbs at most eight names,
-- a run list has at most 24 runs, and Newton's iteration takes 63 rounds, each of which adds at least
-- one bit of the inverse.
--
-- Not modelled: what the operations of an architecture do at a switch, the blocking loops around
-- `read`, `write` and `wait4` (one round of each is modelled), fork and execve's building of address
-- spaces, the FAT, ext4 and NTFS volumes, the copies of user memory, drawing, the architectures,
-- the console and the boot loaders: they
-- sleep, or work on raw memory and devices.
pub mod Base
pub mod Crypto
pub mod Frame
pub mod Graphics
pub mod InputRing
pub mod Process
pub mod Task
pub mod Vfs
pub mod Witnesses
