-- ===== src/Vfs/Pipe.antt =====
-- kernel-core/src/vfs/pipe.rs: the byte buffers behind pipe file descriptors.
-- The caller of `alloc`, `init` and `drop_end` holds FS_LOCK; `read_locked` and `write_locked` are
-- one probe of the blocking calls, under the lock. Bytes are numbers.
pub mod Fifo
use fantuan_kernel.Base.{
  bytes_from, copy_to, ℕ, zero, suc, ◌+◌, ◌-◌, ◌^◌, min, Bool, true, false, ◌&&◌, ◌||◌, not, Option,
  none, some, List, [], ◌∷◌, ◌++◌, if◌then◌else◌, ◌==◌, ltb, update, find_from, length,
}

abbrev pub max_pipes : ℕ
max_pipes = 8

abbrev pub pipe_buf : ℕ
pipe_buf = 512

pub record Pipe : Type 0 where
  pub used : Bool
  pub len : ℕ
  pub read_refs : ℕ
  pub write_refs : ℕ
  pub buf : ℕ → ℕ

abbrev pub empty_pipe : Pipe
empty_pipe = record { used = false; len = 0; read_refs = 0; write_refs = 0; buf = λ i. 0 }

abbrev pub Pipes : Type 0
Pipes = ℕ → Pipe

unfoldable pub alloc : Pipes → Option ℕ
alloc ps = find_from (λ i. not (ps i).used) 0 max_pipes

unfoldable pub init : Pipes → ℕ → Pipes
init ps id = update ps id (record empty_pipe { used = true; read_refs = 1; write_refs = 1 })

-- The record after one end is dropped: `saturating_sub`, and freed when both counts are 0.
unfoldable pub dropped : Pipe → Bool → Pipe
dropped p write_end =
    let p' =
      (if write_end
        then record p { write_refs = p.write_refs - 1 }
        else record p { read_refs = p.read_refs - 1 }) in
    if p'.read_refs == 0 && p'.write_refs == 0 then empty_pipe else p'

unfoldable pub drop_end : Pipes → ℕ → Bool → Pipes
drop_end ps id write_end = if (ps id).used then update ps id (dropped (ps id) write_end) else ps

-- `for i in 0..rest { buf[i] = buf[take + i] }`: the rounds from i on, k of them.
unfoldable pub shift_down : (ℕ → ℕ) → ℕ → ℕ → ℕ → ℕ → ℕ
shift_down buf take i zero = buf
shift_down buf take i (suc k) = shift_down (update buf i (buf (take + i))) take (i + 1) k

pub data Answer (A : Type 0) : Type 0 where
  ok : A → Answer A
  bad_fd : Answer A
  broken : Answer A
  would_block : Answer A

-- The bytes that go to a buffer of `room` bytes.
unfoldable pub read_locked : Pipe → ℕ → Answer (List ℕ) × Pipe
read_locked p room =
    let take = min p.len room in
    let rest = p.len - take in
    if not p.used
    then (bad_fd, p)
    else if ltb 0 p.len
    then (ok (bytes_from p.buf 0 take), record p { buf = shift_down p.buf take 0 rest; len = rest })
    else if p.write_refs == 0 || room == 0
    then (ok [], p)
    else (would_block, p)

-- The first k entries of a list.
abbrev pub take : ℕ → List ℕ → List ℕ
take zero xs = []
take (suc k) [] = []
take (suc k) (x ∷ xs) = x ∷ take k xs

unfoldable pub write_locked : Pipe → List ℕ → Answer ℕ × Pipe
write_locked p bytes =
    let space = pipe_buf - p.len in
    let n = min (min space (length bytes)) pipe_buf in
    if not p.used
    then (bad_fd, p)
    else if p.read_refs == 0
    then (broken, p)
    else if ltb 0 space
    then (ok n, record p { buf = copy_to p.buf p.len (take n bytes); len = p.len + n })
    else (would_block, p)
