-- ===== src/Process/Vma.antt =====
-- kernel-core/src/process/vma.rs: the address ranges of a process, and mmap, munmap and mprotect.
-- `vs` is the table `vmas` and `n` the number of its entries in use. What the code asks of the page
-- tables is recorded as a list of page operations, in order.
pub mod Cover
pub mod Rounds
pub mod Forget
pub mod Contains
pub mod Probe
pub mod Map
pub mod Pages
pub mod Unmap
pub mod Faults
use fantuan_kernel.Base.{
  ℕ, zero, suc, ◌+◌, ◌-◌, ◌*◌, ◌/◌, ◌%◌, ◌^◌, min, max, Bool, true, false, ◌||◌, ◌&&◌, not, Option,
  none, some, List, [], ◌∷◌, ◌++◌, if◌then◌else◌, ◌==◌, ltb, leb, update, find_from, is_some,
}
use fantuan_kernel.Frame.{Frames, alloc_unlocked}
use fantuan_kernel.Process.Types.{Vma, Proc}
use fantuan_kernel.Process.Abi.{
  user_mmap_base, phys_offset, max_vmas, err_inval, err_nomem, err_nosys, sys_ok, bit_set,
}

abbrev pub Table : Type 0
Table = ℕ → Vma

abbrev pub u64 : ℕ → ℕ
u64 x = x % 2 ^ 64

-- `x & !0xFFF`
abbrev pub page_down : ℕ → ℕ
page_down x = x / 4096 * 4096

pub data Prot : Type 0 where
  ro rw_ rx rwx : Prot

unfoldable pub kprot : ℕ → Option Prot
kprot prot =
    if prot == 0
    then none
    else if bit_set prot 1
    then (if bit_set prot 2 then some rwx else some rw_)
    else if bit_set prot 2
    then some rx
    else some ro

pub vma_clear : Proc → Proc
vma_clear p = record p { vma_n = 0; mmap_next = user_mmap_base }

-- The test of `vma_overlaps` on one entry.
abbrev pub overlaps : Vma → ℕ → ℕ → Bool
overlaps v start end = ltb start v.end && ltb v.start end

unfoldable pub vma_overlaps : Table → ℕ → ℕ → ℕ → Bool
vma_overlaps vs n start end = is_some (find_from (λ i. overlaps (vs i) start end) 0 n)

-- `while vma_overlaps(..) { probe += 0x1000 }`; none means that the fuel ran out.
unfoldable pub probe_from : Table → ℕ → ℕ → ℕ → ℕ → Option ℕ
probe_from vs n rounded zero probe = none
probe_from vs n rounded (suc fuel) probe = elim (vma_overlaps vs n probe (u64 (probe + rounded))) [
  | true ↦ probe_from vs n rounded fuel (u64 (probe + 0x1000))
  | false ↦ some probe
]

-- The largest end of an entry in use.
unfoldable pub max_end : Table → ℕ → ℕ
max_end vs zero = 0
max_end vs (suc n) = max (vs n).end (max_end vs n)

unfoldable pub probe_fuel : Table → ℕ → ℕ
probe_fuel vs n = max_end vs n / 4096 + 2

-- The loop of `vma_forget`, from entry i on. A split that finds the table full leaves the loop.
unfoldable pub forget_from : ℕ → ℕ → ℕ → Table → ℕ → ℕ → Table × ℕ
forget_from start end zero vs n i = (vs, n)
forget_from start end (suc fuel) vs n i =
    let v = vs i in
    let below : Vma = record { start = v.start; end = start; prot = v.prot } in
    let above : Vma = record { start = end; end = v.end; prot = v.prot } in
    elim (ltb i n) [
      | false ↦ (vs, n)
      | true ↦ elim (leb v.end start || leb end v.start) [
        | true ↦ forget_from start end fuel vs n (i + 1)
        | false ↦ elim (ltb v.start start && ltb end v.end) [
          | true ↦ elim (leb max_vmas n) [
            | true ↦ (vs, n)
            | false ↦
                forget_from start end fuel (update (update vs i below) n above) (n + 1) (i + 1)
          ]
          | false ↦ elim (ltb v.start start) [
            | true ↦ forget_from start end fuel (update vs i below) n (i + 1)
            | false ↦ elim (ltb end v.end) [
              | true ↦ forget_from start end fuel (update vs i above) n (i + 1)
              | false ↦ forget_from start end fuel (update vs i (vs (n - 1))) (n - 1) i
            ]
          ]
        ]
      ]
    ]

-- Each round raises i, or lowers n; a split raises both, at most `max_vmas` times.
abbrev pub forget_fuel : ℕ
forget_fuel = 2 * max_vmas + 1

unfoldable pub vma_forget : Proc → ℕ → ℕ → Proc
vma_forget p start end =
    let (vs, n) = forget_from start end forget_fuel p.vmas p.vma_n 0 in
    record p { vmas = vs; vma_n = n }

-- The loop of `vma_reprotect`: each entry in use that meets the range gets the protection.
unfoldable pub reprotect : ℕ → ℕ → ℕ → ℕ → Table → Table
reprotect start end prot n vs i =
    if ltb i n && (ltb (vs i).start end && ltb start (vs i).end)
    then record (vs i) { prot = prot }
    else vs i

unfoldable pub vma_reprotect : Proc → ℕ → ℕ → ℕ → Proc
vma_reprotect p start end prot = record p { vmas = reprotect start end prot p.vma_n p.vmas }

-- The loop of `vma_contains`; each round moves `cur` on, so that the length of the range is fuel
-- enough.
unfoldable pub contains_from : Table → ℕ → ℕ → ℕ → ℕ → Bool
contains_from vs n end zero cur = leb end cur
contains_from vs n end (suc fuel) cur = elim (ltb cur end) [
  | false ↦ true
  | true ↦ elim (find_from (λ i. leb (vs i).start cur && ltb cur (vs i).end) 0 n) [
    | none ↦ false
    | some j ↦ elim (leb (min (vs j).end end) cur) [
      | true ↦ false
      | false ↦ contains_from vs n end fuel (min (vs j).end end)
    ]
  ]
]

unfoldable pub vma_contains : Proc → ℕ → ℕ → Bool
vma_contains p start end = contains_from p.vmas p.vma_n end (end - start) start

pub data PageOp : Type 0 where
  maps : ℕ → ℕ → Prot → PageOp
  zeroes : ℕ → PageOp
  unmaps : ℕ → PageOp
  protects : ℕ → Prot → PageOp

-- What the calls work on: the caller's process record, the frame allocator, and the page
-- operations so far.
pub record Space : Type 0 where
  pub proc : Proc
  pub frames : Frames
  pub ops : List PageOp

-- The mapping loop of `mmap2`, k pages from `va` on; false when a frame is missing.
unfoldable pub map_pages : ℕ → Prot → ℕ → ℕ → Space → Bool × Space
map_pages total kp zero va m = (true, m)
map_pages total kp (suc k) va m =
    let (found, frames') = alloc_unlocked total m.frames in
    elim found [
      | none ↦ (false, record m { frames = frames' })
      | some f ↦
          map_pages total kp k (va + 0x1000)
            (record m { frames = frames'; ops = m.ops ++ (maps va f kp ∷ zeroes f ∷ []) })
    ]

-- Record the range in the table: `p.vmas[p.vma_n] = Vma { start, end, prot }` and what follows.
unfoldable pub reserve : Proc → ℕ → ℕ → ℕ → Proc
reserve p start end prot = record p {
  vmas = update p.vmas p.vma_n (record { start = start; end = end; prot = prot });
  vma_n = p.vma_n + 1;
  mmap_next = end;
}

-- The end of `mmap2`, after the range is reserved.
unfoldable pub map_reserved : ℕ → Space → ℕ → ℕ → ℕ → ℕ × Space
map_reserved total m base end prot = elim (kprot prot) [
  | none ↦ (err_inval, m)
  | some kp ↦
      let (done, m') = map_pages total kp ((end - base) / 4096) base m in
      (if done then base else err_nomem, m')
]

-- `mmap2` from the probe's result on.
unfoldable pub place : ℕ → Space → ℕ → ℕ → ℕ → Bool → ℕ → ℕ × Space
place total m rounded prot start fixed probe =
    if fixed && not (probe == start)
    then (err_nomem, m)
    else if leb max_vmas m.proc.vma_n
    then (err_nomem, m)
    else map_reserved total (record m { proc = reserve m.proc probe (u64 (probe + rounded)) prot })
        probe (u64 (probe + rounded)) prot

-- Where `mmap2` begins to look.
unfoldable pub map_start : Proc → ℕ → ℕ → ℕ
map_start p addr flags = page_down (if bit_set flags 4 then addr else p.mmap_next)

-- The early returns of `mmap2`, in order.
unfoldable pub map_refusal : Proc → ℕ → ℕ → ℕ → ℕ → Option ℕ
map_refusal p addr len flags fd =
    if len == 0 || ltb (64 * 2 ^ 20) len
    then some err_inval
    else if not (bit_set flags 5) || (bit_set flags 0 || ltb fd (2 ^ 63))
    then some err_nosys
    else if ltb (map_start p addr flags) user_mmap_base
        || ltb phys_offset (u64 (map_start p addr flags + page_down (len + 0xFFF)))
    then some err_nomem
    else none

-- The probe of `mmap2`, with fuel for every page below the end of the last range.
abbrev pub map_probe : Proc → ℕ → ℕ → ℕ → Option ℕ
map_probe p addr len flags =
    probe_from p.vmas p.vma_n (page_down (len + 0xFFF)) (probe_fuel p.vmas p.vma_n)
      (map_start p addr flags)

-- none: the probe ran out of fuel.
unfoldable pub mmap2 : ℕ → Space → ℕ → ℕ → ℕ → ℕ → ℕ → Option (ℕ × Space)
mmap2 total m addr len prot flags fd = elim (map_refusal m.proc addr len flags fd) [
  | some e ↦ some (e, m)
  | none ↦ elim (map_probe m.proc addr len flags) [
    | none ↦ none
    | some probe ↦ some (
        place total m (page_down (len + 0xFFF)) prot (map_start m.proc addr flags) (bit_set flags 4)
          probe)
  ]
]

unfoldable pub unmap_pages : ℕ → ℕ → List PageOp
unmap_pages zero va = []
unmap_pages (suc k) va = unmaps va ∷ unmap_pages k (va + 0x1000)

unfoldable pub protect_pages : Prot → ℕ → ℕ → List PageOp
protect_pages kp zero va = []
protect_pages kp (suc k) va = protects va kp ∷ protect_pages kp k (va + 0x1000)

-- `(addr + len + 0xFFF) & !0xFFF`
abbrev pub range_end : ℕ → ℕ → ℕ
range_end addr len = page_down (u64 (addr + len + 0xFFF))

unfoldable pub munmap : Space → ℕ → ℕ → ℕ × Space
munmap m addr len =
    let start = page_down addr in
    let end = range_end addr len in
    if len == 0
    then (err_inval, m)
    else if not (vma_contains m.proc start end)
    then (err_inval, m)
    else (
      sys_ok,
      record m {
        proc = vma_forget m.proc start end;
        ops = m.ops ++ unmap_pages ((end - start) / 4096) start;
      },
    )

unfoldable pub mprotect : Space → ℕ → ℕ → ℕ → ℕ × Space
mprotect m addr len prot =
    let start = page_down addr in
    let end = range_end addr len in
    elim (kprot prot) [
      | none ↦ (err_inval, m)
      | some kp ↦ if not (vma_contains m.proc start end) then (err_inval, m) else (
        sys_ok,
        record m {
          proc = vma_reprotect m.proc start end prot;
          ops = m.ops ++ protect_pages kp ((end - start) / 4096) start;
        },
      )
    ]
