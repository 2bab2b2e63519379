-- ===== src/Process/Brk.antt =====
-- kernel-core/src/brk.rs: the program break of each task. BASE, BREAK and MAPPED are functions of the
-- slot; what the code asks of the page tables is recorded as a list of page operations, in order.
pub mod Growth
pub mod Inv
use fantuan_kernel.Base.{
  ℕ, zero, suc, ◌+◌, ◌-◌, ◌/◌, ◌%◌, ◌^◌, Bool, true, false, ◌||◌, Option, none, some, List, [], ◌∷◌,
  ◌++◌, if◌then◌else◌, ◌==◌, ltb, update,
}
use fantuan_kernel.Frame.{Frames, alloc_unlocked}
use fantuan_kernel.Process.Abi.{user_heap_base, err_inval, err_nomem}
use fantuan_kernel.Process.Vma.{PageOp, maps, zeroes, rw_, page_down, u64}

-- `base`, `brk` and `mapped` of one slot.
pub record Heap : Type 0 where
  pub base : ℕ
  pub brk : ℕ
  pub mapped : ℕ

abbrev pub Heaps : Type 0
Heaps = ℕ → Heap

unfoldable pub heap_base : ℕ → ℕ
heap_base base = if ltb base user_heap_base then user_heap_base else page_down (u64 (base + 0xFFF))

unfoldable pub fresh_heap : ℕ → Heap
fresh_heap base = record { base = heap_base base; brk = heap_base base; mapped = heap_base base }

unfoldable pub init_task : Heaps → ℕ → ℕ → Heaps
init_task hs slot base = update hs slot (fresh_heap base)

unfoldable pub clone_task : Heaps → ℕ → ℕ → Heaps
clone_task hs parent child = update hs child (hs parent)

-- The caller's heap with the frame allocator and the page operations so far.
pub record State : Type 0 where
  pub heap : Heap
  pub frames : Frames
  pub ops : List PageOp

-- `while va < end`, k pages from `va` on; false when a frame is missing.
unfoldable pub grow : ℕ → ℕ → ℕ → State → Bool × State
grow total zero va m = (true, m)
grow total (suc k) va m =
    let (found, frames') = alloc_unlocked total m.frames in
    elim found [
      | none ↦ (false, record m { frames = frames' })
      | some f ↦ grow total k (va + 4096) (record m {
        heap = record m.heap { mapped = va + 4096 };
        frames = frames';
        ops = m.ops ++ (maps va f rw_ ∷ zeroes f ∷ []);
      })
    ]

-- The end up to which pages are needed for a break at `addr`: `(addr + 0xFFF) & !0xFFF`.
abbrev pub needed_end : ℕ → ℕ
needed_end addr = page_down (u64 (addr + 0xFFF))

-- The call once the heap is there.
unfoldable pub set_break : ℕ → State → ℕ → ℕ × State
set_break total m addr =
    let h = m.heap in
    let (done, m') =
      (if ltb h.mapped addr
        then grow total ((needed_end addr - page_down h.mapped) / 4096) (page_down h.mapped) m
        else (true, m)) in
    if addr == 0 || addr == h.brk
    then (h.brk, m)
    else if ltb addr h.base
    then (err_inval, m)
    else if done
    then (addr, record m' { heap = record m'.heap { brk = addr } })
    else (err_nomem, m')

unfoldable pub brk : ℕ → State → ℕ → ℕ × State
brk total m addr =
    set_break total (if m.heap.brk == 0 then record m { heap = fresh_heap 0 } else m) addr
