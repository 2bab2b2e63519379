-- ===== src/Frame.antt =====
-- kernel-core/src/frame.rs: the bitmap allocator of 4 KiB physical frames.
-- Bit i % 8 of byte i / 8 of BITMAP and of OWNED is entry i of `bitmap` and of `owned`. `total` is
-- BITMAP_BYTES * 8, the number of frames that the maps cover, for any value of it; BITMAP_MAX is
-- `total * frame_size`. The IrqLock around each entry point makes a call one step.
pub mod Fill
pub mod Inv
pub mod Alloc
pub mod Free
pub mod Runs
pub mod Contiguous
pub mod Boot
use fantuan_kernel.Base.{
  ℕ, zero, suc, ◌+◌, ◌-◌, ◌*◌, ◌/◌, ◌%◌, ◌^◌, min, max, Bool, true, false, ◌||◌, Option, none, some,
  List, [], ◌∷◌, if◌then◌else◌, ◌==◌, leb, ltb, update, find_from, count, length,
}

abbrev pub frame_size : ℕ
frame_size = 4096

abbrev pub low_memory_cutoff : ℕ
low_memory_cutoff = 0x10_0000

abbrev pub boot_stack_pages : ℕ
boot_stack_pages = 16

-- The two bitmaps and the fields of `FrameAllocator`.
pub record Frames : Type 0 where
  pub bitmap : ℕ → Bool
  pub owned : ℕ → Bool
  pub free_frames : ℕ
  pub next : ℕ

-- `for idx in i..i + k` over one of the maps.
unfoldable pub fill : (ℕ → Bool) → ℕ → ℕ → Bool → ℕ → Bool
fill f i zero v = f
fill f i (suc k) v = fill (update f i v) (i + 1) k v

-- The fields of `MemoryDescriptor` and of `BootInfo` that the allocator reads; `address` is where
-- the BootInfo itself lies.
pub record Descriptor : Type 0 where
  pub type_ : ℕ
  pub physical_start : ℕ
  pub number_of_pages : ℕ

pub record BootInfo : Type 0 where
  pub memmap : List Descriptor
  pub memmap_ptr : ℕ
  pub desc_size : ℕ
  pub kernel_base : ℕ
  pub stack_top : ℕ
  pub boot_pml4 : ℕ
  pub boot_tables_pages : ℕ
  pub address : ℕ

-- `matches!(d.type_, 1 | 2 | 3 | 4 | 7 | 15)`
unfoldable pub is_reclaimable : ℕ → Bool
is_reclaimable t = t == 1 || t == 2 || t == 3 || t == 4 || t == 7 || t == 15

abbrev pub u64 : ℕ → ℕ
u64 n = n % 2 ^ 64

abbrev pub sub_u64 : ℕ → ℕ → ℕ
sub_u64 a b = u64 (a + 2 ^ 64 - b)

abbrev pub range_first : ℕ → ℕ
range_first begin = max begin low_memory_cutoff / frame_size

-- The holes of step 2 of `new`: kernel image, boot stack, the BootInfo's page, the memory map, the boot page tables, and
-- what the caller reserves.
unfoldable pub reserved_ranges : BootInfo → ℕ → List (ℕ × ℕ) → List (ℕ × ℕ)
reserved_ranges bi kernel_end_phys extra_reserved =
    (bi.kernel_base, kernel_end_phys)
    ∷ ((sub_u64 bi.stack_top (boot_stack_pages * frame_size), bi.stack_top)
        ∷ ((bi_page, u64 (bi_page + frame_size))
            ∷ ((bi.memmap_ptr, u64 (bi.memmap_ptr + length bi.memmap * bi.desc_size))
                ∷ ((bi.boot_pml4, u64 (bi.boot_pml4 + bi.boot_tables_pages * frame_size))
                    ∷ extra_reserved))))
  where
    bi_page : ℕ
    bi_page = bi.address / frame_size * frame_size

-- The search of `scan_run` from `idx` on, `k` frames before the end.
unfoldable pub scan : (ℕ → Bool) → ℕ → ℕ → ℕ → ℕ → ℕ → Option ℕ
scan free frames zero idx run first = none
scan free frames (suc k) idx run first =
    let first' = (if run == 0 then idx else first) in
    elim (free idx) [
      | true ↦ elim (run + 1 == frames) [
        | true ↦ some first'
        | false ↦ scan free frames k (idx + 1) (run + 1) first'
      ]
      | false ↦ scan free frames k (idx + 1) 0 first
    ]

module _ (total : ℕ) where
  abbrev pub bitmap_max : ℕ
  bitmap_max = total * frame_size

  -- `mark_range` visits the frames from `range_first` on and below `range_last`.
  abbrev pub range_last : ℕ → ℕ
  range_last end = min ((min end bitmap_max + frame_size - 1) / frame_size) total

  unfoldable pub mark_range : (ℕ → Bool) → ℕ → ℕ → Bool → ℕ → Bool
  mark_range f begin end free = fill f (range_first begin) (range_last end - range_first begin) free

  -- Step 1 of `new`, one descriptor.
  abbrev pub usable_end : Descriptor → ℕ
  usable_end d = min (u64 (d.physical_start + d.number_of_pages * frame_size)) bitmap_max

  unfoldable pub mark_descriptor : (ℕ → Bool) → Descriptor → ℕ → Bool
  mark_descriptor f d =
      if is_reclaimable d.type_
      then (if ltb (max d.physical_start low_memory_cutoff) (usable_end d)
          then mark_range f (max d.physical_start low_memory_cutoff) (usable_end d) true
          else f)
      else f

  unfoldable pub mark_memmap : (ℕ → Bool) → List Descriptor → ℕ → Bool
  mark_memmap f [] = f
  mark_memmap f (d ∷ ds) = mark_memmap (mark_descriptor f d) ds

  -- Step 2 of `new`.
  unfoldable pub punch : (ℕ → Bool) → List (ℕ × ℕ) → ℕ → Bool
  punch f [] = f
  punch f ((begin, end) ∷ rs) = punch (mark_range f begin end false) rs

  unfoldable pub boot_bitmap : BootInfo → ℕ → List (ℕ × ℕ) → ℕ → Bool
  boot_bitmap bi kernel_end_phys extra_reserved =
      punch (mark_memmap (λ i. false) bi.memmap) (reserved_ranges bi kernel_end_phys extra_reserved)

  unfoldable pub new : BootInfo → ℕ → List (ℕ × ℕ) → Frames
  new bi kernel_end_phys extra_reserved = record {
    bitmap = boot_bitmap bi kernel_end_phys extra_reserved;
    owned = λ i. false;
    free_frames = count (boot_bitmap bi kernel_end_phys extra_reserved) total;
    next = 0;
  }

  -- The update that `alloc_unlocked` makes at the index that it finds.
  unfoldable pub claim : Frames → ℕ → Frames
  claim a idx = record a {
    bitmap = update a.bitmap idx false;
    owned = update a.owned idx true;
    free_frames = a.free_frames - 1;
    next = (idx + 1) % total;
  }

  unfoldable pub alloc_unlocked : Frames → Option ℕ × Frames
  alloc_unlocked a = elim (find_from (λ off. a.bitmap ((a.next + off) % total)) 0 total) [
    | none ↦ (none, a)
    | some off ↦ (some ((a.next + off) % total * frame_size), claim a ((a.next + off) % total))
  ]

  unfoldable pub free_unlocked : Frames → ℕ → Frames
  free_unlocked a phys =
      if leb total (phys / frame_size)
      then a
      else if a.owned (phys / frame_size)
      then record a {
        owned = update a.owned (phys / frame_size) false;
        bitmap = update a.bitmap (phys / frame_size) true;
        free_frames = a.free_frames + 1;
      }
      else a

  unfoldable pub reclaim_unlocked : Frames → ℕ → Frames
  reclaim_unlocked a phys =
      if leb total (phys / frame_size)
      then a
      else if a.bitmap (phys / frame_size) || a.owned (phys / frame_size)
      then a
      else record a {
        bitmap = update a.bitmap (phys / frame_size) true;
        free_frames = a.free_frames + 1;
      }

  -- The update that `scan_run` makes at the run that it finds.
  unfoldable pub claim_run : Frames → ℕ → ℕ → Frames
  claim_run a first frames = record a {
    bitmap = fill a.bitmap first frames false;
    owned = fill a.owned first frames true;
    free_frames = a.free_frames - frames;
    next = (first + frames) % total;
  }

  unfoldable pub scan_run : Frames → ℕ → ℕ → ℕ → Option ℕ × Frames
  scan_run a begin end frames = elim (scan a.bitmap frames (end - begin) begin 0 0) [
    | none ↦ (none, a)
    | some first ↦ (some (first * frame_size), claim_run a first frames)
  ]

  -- The second scan, from the start of memory to the cursor.
  unfoldable pub wrap_run : Frames → ℕ → Option ℕ × Frames
  wrap_run a frames =
      if ltb 0 (a.next % total) then scan_run a 0 (a.next % total) frames else (none, a)

  -- `if let Some(p) = self.scan_run(start, ..) { return Some(p) }`, then the second scan.
  unfoldable pub or_wrap : ℕ → Option ℕ × Frames → Option ℕ × Frames
  or_wrap frames (some p, b) = (some p, b)
  or_wrap frames (none, b) = wrap_run b frames

  unfoldable pub alloc_contiguous_unlocked : Frames → ℕ → Option ℕ × Frames
  alloc_contiguous_unlocked a frames =
      if frames == 0 || ltb total frames
      then (none, a)
      else or_wrap frames (scan_run a (a.next % total) total frames)
